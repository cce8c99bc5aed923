-- ===== src/Server/Tests.antt =====
-- src/server.rs: the theorems at concrete inputs.
use zeptopm.Base.{
  ℕ, zero, suc, String, ◌≤◌, ◌≡◌, refl, some, true, List, [], ◌∷◌, arith, ◌⊎◌, inr, get, str_eq,
  strip_prefix,
}
use zeptopm.Agent.{AgentStatus}
use zeptopm.Daemon.World.{ManagedAgentRef, new_state}
use zeptopm.Server.{ResolvedGatewayConfig, new, drop_old, check_and_record, accepted}
use zeptopm.Server.Gateway.{
  DaemonState, Request, Guarded, check_key, extract_bearer_token, limited, pass, gateway_chat,
  gateway_chat-Guarded,
}
use zeptopm.Server.Orchestrate.{
  Ask, Reply, InRounds, capped, post_orchestrate, post_orchestrate_ends,
}
use zeptopm.Server.Orchestrate.{parse_delegations, delegation_of}
use zeptopm.Server.Delegation.{AreCut, parse_delegations-AreCut}
use zeptopm.Base.{lines, trim, trim_start, trim_end, trim_start_matches, split_once}
use zeptopm.Server.Traffic.{reached, gateway_rate_limited}
use zeptopm.Server.Window.{in_minute, rate_limited}

rate_limited_example : in_minute 5 (accepted (5 ∷ 6 ∷ 7 ∷ 60006 ∷ []) (new 2)) ≤ 2
rate_limited_example =
    rate_limited 2 (omega arith) (5 ∷ 6 ∷ 7 ∷ 60006 ∷ [])
      (omega arith, (omega arith, (omega arith, (omega arith, tt)))) 5

-- The third request of a minute is refused, and one after the minute is let through.
let_through : accepted (5 ∷ 6 ∷ 7 ∷ 60006 ∷ []) (new 2) ≡ 5 ∷ 6 ∷ 60006 ∷ []
unfolding new drop_old check_and_record accepted
let_through = refl

abbrev a_gateway : ResolvedGatewayConfig
a_gateway = record { enabled = true; api_key = some "key"; rate_limit = some 2 }

abbrev an_agent : ManagedAgentRef
an_agent = record {
  handle = record { name = "writer" };
  state = new_state "writer" AgentStatus.running 1;
  gateway = some a_gateway;
}

abbrev a_state : DaemonState
a_state = record { agents = ("writer", an_agent) ∷ []; rate_limits = [] }

abbrev a_request : ℕ → Request
a_request now = record {
  now = now;
  name = "writer";
  authorization = some "Bearer key";
  message = "hello";
}

abbrev replies : String → String ⊎ String
replies message = inr "done"

gateway_chat-Guarded_example :
    Guarded (a_request 5) a_state (gateway_chat replies (a_request 5) a_state)
gateway_chat-Guarded_example = gateway_chat-Guarded replies (a_request 5) a_state

sent_once : (gateway_chat replies (a_request 5) a_state).sent ≡ "hello" ∷ []
unfolding gateway_chat pass check_key extract_bearer_token strip_prefix limited check_and_record
    drop_old get str_eq new
sent_once = refl

abbrev requests : List Request
requests = a_request 5 ∷ a_request 6 ∷ a_request 7 ∷ a_request 60006 ∷ []

gateway_rate_limited_example : in_minute 5 (reached "writer" replies requests a_state) ≤ 2
unfolding get str_eq
gateway_rate_limited_example =
    gateway_rate_limited replies "writer" an_agent a_gateway 2 refl refl (omega arith) requests
      a_state refl refl (omega arith, (omega arith, (omega arith, (omega arith, tt)))) 5

-- The manager delegates in its first answer, and the other agent answers.
abbrev an_ask : Ask
an_ask zero name message = some (inr "@delegate(coder): write it")
an_ask (suc n) name message = some (inr "here it is")

abbrev Ended : Type 0
Ended =
    (reply : Reply) × ((post_orchestrate an_ask "writer" "go" 3 ≡ some reply)
      × InRounds (capped 3) reply)

post_orchestrate_ends_example : Ended
post_orchestrate_ends_example = post_orchestrate_ends an_ask "writer" "go" 3

abbrev an_answer : String
an_answer = "I ask others.\n@delegate(coder): write it \n@delegate(): nobody"

parse_delegations-AreCut_example : AreCut an_answer (parse_delegations an_answer)
parse_delegations-AreCut_example = parse_delegations-AreCut an_answer

read_from_answer : parse_delegations an_answer ≡ ("coder", "write it") ∷ []
unfolding parse_delegations delegation_of lines trim trim_start trim_end trim_start_matches
    strip_prefix split_once str_eq
read_from_answer = refl
