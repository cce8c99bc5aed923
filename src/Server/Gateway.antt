-- ===== src/Server/Gateway.antt =====
-- src/server.rs, `gateway_chat`: the gateway's answer to a request, and what it sends to the agent.
-- The HTTP framework hands in the value of the header `authorization`; `chat` is the agent's answer.
use zeptopm.Base.{
  ℕ, String, Bool, true, if◌then◌else◌, Option, none, some, List, [], ◌∷◌, Map, get, insert,
  unwrap_or, str_eq, format, show_nat, strip_prefix, ◌⊎◌, inl, inr, ◌≡◌, refl, arith, sym, subst,
  ◌∙◌, Bool-cases, Option-cases, str_eq→eq, strip_prefix-append,
}
use text.Mathlib.TextLemmas.{append-nil}
use zeptopm.Types.{Time}
use zeptopm.Server.{ResolvedGatewayConfig, RateLimitBucket, new, check_and_record}
use zeptopm.Daemon.World.{ManagedAgentRef}

-- Of the state that the HTTP handlers share with the daemon, what the gateway uses.
pub record DaemonState : Type 0 where
  pub agents : Map ManagedAgentRef
  pub rate_limits : Map RateLimitBucket

pub record GatewayErrorResponse : Type 0 where
  pub error : String
  pub retry_after_secs : Option ℕ

pub record GatewayResponse : Type 0 where
  pub agent : String
  pub response : String

-- A status code with an error, or a response.
abbrev pub Answer : Type 0
Answer = (ℕ × GatewayErrorResponse) ⊎ GatewayResponse

-- A request: when it comes, to whom, with which header, and the message.
pub record Request : Type 0 where
  pub now : Time
  pub name : String
  pub authorization : Option String
  pub message : String

abbrev gw_err : ℕ → String → Answer
gw_err status msg = inl (status, record { error = msg; retry_after_secs = none })

-- `Option::and_then` on the header.
unfoldable pub extract_bearer_token : Option String → Option String
extract_bearer_token none = none
extract_bearer_token (some v) = strip_prefix "Bearer " v

-- The error of the check of the key, if there is one.
unfoldable pub check_key : Option String → Option String → Option Answer
check_key none authorization = none
check_key (some expected_key) authorization = elim (extract_bearer_token authorization) [
  | none ↦ some (gw_err 401 "missing Authorization: Bearer <key> header")
  | some token ↦ if str_eq token expected_key then none else some (gw_err 401 "invalid API key")
]

abbrev pub bucket_of : String → ℕ → DaemonState → RateLimitBucket
bucket_of name limit s = unwrap_or (get name s.rate_limits) (new limit)

abbrev over : ℕ → Answer
over limit = inl (
  429,
  record {
    error = format ("rate limit exceeded (" ∷ show_nat limit ∷ "/min)" ∷ []);
    retry_after_secs = some 60;
  },
)

-- The state after the limiter has seen the request, and whether it may pass.
unfoldable pub limited : Option ℕ → Request → DaemonState → DaemonState × Bool
limited none r s = (s, true)
limited (some limit) r s =
    let (bucket, ok) = check_and_record r.now (bucket_of r.name limit s) in
    (record s { rate_limits = insert r.name bucket s.rate_limits }, ok)

abbrev proxied : Request → String ⊎ String → Answer
proxied r (inr content) = inr (record { agent = r.name; response = content })
proxied r (inl e) = gw_err 500 e

-- What a call leaves: the state, the messages sent to the agent, and the answer.
pub record Outcome : Type 0 where
  pub state : DaemonState
  pub sent : List String
  pub answer : Answer

abbrev refused : DaemonState → Answer → Outcome
refused s a = record { state = s; sent = []; answer = a }

abbrev limit_of : ResolvedGatewayConfig → ℕ
limit_of gw = unwrap_or gw.rate_limit 0

unfoldable pub pass :
    (String → String ⊎ String) → ResolvedGatewayConfig → Request → DaemonState → Outcome
pass chat gw r s = elim (check_key gw.api_key r.authorization) [
  | some error ↦ refused s error
  | none ↦
      let (s', ok) = limited gw.rate_limit r s in
      if ok
      then record { state = s'; sent = r.message ∷ []; answer = proxied r (chat r.message) }
      else refused s' (over (limit_of gw))
]

abbrev not_found : Request → Answer
not_found r = gw_err 404 (format ("agent '" ∷ r.name ∷ "' not found" ∷ []))

abbrev not_enabled : Request → Answer
not_enabled r = gw_err 403 (format ("gateway not enabled for agent '" ∷ r.name ∷ "'" ∷ []))

unfoldable pub gateway_chat : (String → String ⊎ String) → Request → DaemonState → Outcome
unfolding pass
gateway_chat chat r s = elim (get r.name s.agents) [
  | none ↦ refused s (not_found r)
  | some m ↦ elim m.gateway [
    | none ↦ refused s (not_enabled r)
    | some gw ↦ if gw.enabled then pass chat gw r s else refused s (not_enabled r)
  ]
]

pub strip_bearer :
    (authorization : Option String) (token : String)
    → extract_bearer_token authorization ≡ some token
    → authorization ≡ some (format ("Bearer " ∷ token ∷ []))
unfolding extract_bearer_token
strip_bearer none token h = cc
strip_bearer (some v) token h = rw (strip_prefix-append "Bearer " v token h, append-nil token) refl

-- Who may have a message sent to an agent: the agent is there, its gateway is enabled, a key that is
-- asked for stands in the header, and a limiter that is set lets the request pass.
pub record MayPass (r : Request) (s : DaemonState) : Type 0 where
  pub agent : ManagedAgentRef
  pub gateway : ResolvedGatewayConfig
  pub is_there : get r.name s.agents ≡ some agent
  pub is_set : agent.gateway ≡ some gateway
  pub is_enabled : gateway.enabled ≡ true
  pub has_key :
      (key : String)
      → gateway.api_key ≡ some key
      → r.authorization ≡ some (format ("Bearer " ∷ key ∷ []))
  pub in_limit :
      (limit : ℕ)
      → gateway.rate_limit ≡ some limit
      → (check_and_record r.now (bucket_of r.name limit s)).1 ≡ true

key-checked :
    (expected authorization : Option String)
    → check_key expected authorization ≡ none
    → (key : String) → expected ≡ some key
    → authorization ≡ some (format ("Bearer " ∷ key ∷ []))
unfolding check_key
key-checked none authorization h key e = cc
key-checked (some expected_key) authorization h key e =
    elim (Option-cases (extract_bearer_token authorization)) [
      | inl gone ↦ ground (arith, gone, h)
      | inr (token, found) ↦ elim (Bool-cases (str_eq token expected_key)) [
        | inr other ↦ ground (arith, found, other, h)
        | inl same ↦
            let k : token ≡ key = str_eq→eq token expected_key same ∙ cc in
            rw (sym k) (strip_bearer authorization token found)
      ]
    ]

limit-passed :
    (rate_limit : Option ℕ) (r : Request) (s : DaemonState)
    → (limited rate_limit r s).1 ≡ true
    → (limit : ℕ) → rate_limit ≡ some limit
    → (check_and_record r.now (bucket_of r.name limit s)).1 ≡ true
unfolding limited
limit-passed none r s h limit e = cc
limit-passed (some l) r s h limit e = let same : l ≡ limit = cc in rw (sym same) h

abbrev pub Guarded : Request → DaemonState → Outcome → Type 0
Guarded r s out = (out.sent ≡ []) ⊎ ((out.sent ≡ r.message ∷ []) × MayPass r s)

pass-Guarded :
    (chat : String → String ⊎ String) (r : Request) (s : DaemonState) (m : ManagedAgentRef)
    (gw : ResolvedGatewayConfig)
    → get r.name s.agents ≡ some m
    → m.gateway ≡ some gw
    → gw.enabled ≡ true
    → Guarded r s (pass chat gw r s)
unfolding pass
pass-Guarded chat r s m gw found set on =
    elim (Option-cases (check_key gw.api_key r.authorization)) [
      | inr (error, wrong) ↦ rw (pass, wrong) (inl refl)
      | inl right ↦ elim (Bool-cases (limited gw.rate_limit r s).1) [
        | inr full ↦ rw (pass, right, full) (inl refl)
        | inl free ↦
            rw (pass, right, free)
              (inr (
                refl,
                record {
                  agent = m;
                  gateway = gw;
                  is_there = found;
                  is_set = set;
                  is_enabled = on;
                  has_key = key-checked gw.api_key r.authorization right;
                  in_limit = limit-passed gw.rate_limit r s free;
                },
              ))
      ]
    ]

-- Either nothing is sent to an agent, or the message of the request, once; the latter only if the
-- agent is there, its gateway is enabled, a key that is set stands in the header, and a limiter that
-- is set lets the request pass.
pub gateway_chat-Guarded :
    (chat : String → String ⊎ String) (r : Request) (s : DaemonState)
    → Guarded r s (gateway_chat chat r s)
unfolding gateway_chat
gateway_chat-Guarded chat r s = elim (Option-cases (get r.name s.agents)) [
  | inl gone ↦ rw (gateway_chat, gone) (inl refl)
  | inr (m, found) ↦ elim (Option-cases m.gateway) [
    | inl gone ↦ rw (gateway_chat, found, gone) (inl refl)
    | inr (gw, set) ↦ elim (Bool-cases gw.enabled) [
      | inr off ↦
          let e : gateway_chat chat r s ≡ refused s (not_enabled r) =
            ground (arith, found, set, off) in
          subst (Guarded r s) (sym e) (inl refl)
      | inl on ↦
          let e : gateway_chat chat r s ≡ pass chat gw r s = ground (arith, found, set, on) in
          subst (Guarded r s) (sym e) (pass-Guarded chat r s m gw found set on)
    ]
  ]
]
