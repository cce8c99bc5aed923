-- ===== src/Server/Orchestrate.antt =====
-- src/server.rs, `parse_delegations` and `post_orchestrate`: a manager agent that delegates to
-- others, in rounds. What other agents answer, and whether they run, depends on the time: the call
-- number `n` of the handler is answered by `ask n`.
use zeptopm.Base.{
  ℕ, zero, suc, ◌+◌, ◌≤◌, ◌<◌, String, ◌≡◌, refl, arith, not, ◌&&◌, ◌||◌, if◌then◌else◌, ltb,
  Option, none, some, List, [], ◌∷◌, ◌++◌, is_empty, filter_map, str_eq, format, join, trim,
  split_once, strip_prefix, lines, trim_start_matches, ◌⊎◌, inl, inr, Bool-cases, Option-cases,
}

pub record DelegationResult : Type 0 where
  pub to : String
  pub query : String
  pub result : String

pub record OrchestrateResponse : Type 0 where
  pub agent : String
  pub response : String
  pub delegations : List DelegationResult
  pub rounds : ℕ

-- The name before the parenthesis and the message after it, if neither is empty.
abbrev pub named : String × String → Option (String × String)
named (agent_name, after) =
    let message = trim (trim_start_matches ":" after) in
    if not (str_eq agent_name "") && not (str_eq message "")
    then some (agent_name, message)
    else none

abbrev pub marked : Option String → Option (String × String)
marked none = none
marked (some rest) = elim (split_once ")" rest) [ none ↦ none | some cut ↦ named cut ]

unfoldable pub delegation_of : String → Option (String × String)
delegation_of line = marked (strip_prefix "@delegate(" (trim line))

unfoldable pub parse_delegations : String → List (String × String)
parse_delegations text = filter_map delegation_of (lines text)

-- An agent that is not there, its error, or its answer.
abbrev pub Ask : Type 0
Ask = ℕ → String → String → Option (String ⊎ String)

-- What a round keeps: the calls so far, the delegations that succeeded, and the texts for the
-- manager.
pub record Round : Type 0 where
  pub calls : ℕ
  pub all_delegations : List DelegationResult
  pub results : List String

abbrev answered : String → String → Round → Option (String ⊎ String) → Round
answered target message r none = record r {
  calls = r.calls + 1;
  results =
      r.results ++ format ("From @" ∷ target ∷ ": [agent not found or not running]" ∷ []) ∷ [];
}
answered target message r (some (inl e)) = record r {
  calls = r.calls + 1;
  results = r.results ++ format ("From @" ∷ target ∷ ": [error: " ∷ e ∷ "]" ∷ []) ∷ [];
}
answered target message r (some (inr result)) = record {
  calls = r.calls + 1;
  all_delegations =
      r.all_delegations ++ record { to = target; query = message; result = result } ∷ [];
  results = r.results ++ format ("From @" ∷ target ∷ ":\n" ∷ result ∷ []) ∷ [];
}

unfoldable pub delegate : Ask → List (String × String) → Round → Round
delegate ask [] r = r
delegate ask ((target, message) ∷ delegations) r =
    delegate ask delegations (answered target message r (ask r.calls target message))

abbrev follow_up : List String → String
follow_up results = format (
    "Here are the results from the agents you delegated to:\n\n"
    ∷ join "\n\n" results
    ∷ "\n\nNow provide your final answer incorporating these results. If you need more info, delegate again."
    ∷ [])

-- A status code with an error, or a response.
abbrev pub Reply : Type 0
Reply = (ℕ × String) ⊎ OrchestrateResponse

abbrev missing : String → Reply
missing name = inl (404, format ("agent '" ∷ name ∷ "' not found" ∷ []))

abbrev final : String → String → List DelegationResult → ℕ → Reply
final name response delegations rounds =
    inr (record { agent = name; response = response; delegations = delegations; rounds = rounds })

-- The loop, after `rounds` rounds and `calls` calls, for at most so many rounds more; `none` if
-- these are not enough.
unfoldable pub rounds_from :
    ℕ → Ask → ℕ → String → String → ℕ → ℕ → List DelegationResult → Option Reply
rounds_from zero ask max_rounds name message rounds calls all = none
rounds_from (suc more) ask max_rounds name message rounds calls all =
    elim (ask calls name message) [
      | none ↦ some (missing name)
      | some (inl e) ↦ some (inl (500, e))
      | some (inr response) ↦
          let delegations = parse_delegations response in
          let r =
            delegate ask delegations
              (record { calls = calls + 1; all_delegations = all; results = [] }) in
          let next =
            rounds_from more ask max_rounds name (follow_up r.results) (rounds + 1) r.calls
              r.all_delegations in
          if is_empty delegations || ltb max_rounds (rounds + 1)
          then some (final name response all (rounds + 1))
          else next
    ]

-- `body.max_rounds.min(10)`
abbrev pub capped : ℕ → ℕ
capped max_rounds = if ltb 10 max_rounds then 10 else max_rounds

-- Eleven rounds are enough.
unfoldable pub post_orchestrate : Ask → String → String → ℕ → Option Reply
unfolding rounds_from
post_orchestrate ask name message max_rounds =
    rounds_from 11 ask (capped max_rounds) name message 0 0 []

-- A reply after at most `m` rounds and one more.
abbrev pub InRounds : ℕ → Reply → Type 0
InRounds m (inl error) = Unit {0}
InRounds m (inr response) = (1 ≤ response.rounds) × (response.rounds ≤ m + 1)

rounds_from_ends :
    (more : ℕ) (ask : Ask) (m : ℕ) (name message : String) (rounds calls : ℕ)
    (all : List DelegationResult)
    → rounds ≤ m
    → m < rounds + more
    → (reply : Reply) × ((rounds_from more ask m name message rounds calls all ≡ some reply)
        × InRounds m reply)
unfolding rounds_from
rounds_from_ends zero ask m name message rounds calls all low enough =
    absurd (omega (arith, low, enough))
rounds_from_ends (suc more) ask m name message rounds calls all low enough =
    elim (Option-cases (ask calls name message)) [
      | inl gone ↦ (missing name, (rw (rounds_from, gone) refl, tt))
      | inr (inl e, failed) ↦ (inl (500, e), (rw (rounds_from, failed) refl, tt))
      | inr (inr response, got) ↦
          let delegations = parse_delegations response in
          let r =
            delegate ask delegations
              (record { calls = calls + 1; all_delegations = all; results = [] }) in
          elim (Bool-cases (is_empty delegations || ltb m (rounds + 1))) [
            | inl over ↦ (
              final name response all (rounds + 1),
              (rw (rounds_from, got, over) refl, (omega arith, omega (arith, low))),
            )
            | inr next ↦
                let below : rounds + 1 ≤ m = ground (arith, next) in
                let (reply, (e, within)) =
                  rounds_from_ends more ask m name (follow_up r.results) (rounds + 1) r.calls
                    r.all_delegations below (omega (arith, enough)) in
                (reply, (rw (rounds_from, got, next) e, within))
          ]
    ]

-- Whatever the agents answer, the loop ends within its eleven rounds, with an error or with a
-- response after at least one round and at most one more than asked for, and never more than eleven.
pub post_orchestrate_ends :
    (ask : Ask) (name message : String) (max_rounds : ℕ)
    → (reply : Reply) × ((post_orchestrate ask name message max_rounds ≡ some reply)
        × InRounds (capped max_rounds) reply)
unfolding post_orchestrate
post_orchestrate_ends ask name message max_rounds =
    rounds_from_ends 11 ask (capped max_rounds) name message 0 0 [] (omega arith) (ground arith)
