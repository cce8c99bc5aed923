-- ===== src/Server/Traffic.antt =====
-- src/server.rs, `gateway_chat`: many requests, and how many of them reach an agent.
use zeptopm.Base.{
  ℕ, ◌≤◌, ◌<◌, String, ◌≡◌, refl, ap, ◌∙◌, arith, Bool, true, false, ◌&&◌, if◌then◌else◌, Option,
  none, some, List, [], ◌∷◌, Map, get, get-insert, str_eq, str_eq→eq, str_eq_refl, is_empty, not,
  u32_mod, ◌⊎◌, inl, inr, Bool-cases, Option-cases, is_some,
}
use zeptopm.Types.{Time}
use zeptopm.Server.{ResolvedGatewayConfig, new, check_and_record, accepted}
use zeptopm.Server.Window.{Monotone, in_minute, rate_limited}
use zeptopm.Server.Gateway.{DaemonState, Request, check_key, bucket_of, limited, pass, gateway_chat}
use zeptopm.Daemon.World.{ManagedAgentRef}

-- When messages reach the agent `n`, for requests one after another.
unfoldable pub reached :
    String → (String → String ⊎ String) → List Request → DaemonState → List Time
reached n chat [] s = []
reached n chat (r ∷ rs) s =
    let out = gateway_chat chat r s in
    let rest = reached n chat rs out.state in
    if str_eq r.name n && not (is_empty out.sent) then r.now ∷ rest else rest

-- When requests to `n` come that the gateway `gw` hands to its limiter.
unfoldable pub attempts : String → ResolvedGatewayConfig → List Request → List Time
attempts n gw [] = []
attempts n gw (r ∷ rs) =
    let rest = attempts n gw rs in
    if str_eq r.name n && (gw.enabled && not (is_some (check_key gw.api_key r.authorization)))
    then r.now ∷ rest
    else rest

abbrev pub InOrder : Time → List Request → Type 0
InOrder t [] = Unit {0}
InOrder t (r ∷ rs) = (t ≤ r.now) × InOrder r.now rs

Monotone-later : (t u : Time) (ts : List Time) → t ≤ u → Monotone u ts → Monotone t ts
Monotone-later t u [] h m = tt
Monotone-later t u (x ∷ ts) h m = (omega (arith, h, m.0), m.1)

attempts-Monotone :
    (n : String) (gw : ResolvedGatewayConfig) (t : Time) (rs : List Request)
    → InOrder t rs
    → Monotone t (attempts n gw rs)
unfolding attempts
attempts-Monotone n gw t [] h = tt
attempts-Monotone n gw t (r ∷ rs) h =
    let rest = attempts-Monotone n gw r.now rs h.1 in
    elim (Bool-cases
      (str_eq r.name n && (gw.enabled && not (is_some (check_key gw.api_key r.authorization))))) [
        | inl e ↦ rw e (h.0, rest)
        | inr e ↦ rw e (Monotone-later t r.now (attempts n gw rs) h.0 rest)
      ]

limited-agents :
    (l : Option ℕ) (r : Request) (s : DaemonState) → (limited l r s).0.agents ≡ s.agents
unfolding limited
limited-agents none r s = refl
limited-agents (some limit) r s = refl

gateway-agents :
    (chat : String → String ⊎ String) (r : Request) (s : DaemonState)
    → (gateway_chat chat r s).state.agents ≡ s.agents
unfolding gateway_chat pass limited
gateway-agents chat r s = ground arith

limited-others :
    (n : String) (r : Request) (s : DaemonState)
    → str_eq r.name n ≡ false
    → (l : Option ℕ) → get n (limited l r s).0.rate_limits ≡ get n s.rate_limits
unfolding limited
limited-others n r s other none = refl
limited-others n r s other (some limit) = get-insert n r.name _ s.rate_limits ∙ rw other refl

pass-others :
    (chat : String → String ⊎ String) (gw : ResolvedGatewayConfig) (n : String) (r : Request)
    (s : DaemonState)
    → str_eq r.name n ≡ false
    → get n (pass chat gw r s).state.rate_limits ≡ get n s.rate_limits
unfolding pass
pass-others chat gw n r s other = ground (arith, limited-others n r s other gw.rate_limit)

gateway-others :
    (chat : String → String ⊎ String) (n : String) (r : Request) (s : DaemonState)
    → str_eq r.name n ≡ false
    → get n (gateway_chat chat r s).state.rate_limits ≡ get n s.rate_limits
unfolding gateway_chat
gateway-others chat n r s other = elim (Option-cases (get r.name s.agents)) [
  | inl gone ↦ ground (arith, gone)
  | inr (m, found) ↦ elim (Option-cases m.gateway) [
    | inl gone ↦ ground (arith, found, gone)
    | inr (gw, set) ↦ ground (arith, found, set, pass-others chat gw n r s other)
  ]
]

abbrev tries : ResolvedGatewayConfig → Request → Bool
tries gw r = gw.enabled && not (is_some (check_key gw.api_key r.authorization))

module _ (chat : String → String ⊎ String) (n : String) (m : ManagedAgentRef)
    (gw : ResolvedGatewayConfig) (limit : ℕ) (set : m.gateway ≡ some gw)
    (lim : gw.rate_limit ≡ some limit) where
  gateway-refused :
      (r : Request) (s : DaemonState)
      → get r.name s.agents ≡ some m
      → tries gw r ≡ false
      → ((gateway_chat chat r s).sent ≡ []) × ((gateway_chat chat r s).state ≡ s)
  unfolding gateway_chat pass
  gateway-refused r s found never =
      (ground (arith, found, set, never), ground (arith, found, set, never))

  gateway-tried :
      (r : Request) (s : DaemonState)
      → get r.name s.agents ≡ some m
      → tries gw r ≡ true
      → (is_empty (gateway_chat chat r s).sent
          ≡ not (check_and_record r.now (bucket_of r.name limit s)).1)
        × (bucket_of r.name limit (gateway_chat chat r s).state
            ≡ (check_and_record r.now (bucket_of r.name limit s)).0)
  unfolding gateway_chat pass limited
  gateway-tried r s found t = (
    ground (arith, found, set, t, lim),
    ground (
      arith,
      found,
      set,
      t,
      lim,
      str_eq_refl r.name,
      get-insert r.name r.name (check_and_record r.now (bucket_of r.name limit s)).0 s.rate_limits,
    ),
  )

  -- The requests are let through as the limiter of `n` does it.
  reached-accepted :
      (rs : List Request) (s : DaemonState)
      → get n s.agents ≡ some m
      → reached n chat rs s ≡ accepted (attempts n gw rs) (bucket_of n limit s)
  unfolding reached attempts accepted
  reached-accepted [] s found = refl
  reached-accepted (r ∷ rs) s found =
      let s' = (gateway_chat chat r s).state in
      let still : get n s'.agents ≡ some m =
        ap (λ (a : Map ManagedAgentRef). get n a) (gateway-agents chat r s) ∙ found in
      let rest = reached-accepted rs s' still in
      elim (Bool-cases (str_eq r.name n)) [
        | inr other ↦ ground (arith, other, rest, gateway-others chat n r s other)
        | inl same ↦
            let here : get r.name s.agents ≡ some m =
              ap (λ k. get k s.agents) (str_eq→eq r.name n same) ∙ found in
            elim (Bool-cases (tries gw r)) [
              | inr never ↦ ground (arith, same, never, rest, gateway-refused r s here never)
              | inl t ↦
                  ground (arith, same, t, rest, gateway-tried r s here t, str_eq→eq r.name n same)
            ]
      ]

-- An agent whose gateway has a rate limit, and has had no request yet, gets at most that many
-- messages through the gateway in any minute, wherever it starts, whatever requests come, to it and
-- to other agents, with whatever keys. The requests come in the order of the clock, the agents stay
-- as they are, and the limit is a `u32`.
pub gateway_rate_limited :
    (chat : String → String ⊎ String) (n : String) (m : ManagedAgentRef)
    (gw : ResolvedGatewayConfig) (limit : ℕ)
    → m.gateway ≡ some gw
    → gw.rate_limit ≡ some limit
    → limit < u32_mod
    → (rs : List Request) (s : DaemonState) → get n s.agents ≡ some m
    → get n s.rate_limits ≡ none
    → InOrder 0 rs
    → (x : Time) → in_minute x (reached n chat rs s) ≤ limit
gateway_rate_limited chat n m gw limit set lim u rs s found fresh order x =
    let start : bucket_of n limit s ≡ new limit = rw fresh refl in
    rw (reached-accepted chat n m gw limit set lim rs s found, start)
      (rate_limited limit u (attempts n gw rs) (attempts-Monotone n gw 0 rs order) x)
