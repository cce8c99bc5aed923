-- ===== src/Daemon/Supervision/Entries.antt =====
-- src/daemon.rs: an entry of an agent that is written, started or forgotten keeps the limits of its
-- configuration.
use zeptopm.Base.{
  ℕ, ◌<◌, ◌≤◌, String, ◌≡◌, refl, sym, ap, subst, ◌∙◌, arith, true, false, some, get, insert,
  remove, get-remove, get-insert, str_eq, str_eq→eq, Distinct, Distinct-insert, Distinct-remove,
  Bool-cases, Option-cases, inl, inr,
}
use zeptopm.Types.{Time}
use zeptopm.Config.{AgentConfig}
use zeptopm.Agent.{AgentStatus, AgentStateUpdate, agent_status_eq}
use zeptopm.Daemon.World.{InternalAgent, World, Host, spawn_managed_agent, find_agent}
use zeptopm.Daemon.Supervision.{
  update_state, schedule_restart, on_state_update, restarted, launch, launch_by_command, forget,
}

-- An agent has been restarted at most as often as it may, and less often while a restart is due.
abbrev pub InLimits : InternalAgent → Type 0
InLimits m =
    (m.state.restart_count ≤ m.max_restarts)
    × (agent_status_eq m.state.status AgentStatus.restart_pending ≡ true
        → m.state.restart_count < m.max_restarts)

pub record IsSupervised (w : World) : Type 0 where
  pub distinct : Distinct w.managed
  pub limits : (name : String) (m : InternalAgent) → get name w.managed ≡ some m → InLimits m
  -- The limit of an agent that runs is that of the configuration.
  pub configured :
      (name : String) (m : InternalAgent) (a : AgentConfig)
      → get name w.managed ≡ some m
      → find_agent name w.config.agents ≡ some a
      → m.max_restarts ≡ a.max_restarts

-- An entry is written that keeps to its limits.
pub insert-IsSupervised :
    (w w' : World) (name : String) (m : InternalAgent)
    → IsSupervised w
    → w'.managed ≡ insert name m w.managed
    → w'.config ≡ w.config
    → InLimits m
    → ((a : AgentConfig)
        → find_agent name w.config.agents ≡ some a
        → m.max_restarts ≡ a.max_restarts)
    → IsSupervised w'
insert-IsSupervised w w' name m h e c l f =
    let at = λ (k : String). ap (get k) e ∙ get-insert k name m w.managed in
    record {
      distinct = rw e (Distinct-insert name m w.managed h.distinct);
      limits = λ k x g. elim (Bool-cases (str_eq name k)) [
        | inl t ↦ let same : m ≡ x = ground (arith, at k, t, g) in subst InLimits same l
        | inr t ↦ h.limits k x (ground (arith, at k, t, g))
      ];
      configured = λ k x a g q. elim (Bool-cases (str_eq name k)) [
        | inl t ↦
            let same : m ≡ x = ground (arith, at k, t, g) in
            ground (arith, same, f a (rw (str_eq→eq name k t) (rw (sym c) q)))
        | inr t ↦ h.configured k x a (ground (arith, at k, t, g)) (rw (sym c) q)
      ];
    }

pub remove-IsSupervised :
    (w w' : World) (name : String)
    → IsSupervised w
    → w'.managed ≡ remove name w.managed
    → w'.config ≡ w.config
    → IsSupervised w'
remove-IsSupervised w w' name h e c =
    let at = λ (k : String). ap (get k) e ∙ get-remove k name w.managed in
    record {
      distinct = rw e (Distinct-remove name w.managed h.distinct);
      limits = λ k x g. h.limits k x (ground (arith, at k, g));
      configured = λ k x a g q. h.configured k x a (ground (arith, at k, g)) (rw (sym c) q);
    }

pub schedule-InLimits :
    (now : Time) (u : AgentStateUpdate) (m : InternalAgent)
    → agent_status_eq u.status AgentStatus.restart_pending ≡ false
    → InLimits m
    → InLimits (schedule_restart now u.status (record m { state = update_state u m.state }))
      × ((schedule_restart now u.status (record m { state = update_state u m.state })).max_restarts
          ≡ m.max_restarts)
unfolding schedule_restart update_state
schedule-InLimits now u m r l =
    ((ground (arith, l.0), λ p. ground (arith, l.0, p, r)), ground arith)

pub update-IsSupervised :
    (now : Time) (u : AgentStateUpdate) (w : World)
    → agent_status_eq u.status AgentStatus.restart_pending ≡ false
    → IsSupervised w
    → IsSupervised (on_state_update now u w)
unfolding on_state_update
update-IsSupervised now u w r h = elim (Option-cases (get u.name w.managed)) [
  | inl gone ↦ rw (gone, on_state_update) h
  | inr (m, found) ↦
      let (l, same) = schedule-InLimits now u m r (h.limits u.name m found) in
      rw (found, on_state_update)
        (insert-IsSupervised w _ u.name
          (schedule_restart now u.status (record m { state = update_state u m.state })) h refl refl
          l (λ a q. same ∙ h.configured u.name m a found q))
]

-- A launch from the configuration, with a number of restarts that it allows.
pub launch-IsSupervised :
    (host : Host) (now : Time) (restarts : ℕ) (name : String) (a : AgentConfig) (w : World)
    → find_agent name w.config.agents ≡ some a
    → restarts ≤ a.max_restarts
    → IsSupervised w
    → IsSupervised (launch host now restarts name a w)
unfolding spawn_managed_agent
launch-IsSupervised host now restarts name a w found few h =
    insert-IsSupervised w _ name (restarted host now restarts a) h refl refl (few, λ p. cc)
      (λ b q. ground (arith, found, q))

pub start-IsSupervised :
    (host : Host) (now : Time) (done name : String) (w : World)
    → IsSupervised w
    → IsSupervised (launch_by_command host now done name w).0
start-IsSupervised host now done name w h = elim (Option-cases (find_agent name w.config.agents)) [
  | inl gone ↦ rw (gone, launch_by_command) h
  | inr (a, found) ↦
      rw (found, launch_by_command) (launch-IsSupervised host now 0 name a w found (omega arith) h)
]

pub forget-IsSupervised :
    (name : String) (w : World) → IsSupervised w → IsSupervised (forget name w)
forget-IsSupervised name w h = remove-IsSupervised w _ name h refl refl

pub same-IsSupervised :
    (w w' : World)
    → w'.managed ≡ w.managed
    → w'.config ≡ w.config
    → IsSupervised w
    → IsSupervised w'
same-IsSupervised w w' e c h = record {
  distinct = rw e h.distinct;
  limits = λ k x g. h.limits k x (ap (get k) (sym e) ∙ g);
  configured = λ k x a g q. h.configured k x a (ap (get k) (sym e) ∙ g) (rw (sym c) q);
}
