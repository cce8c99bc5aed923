-- ===== src/Daemon/Supervision/Reload.antt =====
-- src/daemon.rs, `apply_config_changes`: which agents run after a change of the configuration.
use zeptopm.Base.{
  String, ◌≡◌, refl, ◌∙◌, arith, true, not, ◌||◌, if◌then◌else◌, none, some, List, [], ◌∷◌, Map,
  get, contains_key, keys, contains, get-remove, get-insert, contains-filter, contains_key-insert,
  str_eq, str_eq→eq,
}
use zeptopm.Types.{Time}
use zeptopm.Config.{AgentConfig, Config}
use zeptopm.Daemon.World.{InternalAgent, World, Host}
use zeptopm.Daemon.Supervision.{
  restarted, auto_names, stop_agent, stop_agents, add_agent, add_agents, names_to_remove,
  apply_config_changes,
}

contains-keys : (k : String) (m : Map InternalAgent) → contains k (keys m) ≡ contains_key k m
unfolding contains get
contains-keys k [] = refl
contains-keys k ((j, a) ∷ m) = ground (arith, contains-keys k m)

get-stop_agent :
    (k n : String) (w : World)
    → get k (stop_agent n w).managed ≡ (if str_eq n k then none else get k w.managed)
unfolding stop_agent
get-stop_agent k n w = ground (arith, get-remove k n w.managed, str_eq→eq n k)

get-stop_agents :
    (k : String) (names : List String) (w : World)
    → get k (stop_agents names w).managed ≡ (if contains k names then none else get k w.managed)
unfolding stop_agents contains
get-stop_agents k [] w = refl
get-stop_agents k (n ∷ names) w =
    ground (arith, get-stop_agents k names (stop_agent n w), get-stop_agent k n w)

engine-stop_agents : (names : List String) (w : World) → (stop_agents names w).engine ≡ w.engine
unfolding stop_agents stop_agent
engine-stop_agents [] w = refl
engine-stop_agents (n ∷ names) w = ground (arith, engine-stop_agents names (stop_agent n w))

-- The agents that are there stay as they are, and those that start on their own are there.
record Adds (names : List String) (w w' : World) : Type 0 where
  there :
      (k : String)
      → contains_key k w'.managed ≡ (if contains k names then true else contains_key k w.managed)
  kept : (k : String) (a : InternalAgent) → get k w.managed ≡ some a → get k w'.managed ≡ some a
  engine : w'.engine ≡ w.engine

add_agent-Adds :
    (host : Host) (now : Time) (a : AgentConfig) (w : World)
    → Adds (auto_names (a ∷ [])) w (add_agent host now a w)
unfolding add_agent contains
add_agent-Adds host now a w = record {
  there = λ k.
      ground (
        arith,
        str_eq→eq a.name k,
        contains_key-insert k a.name (restarted host now 0 a) w.managed,
      );
  kept = λ k m h.
      ground (arith, h, str_eq→eq a.name k, get-insert k a.name (restarted host now 0 a) w.managed);
  engine = ground arith;
}

Adds-both :
    (names names' both : List String) (w w' w'' : World)
    → ((k : String) → contains k both ≡ (contains k names || contains k names'))
    → Adds names w w'
    → Adds names' w' w''
    → Adds both w w''
Adds-both names names' both w w' w'' e h h' = record {
  there = λ k. ground (arith, e k, h.there k, h'.there k);
  kept = λ k m q. h'.kept k m (h.kept k m q);
  engine = h'.engine ∙ h.engine;
}

add_agents-Adds :
    (host : Host) (now : Time) (agents : List AgentConfig) (w : World)
    → Adds (auto_names agents) w (add_agents host now agents w)
unfolding add_agents contains
add_agents-Adds host now [] w = record { there = λ k. refl; kept = λ k a h. h; engine = refl }
add_agents-Adds host now (a ∷ agents) w =
    Adds-both (auto_names (a ∷ [])) (auto_names agents) (auto_names (a ∷ agents)) w
      (add_agent host now a w) _ (λ k. ground arith) (add_agent-Adds host now a w)
      (add_agents-Adds host now agents (add_agent host now a w))

-- After a change of the configuration the agents that run are exactly those that the new one starts
-- on its own, under their names. One that ran before and stays is not touched. Whatever else ran,
-- a job's worker or an agent started by a command, is gone, while the engine, with its active
-- jobs, is the same.
pub reload_exact :
    (host : Host) (now : Time) (new_config : Config) (w : World)
    → let w' = apply_config_changes host now new_config w in
      let names = auto_names new_config.agents in
      ((k : String) → contains_key k w'.managed ≡ contains k names)
      × ((k : String) (a : InternalAgent)
          → contains k names ≡ true
          → get k w.managed ≡ some a
          → get k w'.managed ≡ some a)
      × (w'.engine ≡ w.engine)
unfolding apply_config_changes
reload_exact host now new_config w =
    let names = auto_names new_config.agents in
    let removed = names_to_remove new_config.agents w.managed in
    let added = add_agents-Adds host now new_config.agents (stop_agents removed w) in
    let stopped = λ (k : String). get-stop_agents k removed w in
    let of_removed =
      λ (k : String). contains-filter k (λ name. not (contains name names)) (keys w.managed) in
    (
      λ k. ground (arith, added.there k, stopped k, of_removed k, contains-keys k w.managed),
      λ k a c h. added.kept k a (ground (arith, stopped k, of_removed k, c, h)),
      added.engine ∙ engine-stop_agents removed w,
    )
