-- ===== src/Capsule/Drive/Leaving.antt =====
-- src/capsule.rs: how the loop of a job in a capsule is left, and what is done after it.
use zeptopm.Base.{
  ◌+◌, ◌≡◌, refl, sym, arith, Bool, true, false, if◌then◌else◌, Option, List, [], ◌∷◌, ◌++◌, str_eq,
  Bool-cases, inl, inr, subst, str_eq→eq, any,
}
use zeptopm.Json.{Json, str_or_empty}
use zeptopm.Agent.{user_message, channel_message, job_execute, stop}
use zeptopm.Capsule.{CapsuleReport}
use zeptopm.Capsule.Drive.{
  CapsuleEffect, remove_file, destroy, Input, command, commands_closed, line, invalid_line,
  pipe_closed, pipe_error, Drive, Task, on_line, on_input, serve, finish,
}
use zeptopm.Capsule.Drive.Events.{count, count-snoc, is_terminal, leaves, if-elim}

-- What holds whatever is counted.
module _ (t : Task) where
  pub count-acts :
      (q : CapsuleEffect → Bool) (report : Option CapsuleReport) (d : Drive)
      → count q (finish t report d).effects
        ≡ count q d.effects
          + (if q (remove_file t.host_spec_path) then 1 else 0)
          + (if q destroy then 1 else 0)
  unfolding finish
  count-acts q report d =
      let e = d.effects ++ remove_file t.host_spec_path ∷ [] in
      ground (arith, count-snoc q d.effects (remove_file t.host_spec_path), count-snoc q e destroy)

  pub finish-suppress :
      (report : Option CapsuleReport) (d : Drive)
      → (finish t report d).suppress_terminal_event ≡ d.suppress_terminal_event
  unfolding finish
  finish-suppress report d = ground arith

  on_line-leaves :
      (event : Json) (d : Drive) → is_terminal event ≡ true → (on_line t event d).is_open ≡ false
  unfolding on_line str_eq
  on_line-leaves event d h =
      let k = str_or_empty "type" event in
      elim (Bool-cases (str_eq k "job_completed")) [
        | inl e ↦ rw (str_eq→eq k "job_completed" e) refl
        | inr e ↦ rw (str_eq→eq k "job_failed" (ground arith)) refl
      ]

  serve-shut : (inputs : List Input) (d : Drive) → d.is_open ≡ false → serve t inputs d ≡ d
  unfolding serve
  serve-shut [] d h = refl
  serve-shut (input ∷ inputs) d h = ground arith

  on_input-leaves :
      (input : Input) (d : Drive) → leaves input ≡ true → (on_input t input d).is_open ≡ false
  unfolding on_input
  on_input-leaves (command stop) d h = refl
  on_input-leaves (command (user_message m k)) d h = cc
  on_input-leaves (command (channel_message c m)) d h = cc
  on_input-leaves (command (job_execute i j k l)) d h = cc
  on_input-leaves commands_closed d h = refl
  on_input-leaves (line event) d h = on_line-leaves event d h
  on_input-leaves invalid_line d h = cc
  on_input-leaves pipe_closed d h = refl
  on_input-leaves (pipe_error e) d h = refl

  pub serve-leaves :
      (inputs : List Input) (d : Drive)
      → any leaves inputs ≡ true
      → (serve t inputs d).is_open ≡ false
  unfolding serve
  serve-leaves [] d h = cc
  serve-leaves (input ∷ inputs) d h =
      let next = on_input t input d in
      if-elim (λ (r : Drive). r.is_open ≡ false) d.is_open
        (λ _. elim (Bool-cases (leaves input)) [
          | inl now ↦
              let shut = on_input-leaves input d now in
              subst (λ (r : Drive). r.is_open ≡ false) (sym (serve-shut inputs next shut)) shut
          | inr later ↦ serve-leaves inputs next (ground arith)
        ])
        (λ shut. shut)
