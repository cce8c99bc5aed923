-- ===== src/Capsule/Drive/Events.antt =====
-- src/capsule.rs: which events end a job, and which inputs end its loop.
use zeptopm.Base.{
  ℕ, suc, ◌+◌, String, ◌≡◌, refl, ◌∙◌, arith, Bool, true, false, ◌&&◌, ◌||◌, if◌then◌else◌, some,
  List, [], ◌∷◌, ◌++◌, insert, get-insert, str_eq, Bool-cases, Option-cases, inl, inr, str_eq→eq,
}
use zeptopm.Types.{JobId}
use zeptopm.Json.{Json, Field, get_str, str_or_empty}
use zeptopm.Agent.{stop}
use zeptopm.Capsule.{job_failed}
use zeptopm.Capsule.Paths.{translate_guest_event_paths, path_strip, path_eq, moved}
use zeptopm.Capsule.Drive.{
  CapsuleEffect, create, kill, destroy, Input, command, commands_closed, line, invalid_line,
  pipe_closed, pipe_error, Task, translated, completed,
}

module _ {A : Type 0} (p : A → Bool) where
  abbrev pub count : List A → ℕ
  count [] = 0
  count (x ∷ xs) = let rest = count xs in if p x then suc rest else rest

  pub count-snoc : (xs : List A) (x : A) → count (xs ++ x ∷ []) ≡ count xs + (if p x then 1 else 0)
  count-snoc [] x = ground arith
  count-snoc (y ∷ xs) x = ground (arith, count-snoc xs x)

abbrev pub is_terminal : Json → Bool
is_terminal event =
    str_eq (str_or_empty "type" event) "job_completed"
    || str_eq (str_or_empty "type" event) "job_failed"

-- A terminal event that names the job.
abbrev pub ends_job : JobId → Json → Bool
ends_job job_id event = str_eq (str_or_empty "job_id" event) job_id && is_terminal event

abbrev pub is_create : CapsuleEffect → Bool
is_create (create spec) = true
is_create _ = false

abbrev pub is_destroy : CapsuleEffect → Bool
is_destroy destroy = true
is_destroy _ = false

abbrev pub is_kill : CapsuleEffect → Bool
is_kill kill = true
is_kill _ = false

-- After such an input the loop is left.
abbrev pub leaves : Input → Bool
leaves (command stop) = true
leaves (command _) = false
leaves (line event) = is_terminal event
leaves invalid_line = false
leaves commands_closed = true
leaves pipe_closed = true
leaves (pipe_error e) = true

insert-type :
    (v : Field) (event : Json)
    → str_or_empty "type" (insert "path" v event) ≡ str_or_empty "type" event
unfolding str_or_empty get_str str_eq
insert-type v event = rw (get-insert "type" "path" v event) refl

translate-type :
    (event : Json) (guest host : String)
    → str_or_empty "type" (translate_guest_event_paths event guest host) ≡ str_or_empty "type" event
unfolding translate_guest_event_paths
translate-type event guest host = elim (Bool-cases (path_eq guest host)) [
  | inl same ↦ rw (translate_guest_event_paths, same) refl
  | inr apart ↦ elim (Option-cases (get_str "path" event)) [
    | inl gone ↦ rw (translate_guest_event_paths, apart, gone) refl
    | inr (path, at) ↦ elim (Option-cases (path_strip guest path)) [
      | inl outside ↦ rw (translate_guest_event_paths, apart, at, moved, outside) refl
      | inr (rel, inside) ↦
          rw (translate_guest_event_paths, apart, at, moved, inside) (insert-type _ event)
    ]
  ]
]

pub if-elim :
    {A : Type 0} (P : A → Type 0) (b : Bool) {x y : A}
    → (b ≡ true → P x)
    → (b ≡ false → P y)
    → P (if b then x else y)
if-elim P true f g = f refl
if-elim P false f g = g refl

pub some-injective : {x y : Json} → some x ≡ some y → x ≡ y
some-injective q = cc

-- A terminal event is told apart from the others by its type.
by_type :
    (event : Json) (k : String)
    → str_or_empty "type" event ≡ k
    → is_terminal event ≡ (str_eq k "job_completed" || str_eq k "job_failed")
by_type event k e = rw e refl

pub own-quiet :
    (event : Json)
    → (str_eq (str_or_empty "type" event) "heartbeat"
        || str_eq (str_or_empty "type" event) "progress")
      ≡ true
    → is_terminal event ≡ false
unfolding str_eq
own-quiet event h =
    let k = str_or_empty "type" event in
    elim (Bool-cases (str_eq k "heartbeat")) [
      | inl e ↦ by_type event "heartbeat" (str_eq→eq k "heartbeat" e)
      | inr e ↦ by_type event "progress" (str_eq→eq k "progress" (ground arith))
    ]

pub translated-quiet :
    (t : Task) (event : Json)
    → str_eq (str_or_empty "type" event) "artifact_produced" ≡ true
    → is_terminal (translated t event) ≡ false
unfolding str_eq
translated-quiet t event h =
    by_type (translated t event) "artifact_produced"
      (translate-type event t.spec.workspace.guest_path t.job.workspace_dir ∙ str_eq→eq _ _ h)

-- `p` counts the ends of the job of `t`: what the code makes up is one, what it hands on is none.
pub record CountsEnds (t : Task) (p : Json → Bool) : Type 0 where
  pub of_failed : (e : String) (r : Bool) → p (job_failed t.job.job_id e r) ≡ true
  pub of_completed : (event : Json) → p (completed t.job.job_id event) ≡ true
  pub of_others : (event : Json) → is_terminal event ≡ false → p event ≡ false
