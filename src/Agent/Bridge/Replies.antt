-- ===== src/Agent/Bridge/Replies.antt =====
-- src/agent.rs, `worker_bridge`: who asks is answered once.
use zeptopm.Base.{
  ℕ, suc, ◌+◌, ◌%◌, ◌<◌, ◌≤◌, String, ◌≡◌, refl, ap, ◌∙◌, arith, Bool, true, false, if◌then◌else◌,
  Option, none, some, List, [], ◌∷◌, ◌++◌, map, length, get, remove, contains_key, values, Distinct,
  Distinct-insert, Distinct-remove, get-insert, get-remove, str_eq, ne→str_eq, Bool-cases,
  Option-cases, inl, inr, ◌⊎◌, u64_mod,
}
use zeptopm.Json.{Json, str_or_empty}
use zeptopm.Agent.{AgentCommand, user_message, channel_message, job_execute, stop}
use zeptopm.Agent.Bridge.{
  Worker, Bridge, Input, command, commands_closed, message, stdout_closed, Exit, exited, unknown,
  start, request_id, add_pending, on_command, on_chat_response, on_message, on_input, serve, finish,
}
use zeptopm.Agent.Bridge.Counts.{
  occurrences, occurrences-append, map-append, occurrences-insert, occurrences-remove,
  request_id-inj,
}

-- Who was answered, and who asked in an input.
abbrev pub answered : Bridge → List ℕ
answered b = map (λ r. r.0) b.replies

abbrev pub asks : Input → List ℕ
asks (command (user_message msg (some tx)) ok) = tx ∷ []
asks _ = []

-- Who asks before the loop is left.
unfoldable pub asked : Worker → List Input → Bridge → List ℕ
asked w [] b = []
asked w (input ∷ inputs) b =
    let rest = asked w inputs (on_input w input b) in if b.is_open then asks input ++ rest else []

-- The ids of the requests that wait are those of earlier numbers.
record IsFresh (b : Bridge) : Type 0 where
  distinct : Distinct b.pending
  later : (i : ℕ) → b.req_counter < i → i < u64_mod → contains_key (request_id i) b.pending ≡ false

-- Who was answered or still waits.
abbrev settled : ℕ → Bridge → ℕ
settled t b = occurrences t (answered b) + occurrences t (values b.pending)

-- What an input does to the two.
abbrev Settles : (t : ℕ) → List ℕ → Bridge → Bridge → Type 0
Settles t new b b' = settled t b' ≡ settled t b + occurrences t new

add_pending-IsFresh :
    (b : Bridge) (tx : Option ℕ)
    → IsFresh b
    → suc b.req_counter < u64_mod
    → IsFresh (record b {
      req_counter = suc b.req_counter;
      pending = add_pending (request_id (suc b.req_counter)) tx b.pending;
    })
add_pending-IsFresh b none h u = record {
  distinct = h.distinct;
  later = λ i l v. h.later i (omega (arith, l)) v;
}
add_pending-IsFresh b (some tx) h u = record {
  distinct = Distinct-insert (request_id (suc b.req_counter)) tx b.pending h.distinct;
  later = λ i l v. ground (
    arith,
    h.later i (omega (arith, l)) v,
    get-insert (request_id i) (request_id (suc b.req_counter)) tx b.pending,
    ne→str_eq (request_id (suc b.req_counter)) (request_id i)
        (λ e. absurd (omega (arith, l, request_id-inj (suc b.req_counter) i u v e))),
  );
}

add_pending-settles :
    (t : ℕ) (b : Bridge) (msg : String) (tx : Option ℕ) (ok : Bool)
    → IsFresh b
    → suc b.req_counter < u64_mod
    → occurrences t (values (add_pending (request_id (suc b.req_counter)) tx b.pending))
      ≡ occurrences t (values b.pending) + occurrences t (asks (command (user_message msg tx) ok))
add_pending-settles t b msg none ok h u = omega arith
add_pending-settles t b msg (some tx) ok h u =
    occurrences-insert t (request_id (suc b.req_counter)) tx b.pending
      (h.later (suc b.req_counter) (omega arith) u)

next_counter : (n : ℕ) → suc n < u64_mod → (n + 1) % u64_mod ≡ suc n
next_counter n h = omega (arith, h)

-- What holds after one round.
record Round (w : Worker) (input : Input) (b b' : Bridge) : Type 0 where
  fresh : IsFresh b'
  counted : b'.req_counter ≤ suc b.req_counter
  settles : (t : ℕ) → settled t b' ≡ settled t b + occurrences t (asks input)

-- A round that asks and answers nothing.
quiet-Round :
    (w : Worker) (input : Input) (b b' : Bridge)
    → asks input ≡ []
    → IsFresh b
    → b'.pending ≡ b.pending
    → b'.req_counter ≡ b.req_counter
    → b'.replies ≡ b.replies
    → Round w input b b'
quiet-Round w input b b' a h p n r = record {
  fresh = record {
    distinct = rw p h.distinct;
    later = λ i l v. rw p (h.later i (omega (arith, l, n)) v);
  };
  counted = omega (arith, n);
  settles = λ t. rw (a, p, r) (omega arith);
}

on_command-Round :
    (w : Worker) (cmd : AgentCommand) (ok : Bool) (b : Bridge)
    → IsFresh b
    → suc b.req_counter < u64_mod
    → Round w (command cmd ok) b (on_command w cmd ok b)
unfolding on_command
on_command-Round w (user_message msg tx) true b h u =
    let f = add_pending-IsFresh b tx h u in
    rw (next_counter b.req_counter u) (record {
      fresh = record { distinct = f.distinct; later = f.later };
      counted = omega arith;
      settles = λ t. omega (arith, add_pending-settles t b msg tx true h u);
    })
on_command-Round w (user_message msg tx) false b h u =
    let f = add_pending-IsFresh b tx h u in
    rw (next_counter b.req_counter u) (record {
      fresh = record { distinct = f.distinct; later = f.later };
      counted = omega arith;
      settles = λ t. omega (arith, add_pending-settles t b msg tx false h u);
    })
on_command-Round w (channel_message c msg) true b h u = rw (next_counter b.req_counter u) (record {
  fresh = record { distinct = h.distinct; later = λ i l v. h.later i (omega (arith, l)) v };
  counted = omega arith;
  settles = λ t. omega arith;
})
on_command-Round w (channel_message c msg) false b h u = rw (next_counter b.req_counter u) (record {
  fresh = record { distinct = h.distinct; later = λ i l v. h.later i (omega (arith, l)) v };
  counted = omega arith;
  settles = λ t. omega arith;
})
on_command-Round w (job_execute j i ws ins) true b h u = quiet-Round w _ b _ refl h refl refl refl
on_command-Round w (job_execute j i ws ins) false b h u = quiet-Round w _ b _ refl h refl refl refl
on_command-Round w stop true b h u = quiet-Round w _ b _ refl h refl refl refl
on_command-Round w stop false b h u = quiet-Round w _ b _ refl h refl refl refl

-- A request that waits is answered.
answer-Round :
    (w : Worker) (input : Input) (b : Bridge) (id : String) (tx : ℕ) (reply : String ⊎ String)
    → asks input ≡ []
    → IsFresh b
    → get id b.pending ≡ some tx
    → Round w input b
        (record b { pending = remove id b.pending; replies = b.replies ++ (tx, reply) ∷ [] })
answer-Round w input b id tx reply a h found = record {
  fresh = record {
    distinct = Distinct-remove id b.pending h.distinct;
    later = λ i l v. ground (arith, h.later i l v, get-remove (request_id i) id b.pending);
  };
  counted = omega arith;
  settles = λ t.
      rw (a, map-append b.replies ((tx, reply) ∷ []))
        (omega (
          arith,
          occurrences-append t (answered b) (tx ∷ []),
          occurrences-remove t id tx b.pending h.distinct found,
        ));
}

on_chat_response-Round :
    (w : Worker) (input : Input) (msg : Json) (b : Bridge)
    → asks input ≡ []
    → IsFresh b
    → Round w input b (on_chat_response w msg b)
unfolding on_chat_response
on_chat_response-Round w input msg b a h =
    let id = str_or_empty "id" msg in
    elim (Option-cases (get id b.pending)) [
      | inr (tx, found) ↦ rw (found, on_chat_response) (answer-Round w input b id tx _ a h found)
      | inl gone ↦
          quiet-Round w input b _ a h (ground (arith, gone)) (ground (arith, gone))
            (ground (arith, gone))
    ]

on_message-Round :
    (w : Worker) (now : String) (msg : Json) (b : Bridge)
    → IsFresh b
    → Round w (message now msg) b (on_message w now msg b)
unfolding on_message
on_message-Round w now msg b h =
    elim (Bool-cases (str_eq (str_or_empty "type" msg) "chat_response")) [
      | inl e ↦ rw (e, on_message) (on_chat_response-Round w _ msg b refl h)
      | inr e ↦
          quiet-Round w _ b _ refl h (ground (arith, e)) (ground (arith, e)) (ground (arith, e))
    ]

on_input-Round :
    (w : Worker) (input : Input) (b : Bridge)
    → IsFresh b
    → suc b.req_counter < u64_mod
    → Round w input b (on_input w input b)
unfolding on_input
on_input-Round w (command cmd ok) b h u = on_command-Round w cmd ok b h u
on_input-Round w commands_closed b h u = quiet-Round w _ b _ refl h refl refl refl
on_input-Round w (message now msg) b h u = on_message-Round w now msg b h
on_input-Round w stdout_closed b h u = quiet-Round w _ b _ refl h refl refl refl

serve-settles :
    (w : Worker) (t : ℕ) (inputs : List Input) (b : Bridge)
    → IsFresh b
    → b.req_counter + length inputs < u64_mod
    → settled t (serve w inputs b) ≡ settled t b + occurrences t (asked w inputs b)
unfolding serve asked
serve-settles w t [] b h u = omega arith
serve-settles w t (input ∷ inputs) b h u =
    let r = on_input-Round w input b h (omega (arith, u)) in
    let rest =
      serve-settles w t inputs (on_input w input b) r.fresh (omega (arith, u, r.counted)) in
    let split = occurrences-append t (asks input) (asked w inputs (on_input w input b)) in
    elim (Bool-cases b.is_open) [
      | inl e ↦ ground (arith, e, rest, r.settles t, split)
      | inr e ↦ ground (arith, e)
    ]

drained :
    (txs : List ℕ) (error : String)
    → map {B = ℕ} (λ (r : ℕ × (String ⊎ String)). r.0) (map (λ (tx : ℕ). (tx, inl error)) txs) ≡ txs
drained [] error = refl
drained (tx ∷ txs) error = ap (λ xs. tx ∷ xs) (drained txs error)

finish-answered :
    (w : Worker) (now : String) (exit : Exit) (b : Bridge)
    → answered (finish w now exit b) ≡ answered b ++ values b.pending
unfolding finish
finish-answered w now (exited false status) b =
    map-append b.replies _ ∙ ap (λ xs. answered b ++ xs) (drained (values b.pending) _)
finish-answered w now (exited true status) b =
    map-append b.replies _ ∙ ap (λ xs. answered b ++ xs) (drained (values b.pending) _)
finish-answered w now unknown b =
    map-append b.replies _ ∙ ap (λ xs. answered b ++ xs) (drained (values b.pending) _)

-- When a bridge has ended, each sender was answered as often as it asked before the loop was left:
-- with the worker's response or with an error, and never twice, whatever commands and messages came
-- in whatever order. Fewer than 2 ^ 64 inputs are assumed, after which the ids would repeat.
pub each_answered_once :
    (w : Worker) (inputs : List Input) (now : String) (exit : Exit)
    → length inputs < u64_mod
    → (t : ℕ)
    → occurrences t (answered (finish w now exit (serve w inputs start)))
      ≡ occurrences t (asked w inputs start)
unfolding get
each_answered_once w inputs now exit u t =
    let fresh : IsFresh start = record { distinct = tt; later = λ i l v. refl } in
    let b = serve w inputs start in
    rw (finish-answered w now exit b) (
      omega (
        arith,
        serve-settles w t inputs start fresh (omega (arith, u)),
        occurrences-append t (answered b) (values b.pending),
      ))
