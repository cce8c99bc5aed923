-- ===== src/Server/Window.antt =====
-- src/server.rs, `RateLimitBucket`: the sliding window lets through no more than the limit in any
-- minute.
use zeptopm.Base.{
  ℕ, suc, ◌+◌, ◌-◌, ◌%◌, ◌≤◌, ◌<◌, ◌≡◌, refl, sym, ◌∙◌, arith, Bool, true, false, ◌&&◌,
  if◌then◌else◌, leb, List, [], ◌∷◌, ◌++◌, length, length-append, u32_mod, Bool-cases, inl, inr,
}
use zeptopm.Types.{Time}
use zeptopm.Server.{RateLimitBucket, new, drop_old, check_and_record, accepted}

abbrev pub count : (Time → Bool) → List Time → ℕ
count p [] = 0
count p (t ∷ ts) = let rest = count p ts in if p t then suc rest else rest

-- The requests at or after a time, and those in the minute that starts at it.
abbrev pub since : Time → List Time → ℕ
since x ts = count (λ t. leb x t) ts

abbrev pub in_minute : Time → List Time → ℕ
in_minute x ts = count (λ t. leb x t && leb t (x + 60000)) ts

-- The clock does not go back.
abbrev pub Monotone : Time → List Time → Type 0
Monotone last [] = Unit {0}
Monotone last (now ∷ calls) = (last ≤ now) × Monotone now calls

in_minute-le : (x : Time) (ts : List Time) → in_minute x ts ≤ since x ts
in_minute-le x [] = omega arith
in_minute-le x (t ∷ ts) = ground (arith, in_minute-le x ts)

since-le : (x : Time) (ts : List Time) → since x ts ≤ length ts
since-le x [] = omega arith
since-le x (t ∷ ts) = ground (arith, since-le x ts)

since-snoc :
    (x : Time) (ts : List Time) (now : Time)
    → since x (ts ++ now ∷ []) ≡ since x ts + since x (now ∷ [])
since-snoc x [] now = ground arith
since-snoc x (t ∷ ts) now = ground (arith, since-snoc x ts now)

since-drop_old :
    (x ago : Time) → ago ≤ x → (ts : List Time) → since x (drop_old ago ts) ≡ since x ts
unfolding drop_old
since-drop_old x ago h [] = refl
since-drop_old x ago h (t ∷ ts) = ground (arith, h, since-drop_old x ago h ts)

length-drop_old : (ago : Time) (ts : List Time) → length (drop_old ago ts) ≤ length ts
unfolding drop_old
length-drop_old ago [] = omega arith
length-drop_old ago (t ∷ ts) = ground (arith, length-drop_old ago ts)

-- The window holds what was let through in the last minute, and `past` is all that was.
record Inv (last : Time) (past : List Time) (b : RateLimitBucket) : Type 0 where
  covers : (x : Time) → last ≤ x + 60000 → since x past ≡ since x b.window
  bounded : (x : Time) → in_minute x past ≤ b.limit
  short : length b.window ≤ b.limit
  u32 : b.limit < u32_mod

-- What is let through at `now`.
abbrev passed : Bool → Time → List Time → List Time
passed true now past = now ∷ past
passed false now past = past

-- No request of the last minute is dropped.
covers-drop_old :
    (last now : Time) (past : List Time) (b : RateLimitBucket)
    → last ≤ now
    → Inv last past b
    → (x : Time) → now ≤ x + 60000
    → since x past ≡ since x (drop_old (now - 60000) b.window)
covers-drop_old last now past b m h x g =
    h.covers x (omega (arith, m, g))
    ∙ sym (since-drop_old x (now - 60000) (omega (arith, g)) b.window)

-- There is room below the limit, which is a `u32`.
room : (n limit : ℕ) → n ≤ limit → limit < u32_mod → leb limit (n % u32_mod) ≡ false → suc n ≤ limit
room n limit h u e = let small : n % u32_mod ≡ n = omega (arith, h, u) in ground (arith, small)

admit-Inv :
    (last now : Time) (past : List Time) (b : RateLimitBucket)
    → last ≤ now
    → Inv last past b
    → suc (length (drop_old (now - 60000) b.window)) ≤ b.limit
    → Inv now (now ∷ past) (record b { window = drop_old (now - 60000) b.window ++ now ∷ [] })
admit-Inv last now past b m h free =
    let window = drop_old (now - 60000) b.window in
    let kept = covers-drop_old last now past b m h in
    record {
      covers = λ x g. ground (arith, kept x g, since-snoc x window now);
      bounded =
          λ x. ground (arith, kept x, in_minute-le x past, since-le x window, free, h.bounded x);
      short = omega (arith, length-append window (now ∷ []), free);
      u32 = h.u32;
    }

check_and_record-Inv :
    (last now : Time) (past : List Time) (b : RateLimitBucket)
    → last ≤ now
    → Inv last past b
    → Inv now (passed (check_and_record now b).1 now past) (check_and_record now b).0
      × ((check_and_record now b).0.limit ≡ b.limit)
unfolding check_and_record
check_and_record-Inv last now past b m h =
    let window = drop_old (now - 60000) b.window in
    let shorter = length-drop_old (now - 60000) b.window in
    elim (Bool-cases (leb b.limit (length window % u32_mod))) [
      | inl e ↦ rw e (
        record {
          covers = covers-drop_old last now past b m h;
          bounded = h.bounded;
          short = omega (arith, shorter, h.short);
          u32 = h.u32;
        },
        refl,
      )
      | inr e ↦ rw e (
        admit-Inv last now past b m h
            (room (length window) b.limit (omega (arith, shorter, h.short)) h.u32 e),
        refl,
      )
    ]

accepted_within :
    (last : Time) (past calls : List Time) (b : RateLimitBucket)
    → Inv last past b
    → Monotone last calls
    → (x : Time) → in_minute x (accepted calls b) + in_minute x past ≤ b.limit
unfolding accepted
accepted_within last past [] b h m x = omega (arith, h.bounded x)
accepted_within last past (now ∷ calls) b h m x =
    let (h', same) = check_and_record-Inv last now past b m.0 h in
    let rest =
      accepted_within now (passed (check_and_record now b).1 now past) calls
        (check_and_record now b).0 h' m.1 x in
    elim (Bool-cases (check_and_record now b).1) [
      | inl e ↦ ground (arith, e, rest, same)
      | inr e ↦ ground (arith, e, rest, same)
    ]

-- In any minute, wherever it starts, a bucket with a limit lets through at most that many requests,
-- whatever requests come, as long as the clock does not go back. The limit is a `u32`.
pub rate_limited :
    (limit : ℕ)
    → limit < u32_mod
    → (calls : List Time) → Monotone 0 calls
    → (x : Time) → in_minute x (accepted calls (new limit)) ≤ limit
unfolding new
rate_limited limit u calls m x =
    let start : Inv 0 [] (new limit) = record {
      covers = λ y g. refl;
      bounded = λ y. omega arith;
      short = omega arith;
      u32 = u;
    } in
    omega (arith, accepted_within 0 [] calls (new limit) start m x)
