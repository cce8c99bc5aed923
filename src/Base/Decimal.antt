-- ===== src/Base/Decimal.antt =====
-- The decimal digits that `show_nat` prints determine the number.
use Prim.Native.Nat.{ℕ, zero, suc, ◌+◌, ◌-◌, ◌*◌, ◌/◌, ◌%◌, ◌^◌, ◌<◌}
use Prim.Native.Char.{code}
use Prim.Native.String.{String, ◌++◌}
use mathlib.Core.Path.{◌≡◌, refl, sym, ap, ◌∙◌}
use mathlib.Core.Logic.{inl, inr}
use native.Mathlib.Omega.{arith}
use native.Mathlib.Numerals.{unary_clauses}
use text.Mathlib.TextLemmas.{nil-append, cons-append}
use zeptopm.Base.Tests.{Bool-cases, ltb}
use zeptopm.Base.Text.{show_from, show_nat, digit}

-- The number that a text of digits reads as, behind the digits of `v`.
abbrev pub read_from : String → ℕ → ℕ
read_from String.[] v = v
read_from (String.◌∷◌ c s) v = read_from s (10 * v + (code c - 48))

read_from-append : (s acc : String) (v : ℕ) → read_from (s ++ acc) v ≡ read_from acc (read_from s v)
read_from-append String.[] acc v = rw (nil-append acc) refl
read_from-append (String.◌∷◌ c s) acc v =
    rw (cons-append c s acc) (read_from-append s acc (10 * v + (code c - 48)))

read_digit : (d v : ℕ) → d < 10 → read_from (digit d) v ≡ 10 * v + d
read_digit zero v h = omega arith
read_digit (suc zero) v h = omega arith
read_digit (suc (suc zero)) v h = omega arith
read_digit (suc (suc (suc zero))) v h = omega arith
read_digit (suc (suc (suc (suc zero)))) v h = omega arith
read_digit (suc (suc (suc (suc (suc zero))))) v h = omega arith
read_digit (suc (suc (suc (suc (suc (suc zero)))))) v h = omega arith
read_digit (suc (suc (suc (suc (suc (suc (suc zero))))))) v h = omega arith
read_digit (suc (suc (suc (suc (suc (suc (suc (suc zero)))))))) v h = omega arith
read_digit (suc (suc (suc (suc (suc (suc (suc (suc (suc zero))))))))) v h = omega arith
read_digit (suc (suc (suc (suc (suc (suc (suc (suc (suc (suc d)))))))))) v h =
    absurd (omega (arith, h))

read_from-digit :
    (d v : ℕ) (acc : String) → d < 10 → read_from (digit d ++ acc) v ≡ read_from acc (10 * v + d)
read_from-digit d v acc h = read_from-append (digit d) acc v ∙ ap (read_from acc) (read_digit d v h)

-- What the digits of a number of at most `rounds` digits read as.
read_from-show_from :
    (rounds n : ℕ) (acc : String)
    → n < 10 ^ rounds
    → read_from (show_from rounds n acc) 0 ≡ read_from acc n
unfolding show_from
read_from-show_from zero n acc h = let none : n ≡ 0 = omega (arith, h) in rw none refl
read_from-show_from (suc rounds) n acc h = elim (Bool-cases (ltb n 10)) [
  | inl e ↦ rw e (read_from-digit n 0 acc (ground (arith, e)) ∙ ap (read_from acc) (omega arith))
  | inr e ↦
      let rest =
        read_from-show_from rounds (n / 10) (digit (n % 10) ++ acc)
          (omega (arith, simp unary_clauses at h)) in
      let last = read_from-digit (n % 10) (n / 10) acc (omega arith) in
      rw e (rest ∙ last ∙ ap (read_from acc) (omega arith))
]

pub show_nat-inj : (m n : ℕ) → m < 10 ^ 40 → n < 10 ^ 40 → show_nat m ≡ show_nat n → m ≡ n
unfolding show_nat
show_nat-inj m n hm hn e =
    sym (read_from-show_from 40 m "" hm)
    ∙ ap (λ s. read_from s 0) e
    ∙ read_from-show_from 40 n "" hn
