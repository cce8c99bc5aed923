-- ===== src/Base/Text.antt =====
-- Texts that the program compares, joins and prints, and numbers in decimal.
use Prim.Native.Nat.{ℕ, zero, suc, ◌/◌, ◌%◌}
use Prim.Native.String.{String, ◌++◌}
use mathlib.Core.Path.{◌≡◌, refl, sym}
use mathlib.Core.Logic.{◌≢◌, inl, inr}
use mathlib.Core.Bool.{Bool, true, false, ◌||◌}
use mathlib.Core.List.{List, [], ◌∷◌}
use native.Mathlib.Omega.{arith}
use text.Mathlib.Text.{◌==◌}
use text.Mathlib.TextEquality.{eq_iff}
use zeptopm.Base.Tests.{Bool-cases, if◌then◌else◌, ltb}

-- `==` on `String` and `&str`.
unfoldable pub str_eq : String → String → Bool
str_eq s t = s == t

pub str_eq→eq : (s t : String) → str_eq s t ≡ true → s ≡ t
unfolding str_eq
str_eq→eq s t h = (eq_iff s t).0 h

pub eq→str_eq : (s t : String) → s ≡ t → str_eq s t ≡ true
unfolding str_eq
eq→str_eq s t h = (eq_iff s t).1 h

pub str_eq_refl : (s : String) → str_eq s s ≡ true
str_eq_refl s = eq→str_eq s s refl

pub ne→str_eq : (s t : String) → s ≢ t → str_eq s t ≡ false
ne→str_eq s t h = elim (Bool-cases (str_eq s t)) [
  | inl e ↦ absurd (h (str_eq→eq s t e))
  | inr e ↦ e
]

pub str_eq_comm : (s t : String) → str_eq s t ≡ str_eq t s
str_eq_comm s t = elim (Bool-cases (str_eq s t)) [
  | inl e ↦ ground (arith, e, eq→str_eq t s (sym (str_eq→eq s t e)))
  | inr e ↦ elim (Bool-cases (str_eq t s)) [
    | inl d ↦ ground (arith, d, eq→str_eq s t (sym (str_eq→eq t s d)))
    | inr d ↦ ground (arith, e, d)
  ]
]

-- `iter().any(|p| p == x)` and `Vec::contains`.
unfoldable pub contains : String → List String → Bool
contains x [] = false
contains x (p ∷ ps) = str_eq p x || contains x ps

abbrev pub digit : ℕ → String
digit zero = "0"
digit (suc zero) = "1"
digit (suc (suc zero)) = "2"
digit (suc (suc (suc zero))) = "3"
digit (suc (suc (suc (suc zero)))) = "4"
digit (suc (suc (suc (suc (suc zero))))) = "5"
digit (suc (suc (suc (suc (suc (suc zero)))))) = "6"
digit (suc (suc (suc (suc (suc (suc (suc zero))))))) = "7"
digit (suc (suc (suc (suc (suc (suc (suc (suc zero)))))))) = "8"
digit n = "9"

-- Decimal printing of a machine integer; `show_from` has one round for each digit, and a `u64`
-- or `u128` has fewer than 40.
unfoldable pub show_from : ℕ → ℕ → String → String
show_from zero n acc = acc
show_from (suc rounds) n acc =
    let rest = show_from rounds (n / 10) (digit (n % 10) ++ acc) in
    if ltb n 10 then digit n ++ acc else rest

unfoldable pub show_nat : ℕ → String
unfolding show_from
show_nat n = show_from 40 n ""

-- `format!`: the pieces one after another.
abbrev pub format : List String → String
format [] = ""
format (s ∷ ss) = s ++ format ss
