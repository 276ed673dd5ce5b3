-- ===== src/Prelude/Text.antt =====
-- Go compares strings byte by byte; on UTF-8 that is the order of their code points, which the
-- native `compare` follows. Here are the laws of that order.
use Prim.Native.Nat.{ℕ, Ordering, compare as compare_ℕ}
use Prim.Native.Char.{code}
use Prim.Native.String.{String, compare, then}
use Prim.Native.String.compare
use mathlib.Core.Path.{◌≡◌, refl, sym}
use mathlib.Core.Bool.{Bool, true, false}
use native.Mathlib.Omega.{arith}
use text.Mathlib.Text.{is_lt}
use text.Mathlib.TextEquality.{path_by_compare}
use text.Mathlib.TextPositions.{compare_refl}
pub use text.Mathlib.Text.{◌==◌ as str_eq}
pub use text.Mathlib.TextEquality.{eq_iff as str_eq_iff}
pub use text.Mathlib.TextPositions.{eq_refl as str_eq_refl}

-- `s < t`.
abbrev pub str_lt : String → String → Bool
str_lt s t = is_lt (compare s t)

abbrev flip : Ordering → Ordering
flip Ordering.lt = Ordering.gt
flip Ordering.eq = Ordering.eq
flip Ordering.gt = Ordering.lt

flip-compare_ℕ : (a b : ℕ) → compare_ℕ b a ≡ flip (compare_ℕ a b)
flip-compare_ℕ a b = ground arith

flip-then : (o r : Ordering) → then (flip o) (flip r) ≡ flip (then o r)
flip-then Ordering.lt r = refl
flip-then Ordering.eq r = refl
flip-then Ordering.gt r = refl

flip-compare : (s t : String) → compare t s ≡ flip (compare s t)
flip-compare String.[] String.[] = refl
flip-compare String.[] (String.◌∷◌ d t) = rw (compare.nil-cons d t, compare.cons-nil d t)
flip-compare (String.◌∷◌ c s) String.[] = rw (compare.nil-cons c s, compare.cons-nil c s)
flip-compare (String.◌∷◌ c s) (String.◌∷◌ d t) =
    rw
      (
        compare.cons-cons c d s t,
        compare.cons-cons d c t s,
        flip-compare s t,
        flip-compare_ℕ (code c) (code d),
      )
      (flip-then (compare_ℕ (code c) (code d)) (compare s t))

pub str_lt_irrefl : (s : String) → str_lt s s ≡ false
str_lt_irrefl s = rw (compare_refl s)

pub str_lt_total : (s t : String) → str_lt s t ≡ false → str_lt t s ≡ false → s ≡ t
str_lt_total s t h k = path_by_compare s t (ground (arith, flip-compare s t))

compare_trans :
    (s t u : String)
    → compare s t ≡ Ordering.lt
    → compare t u ≡ Ordering.lt
    → compare s u ≡ Ordering.lt
compare_trans String.[] String.[] u h k = k
compare_trans String.[] (String.◌∷◌ d t) String.[] h k = absurd (cc (sym (compare.cons-nil d t)))
compare_trans String.[] (String.◌∷◌ d t) (String.◌∷◌ e u) h k = compare.nil-cons e u
compare_trans (String.◌∷◌ c s) String.[] u h k = ground (arith, compare.cons-nil c s)
compare_trans (String.◌∷◌ c s) (String.◌∷◌ d t) String.[] h k = absurd (cc (compare.cons-nil d t))
compare_trans (String.◌∷◌ c s) (String.◌∷◌ d t) (String.◌∷◌ e u) h k = ground (
  arith,
  compare.cons-cons c d s t,
  compare.cons-cons d e t u,
  compare.cons-cons c e s u,
  compare_trans s t u,
)

pub str_lt_trans : (s t u : String) → str_lt s t ≡ true → str_lt t u ≡ true → str_lt s u ≡ true
str_lt_trans s t u h k = ground (arith, compare_trans s t u)
