-- ===== src/Prelude/Lists.antt =====
-- Lists measured by native numbers, and predicates on lists by recursion.
use Prim.Native.Nat.{ℕ, suc}
use mathlib.Core.Path.{sym, subst}
use mathlib.Core.List.{List, [], ◌∷◌, Memᴰ}

module _ {ℓ} {A : Type ℓ} where
  abbrev pub length : List A → ℕ
  length [] = 0
  length (x ∷ xs) = suc (length xs)

module _ {ℓ κ} {A : Type ℓ} (P : A → Type κ) where
  abbrev pub All : List A → Type κ
  All [] = Unit
  All (x ∷ xs) = P x × All xs

module _ {ℓ κ μ} {A : Type ℓ} (P : A → Type κ) (Q : A → Type μ) where
  pub All-map : ((x : A) → P x → Q x) → (xs : List A) → All P xs → All Q xs
  All-map f [] a = tt
  All-map f (x ∷ xs) a = (f x a.0, All-map f xs a.1)

  pub All-both : (xs : List A) → All P xs → All Q xs → All (λ x. P x × Q x) xs
  All-both [] a b = tt
  All-both (x ∷ xs) a b = ((a.0, b.0), All-both xs a.1 b.1)

module _ {ℓ κ} {A : Type ℓ} (P : A → Type κ) where
  pub All-Memᴰ : (xs : List A) {x : A} → All P xs → Memᴰ x xs → P x
  All-Memᴰ [] a m = elim m [ ]
  All-Memᴰ (y ∷ xs) a (Memᴰ.head e) = subst P (sym e) a.0
  All-Memᴰ (y ∷ xs) a (Memᴰ.tail m) = All-Memᴰ xs a.1 m
