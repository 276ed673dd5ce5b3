-- ===== src/Prelude/Dict.antt =====
-- Go's maps with string keys, as association lists. A map that the program builds has each key
-- once (`IsUnique`), and the order in which `range` visits it is any rearrangement of the list.
use Prim.Native.String.{String}
use mathlib.Core.Path.{◌≡◌, refl, sym, ap, subst₂, ◌∙◌}
use mathlib.Core.Option.{Option, none, some}
use mathlib.Core.List.{List, [], ◌∷◌, Permᴰ}
use native.Mathlib.Omega.{arith}
use hotswap_operator.Prelude.Tests.{if◌then◌else◌}
use hotswap_operator.Prelude.Text.{str_eq, str_eq_iff}

abbrev pub Dict {ℓ} : Type ℓ → Type ℓ
Dict V = List (String × V)

module _ {ℓ} {V : Type ℓ} where
  unfoldable pub lookup : String → Dict V → Option V
  lookup k [] = none
  lookup k ((j, v) ∷ m) = if str_eq j k then some v else lookup k m

  unfoldable pub insert : String → V → Dict V → Dict V
  insert k v [] = (k, v) ∷ []
  insert k v ((j, w) ∷ m) = if str_eq j k then (k, v) ∷ m else (j, w) ∷ insert k v m

  unfoldable pub delete : String → Dict V → Dict V
  delete k [] = []
  delete k ((j, w) ∷ m) = let rest = delete k m in if str_eq j k then rest else (j, w) ∷ rest

  abbrev pub IsUnique : Dict V → Type ℓ
  IsUnique [] = Unit
  IsUnique ((k, v) ∷ m) = (lookup k m ≡ none) × IsUnique m

  pub lookup-insert :
      (k j : String) (v : V) (m : Dict V)
      → lookup j (insert k v m) ≡ (if str_eq k j then some v else lookup j m)
  unfolding lookup insert
  lookup-insert k j v [] = refl
  lookup-insert k j v ((i, w) ∷ m) =
      ground (arith, str_eq_iff k j, str_eq_iff i k, str_eq_iff i j, lookup-insert k j v m)

  pub lookup-delete :
      (k j : String) (m : Dict V)
      → lookup j (delete k m) ≡ (if str_eq k j then none else lookup j m)
  unfolding lookup delete
  lookup-delete k j [] = ground arith
  lookup-delete k j ((i, w) ∷ m) =
      ground (arith, str_eq_iff k j, str_eq_iff i k, str_eq_iff i j, lookup-delete k j m)

  pub insert-IsUnique : (k : String) (v : V) (m : Dict V) → IsUnique m → IsUnique (insert k v m)
  unfolding insert lookup
  insert-IsUnique k v [] u = (refl, tt)
  insert-IsUnique k v ((j, w) ∷ m) u =
      ground
        (arith, str_eq_iff j k, str_eq_iff k j, lookup-insert k j v m, insert-IsUnique k v m u.1)

  pub delete-IsUnique : (k : String) (m : Dict V) → IsUnique m → IsUnique (delete k m)
  unfolding delete
  delete-IsUnique k [] u = tt
  delete-IsUnique k ((j, w) ∷ m) u = ground (arith, lookup-delete k j m, delete-IsUnique k m u.1)

  swap-lookup :
      (c d : String × V) (l : Dict V)
      → IsUnique (c ∷ d ∷ l)
      → IsUnique (d ∷ c ∷ l) × ((i : String) → lookup i (d ∷ c ∷ l) ≡ lookup i (c ∷ d ∷ l))
  unfolding lookup
  swap-lookup c d l u = (
    (ground (arith, str_eq_iff c.0 d.0, str_eq_iff d.0 c.0), (ground arith, u.1.1)),
    λ i. ground (arith, str_eq_iff c.0 d.0, str_eq_iff d.0 c.0, str_eq_iff c.0 i, str_eq_iff d.0 i),
  )

  -- A visit in any order finds the same entries under the same keys, each once.
  pub perm-lookup :
      {l m : Dict V}
      → Permᴰ l m
      → IsUnique m
      → IsUnique l × ((i : String) → lookup i l ≡ lookup i m)
  unfolding lookup
  perm-lookup Permᴰ.nil u = (u, λ i. refl)
  perm-lookup (Permᴰ.cons {a} {b} {l₁} {l₂} e p) u =
      let (unique, same) = perm-lookup p u.1 in
      ((same a.0 ∙ ap (λ x. lookup x.0 l₂) e ∙ u.0, unique), λ i. rw e (rw (same i)))
  perm-lookup (Permᴰ.swap {a} {b} {a' = c} {b' = d} {l} e f) u =
      subst₂
        (λ x y. IsUnique (x ∷ y ∷ l) × ((i : String) → lookup i (x ∷ y ∷ l) ≡ lookup i (c ∷ d ∷ l)))
        (sym e) (sym f) (swap-lookup c d l u)
  perm-lookup (Permᴰ.trans p q) u =
      let (unique, same) = perm-lookup q u in
      let (unique', same') = perm-lookup p unique in (unique', λ i. same' i ∙ same i)
