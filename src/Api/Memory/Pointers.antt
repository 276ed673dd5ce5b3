-- ===== src/Api/Memory/Pointers.antt =====
-- Pointers and the arrays behind slices: a deep copy of what they lead to makes a deep copy of them.
use hotswap_operator.Prelude.{
  ℕ, ◌≤◌, ◌<◌, ◌≡◌, refl, sym, ap, ◌∙◌, Option, none, some, List, [], ◌∷◌, map, All, arith,
}
use mathlib.Core.Path.{subst}
use hotswap_operator.Api.Memory.{Foreign, Cell, Heap, Slot, reserve, write, copy_pointer, copy_each}
use hotswap_operator.Api.Memory.Copies.{Agree, IsDeep}

module _ {F : Foreign} where
  own : (q : ℕ) (f : Cell F → Cell F) (h : Heap F) → (write q f h).cell q ≡ f (h.cell q)
  own q f h = ground arith

  other : (q a : ℕ) (f : Cell F → Cell F) (h : Heap F) → a < q → (write q f h).cell a ≡ h.cell a
  other q a f h lt = ground arith

  -- What a pointer reads as, and where it leads.
  abbrev pub view_pointer :
      {A V : Type 0} → Slot F A → (Heap F → A → V) → Heap F → Option ℕ → Option V
  view_pointer slot view h none = none
  view_pointer slot view h (some p) = some (view h (slot.get (h.cell p)))

  abbrev pub WithinPointer :
      {A : Type 0} → Slot F A → (Heap F → ℕ → ℕ → A → Type 0) → Heap F → ℕ → ℕ → Option ℕ → Type 0
  WithinPointer slot W h lo hi none = Unit
  WithinPointer slot W h lo hi (some p) = (lo ≤ p) × (p < hi) × W h lo hi (slot.get (h.cell p))

  module _ {A V : Type 0} {into : A → Heap F → A × Heap F} {view : Heap F → A → V}
      {Within : Heap F → ℕ → ℕ → A → Type 0} (d : IsDeep into view Within) where
    each_framed :
        (h h' : Heap F) (lo hi : ℕ) (xs : List A)
        → Agree lo hi h h'
        → All (Within h lo hi) xs
        → (map (view h') xs ≡ map (view h) xs) × All (Within h' lo hi) xs
    each_framed h h' lo hi [] agree w = (refl, tt)
    each_framed h h' lo hi (x ∷ xs) agree w =
        let (v, k) = d.framed h h' lo hi x agree w.0 in
        let (vs, ks) = each_framed h h' lo hi xs agree w.1 in
        (ap (λ y. y ∷ map (view h') xs) v ∙ ap (λ ys. view h x ∷ ys) vs, (k, ks))

    each_widened :
        (h : Heap F) (lo hi lo' hi' : ℕ) (xs : List A)
        → lo' ≤ lo
        → hi ≤ hi'
        → All (Within h lo hi) xs
        → All (Within h lo' hi') xs
    each_widened h lo hi lo' hi' [] l u w = tt
    each_widened h lo hi lo' hi' (x ∷ xs) l u w =
        (d.widened h lo hi lo' hi' x l u w.0, each_widened h lo hi lo' hi' xs l u w.1)

    each_copied :
        (h : Heap F) (xs : List A)
        → All (Within h 0 h.next) xs
        → let (xs', h') = copy_each into xs h in
          (h.next ≤ h'.next)
          × Agree 0 h.next h h'
          × (map (view h') xs' ≡ map (view h) xs)
          × All (Within h' h.next h'.next) xs'
    unfolding copy_each
    each_copied h [] w = (omega arith, λ a l u. refl, refl, tt)
    each_copied h (x ∷ xs) w =
        let (x', h') = into x h in
        let (xs', h'') = copy_each into xs h' in
        let (grows, kept, same, fresh) = d.copied h x w.0 in
        let (vs, ks) = each_framed h h' 0 h.next xs kept w.1 in
        let inside = each_widened h' 0 h.next 0 h'.next xs (omega arith) grows ks in
        let (grows', kept', same', fresh') = each_copied h' xs inside in
        let (v', k') = d.framed h' h'' h.next h'.next x' (λ a l u. kept' a (omega arith) u) fresh in
        (
          omega arith,
          λ a l u. kept' a l (omega arith) ∙ kept a l u,
          ap (λ y. y ∷ map (view h'') xs') (v' ∙ same) ∙ ap (λ ys. view h x ∷ ys) (same' ∙ vs),
          (
            d.widened h'' h.next h'.next h.next h''.next x' (omega arith) grows' k',
            each_widened h'' h'.next h''.next h.next h''.next xs' grows (omega arith) fresh',
          ),
        )

    -- The elements of an array, in turn.
    pub IsDeep-each :
        IsDeep {A = List A} {V = List V}
          (copy_each into)
          (λ h. map (view h))
          (λ h lo hi. All (Within h lo hi))
    IsDeep-each = record { framed = each_framed; widened = each_widened; copied = each_copied }

    pointer_framed :
        (slot : Slot F A) (h h' : Heap F) (lo hi : ℕ) (o : Option ℕ)
        → Agree lo hi h h'
        → WithinPointer slot Within h lo hi o
        → (view_pointer slot view h' o ≡ view_pointer slot view h o)
          × WithinPointer slot Within h' lo hi o
    pointer_framed slot h h' lo hi none agree w = (refl, tt)
    pointer_framed slot h h' lo hi (some p) agree (l, u, w) =
        let same = ap slot.get (agree p l u) in
        let (v, k) = d.framed h h' lo hi (slot.get (h.cell p)) agree w in
        (ap (λ x. some (view h' x)) same ∙ ap some v, (l, u, subst (Within h' lo hi) (sym same) k))

    pointer_widened :
        (slot : Slot F A) (h : Heap F) (lo hi lo' hi' : ℕ) (o : Option ℕ)
        → lo' ≤ lo
        → hi ≤ hi'
        → WithinPointer slot Within h lo hi o
        → WithinPointer slot Within h lo' hi' o
    pointer_widened slot h lo hi lo' hi' none l u w = tt
    pointer_widened slot h lo hi lo' hi' (some p) l u (a, b, w) =
        (omega arith, omega arith, d.widened h lo hi lo' hi' (slot.get (h.cell p)) l u w)

    pointer_copied :
        (slot : Slot F A) (h : Heap F) (o : Option ℕ)
        → WithinPointer slot Within h 0 h.next o
        → let (o', h') = copy_pointer slot into o h in
          (h.next ≤ h'.next)
          × Agree 0 h.next h h'
          × (view_pointer slot view h' o' ≡ view_pointer slot view h o)
          × WithinPointer slot Within h' h.next h'.next o'
    unfolding copy_pointer
    pointer_copied slot h none w = (omega arith, λ a l u. refl, refl, tt)
    pointer_copied slot h (some p) (l, u, w) =
        let x = slot.get (h.cell p) in
        let hr = reserve h in
        let (x', h1) = into x hr in
        let h2 = write h.next (slot.put x') h1 in
        let (v0, w0) = d.framed h hr 0 h.next x (λ a l u. refl) w in
        let inside = d.widened hr 0 h.next 0 hr.next x (omega arith) (omega arith) w0 in
        let (grows, kept, same, fresh) = d.copied hr x inside in
        let apart : Agree hr.next h1.next h1 h2 = λ a l u. ground arith in
        let (v', w') = d.framed h1 h2 hr.next h1.next x' apart fresh in
        let here : slot.get (h2.cell h.next) ≡ x' =
          ap slot.get (own h.next (slot.put x') h1) ∙ slot.get-put x' (h1.cell h.next) in
        (
          omega arith,
          λ a l u. other h.next a (slot.put x') h1 u ∙ kept a l (omega arith),
          ap (λ y. some (view h2 y)) here ∙ ap some (v' ∙ same ∙ v0),
          (
            omega arith,
            omega arith,
            subst (Within h2 h.next h1.next) (sym here)
                (d.widened h2 hr.next h1.next h.next h1.next x' (omega arith) (omega arith) w'),
          ),
        )

    -- A pointer, whose target is copied to a new address.
    pub IsDeep-pointer :
        (slot : Slot F A)
        → IsDeep {A = Option ℕ} {V = Option V}
            (copy_pointer slot into)
            (view_pointer slot view)
            (WithinPointer slot Within)
    IsDeep-pointer slot = record {
      framed = pointer_framed slot;
      widened = pointer_widened slot;
      copied = pointer_copied slot;
    }
