-- ===== src/Api/Memory/Copies.antt =====
-- What makes a copy deep: it reads as the original does, and what it reaches is memory that was not in use before.
use hotswap_operator.Prelude.{ℕ, ◌≤◌, ◌<◌, ◌≡◌, refl, sym, ap, ◌∙◌, arith}
use mathlib.Core.Path.{subst}
use hotswap_operator.Api.Memory.{Foreign, Heap}

module _ {F : Foreign} where
  -- The heaps hold the same from `lo` up to `hi`.
  abbrev pub Agree : ℕ → ℕ → Heap F → Heap F → Type 0
  Agree lo hi h h' = (a : ℕ) → lo ≤ a → a < hi → h'.cell a ≡ h.cell a

  -- `view` is what a value reads as, and `Within h lo hi` says that all it reaches lies from `lo` up to `hi`.
  pub record IsDeep {A V : Type 0} (into : A → Heap F → A × Heap F) (view : Heap F → A → V)
      (Within : Heap F → ℕ → ℕ → A → Type 0) : Type 0 where
    pub framed :
        (h h' : Heap F) (lo hi : ℕ) (a : A)
        → Agree lo hi h h'
        → Within h lo hi a
        → (view h' a ≡ view h a) × Within h' lo hi a
    pub widened :
        (h : Heap F) (lo hi lo' hi' : ℕ) (a : A)
        → lo' ≤ lo
        → hi ≤ hi'
        → Within h lo hi a
        → Within h lo' hi' a
    pub copied :
        (h : Heap F) (a : A)
        → Within h 0 h.next a
        → let (a', h') = into a h in
          (h.next ≤ h'.next)
          × Agree 0 h.next h h'
          × (view h' a' ≡ view h a)
          × Within h' h.next h'.next a'

  -- A value that is copied by an assignment.
  abbrev pub Anywhere : {A : Type 0} → Heap F → ℕ → ℕ → A → Type 0
  Anywhere h lo hi a = Unit

  pub IsDeep-value :
      {A V : Type 0} (f : A → A) (view : A → V)
      → ((a : A) → view (f a) ≡ view a)
      → IsDeep (λ a h. (f a, h)) (λ h. view) Anywhere
  IsDeep-value f view same = record {
    framed = λ h h' lo hi a agree w. (refl, tt);
    widened = λ h lo hi lo' hi' a l u w. tt;
    copied = λ h a w. (omega arith, λ x l u. refl, same a, tt);
  }

  module _ {A V : Type 0} {into : A → Heap F → A × Heap F} {view : Heap F → A → V}
      {Within : Heap F → ℕ → ℕ → A → Type 0} (d : IsDeep into view Within) where
    -- Two values, one after the other.
    pub IsDeep-pair :
        {B W : Type 0} {into' : B → Heap F → B × Heap F} {view' : Heap F → B → W}
        {Within' : Heap F → ℕ → ℕ → B → Type 0}
        → IsDeep into' view' Within'
        → IsDeep {A = A × B} {V = V × W}
            (λ x h. let (a', h') = into x.0 h in let (b', h'') = into' x.1 h' in ((a', b'), h''))
            (λ h x. (view h x.0, view' h x.1))
            (λ h lo hi x. Within h lo hi x.0 × Within' h lo hi x.1)
    IsDeep-pair {into'} {view'} {Within'} e = record {
      framed = λ h h' lo hi x agree w.
          let (v, k) = d.framed h h' lo hi x.0 agree w.0 in
          let (v', k') = e.framed h h' lo hi x.1 agree w.1 in
          (ap (λ y. (y, view' h' x.1)) v ∙ ap (λ y. (view h x.0, y)) v', (k, k'));
      widened = λ h lo hi lo' hi' x l u w.
          (d.widened h lo hi lo' hi' x.0 l u w.0, e.widened h lo hi lo' hi' x.1 l u w.1);
      copied = λ h x w.
          let (a', h') = into x.0 h in
          let (b', h'') = into' x.1 h' in
          let (grows, kept, same, fresh) = d.copied h x.0 w.0 in
          let (v, k) = e.framed h h' 0 h.next x.1 kept w.1 in
          let inside = e.widened h' 0 h.next 0 h'.next x.1 (omega arith) grows k in
          let (grows', kept', same', fresh') = e.copied h' x.1 inside in
          let (v', k') =
            d.framed h' h'' h.next h'.next a' (λ a l u. kept' a (omega arith) u) fresh in
          (
            omega arith,
            λ a l u. kept' a l (omega arith) ∙ kept a l u,
            ap (λ y. (y, view' h'' b')) (v' ∙ same) ∙ ap (λ y. (view h x.0, y)) (same' ∙ v),
            (
              d.widened h'' h.next h'.next h.next h''.next a' (omega arith) grows' k',
              e.widened h'' h'.next h''.next h.next h''.next b' grows (omega arith) fresh',
            ),
          );
    }

    -- A struct, of which `parts` is what is copied otherwise than by the assignment.
    pub IsDeep-struct :
        {S X : Type 0} (parts : S → A) (with_parts : S → A → S) (build : S → V → X)
        → ((s : S) (a : A) → parts (with_parts s a) ≡ a)
        → ((s : S) (a : A) (v : V) → build (with_parts s a) v ≡ build s v)
        → IsDeep {A = S} {V = X}
            (λ s h. let (a, h') = into (parts s) h in (with_parts s a, h'))
            (λ h s. build s (view h (parts s)))
            (λ h lo hi s. Within h lo hi (parts s))
    IsDeep-struct parts with_parts build part rest = record {
      framed = λ h h' lo hi s agree w.
          let (v, k) = d.framed h h' lo hi (parts s) agree w in (ap (build s) v, k);
      widened = λ h lo hi lo' hi' s l u w. d.widened h lo hi lo' hi' (parts s) l u w;
      copied = λ h s w.
          let (a', h') = into (parts s) h in
          let (grows, kept, same, fresh) = d.copied h (parts s) w in
          let got = part s a' in
          (
            grows,
            kept,
            rest s a' (view h' (parts (with_parts s a')))
                ∙ ap (λ x. build s (view h' x)) got
                ∙ ap (build s) same,
            subst (Within h' h.next h'.next) (sym got) fresh,
          );
    }

    -- A copy reads as the original; so it does when other memory than its own has been written, and so does the
    -- original when other memory than what was in use before has been written.
    pub isolated :
        (h g g' : Heap F) (a : A)
        → Within h 0 h.next a
        → Agree h.next (into a h).1.next (into a h).1 g
        → Agree 0 h.next (into a h).1 g'
        → let (a', h') = into a h in
          (view h' a' ≡ view h a) × (view g a' ≡ view h a) × (view g' a ≡ view h a)
    isolated h g g' a w outside inside =
        let (a', h') = into a h in
        let (grows, kept, same, fresh) = d.copied h a w in
        let (v, k) = d.framed h h' 0 h.next a kept w in
        (
          same,
          (d.framed h' g h.next h'.next a' outside fresh).0 ∙ same,
          (d.framed h' g' 0 h.next a inside k).0 ∙ v,
        )
