-- ===== src/Api/Memory.antt =====
-- The objects of api/v1alpha1 as they lie in memory: a struct holds its numbers and texts, and an address for each
-- pointer and each slice. Go's pointers are typed, so that an address holds a value of each type, of which a pointer
-- sees its own.
pub mod Copies
pub mod Pointers
use hotswap_operator.Prelude.{
  ℕ, suc, ℤ, ◌==◌, String, Bool, ◌≡◌, Option, none, some, List, [], ◌∷◌, if◌then◌else◌,
}
use hotswap_operator.Api.Kube.{Time, Condition}
use hotswap_operator.Api.{RemediationStrategy, TargetReference, RemediationRecord}

-- The structs of the library that own memory, which they keep in ways of their own.
pub record Foreign : Type 1 where
  pub ObjectMetaMem : Type 0
  pub ListMetaMem : Type 0
  pub ProbeMem : Type 0
  pub Memory : Type 0

-- metav1.TypeMeta.
pub record TypeMeta : Type 0 where
  pub kind : String
  pub api_version : String

pub record RemediationMem : Type 0 where
  pub strategy : RemediationStrategy
  pub require_stable : Option ℕ
  pub max_consecutive_attempts : ℤ  -- int32
  pub cooldown_seconds : ℤ  -- int32
  pub max_concurrent : ℤ  -- int32
  pub systemic_failure_skip_percent : ℤ  -- int32
  pub dry_run : Bool

pub record TargetMem : Type 0 where
  pub pod_name : String
  pub pod_ip : String
  pub healthy : Bool
  pub consecutive_failures : ℤ  -- int32
  pub last_probe_time : Option ℕ
  pub last_transition_time : Option ℕ

pub record StatusMem : Type 0 where
  pub observed_generation : ℤ  -- int64
  pub targets : Option ℕ
  pub last_remediation : Option ℕ
  pub consecutive_attempts : ℤ  -- int32
  pub conditions : Option ℕ

pub record SpecMem (F : Foreign) : Type 0 where
  pub target_ref : TargetReference
  pub hotswap_probe : F.ProbeMem
  pub remediation : RemediationMem

pub record PolicyMem (F : Foreign) : Type 0 where
  pub type_meta : TypeMeta
  pub meta : F.ObjectMetaMem
  pub spec : SpecMem F
  pub status : StatusMem

pub record ListMem (F : Foreign) : Type 0 where
  pub type_meta : TypeMeta
  pub meta : F.ListMetaMem
  pub items : Option ℕ

-- What an address holds, for a pointer of each type; the last three but one are the arrays behind slices.
pub record Cell (F : Foreign) : Type 0 where
  pub bool : Bool
  pub time : Time
  pub reference : TargetReference
  pub remediation : RemediationMem
  pub remediated : RemediationRecord
  pub target : TargetMem
  pub status : StatusMem
  pub spec : SpecMem F
  pub policy : PolicyMem F
  pub list : ListMem F
  pub targets : List TargetMem
  pub conditions : List Condition
  pub items : List (PolicyMem F)
  pub foreign : F.Memory

-- Addresses are given out in order.
pub record Heap (F : Foreign) : Type 0 where
  pub next : ℕ
  pub cell : ℕ → Cell F

-- How a pointer to an `X` sees a cell.
pub record Slot (F : Foreign) (X : Type 0) : Type 0 where
  pub get : Cell F → X
  pub put : X → Cell F → Cell F
  pub get-put : (x : X) (c : Cell F) → get (put x c) ≡ x

module _ {F : Foreign} where
  -- `new(T)`, or `make([]T, n)`: an address that was not in use.
  abbrev pub reserve : Heap F → Heap F
  reserve h = record h { next = suc h.next }

  abbrev pub write : ℕ → (Cell F → Cell F) → Heap F → Heap F
  write q f h = record h { cell = λ a. if a == q then f (h.cell a) else h.cell a }

  -- `if in != nil { *out = new(T); (*in).DeepCopyInto(*out) }`.
  unfoldable pub copy_pointer :
      {X : Type 0} → Slot F X → (X → Heap F → X × Heap F) → Option ℕ → Heap F → Option ℕ × Heap F
  copy_pointer slot into none h = (none, h)
  copy_pointer slot into (some p) h =
      let (x, h') = into (slot.get (h.cell p)) (reserve h) in
      (some h.next, write h.next (slot.put x) h')

  -- `for i := range *in { (*in)[i].DeepCopyInto(&(*out)[i]) }`.
  unfoldable pub copy_each :
      {X : Type 0} → (X → Heap F → X × Heap F) → List X → Heap F → List X × Heap F
  copy_each into [] h = ([], h)
  copy_each into (x ∷ xs) h =
      let (x', h') = into x h in let (xs', h'') = copy_each into xs h' in (x' ∷ xs', h'')

  -- A slice is nil, or the address of its array.
  abbrev pub copy_slice :
      {X : Type 0}
      → Slot F (List X)
      → (X → Heap F → X × Heap F)
      → Option ℕ
      → Heap F
      → Option ℕ × Heap F
  copy_slice slot into = copy_pointer slot (copy_each into)
