-- ===== src/Api/DeepCopy/Isolation.antt =====
-- The copies read as the originals do, and share no memory with them.
use hotswap_operator.Prelude.{ℕ, ◌≡◌, refl, ap, Option, none, some}
use hotswap_operator.Api.Memory.{Foreign, Heap, copy_pointer}
use hotswap_operator.Api.Memory.Copies.{
  Agree, IsDeep, Anywhere, IsDeep-value, IsDeep-pair, IsDeep-struct, isolated,
}
use hotswap_operator.Api.Memory.Pointers.{IsDeep-each, IsDeep-pointer}
use hotswap_operator.Api.DeepCopy.{
  Copiers, bool_slot, time_slot, remediated_slot, policy_slot, list_slot, targets_slot,
  conditions_slot, items_slot, remediation_into, time_into, condition_into, record_into,
  target_into, status_into, spec_into, policy_into, list_into, policy_copy, list_copy,
  policy_copy_object, list_copy_object,
}
use hotswap_operator.Api.DeepCopy.Views.{
  itself, remediation_of, target_of, status_of, spec_of, policy_of, list_of, view_remediation,
  WithinRemediation, view_target, WithinTarget, view_status, WithinStatus, view_spec, WithinSpec,
  view_policy, WithinPolicy, view_list, WithinList, read_policy, PolicyWithin, read_list,
  ListWithin,
}

remediation-IsDeep :
    {F : Foreign} → IsDeep {F = F} remediation_into view_remediation WithinRemediation
unfolding remediation_into
remediation-IsDeep =
    IsDeep-struct (IsDeep-pointer (IsDeep-value (λ b. b) (λ b. b) (λ b. refl)) bool_slot)
      (λ m. m.require_stable) (λ m o. record m { require_stable = o }) remediation_of (λ m o. refl)
      (λ m o v. refl)

module _ {F : Foreign} (lib : Copiers F) where
  time-IsDeep : IsDeep (time_into lib) itself Anywhere
  time-IsDeep = IsDeep-value lib.time_copy (λ t. t) lib.time_copy-same

  condition-IsDeep : IsDeep (condition_into lib) itself Anywhere
  condition-IsDeep = IsDeep-value lib.condition_copy (λ c. c) lib.condition_copy-same

  record-IsDeep : IsDeep (record_into lib) itself Anywhere
  unfolding record_into
  record-IsDeep =
      IsDeep-value (λ r. record r { time = lib.time_copy r.time }) (λ r. r)
        (λ r. ap (λ t. record r { time = t }) (lib.time_copy-same r.time))

  target-IsDeep : IsDeep (target_into lib) view_target WithinTarget
  unfolding target_into
  target-IsDeep =
      let times = IsDeep-pointer time-IsDeep time_slot in
      IsDeep-struct (IsDeep-pair times times) (λ t. (t.last_probe_time, t.last_transition_time))
        (λ t x. record t { last_probe_time = x.0; last_transition_time = x.1 }) target_of
        (λ t x. refl) (λ t x v. refl)

  status-IsDeep : IsDeep (status_into lib) view_status WithinStatus
  unfolding status_into
  status-IsDeep =
      IsDeep-struct
        (IsDeep-pair (IsDeep-pointer (IsDeep-each target-IsDeep) targets_slot) (
          IsDeep-pair (IsDeep-pointer record-IsDeep remediated_slot)
            (IsDeep-pointer (IsDeep-each condition-IsDeep) conditions_slot)))
        (λ s. (s.targets, (s.last_remediation, s.conditions)))
        (λ s x. record s { targets = x.0; last_remediation = x.1.0; conditions = x.1.1 }) status_of
        (λ s x. refl) (λ s x v. refl)

  spec-IsDeep : IsDeep (spec_into lib) (view_spec lib) (WithinSpec lib)
  unfolding spec_into
  spec-IsDeep =
      IsDeep-struct (IsDeep-pair lib.probe-IsDeep remediation-IsDeep)
        (λ s. (s.hotswap_probe, s.remediation))
        (λ s x. record s { hotswap_probe = x.0; remediation = x.1 }) spec_of (λ s x. refl)
        (λ s x v. refl)

  policy-IsDeep : IsDeep (policy_into lib) (view_policy lib) (WithinPolicy lib)
  unfolding policy_into
  policy-IsDeep =
      IsDeep-struct (IsDeep-pair lib.meta-IsDeep (IsDeep-pair spec-IsDeep status-IsDeep))
        (λ p. (p.meta, (p.spec, p.status)))
        (λ p x. record p { meta = x.0; spec = x.1.0; status = x.1.1 }) policy_of (λ p x. refl)
        (λ p x v. refl)

  list-IsDeep : IsDeep (list_into lib) (view_list lib) (WithinList lib)
  unfolding list_into
  list-IsDeep =
      IsDeep-struct
        (IsDeep-pair lib.list_meta-IsDeep (IsDeep-pointer (IsDeep-each policy-IsDeep) items_slot))
        (λ l. (l.meta, l.items)) (λ l x. record l { meta = x.0; items = x.1 }) (list_of lib)
        (λ l x. refl) (λ l x v. refl)

  -- `DeepCopyObject` gives the pointer that `DeepCopy` gives.
  policy_copy_object-copy :
      (o : Option ℕ) (h : Heap F)
      → policy_copy_object lib o h ≡ copy_pointer policy_slot (policy_into lib) o h
  unfolding policy_copy_object policy_copy copy_pointer
  policy_copy_object-copy none h = refl
  policy_copy_object-copy (some p) h = refl

  list_copy_object-copy :
      (o : Option ℕ) (h : Heap F)
      → list_copy_object lib o h ≡ copy_pointer list_slot (list_into lib) o h
  unfolding list_copy_object list_copy copy_pointer
  list_copy_object-copy none h = refl
  list_copy_object-copy (some p) h = refl

  -- The `DeepCopyObject` of a policy whose pointers lead to memory in use reads as the policy does. It still does
  -- when any memory has been written but that from the first address that was free up to the first that now is, and
  -- the policy itself still does when any memory has been written but that which was in use before.
  pub policy_copy_isolated :
      (h g g' : Heap F) (o : Option ℕ)
      → PolicyWithin lib h 0 h.next o
      → Agree h.next (policy_copy_object lib o h).1.next (policy_copy_object lib o h).1 g
      → Agree 0 h.next (policy_copy_object lib o h).1 g'
      → let (o', h') = policy_copy_object lib o h in
        (read_policy lib h' o' ≡ read_policy lib h o)
        × (read_policy lib g o' ≡ read_policy lib h o)
        × (read_policy lib g' o ≡ read_policy lib h o)
  policy_copy_isolated h g g' o =
      rw (policy_copy_object-copy o h)
        (isolated (IsDeep-pointer policy-IsDeep policy_slot) h g g' o)

  -- The `DeepCopyObject` of a list of policies whose pointers lead to memory in use reads as the list does. It still
  -- does when any memory has been written but that from the first address that was free up to the first that now is,
  -- and the list itself still does when any memory has been written but that which was in use before.
  pub list_copy_isolated :
      (h g g' : Heap F) (o : Option ℕ)
      → ListWithin lib h 0 h.next o
      → Agree h.next (list_copy_object lib o h).1.next (list_copy_object lib o h).1 g
      → Agree 0 h.next (list_copy_object lib o h).1 g'
      → let (o', h') = list_copy_object lib o h in
        (read_list lib h' o' ≡ read_list lib h o)
        × (read_list lib g o' ≡ read_list lib h o)
        × (read_list lib g' o ≡ read_list lib h o)
  list_copy_isolated h g g' o =
      rw (list_copy_object-copy o h) (isolated (IsDeep-pointer list-IsDeep list_slot) h g g' o)
