-- ===== src/Api/DeepCopy/Views.antt =====
-- What the structs in memory read as, in the types of Api, and where their pointers lead. A nil slice and an empty
-- one read the same.
use hotswap_operator.Prelude.{ℕ, Bool, Option, none, some, List, [], map, All}
use hotswap_operator.Api.Kube.{Time, Probe, ObjectMeta, Condition}
use hotswap_operator.Api.{
  RemediationSpec, RemediationRecord, TargetHealth, HotSwapPolicyStatus, HotSwapPolicySpec,
  HotSwapPolicy,
}
use hotswap_operator.Api.Memory.{
  Foreign, TypeMeta, RemediationMem, TargetMem, StatusMem, SpecMem, PolicyMem, ListMem, Heap, Slot,
}
use hotswap_operator.Api.Memory.Copies.{Anywhere}
use hotswap_operator.Api.Memory.Pointers.{view_pointer, WithinPointer}
use hotswap_operator.Api.DeepCopy.{
  Copiers, bool_slot, time_slot, remediated_slot, policy_slot, list_slot, targets_slot,
  conditions_slot, items_slot,
}

-- The elements of a slice.
abbrev pub elements : {V : Type 0} → Option (List V) → List V
elements none = []
elements (some xs) = xs

-- The structs, given what their pointers and their library structs read as.
abbrev pub remediation_of : RemediationMem → Option Bool → RemediationSpec
remediation_of m stable = record {
  strategy = m.strategy;
  require_stable = stable;
  max_consecutive_attempts = m.max_consecutive_attempts;
  cooldown_seconds = m.cooldown_seconds;
  max_concurrent = m.max_concurrent;
  systemic_failure_skip_percent = m.systemic_failure_skip_percent;
  dry_run = m.dry_run;
}

abbrev pub target_of : TargetMem → Option Time × Option Time → TargetHealth
target_of t v = record {
  pod_name = t.pod_name;
  pod_ip = t.pod_ip;
  healthy = t.healthy;
  consecutive_failures = t.consecutive_failures;
  last_probe_time = v.0;
  last_transition_time = v.1;
}

abbrev pub status_of :
    StatusMem
    → Option (List TargetHealth) × (Option RemediationRecord × Option (List Condition))
    → HotSwapPolicyStatus
status_of s v = record {
  observed_generation = s.observed_generation;
  targets = elements v.0;
  last_remediation = v.1.0;
  consecutive_attempts = s.consecutive_attempts;
  conditions = elements v.1.1;
}

-- The object with its metav1.TypeMeta, which the types of Api leave out.
abbrev pub TypedPolicy : Type 0
TypedPolicy = TypeMeta × HotSwapPolicy

module _ {F : Foreign} where
  -- What a value that is copied by an assignment reads as.
  abbrev pub itself : {A : Type 0} → Heap F → A → A
  itself h a = a

  abbrev pub view_slice :
      {A V : Type 0} → Slot F (List A) → (Heap F → A → V) → Heap F → Option ℕ → Option (List V)
  view_slice slot view = view_pointer slot (λ h. map (view h))

  abbrev pub WithinSlice :
      {A : Type 0}
      → Slot F (List A)
      → (Heap F → ℕ → ℕ → A → Type 0)
      → Heap F
      → ℕ
      → ℕ
      → Option ℕ
      → Type 0
  WithinSlice slot W = WithinPointer slot (λ h lo hi. All (W h lo hi))

  abbrev pub view_remediation : Heap F → RemediationMem → RemediationSpec
  view_remediation h m = remediation_of m (view_pointer bool_slot itself h m.require_stable)

  abbrev pub WithinRemediation : Heap F → ℕ → ℕ → RemediationMem → Type 0
  WithinRemediation h lo hi m = WithinPointer bool_slot Anywhere h lo hi m.require_stable

  abbrev pub view_target : Heap F → TargetMem → TargetHealth
  view_target h t = target_of t (
    view_pointer time_slot itself h t.last_probe_time,
    view_pointer time_slot itself h t.last_transition_time,
  )

  abbrev pub WithinTarget : Heap F → ℕ → ℕ → TargetMem → Type 0
  WithinTarget h lo hi t =
      WithinPointer time_slot Anywhere h lo hi t.last_probe_time
      × WithinPointer time_slot Anywhere h lo hi t.last_transition_time

  abbrev pub view_status : Heap F → StatusMem → HotSwapPolicyStatus
  view_status h s = status_of s (
    view_slice targets_slot view_target h s.targets,
    (
      view_pointer remediated_slot itself h s.last_remediation,
      view_slice conditions_slot itself h s.conditions,
    ),
  )

  abbrev pub WithinStatus : Heap F → ℕ → ℕ → StatusMem → Type 0
  WithinStatus h lo hi s =
      WithinSlice targets_slot WithinTarget h lo hi s.targets
      × (WithinPointer remediated_slot Anywhere h lo hi s.last_remediation
          × WithinSlice conditions_slot Anywhere h lo hi s.conditions)

  abbrev pub spec_of : SpecMem F → Probe × RemediationSpec → HotSwapPolicySpec
  spec_of s v = record { target_ref = s.target_ref; hotswap_probe = v.0; remediation = v.1 }

  abbrev pub policy_of :
      PolicyMem F → ObjectMeta × (HotSwapPolicySpec × HotSwapPolicyStatus) → TypedPolicy
  policy_of p v = (p.type_meta, record { meta = v.0; spec = v.1.0; status = v.1.1 })

module _ {F : Foreign} (lib : Copiers F) where
  abbrev pub view_spec : Heap F → SpecMem F → HotSwapPolicySpec
  view_spec h s = spec_of s (lib.probe_view h s.hotswap_probe, view_remediation h s.remediation)

  abbrev pub WithinSpec : Heap F → ℕ → ℕ → SpecMem F → Type 0
  WithinSpec h lo hi s =
      lib.ProbeWithin h lo hi s.hotswap_probe × WithinRemediation h lo hi s.remediation

  abbrev pub view_policy : Heap F → PolicyMem F → TypedPolicy
  view_policy h p =
      policy_of p (lib.meta_view h p.meta, (view_spec h p.spec, view_status h p.status))

  abbrev pub WithinPolicy : Heap F → ℕ → ℕ → PolicyMem F → Type 0
  WithinPolicy h lo hi p =
      lib.MetaWithin h lo hi p.meta × (WithinSpec h lo hi p.spec × WithinStatus h lo hi p.status)

  -- A list, with its metav1.TypeMeta and its metav1.ListMeta.
  abbrev pub TypedList : Type 0
  TypedList = TypeMeta × (lib.ListMeta × List TypedPolicy)

  abbrev pub list_of : ListMem F → lib.ListMeta × Option (List TypedPolicy) → TypedList
  list_of l v = (l.type_meta, (v.0, elements v.1))

  abbrev pub view_list : Heap F → ListMem F → TypedList
  view_list h l =
      list_of l (lib.list_meta_view h l.meta, view_slice items_slot view_policy h l.items)

  abbrev pub WithinList : Heap F → ℕ → ℕ → ListMem F → Type 0
  WithinList h lo hi l =
      lib.ListMetaWithin h lo hi l.meta × WithinSlice items_slot WithinPolicy h lo hi l.items

  -- What a pointer to a policy, and one to a list, reads as, and where it leads.
  abbrev pub read_policy : Heap F → Option ℕ → Option TypedPolicy
  read_policy = view_pointer policy_slot view_policy

  abbrev pub PolicyWithin : Heap F → ℕ → ℕ → Option ℕ → Type 0
  PolicyWithin = WithinPointer policy_slot WithinPolicy

  abbrev pub read_list : Heap F → Option ℕ → Option TypedList
  read_list = view_pointer list_slot view_list

  abbrev pub ListWithin : Heap F → ℕ → ℕ → Option ℕ → Type 0
  ListWithin = WithinPointer list_slot WithinList
