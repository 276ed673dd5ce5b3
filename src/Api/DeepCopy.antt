-- ===== src/Api/DeepCopy.antt =====
-- The deep copies of api/v1alpha1/zz_generated.deepcopy.go, on the memory of Api/Memory. A `DeepCopyInto` gives the
-- struct that it writes to `out`; a `DeepCopy` takes an address, or nil, and gives one.
pub mod Views
pub mod Isolation
use hotswap_operator.Prelude.{ℕ, Bool, ◌≡◌, refl, Option, none, some, List}
use hotswap_operator.Api.Kube.{Time, ObjectMeta, Probe, Condition}
use hotswap_operator.Api.{TargetReference, RemediationRecord}
use hotswap_operator.Api.Memory.{
  Foreign, RemediationMem, TargetMem, StatusMem, SpecMem, PolicyMem, ListMem, Heap, Slot,
  copy_pointer, copy_each, copy_slice,
}
use hotswap_operator.Api.Memory.Copies.{IsDeep}

-- `if c := in.DeepCopy(); c != nil { return c }; return nil`: a nil pointer gives a nil interface.
abbrev pub as_object : Option ℕ → Option ℕ
as_object none = none
as_object (some p) = some p

-- The `DeepCopyInto` of the library's structs that own memory, each with what it reads as and where it leads; they
-- are deep. A metav1.Time is documented to be safe to copy by an assignment, and metav1.Condition owns no memory.
pub record Copiers (F : Foreign) : Type 1 where
  pub meta_into : F.ObjectMetaMem → Heap F → F.ObjectMetaMem × Heap F
  pub meta_view : Heap F → F.ObjectMetaMem → ObjectMeta
  pub MetaWithin : Heap F → ℕ → ℕ → F.ObjectMetaMem → Type 0
  pub meta-IsDeep : IsDeep meta_into meta_view MetaWithin
  pub ListMeta : Type 0
  pub list_meta_into : F.ListMetaMem → Heap F → F.ListMetaMem × Heap F
  pub list_meta_view : Heap F → F.ListMetaMem → ListMeta
  pub ListMetaWithin : Heap F → ℕ → ℕ → F.ListMetaMem → Type 0
  pub list_meta-IsDeep : IsDeep list_meta_into list_meta_view ListMetaWithin
  pub probe_into : F.ProbeMem → Heap F → F.ProbeMem × Heap F
  pub probe_view : Heap F → F.ProbeMem → Probe
  pub ProbeWithin : Heap F → ℕ → ℕ → F.ProbeMem → Type 0
  pub probe-IsDeep : IsDeep probe_into probe_view ProbeWithin
  pub time_copy : Time → Time
  pub time_copy-same : (t : Time) → time_copy t ≡ t
  pub condition_copy : Condition → Condition
  pub condition_copy-same : (c : Condition) → condition_copy c ≡ c

module _ {F : Foreign} where
  abbrev pub bool_slot : Slot F Bool
  bool_slot = record {
    get = λ c. c.bool;
    put = λ x c. record c { bool = x };
    get-put = λ x c. refl;
  }

  abbrev pub time_slot : Slot F Time
  time_slot = record {
    get = λ c. c.time;
    put = λ x c. record c { time = x };
    get-put = λ x c. refl;
  }

  abbrev pub reference_slot : Slot F TargetReference
  reference_slot = record {
    get = λ c. c.reference;
    put = λ x c. record c { reference = x };
    get-put = λ x c. refl;
  }

  abbrev pub remediation_slot : Slot F RemediationMem
  remediation_slot = record {
    get = λ c. c.remediation;
    put = λ x c. record c { remediation = x };
    get-put = λ x c. refl;
  }

  abbrev pub remediated_slot : Slot F RemediationRecord
  remediated_slot = record {
    get = λ c. c.remediated;
    put = λ x c. record c { remediated = x };
    get-put = λ x c. refl;
  }

  abbrev pub target_slot : Slot F TargetMem
  target_slot = record {
    get = λ c. c.target;
    put = λ x c. record c { target = x };
    get-put = λ x c. refl;
  }

  abbrev pub status_slot : Slot F StatusMem
  status_slot = record {
    get = λ c. c.status;
    put = λ x c. record c { status = x };
    get-put = λ x c. refl;
  }

  abbrev pub spec_slot : Slot F (SpecMem F)
  spec_slot = record {
    get = λ c. c.spec;
    put = λ x c. record c { spec = x };
    get-put = λ x c. refl;
  }

  abbrev pub policy_slot : Slot F (PolicyMem F)
  policy_slot = record {
    get = λ c. c.policy;
    put = λ x c. record c { policy = x };
    get-put = λ x c. refl;
  }

  abbrev pub list_slot : Slot F (ListMem F)
  list_slot = record {
    get = λ c. c.list;
    put = λ x c. record c { list = x };
    get-put = λ x c. refl;
  }

  abbrev pub targets_slot : Slot F (List TargetMem)
  targets_slot = record {
    get = λ c. c.targets;
    put = λ x c. record c { targets = x };
    get-put = λ x c. refl;
  }

  abbrev pub conditions_slot : Slot F (List Condition)
  conditions_slot = record {
    get = λ c. c.conditions;
    put = λ x c. record c { conditions = x };
    get-put = λ x c. refl;
  }

  abbrev pub items_slot : Slot F (List (PolicyMem F))
  items_slot = record {
    get = λ c. c.items;
    put = λ x c. record c { items = x };
    get-put = λ x c. refl;
  }

  -- `**out = **in`.
  abbrev pub assigned : {A : Type 0} → A → Heap F → A × Heap F
  assigned x h = (x, h)

  -- `(*TargetReference).DeepCopyInto`.
  unfoldable pub reference_into : TargetReference → Heap F → TargetReference × Heap F
  reference_into r h = (r, h)

  -- `(*RemediationSpec).DeepCopyInto`.
  unfoldable pub remediation_into : RemediationMem → Heap F → RemediationMem × Heap F
  remediation_into m h =
      let (stable, h') = copy_pointer bool_slot assigned m.require_stable h in
      (record m { require_stable = stable }, h')

module _ {F : Foreign} (lib : Copiers F) where
  abbrev pub time_into : Time → Heap F → Time × Heap F
  time_into t h = (lib.time_copy t, h)

  abbrev pub condition_into : Condition → Heap F → Condition × Heap F
  condition_into c h = (lib.condition_copy c, h)

  -- `(*RemediationRecord).DeepCopyInto`.
  unfoldable pub record_into : RemediationRecord → Heap F → RemediationRecord × Heap F
  record_into r h = (record r { time = lib.time_copy r.time }, h)

  -- `(*TargetHealth).DeepCopyInto`; the `DeepCopy` of a time makes a new one.
  unfoldable pub target_into : TargetMem → Heap F → TargetMem × Heap F
  target_into t h =
      let (probed, h1) = copy_pointer time_slot time_into t.last_probe_time h in
      let (moved, h2) = copy_pointer time_slot time_into t.last_transition_time h1 in
      (record t { last_probe_time = probed; last_transition_time = moved }, h2)

  -- `(*HotSwapPolicyStatus).DeepCopyInto`.
  unfoldable pub status_into : StatusMem → Heap F → StatusMem × Heap F
  status_into s h =
      let (targets, h1) = copy_slice targets_slot target_into s.targets h in
      let (last, h2) = copy_pointer remediated_slot record_into s.last_remediation h1 in
      let (conditions, h3) = copy_slice conditions_slot condition_into s.conditions h2 in
      (record s { targets = targets; last_remediation = last; conditions = conditions }, h3)

  -- `(*HotSwapPolicySpec).DeepCopyInto`.
  unfoldable pub spec_into : SpecMem F → Heap F → SpecMem F × Heap F
  spec_into s h =
      let (probe, h1) = lib.probe_into s.hotswap_probe h in
      let (remediation, h2) = remediation_into s.remediation h1 in
      (record s { hotswap_probe = probe; remediation = remediation }, h2)

  -- `(*HotSwapPolicy).DeepCopyInto`.
  unfoldable pub policy_into : PolicyMem F → Heap F → PolicyMem F × Heap F
  policy_into p h =
      let (meta, h1) = lib.meta_into p.meta h in
      let (spec, h2) = spec_into p.spec h1 in
      let (status, h3) = status_into p.status h2 in
      (record p { meta = meta; spec = spec; status = status }, h3)

  -- `(*HotSwapPolicyList).DeepCopyInto`.
  unfoldable pub list_into : ListMem F → Heap F → ListMem F × Heap F
  list_into l h =
      let (meta, h1) = lib.list_meta_into l.meta h in
      let (items, h2) = copy_slice items_slot policy_into l.items h1 in
      (record l { meta = meta; items = items }, h2)

  -- `(*HotSwapPolicy).DeepCopy`, and the same for the other types.
  unfoldable pub policy_copy : Option ℕ → Heap F → Option ℕ × Heap F
  policy_copy = copy_pointer policy_slot policy_into

  unfoldable pub list_copy : Option ℕ → Heap F → Option ℕ × Heap F
  list_copy = copy_pointer list_slot list_into

  unfoldable pub spec_copy : Option ℕ → Heap F → Option ℕ × Heap F
  spec_copy = copy_pointer spec_slot spec_into

  unfoldable pub status_copy : Option ℕ → Heap F → Option ℕ × Heap F
  status_copy = copy_pointer status_slot status_into

  unfoldable pub record_copy : Option ℕ → Heap F → Option ℕ × Heap F
  record_copy = copy_pointer remediated_slot record_into

  unfoldable pub target_copy : Option ℕ → Heap F → Option ℕ × Heap F
  target_copy = copy_pointer target_slot target_into

  -- `(*HotSwapPolicy).DeepCopyObject`, and that of the list.
  unfoldable pub policy_copy_object : Option ℕ → Heap F → Option ℕ × Heap F
  policy_copy_object o h = let (c, h') = policy_copy o h in (as_object c, h')

  unfoldable pub list_copy_object : Option ℕ → Heap F → Option ℕ × Heap F
  list_copy_object o h = let (c, h') = list_copy o h in (as_object c, h')

module _ {F : Foreign} where
  unfoldable pub remediation_copy : Option ℕ → Heap F → Option ℕ × Heap F
  remediation_copy = copy_pointer remediation_slot remediation_into

  unfoldable pub reference_copy : Option ℕ → Heap F → Option ℕ × Heap F
  reference_copy = copy_pointer reference_slot reference_into
