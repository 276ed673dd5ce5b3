-- ===== src/Examples/Copies.antt =====
-- A policy in memory, with one target and a remediation on record, and its deep copy.
use hotswap_operator.Prelude.{ℕ, pos, String, true, false, ◌≡◌, refl, none, some, [], ◌∷◌, arith}
use hotswap_operator.Api.Kube.{ObjectMeta, Probe}
use hotswap_operator.Api.{TargetReference, RemediationRecord, rollout_restart, auto}
use hotswap_operator.Api.Memory.{
  Foreign, TypeMeta, RemediationMem, TargetMem, StatusMem, SpecMem, PolicyMem, Cell, Heap, write,
}
use hotswap_operator.Api.Memory.Copies.{Anywhere, IsDeep-value}
use hotswap_operator.Api.DeepCopy.{Copiers, policy_copy_object, list_copy_object}
use hotswap_operator.Api.DeepCopy.Views.{read_policy, PolicyWithin, read_list, ListWithin}
use hotswap_operator.Api.DeepCopy.Isolation.{policy_copy_isolated, list_copy_isolated}
use hotswap_operator.Examples.World.{meta_of, probe}

-- The library's structs as plain values.
abbrev plain : Foreign
plain = record { ObjectMetaMem = ObjectMeta; ListMetaMem = String; ProbeMem = Probe; Memory = ℕ }

abbrev copiers : Copiers plain
copiers = record {
  meta_into = λ m h. (m, h);
  meta_view = λ h m. m;
  MetaWithin = Anywhere;
  meta-IsDeep = IsDeep-value (λ m. m) (λ m. m) (λ m. refl);
  ListMeta = String;
  list_meta_into = λ m h. (m, h);
  list_meta_view = λ h m. m;
  ListMetaWithin = Anywhere;
  list_meta-IsDeep = IsDeep-value (λ m. m) (λ m. m) (λ m. refl);
  probe_into = λ m h. (m, h);
  probe_view = λ h m. m;
  ProbeWithin = Anywhere;
  probe-IsDeep = IsDeep-value (λ m. m) (λ m. m) (λ m. refl);
  time_copy = λ t. t;
  time_copy-same = λ t. refl;
  condition_copy = λ c. c;
  condition_copy-same = λ c. refl;
}

abbrev reference : TargetReference
reference = record { api_version = "apps/v1"; kind = "Deployment"; name = "web" }

abbrev type_meta : TypeMeta
type_meta = record { kind = "HotSwapPolicy"; api_version = "hotswap.io/v1alpha1" }

abbrev remediation : RemediationMem
remediation = record {
  strategy = auto;
  require_stable = some 3;
  max_consecutive_attempts = pos 3;
  cooldown_seconds = pos 60;
  max_concurrent = pos 1;
  systemic_failure_skip_percent = pos 50;
  dry_run = false;
}

abbrev target : TargetMem
target = record {
  pod_name = "web-1";
  pod_ip = "10.0.0.1";
  healthy = false;
  consecutive_failures = pos 2;
  last_probe_time = some 3;
  last_transition_time = none;
}

abbrev status : StatusMem
status = record {
  observed_generation = pos 1;
  targets = some 1;
  last_remediation = some 2;
  consecutive_attempts = pos 1;
  conditions = none;
}

abbrev spec : SpecMem plain
spec = record { target_ref = reference; hotswap_probe = probe; remediation = remediation }

abbrev policy : PolicyMem plain
policy = record { type_meta = type_meta; meta = meta_of "guard"; spec = spec; status = status }

abbrev remediated : RemediationRecord
remediated = record {
  pod_name = "web-0";
  strategy = rollout_restart;
  time = 500;
  reason = "failed";
}

abbrev cell : Cell plain
cell = record {
  bool = true;
  time = 900;
  reference = reference;
  remediation = remediation;
  remediated = remediated;
  target = target;
  status = status;
  spec = spec;
  policy = policy;
  list = record { type_meta = type_meta; meta = ""; items = none };
  targets = target ∷ [];
  conditions = [];
  items = [];
  foreign = 0;
}

-- The policy at 0, its array of targets at 1, the remediation on record at 2, a Boolean and a time at 3.
abbrev heap : Heap plain
heap = record { next = 4; cell = λ a. cell }

abbrev copied : Heap plain
copied = (policy_copy_object copiers (some 0) heap).1

-- The targets of the original are written, and then those of the copy.
abbrev original_written : Heap plain
original_written = write 1 (λ c. record c { targets = [] }) copied

abbrev copy_written : Heap plain
copy_written = write 5 (λ c. record c { targets = [] }) copied

policy-Within : PolicyWithin copiers heap 0 4 (some 0)
policy-Within = (
  omega arith,
  omega arith,
  (
    tt,
    (
      (tt, (omega arith, omega arith, tt)),
      (
        (omega arith, omega arith, (((omega arith, omega arith, tt), tt), tt)),
        ((omega arith, omega arith, tt), tt),
      ),
    ),
  ),
)

policy_copy_isolated_example :
    let (o', h') = policy_copy_object copiers (some 0) heap in
    (read_policy copiers h' o' ≡ read_policy copiers heap (some 0))
    × (read_policy copiers original_written o' ≡ read_policy copiers heap (some 0))
    × (read_policy copiers copy_written (some 0) ≡ read_policy copiers heap (some 0))
policy_copy_isolated_example =
    policy_copy_isolated copiers heap original_written copy_written (some 0) policy-Within
      (λ a l u. ground arith) (λ a l u. ground arith)

-- A list at 4 with its array at 5, which holds the policy of before.
abbrev listed : Heap plain
listed = record {
  next = 6;
  cell = λ a. record cell {
    list = record { type_meta = type_meta; meta = "7"; items = some 5 };
    items = policy ∷ [];
  };
}

listed-Within : ListWithin copiers listed 0 6 (some 4)
listed-Within = (
  omega arith,
  omega arith,
  (
    tt,
    (
      omega arith,
      omega arith,
      (
        (
          tt,
          (
            (tt, (omega arith, omega arith, tt)),
            (
              (omega arith, omega arith, (((omega arith, omega arith, tt), tt), tt)),
              ((omega arith, omega arith, tt), tt),
            ),
          ),
        ),
        tt,
      ),
    ),
  ),
)

-- The policies of the original are written, and then those of the copy.
abbrev list_copied : Heap plain
list_copied = (list_copy_object copiers (some 4) listed).1

abbrev list_written : Heap plain
list_written = write 5 (λ c. record c { items = [] }) list_copied

abbrev list_copy_written : Heap plain
list_copy_written = write 7 (λ c. record c { items = [] }) list_copied

list_copy_isolated_example :
    let (o', h') = list_copy_object copiers (some 4) listed in
    (read_list copiers h' o' ≡ read_list copiers listed (some 4))
    × (read_list copiers list_written o' ≡ read_list copiers listed (some 4))
    × (read_list copiers list_copy_written (some 4) ≡ read_list copiers listed (some 4))
list_copy_isolated_example =
    list_copy_isolated copiers listed list_written list_copy_written (some 4) listed-Within
      (λ a l u. ground arith) (λ a l u. ground arith)
