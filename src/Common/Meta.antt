-- ===== src/Common/Meta.antt =====
-- Metadata of pkg/splunk/common/util.go: owner references, and what a child takes from its parent.
use infra_devops.Base.{
  String, Bool, true, false, ◌&&◌, not, [], ◌∷◌, if◌then◌else◌, str_eq, ◌≡◌, ◌↔◌, arith, eq_iff,
}
use infra_devops.Base.Dict.{Dict, lookup, insert, is_some}
use infra_devops.Cluster.{OwnerReference}
use text.Mathlib.Text.{starts_with}

-- What the code asks of a custom resource's metadata.
pub record MetaObject : Type 0 where
  pub api_version : String
  pub kind : String
  pub name : String
  pub namespace : String
  pub uid : String

unfoldable pub as_owner : MetaObject → Bool → OwnerReference
as_owner cr is_controller = record {
  api_version = cr.api_version;
  kind = cr.kind;
  name = cr.name;
  uid = cr.uid;
  controller = is_controller;
}

same_flag : Bool → Bool → Bool
same_flag true b = b
same_flag false b = not b

-- reflect.DeepEqual on owner references
unfoldable pub owner_eq : OwnerReference → OwnerReference → Bool
unfolding same_flag
owner_eq a b =
    str_eq a.api_version b.api_version
    && str_eq a.kind b.kind
    && str_eq a.name b.name
    && str_eq a.uid b.uid
    && same_flag a.controller b.controller

pub owner_eq_iff : (a b : OwnerReference) → (owner_eq a b ≡ true) ↔ (a ≡ b)
unfolding owner_eq
owner_eq_iff a b = ground (
  arith,
  eq_iff a.api_version b.api_version,
  eq_iff a.kind b.kind,
  eq_iff a.name b.name,
  eq_iff a.uid b.uid,
)

-- for k, v := range parent { if _, ok := child[k]; !ok && keep(k) { child[k] = v } }
unfoldable pub append_missing : (String → Bool) → Dict String → Dict String → Dict String
append_missing keep child [] = child
append_missing keep child ((k, v) ∷ parent) =
    append_missing keep
      (if not (is_some (lookup k child)) && keep k then insert k v child else child) parent

all_keys : String → Bool
all_keys k = true

not_kubectl : String → Bool
not_kubectl k = not (starts_with k "kubectl.kubernetes.io/")

-- The labels and the annotations of a child and of its parent.
pub record ObjectMeta : Type 0 where
  pub labels : Dict String
  pub annotations : Dict String

unfoldable pub append_parent_meta : ObjectMeta → ObjectMeta → ObjectMeta
unfolding all_keys not_kubectl
append_parent_meta child parent = record {
  labels = append_missing all_keys child.labels parent.labels;
  annotations = append_missing not_kubectl child.annotations parent.annotations;
}
