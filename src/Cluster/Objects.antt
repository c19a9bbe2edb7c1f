-- ===== src/Cluster/Objects.antt =====
-- The fields of Kubernetes objects that the code reads or writes. What it only copies or compares
-- as a whole is one text, the JSON of the value.
use infra_devops.Base.{ℕ, String, Bool, Option, List}
use infra_devops.Base.Int.{ℤ}
use infra_devops.Base.Dict.{Dict}

-- types.NamespacedName
pub record NamespacedName : Type 0 where
  pub namespace : String
  pub name : String

-- metav1.OwnerReference, with the value of the pointer `Controller`
pub record OwnerReference : Type 0 where
  pub api_version : String
  pub kind : String
  pub name : String
  pub uid : String
  pub controller : Bool

-- A slice that may be nil, as `none`.
abbrev pub Slice : Type 0 → Type 0
Slice A = Option (List A)

-- An element of a slice that is sorted by one of its fields: that field, and the other fields.
pub record Keyed (K : Type 0) : Type 0 where
  pub key : K
  pub rest : String

pub record Container : Type 0 where
  pub image : String
  pub ports : Slice (Keyed ℤ)
  pub volume_mounts : Slice (Keyed String)
  pub resources : String
  pub env : Slice (Keyed String)

pub record PodSpec : Type 0 where
  pub affinity : String
  pub tolerations : Slice (Keyed String)
  pub scheduler_name : String
  pub volumes : Slice (Keyed String)
  pub init_containers : List String
  pub containers : List Container

pub record PodTemplate : Type 0 where
  pub annotations : Option (Dict String)
  pub labels : Option (Dict String)
  pub spec : PodSpec

pub record StatefulSet : Type 0 where
  pub id : NamespacedName
  pub owner_references : List OwnerReference
  pub replicas : ℤ
  pub template : PodTemplate
  pub volume_claim_templates : List NamespacedName
  pub status_replicas : ℤ
  pub ready_replicas : ℤ
  pub update_revision : String

-- A volume of a running pod: its name, VolumeSource.Size(), and the name of its secret.
pub record PodVolume : Type 0 where
  pub name : String
  pub source_size : ℕ
  pub secret_name : String

pub record Pod : Type 0 where
  pub uid : String
  pub resource_version : String
  pub labels : Dict String
  pub volumes : List PodVolume
  pub phase : String
  pub containers_ready : List Bool

-- `none` is a nil Data; `rest` is the text of the other fields, empty as the code builds them.
pub record Secret : Type 0 where
  pub id : NamespacedName
  pub resource_version : String
  pub owner_references : List OwnerReference
  pub data_map : Option (Dict String)
  pub rest : String

pub record ConfigMap : Type 0 where
  pub id : NamespacedName
  pub resource_version : String
  pub owner_references : List OwnerReference
  pub data_map : Option (Dict String)

pub record ServiceAccount : Type 0 where
  pub id : NamespacedName
  pub rest : String

pub record ServiceSpec : Type 0 where
  pub kind : String
  pub external_name : String
  pub external_traffic_policy : String
  pub external_ips : Slice String
  pub ports : Slice (Keyed ℤ)

pub record Service : Type 0 where
  pub id : NamespacedName
  pub spec : ServiceSpec

-- `replicas` is `none` for a nil pointer.
pub record Deployment : Type 0 where
  pub id : NamespacedName
  pub replicas : Option ℤ
  pub template : PodTemplate
  pub status_replicas : ℤ
  pub updated_replicas : ℤ
  pub ready_replicas : ℤ
