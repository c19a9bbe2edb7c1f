-- ===== src/Cluster/Calls.antt =====
-- The calls that leave the operator, and the environment that answers them. An answer is a function
-- of the calls made before, so that the environment may change in any way between two calls.
use infra_devops.Base.{ℕ, String, Bool, Option, List, Result, Err}
use infra_devops.Base.Int.{ℤ}
use infra_devops.Base.Dict.{Dict}
use infra_devops.Cluster.Objects.{
  NamespacedName, StatefulSet, Pod, Secret, ConfigMap, ServiceAccount, Service, Deployment,
}

-- splclient.SplunkClient: the management URI and the password of `admin`
pub record SplunkClient : Type 0 where
  pub uri : String
  pub password : String

-- What the Splunk REST API reports, as the code reads it.
pub record MemberInfo : Type 0 where
  pub status : String
  pub adhoc : Bool
  pub registered : Bool
  pub active_historical_search_count : ℤ
  pub active_realtime_search_count : ℤ

pub record CaptainInfo : Type 0 where
  pub label : String
  pub service_ready : Bool
  pub initialized : Bool
  pub min_peers_joined : Bool
  pub maintenance_mode : Bool

pub record MasterInfo : Type 0 where
  pub initialized : Bool
  pub indexing_ready : Bool
  pub service_ready : Bool
  pub maintenance_mode : Bool

pub record PeerInfo : Type 0 where
  pub id : String
  pub status : String
  pub active_bundle_id : String
  pub bucket_count : ℤ
  pub searchable : Bool

pub record ClusterInfo : Type 0 where
  pub multi_site : String
  pub replication_factor : ℤ
  pub site_replication_factor : String

-- What PodExecCommand returns: the two outputs of the command, and its error.
pub record Executed : Type 0 where
  pub stdout : String
  pub stderr : String
  pub failure : Option Err

pub data Call : Type 0 where
  get_stateful_set : NamespacedName → Call
  create_stateful_set : StatefulSet → Call
  update_stateful_set : StatefulSet → Call
  get_pod : NamespacedName → Call
  -- with the preconditions on the UID and on the resource version
  delete_pod : String → String → Call
  get_claim : NamespacedName → Call
  delete_claim : NamespacedName → Call
  get_secret : NamespacedName → Call
  create_secret : Secret → Call
  update_secret : Secret → Call
  delete_secret : Secret → Call
  list_secrets : String → Call
  get_config_map : NamespacedName → Call
  create_config_map : ConfigMap → Call
  update_config_map : ConfigMap → Call
  get_service_account : NamespacedName → Call
  create_service_account : ServiceAccount → Call
  update_service_account : ServiceAccount → Call
  get_service : NamespacedName → Call
  create_service : Service → Call
  update_service : Service → Call
  get_deployment : NamespacedName → Call
  create_deployment : Deployment → Call
  update_deployment : Deployment → Call
  get_custom_resource : NamespacedName → Call
  -- the finalizers of the custom resource that is written
  update_custom_resource : List String → Call
  -- the claims of a namespace with a given label `app.kubernetes.io/instance`
  list_claims : String → String → Call
  random : Call
  exec : NamespacedName → String → Call
  set_detention : SplunkClient → Bool → Call
  remove_member : SplunkClient → Call
  member_info : SplunkClient → Call
  captain_info : SplunkClient → Call
  decommission_peer : SplunkClient → Bool → Call
  remove_peer : SplunkClient → String → Call
  master_info : SplunkClient → Call
  master_peers : SplunkClient → Call
  cluster_info : SplunkClient → Call
  set_idxc_secret : SplunkClient → String → Call
  restart : SplunkClient → Call
  -- with the value of ignore_identical_bundle
  push_bundle : SplunkClient → Bool → Call
  clock : Call

abbrev pub History : Type 0
History = List Call

-- A create or an update answers with the object that the server holds then.
pub record Env : Type 0 where
  pub stateful_set_at : History → NamespacedName → Result StatefulSet
  pub stateful_set_created : History → StatefulSet → Result StatefulSet
  pub stateful_set_updated : History → StatefulSet → Result StatefulSet
  pub pod_at : History → NamespacedName → Result Pod
  pub pod_deleted : History → Pod → Option Err
  pub claim_at : History → NamespacedName → Result NamespacedName
  pub claim_deleted : History → NamespacedName → Option Err
  pub secret_at : History → NamespacedName → Result Secret
  pub secret_created : History → Secret → Result Secret
  pub secret_updated : History → Secret → Result Secret
  pub secret_deleted : History → Secret → Option Err
  pub secrets_in : History → String → Result (List Secret)
  pub config_map_at : History → NamespacedName → Result ConfigMap
  pub config_map_created : History → ConfigMap → Result ConfigMap
  pub config_map_updated : History → ConfigMap → Result ConfigMap
  pub service_account_at : History → NamespacedName → Result ServiceAccount
  pub service_account_created : History → ServiceAccount → Result ServiceAccount
  pub service_account_updated : History → ServiceAccount → Result ServiceAccount
  pub service_at : History → NamespacedName → Result Service
  pub service_created : History → Service → Result Service
  pub service_updated : History → Service → Result Service
  pub deployment_at : History → NamespacedName → Result Deployment
  pub deployment_created : History → Deployment → Result Deployment
  pub deployment_updated : History → Deployment → Result Deployment
  pub custom_resource_at : History → NamespacedName → Option Err
  pub custom_resource_updated : History → List String → Option Err
  pub claims_of : History → String → String → Result (List NamespacedName)
  pub random_number : History → ℕ
  pub executed : History → NamespacedName → String → Executed
  pub detention_set : History → SplunkClient → Bool → Option Err
  pub member_removed : History → SplunkClient → Option Err
  pub member : History → SplunkClient → Result MemberInfo
  pub captain : History → SplunkClient → Result CaptainInfo
  pub peer_decommissioned : History → SplunkClient → Bool → Option Err
  pub peer_removed : History → SplunkClient → String → Option Err
  pub master : History → SplunkClient → Result MasterInfo
  pub peers : History → SplunkClient → Result (Dict PeerInfo)
  pub cluster : History → SplunkClient → Result ClusterInfo
  pub idxc_secret_set : History → SplunkClient → String → Option Err
  pub restarted : History → SplunkClient → Option Err
  pub bundle_pushed : History → SplunkClient → Bool → Option Err
  -- time.Now().Unix()
  pub now : History → ℤ
  -- CLUSTER_DOMAIN and IMAGE_PULL_POLICY in the operator's environment, empty if unset
  pub cluster_domain : String
  pub image_pull_policy : String
