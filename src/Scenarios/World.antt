-- ===== src/Scenarios/World.antt =====
-- A concrete environment and concrete objects for the scenarios.
use infra_devops.Base.{String, true, false, Option, none, some, [], ◌∷◌, message, ok, err}
use infra_devops.Base.Int.{ℤ, pos}
use infra_devops.Cluster.{PodTemplate, StatefulSet, Pod, Secret, Env, State}

abbrev pub splunk_pod : String → Pod
splunk_pod revision = record {
  uid = "uid";
  resource_version = "7";
  labels = ("controller-revision-hash", revision) ∷ [];
  volumes = record { name = "mnt-splunk-secrets"; source_size = 1; secret_name = "s" } ∷ [];
  phase = "Running";
  containers_ready = true ∷ [];
}

abbrev pub pod_secret : Secret
pod_secret = record {
  id = record { namespace = "ns"; name = "s" };
  resource_version = "1";
  owner_references = [];
  data_map = some (("password", "pw") ∷ ("idxc_secret", "i") ∷ ("shc_secret", "h") ∷ []);
  rest = "";
}

-- Every read finds an object, every write succeeds; pods have the given revision.
abbrev pub world : String → Env
world revision = record {
  stateful_set_at = λ h id. err (message "not found");
  stateful_set_created = λ h ss. ok ss;
  stateful_set_updated = λ h ss. ok ss;
  pod_at = λ h id. ok (splunk_pod revision);
  pod_deleted = λ h pod. none;
  claim_at = λ h id. ok id;
  claim_deleted = λ h id. none;
  secret_at = λ h id. ok pod_secret;
  secret_created = λ h s. ok s;
  secret_updated = λ h s. ok s;
  secret_deleted = λ h s. none;
  secrets_in = λ h ns. ok [];
  config_map_at = λ h id. err (message "not found");
  config_map_created = λ h x. ok x;
  config_map_updated = λ h x. ok x;
  service_account_at = λ h id. err (message "not found");
  service_account_created = λ h x. ok x;
  service_account_updated = λ h x. ok x;
  service_at = λ h id. err (message "not found");
  service_created = λ h x. ok x;
  service_updated = λ h x. ok x;
  deployment_at = λ h id. err (message "not found");
  deployment_created = λ h x. ok x;
  deployment_updated = λ h x. ok x;
  custom_resource_at = λ h id. none;
  custom_resource_updated = λ h fs. none;
  claims_of = λ h ns label. ok [];
  random_number = λ h. 0;
  executed = λ h id command. record { stdout = ""; stderr = ""; failure = none };
  detention_set = λ h c b. none;
  member_removed = λ h c. none;
  member = λ h c. ok (record {
    status = "Up";
    adhoc = false;
    registered = true;
    active_historical_search_count = pos 0;
    active_realtime_search_count = pos 0;
  });
  captain = λ h c. ok (record {
    label = "captain";
    service_ready = true;
    initialized = true;
    min_peers_joined = true;
    maintenance_mode = false;
  });
  peer_decommissioned = λ h c b. none;
  peer_removed = λ h c id. none;
  master = λ h c. ok (record {
    initialized = true;
    indexing_ready = true;
    service_ready = true;
    maintenance_mode = false;
  });
  peers = λ h c. ok [];
  cluster = λ h c.
      ok
        (record { multi_site = "false"; replication_factor = pos 3; site_replication_factor = "" });
  idxc_secret_set = λ h c s. none;
  restarted = λ h c. none;
  bundle_pushed = λ h c ignore. none;
  now = λ h. pos 100;
  cluster_domain = "";
  image_pull_policy = "";
}

abbrev pub template : PodTemplate
template = record {
  annotations = none;
  labels = none;
  spec = record {
    affinity = "{}";
    tolerations = none;
    scheduler_name = "default-scheduler";
    volumes = none;
    init_containers = [];
    containers = [];
  };
}

-- A stateful set with `n` replicas, all of them ready, at revision "b".
abbrev pub indexers : ℤ → StatefulSet
indexers n = record {
  id = record { namespace = "ns"; name = "idx" };
  owner_references = [];
  replicas = n;
  template = template;
  volume_claim_templates = record { namespace = "ns"; name = "pvc-etc" } ∷ [];
  status_replicas = n;
  ready_replicas = n;
  update_revision = "b";
}

abbrev pub begin : {S : Type 0} → S → State S
begin own = record { own = own; calls = [] }

-- What a run returned, and a given value where it panicked.
abbrev pub result_of : {S A : Type 0} → A × State S → Option (A × State S) → A × State S
result_of d none = d
result_of d (some r) = r
