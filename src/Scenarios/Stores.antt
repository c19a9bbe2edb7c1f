-- ===== src/Scenarios/Stores.antt =====
-- Concrete inputs of the theorems on SmartStore and on the cluster master.
use infra_devops.Base.{
  ◌+◌, ◌≤◌, String, true, false, Option, none, some, [], ◌∷◌, Err, ok, ◌≡◌, ◌↔◌, refl,
}
use infra_devops.Base.Int.{pos, plus64}
use infra_devops.Base.Text.{◌<>◌, to_lower}
use infra_devops.Base.Dict.{lookup, insert}
use infra_devops.Common.Meta.{MetaObject}
use infra_devops.Cluster.{Env, State, clock, pure, gets, modify, ask, ◌>>=◌}
use infra_devops.Cluster.Runs.{Runs}
use infra_devops.Util.Resource.{fetch_secret, fetch_config_map}
use infra_devops.Util.Owners.{get_secret_by_name}
use infra_devops.Enterprise.Names.{get_splunk_smartstore_config_map_name}
use infra_devops.Enterprise.SmartStore.Maps.{get_smartstore_config_map, has_smartstore}
use infra_devops.Enterprise.SmartStore.{
  VolumeSpec, IndexConfDefaultsSpec, Hotlist, IndexSpec, CacheManagerSpec, SmartStoreSpec, elements,
  is_smartstore_configured, validate_splunk_smartstore_spec,
}
use infra_devops.Enterprise.SmartStore.Valid.{IsSound, validate_splunk_smartstore_spec-IsSound}
use infra_devops.Enterprise.SmartStore.Config.{
  get_smartstore_indexes_config, get_server_config_entries,
}
use infra_devops.Enterprise.SmartStore.Texts.{IsUnset, get_server_config_entries_iff}
use infra_devops.Enterprise.SmartStore.Stanzas.{Shows, get_smartstore_indexes_config-Shows}
use infra_devops.Enterprise.ClusterMaster.Requests.{Outcome, sync_smartstore-asks}
use infra_devops.Enterprise.SmartStore.Keys.{check_keys, are_remote_volume_keys_changed}
use infra_devops.Enterprise.SmartStore.Keys.Tracking.{
  check_keys-behind, are_remote_volume_keys_changed-keeps,
}
use infra_devops.Enterprise.ClusterMaster.{
  ClusterMasterState, perform_cm_bundle_push, sync_smartstore, token_of, attempt_push,
  compare_tokens, push_master_apps_bundle, check_if_smartstore_config_map_updated_to_pod,
}
use infra_devops.Enterprise.ClusterMaster.Tracker.{pushed, Spaced, needed}
use infra_devops.Enterprise.ClusterMaster.Pushes.{Delivered, Accepted, smartstore_id}
use infra_devops.Enterprise.ClusterMaster.Refines.{Moved, perform_cm_bundle_push-refines}
use infra_devops.Enterprise.ClusterMaster.Delivery.{
  Unhindered, perform_cm_bundle_push-Delivered, perform_cm_bundle_push-done,
}
use infra_devops.Enterprise.ClusterMaster.Rounds.{Rounds, begun, performed, Rounds-Spaced}
use infra_devops.Scenarios.World.{world, begin, pod_secret, result_of}

abbrev volume : String → VolumeSpec
volume name = record { name = name; endpoint = "https://s3"; path = "b"; secret_ref = name }

abbrev unset : String → IndexConfDefaultsSpec
unset name = record {
  vol_name = name;
  max_global_data_size_mb = 0;
  max_global_raw_data_size_mb = 0;
}

abbrev cold : Hotlist
cold = record { recency_secs = 0; bloom_filter_recency_hours = 0 }

abbrev index : String → IndexSpec
index name = record { name = name; remote_path = ""; hotlist = cold; common = unset "v1" }

abbrev manager : CacheManagerSpec
manager = record {
  hotlist = cold;
  eviction_policy = "lru";
  max_cache_size_mb = 0;
  eviction_padding_size_mb = 0;
  max_concurrent_downloads = 0;
  max_concurrent_uploads = 0;
}

abbrev store : SmartStoreSpec
store = record {
  vol_list = some (volume "v1" ∷ volume "v2" ∷ []);
  index_list = some (index "main" ∷ index "audit" ∷ []);
  defaults = unset "";
  cache_manager_conf = manager;
}

validate_splunk_smartstore_spec-IsSound_example :
    (validate_splunk_smartstore_spec (some store) ≡ none)
    ↔ IsSound (elements store.vol_list) (elements store.index_list) ""
unfolding is_smartstore_configured
validate_splunk_smartstore_spec-IsSound_example = validate_splunk_smartstore_spec-IsSound store refl

-- The specification is accepted, and one with an unknown volume is not.
store_is_valid : validate_splunk_smartstore_spec (some store) ≡ none
unfolding validate_splunk_smartstore_spec lookup insert
store_is_valid = refl

get_smartstore_indexes_config-Shows_example :
    (stanza : String) × Shows (index "audit") stanza
    × (get_smartstore_indexes_config (index "main" ∷ index "audit" ∷ [])
        ≡ get_smartstore_indexes_config (index "main" ∷ [])
          <> (stanza <> get_smartstore_indexes_config []))
get_smartstore_indexes_config-Shows_example =
    get_smartstore_indexes_config-Shows (index "main" ∷ []) (index "audit") []

get_server_config_entries_iff_example :
    (get_server_config_entries (some manager) ≡ "") ↔ IsUnset manager
get_server_config_entries_iff_example = get_server_config_entries_iff manager

abbrev cm_meta : MetaObject
cm_meta = record {
  api_version = "enterprise.splunk.com/v1";
  kind = "ClusterMaster";
  name = "cm";
  namespace = "ns";
  uid = "u";
}

check_keys-behind_example :
    check_keys {S = Unit {0}}
      (world "b")
      cm_meta
      (volume "v1" ∷ volume "v2" ∷ [])
      (("v1", "1") ∷ [])
    ≡ check_keys (world "b") cm_meta (volume "v1" ∷ []) (("v1", "1") ∷ [])
unfolding lookup
check_keys-behind_example =
    check_keys-behind {S = Unit {0}} (world "b") cm_meta [] (volume "v1") (volume "v2" ∷ [])
      (("v1", "1") ∷ []) ("1", refl)

are_remote_volume_keys_changed-keeps_example :
    Runs {S = Unit {0}}
      (are_remote_volume_keys_changed (world "b") cm_meta (some store) (("v9", "3") ∷ []))
      (begin tt)
      (λ c s'.
        c.changed ≡ false
        → (ref old : String) → lookup ref (("v9", "3") ∷ []) ≡ some old
        → lookup ref c.revisions ≡ some old)
are_remote_volume_keys_changed-keeps_example =
    are_remote_volume_keys_changed-keeps (world "b") cm_meta (some store) (("v9", "3") ∷ [])
      (begin tt)

-- The pod has the token of the config map.
abbrev delivered_world : Env
delivered_world = record (world "b") {
  executed = λ h id command. record { stdout = "90"; stderr = ""; failure = none };
  config_map_at = λ h id. ok (record {
    id = id;
    resource_version = "1";
    owner_references = [];
    data_map = some (("conftoken", "90") ∷ []);
  });
}

abbrev waiting : ClusterMasterState
waiting = record {
  smart_store = store;
  bundle_push_tracker = record { need_to_push_master_apps = true; last_check_interval = pos 90 };
  resource_rev_map = [];
}

perform_cm_bundle_push-refines_example :
    Runs
      (perform_cm_bundle_push delivered_world cm_meta)
      (begin waiting)
      (λ e s'. Moved (pos 100) waiting s'.own e)
perform_cm_bundle_push-refines_example =
    perform_cm_bundle_push-refines delivered_world cm_meta (begin waiting)

sync_smartstore-asks_example :
    Runs (sync_smartstore delivered_world cm_meta store) (begin waiting) (λ e s'.
      Outcome delivered_world cm_meta (begin waiting) s' e
      × (e ≡ none → s'.own.smart_store ≡ store))
sync_smartstore-asks_example =
    sync_smartstore-asks delivered_world cm_meta (begin waiting) store (λ w. w)

perform_cm_bundle_push-Delivered_example :
    Runs (perform_cm_bundle_push delivered_world cm_meta) (begin waiting) (λ e s'.
      e ≡ none
      → Delivered delivered_world cm_meta (clock ∷ []) × Accepted delivered_world cm_meta s'.calls)
perform_cm_bundle_push-Delivered_example =
    perform_cm_bundle_push-Delivered delivered_world cm_meta (begin waiting) refl

unhindered : Unhindered delivered_world cm_meta (begin waiting)
unfolding plus64 token_of lookup
unhindered = record {
  due = refl;
  delivered = record {
    config_map = record {
      id = smartstore_id delivered_world cm_meta;
      resource_version = "1";
      owner_references = [];
      data_map = some (("conftoken", "90") ∷ []);
    };
    executed = refl;
    no_message = refl;
    same_token = refl;
    stored = refl;
  };
  secret = pod_secret;
  password = "pw";
  read = refl;
  has_password = refl;
  accepts = λ h. refl;
}

perform_cm_bundle_push-done_example :
    Runs
      (perform_cm_bundle_push delivered_world cm_meta)
      (begin waiting)
      (λ e s'. (e ≡ none) × (s'.own.bundle_push_tracker.need_to_push_master_apps ≡ false))
perform_cm_bundle_push-done_example =
    perform_cm_bundle_push-done delivered_world cm_meta (begin waiting) refl unhindered

abbrev push_run : Option Err × State ClusterMasterState
push_run =
    result_of (none, begin waiting) (perform_cm_bundle_push delivered_world cm_meta (begin waiting))

one_push : Rounds delivered_world cm_meta waiting (pushed (pos 100) ∷ []) push_run.1.own
unfolding perform_cm_bundle_push pure gets modify ask ◌>>=◌ plus64 attempt_push
    check_if_smartstore_config_map_updated_to_pod get_smartstore_config_map has_smartstore
    fetch_config_map compare_tokens lookup push_master_apps_bundle get_secret_by_name fetch_secret
    get_splunk_smartstore_config_map_name to_lower
one_push = performed begun (begin waiting) push_run.1 none refl refl (pushed (pos 100)) refl

Rounds-Spaced_example :
    Spaced (pos 90) (pushed (pos 100) ∷ [])
    × (1 + needed push_run.1.own.bundle_push_tracker.need_to_push_master_apps ≤ 0 + needed true)
Rounds-Spaced_example =
    Rounds-Spaced delivered_world cm_meta waiting (pushed (pos 100) ∷ []) push_run.1.own one_push
