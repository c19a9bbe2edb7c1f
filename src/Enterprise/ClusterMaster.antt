-- ===== src/Enterprise/ClusterMaster.antt =====
-- The cluster master: pkg/splunk/enterprise/clustermaster.go, the push of its bundle and the part of
-- its reconciler that keeps the config map of SmartStore. The own state of an action is what the code
-- changes of the custom resource's status.
pub mod Tracker
pub mod Pushes
pub mod Calls
pub mod Refines
pub mod Sync
pub mod Writes
pub mod Requests
pub mod Delivery
pub mod Rounds
use infra_devops.Base.{
  ℕ, String, Bool, true, false, not, ◌||◌, if◌then◌else◌, str_eq, Option, none, some, List, [], ◌∷◌,
  message, error_text, Err, Result, ok, err, on_error, on_result, on_option,
}
use infra_devops.Base.Int.{ℤ, ltb_ℤ, plus64}
use infra_devops.Base.Text.{◌<>◌, itoa}
use infra_devops.Base.Dict.{Dict, lookup, or_empty}
use infra_devops.Common.Names.{get_service_fqdn, get_namespace_scoped_secret_name}
use infra_devops.Common.Meta.{MetaObject}
use infra_devops.Cluster.{
  NamespacedName, ConfigMap, Secret, Executed, SplunkClient, Env, M, ask, gets, modify, pure, ◌>>=◌,
  ◌>>◌, exec, push_bundle, clock,
}
use infra_devops.Util.Owners.{get_secret_by_name}
use infra_devops.Enterprise.Names.{cluster_master, get_splunk_service_name}
use infra_devops.Enterprise.SmartStore.{SmartStoreSpec}
use infra_devops.Enterprise.SmartStore.Same.{smart_store_eq}
use infra_devops.Enterprise.SmartStore.Keys.{KeyCheck, same_keys, are_remote_volume_keys_changed}
use infra_devops.Enterprise.SmartStore.Maps.{
  Applied, config_token, apply_smartstore_config_map, get_smartstore_config_map,
}

-- enterprisev1.BundlePushInfo
pub record BundlePushInfo : Type 0 where
  pub need_to_push_master_apps : Bool
  pub last_check_interval : ℤ

-- Of enterprisev1.ClusterMasterStatus the fields that the code of this file changes.
pub record ClusterMasterState : Type 0 where
  pub smart_store : SmartStoreSpec
  pub bundle_push_tracker : BundlePushInfo
  pub resource_rev_map : Dict String

-- The failed check of the token on the pod; an error that is nil is printed as `<nil>`.
abbrev token_unread : Executed → Err
token_unread out = message (
    "Failed to check config token value on pod. stdout="
    <> out.stdout
    <> ", stderror="
    <> out.stderr
    <> ", error="
    <> on_option out.failure "<nil>" error_text)

failed_command : Executed → Bool
failed_command out = on_option out.failure (not (str_eq out.stderr "")) (λ _. true)

-- Data[configToken], empty for a missing key.
unfoldable pub token_of : ConfigMap → String
token_of m = or_empty (on_option m.data_map none (lookup config_token))

-- The comparison of the two tokens.
unfoldable pub compare_tokens : String → Option ConfigMap → Option Err
unfolding token_of
compare_tokens on_pod none = some (message "Smartstore ConfigMap is missing")
compare_tokens on_pod (some m) =
    if str_eq (token_of m) on_pod
    then none
    else some (
        message (
          "Waiting for the configMap update to the Pod. Token on Pod="
          <> on_pod
          <> ", Token from configMap="
          <> token_of m))

abbrev pub token_command : String
token_command = "cat /mnt/splunk-operator/local/conftoken"

unfoldable pub cm_pod : MetaObject → NamespacedName
cm_pod cr = record { namespace = cr.namespace; name = "splunk-" <> cr.name <> "-cluster-master-0" }

module _ (env : Env) (cr : MetaObject) where
  unfoldable pub check_if_smartstore_config_map_updated_to_pod : M ClusterMasterState (Option Err)
  unfolding failed_command
  check_if_smartstore_config_map_updated_to_pod = do
    out ← ask (exec (cm_pod cr) token_command) (λ h. env.executed h (cm_pod cr) token_command)
    if failed_command out then pure (some (token_unread out)) else do
      found ← get_smartstore_config_map env cr cluster_master
      pure (compare_tokens out.stdout found)

  -- The client of the cluster master's service.
  unfoldable pub master_client : String → SplunkClient
  master_client password = record {
    uri =
        "https://"
        <> get_service_fqdn env.cluster_domain cr.namespace
            (get_splunk_service_name cluster_master cr.name false)
        <> ":8089";
    password = password;
  }

  unfoldable pub push_master_apps_bundle : M ClusterMasterState (Option Err)
  push_master_apps_bundle = do
    r ← get_secret_by_name env cr (get_namespace_scoped_secret_name cr.namespace)
    on_result r
        (λ e. pure (
          some (
            message (
              "Could not access default secret object to fetch admin password. Reason "
              <> error_text e))))
        λ secret.
          on_option (on_option secret.data_map none (lookup "password"))
            (pure (
              some (
                message
                  "Could not find admin password while trying to push the master apps bundle")))
            λ password.
              let c = master_client password in
              ask (push_bundle c true) (λ h. env.bundle_pushed h c true)

  -- From the check of the pod on.
  unfoldable pub attempt_push : M ClusterMasterState (Option Err)
  attempt_push = do
    e ← check_if_smartstore_config_map_updated_to_pod
    on_error e (λ e. pure (some e))
        (do
          e ← push_master_apps_bundle
          on_error e (λ e. pure (some e))
              (modify (λ s. record s {
                bundle_push_tracker = record (s.bundle_push_tracker) {
                  need_to_push_master_apps = false;
                };
              })
                >> pure none))

  unfoldable pub perform_cm_bundle_push : M ClusterMasterState (Option Err)
  perform_cm_bundle_push = do
    tracker ← gets (λ s. s.bundle_push_tracker)
    if not tracker.need_to_push_master_apps then pure none else do
      seconds ← ask clock env.now
      if ltb_ℤ seconds (plus64 tracker.last_check_interval 5)
          then pure (
              some (
                message (
                  "Will re-attempt to push the bundle after the 5 seconds period passed from last check. LastCheckInterval="
                  <> itoa tracker.last_check_interval
                  <> ", current epoch="
                  <> itoa seconds)))
          else do
            modify (λ s. record s {
              bundle_push_tracker = record (s.bundle_push_tracker) {
                last_check_interval = seconds;
              };
            })
            attempt_push

module _ (env : Env) (cr : MetaObject) where
  -- A change of the config map asks for a push, not before five seconds from now.
  ask_for_push : M ClusterMasterState (Unit {0})
  ask_for_push = do
    seconds ← ask clock env.now
    modify (λ s. record s {
      bundle_push_tracker = record {
        need_to_push_master_apps = true;
        last_check_interval = seconds;
      };
    })

  -- The body of the test for changes.
  unfoldable pub refresh_smartstore : SmartStoreSpec → M ClusterMasterState (Option Err)
  unfolding ask_for_push
  refresh_smartstore wanted = do
    applied ← apply_smartstore_config_map env cr wanted
    on_error applied.failure (λ e. pure (some e))
        (do
          (if applied.changed then ask_for_push else pure tt)
          modify (λ s. record s { smart_store = wanted })
          pure none)

  -- The secrets are compared only if the specification is the one of the status.
  unfoldable pub compare_keys : SmartStoreSpec → M ClusterMasterState KeyCheck
  compare_keys wanted = do
    s ← gets (λ s. s)
    if not (smart_store_eq s.smart_store wanted)
        then pure (record { changed = true; revisions = s.resource_rev_map; failure = none })
        else do
          check ← are_remote_volume_keys_changed env cr (some wanted) s.resource_rev_map
          modify (λ s. record s { resource_rev_map = check.revisions })
          pure check

  -- The part of ApplyClusterMaster that brings the config map up to date.
  unfoldable pub sync_smartstore : SmartStoreSpec → M ClusterMasterState (Option Err)
  unfolding compare_keys refresh_smartstore
  sync_smartstore wanted = do
    check ← compare_keys wanted
    if check.changed
        then (do
          e ← refresh_smartstore wanted
          on_error e (λ e. pure (some e)) (pure check.failure))
        else pure check.failure
