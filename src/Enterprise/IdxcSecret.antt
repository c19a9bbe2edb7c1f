-- ===== src/Enterprise/IdxcSecret.antt =====
-- SetClusterMaintenanceMode, ApplyIdxcSecret and the pod manager's Update of
-- pkg/splunk/enterprise/indexercluster.go.
use infra_devops.Base.{
  ℕ, zero, suc, [], ◌∷◌, String, Bool, true, false, not, ◌&&◌, ◌||◌, if◌then◌else◌, str_eq, Option,
  none, some, message, error_text, Err, on_error, on_result, on_option, length, ◌==◌,
}
use infra_devops.Base.Int.{ℤ, pos, eqb_ℤ, dec32}
use infra_devops.Base.Text.{◌<>◌}
use infra_devops.Base.Dict.{Dict, lookup, insert, or_empty}
use infra_devops.Common.Names.{pending, error, ready_phase, idxc_secret}
use infra_devops.Cluster.{
  NamespacedName, StatefulSet, Env, M, ask, gets, modify, pure, panic, ◌>>=◌, ◌>>◌, exec, restart,
  set_idxc_secret,
}
use infra_devops.Util.Tokens.{
  get_specific_secret_token_from_pod, get_secret_from_pod, apply_namespace_scoped_secret_object,
}
use infra_devops.Util.Owners.{get_secret_by_name}
use infra_devops.Util.Secrets.{get_splunk_readable_namespace_scoped_secret_data}
use infra_devops.Control.Pods.{Outcome, done, failed, rounds_down, update_stateful_set_pods}
use infra_devops.Control.Statefulset.{apply_stateful_set}
use infra_devops.Control.Apply.{apply_secret}
use infra_devops.Enterprise.SearchHeads.{put_at, flag_at}
use infra_devops.Enterprise.ShcSecret.{data_token}
use infra_devops.Enterprise.Indexers.{
  IndexerState, IndexerCr, peer_name, get_client, indexer_manager, update_status,
}

module _ (env : Env) (cr : IndexerCr) (mock : Bool) where
  unfoldable pub set_cluster_maintenance_mode : Bool → M IndexerState (Option Err)
  set_cluster_maintenance_mode enable =
      if str_eq cr.master_ref "" then pure (some (message "Empty cluster master reference")) else do
        let pod : NamespacedName = record {
          namespace = cr.meta.namespace;
          name = "splunk-" <> cr.master_ref <> "-cluster-master-0";
        }
        admin ← get_specific_secret_token_from_pod env pod.name cr.meta.namespace "password"
        on_result admin (λ e. pure (some e))
            λ admin. do
              let command : String =
                  "/opt/splunk/bin/splunk "
                  <> (if enable then "enable" else "disable")
                  <> " maintenance-mode --answer-yes -auth admin:"
                  <> admin
              e ← ask (exec pod command) (λ h. (env.executed h pod command).failure)
              let go_on : M IndexerState (Option Err) =
                  modify (λ s. record s { maintenance_mode = enable }) >> pure none
              on_error e (λ e. if mock then go_on else pure (some e)) go_on

  -- The change of the idxc_secret on pod `i`, whose own secret has the given name.
  change_idxc_secret : ℕ → String → String → M IndexerState (Option Err)
  unfolding put_at flag_at
  change_idxc_secret i secret_name wanted = do
    flags ← gets (λ s. s.indexer_secret_changed)
    if flag_at i flags then pure none else do
      c ← get_client env cr (pos i)
      e ← ask (set_idxc_secret c wanted) (λ h. env.idxc_secret_set h c wanted)
      on_error e (λ e. pure (some e))
          (do
            e ← ask (restart c) (λ h. env.restarted h c)
            on_error e (λ e. pure (some e))
                (modify (λ s. record s {
                  idxc_password_changed_secrets =
                      insert secret_name true s.idxc_password_changed_secrets;
                  indexer_secret_changed = put_at i true s.indexer_secret_changed;
                })
                  >> pure none))

  -- Maintenance mode is set before the first change.
  start_maintenance : M IndexerState (Option Err)
  unfolding set_cluster_maintenance_mode
  start_maintenance = do
    s ← gets (λ s. s)
    if (length s.indexer_secret_changed == 0) && not s.maintenance_mode
        then set_cluster_maintenance_mode true
        else pure none

  -- A round of the loop over the pods.
  check_pod_secret : String → ℕ → M IndexerState (Option Err)
  unfolding change_idxc_secret start_maintenance
  check_pod_secret wanted i = do
    r ← get_secret_from_pod env (peer_name cr (pos i)) cr.meta.namespace
    on_result r (λ _. pure (some (message "pod secret not found")))
        λ secret.
          on_option (on_option secret.data_map none (lookup idxc_secret))
            (pure (some (message "secret token not retrievable")))
            λ token. if str_eq token wanted then pure none else do
              e ← start_maintenance
              on_error e (λ e. pure (some e)) (change_idxc_secret i secret.id.name wanted)

  -- The loop over the pods `i, …, i + k - 1`.
  unfoldable pub check_pod_secrets : String → ℕ → ℕ → M IndexerState (Option Err)
  unfolding check_pod_secret
  check_pod_secrets wanted i zero = pure none
  check_pod_secrets wanted i (suc k) = do
    e ← check_pod_secret wanted i
    on_error e (λ e. pure (some e)) (check_pod_secrets wanted (suc i) k)

  sync_pod_secret : String → M IndexerState (Option Err)
  sync_pod_secret name = do
    r ← get_secret_by_name env cr.meta name
    on_result r
        (λ e.
          pure (some (message ("Could not read secret " <> name <> ", reason - " <> error_text e))))
        λ secret. do
          new_data ← get_splunk_readable_namespace_scoped_secret_data env cr.meta.namespace
          on_result new_data (λ e. pure (some e))
              λ m. on_option secret.data_map panic λ d. do
                let d' : Dict String =
                    insert "default.yml" (or_empty (lookup "default.yml" m))
                      (insert idxc_secret (or_empty (lookup idxc_secret m)) d)
                w ← apply_secret env (record secret { data_map = some d' })
                on_result w (λ e. pure (some e))
                    (λ _.
                      modify (λ s. record s {
                        idxc_password_changed_secrets =
                            insert name false s.idxc_password_changed_secrets;
                      })
                      >> pure none)

  -- The loop over the changed secrets; the source's order is that of a Go map.
  unfoldable pub sync_pod_secrets : Dict Bool → M IndexerState (Option Err)
  unfolding sync_pod_secret
  sync_pod_secrets [] = pure none
  sync_pod_secrets ((name, flag) ∷ names) = do
    e ← (if flag then sync_pod_secret name else pure none)
    on_error e (λ e. pure (some e)) (sync_pod_secrets names)

  unfoldable pub apply_idxc_secret : ℤ → M IndexerState (Option Err)
  unfolding check_pod_secrets sync_pod_secrets
  apply_idxc_secret replicas = do
    r ← apply_namespace_scoped_secret_object env cr.meta.namespace
    on_result r (λ e. pure (some e))
        λ secret. do
          version ← gets (λ s. s.namespace_secret_resource_version)
          if str_eq version ""
              then modify
                  (λ s. record s { namespace_secret_resource_version = secret.resource_version })
                >> pure none
              else if str_eq version secret.resource_version
              then pure none
              else do
                e ←
                    check_pod_secrets (data_token idxc_secret secret) 0
                      (rounds_down (dec32 replicas))
                on_error e (λ e. pure (some e))
                    (do names ← gets (λ s. s.idxc_password_changed_secrets); sync_pod_secrets names)

module _ (env : Env) (cr : IndexerCr) where
  -- ApplyStatefulSet, only where the cluster master is ready.
  apply_if_ready : StatefulSet → M IndexerState Outcome
  apply_if_ready ss = do
    phase ← gets (λ s. s.cluster_master_phase)
    if ready_phase phase then apply_stateful_set env ss else pure (done pending ss)

  unfoldable pub update_indexers : StatefulSet → ℤ → M IndexerState Outcome
  unfolding apply_if_ready apply_idxc_secret indexer_manager update_status
  update_indexers ss desired = do
    applied ← apply_if_ready ss
    on_error applied.failure (λ e. pure (failed error e applied.set))
        (do
          e ← apply_idxc_secret env cr false desired
          on_error e (λ e. pure (failed error e applied.set))
              (do
                e ← update_status env cr applied.set
                s ← gets (λ s. s)
                let go : M IndexerState Outcome =
                    if eqb_ℤ s.ready_replicas (pos 0)
                      || not s.initialized
                      || not s.indexing_ready
                      || not s.service_ready
                    then pure (done pending applied.set)
                    else update_stateful_set_pods env (indexer_manager env cr) applied.set desired
                on_error e (λ _. pure (done pending applied.set)) go))
