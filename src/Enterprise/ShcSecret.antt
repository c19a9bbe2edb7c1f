-- ===== src/Enterprise/ShcSecret.antt =====
-- ApplyShcSecret of pkg/splunk/enterprise/searchheadcluster.go, and the pod manager's Update.
use infra_devops.Base.{
  [], ◌∷◌, ℕ, zero, suc, String, Bool, true, false, not, ◌||◌, if◌then◌else◌, str_eq, Option, none,
  some, message, error_text, Err, Result, ok, err, on_error, on_result, on_option,
}
use infra_devops.Base.Int.{ℤ, pos, eqb_ℤ, dec32}
use infra_devops.Base.Text.{◌<>◌}
use infra_devops.Base.Dict.{Dict, lookup, insert, or_empty}
use infra_devops.Common.Names.{pending, error}
use infra_devops.Common.Meta.{MetaObject}
use infra_devops.Cluster.{
  NamespacedName, StatefulSet, Secret, Env, M, ask, gets, modify, pure, panic, ◌>>=◌, ◌>>◌, exec,
  restart,
}
use infra_devops.Util.Tokens.{
  get_specific_secret_token_from_pod, get_secret_from_pod, apply_namespace_scoped_secret_object,
}
use infra_devops.Util.Owners.{get_secret_by_name}
use infra_devops.Control.Pods.{Outcome, done, failed, rounds_down, update_stateful_set_pods}
use infra_devops.Control.Statefulset.{apply_stateful_set}
use infra_devops.Control.Apply.{apply_secret}
use infra_devops.Enterprise.SearchHeads.{
  SearchHeadStatus, put_at, flag_at, member_name, get_client, search_head_manager, update_status,
}

-- A token of the namespace's secret; a missing one is empty.
abbrev pub data_token : String → Secret → String
data_token key secret = on_option secret.data_map "" (λ m. or_empty (lookup key m))

module _ (env : Env) (cr : MetaObject) (mock : Bool) where
  -- PodExecCommand and RestartSplunk on pod `i`
  run_and_restart : ℕ → String → M SearchHeadStatus (Option Err)
  run_and_restart i command = do
    let id : NamespacedName = record { namespace = cr.namespace; name = member_name cr (pos i) }
    e ← ask (exec id command) (λ h. (env.executed h id command).failure)
    let go_on : M SearchHeadStatus (Option Err) = do
      c ← get_client env cr (pos i)
      ask (restart c) (λ h. env.restarted h c)
    on_error e (λ e. if mock then go_on else pure (some e)) go_on

  -- The change of the shc_secret of pod `i`; `ok false` continues with the next pod.
  change_shc_secret : ℕ → String → String → String → M SearchHeadStatus (Result Bool)
  unfolding run_and_restart flag_at put_at
  change_shc_secret i shc admin wanted = if str_eq shc wanted then pure (ok true) else do
    flags ← gets (λ s. s.shc_secret_changed)
    if flag_at i flags then pure (ok false) else do
      e ← run_and_restart i (
          "/opt/splunk/bin/splunk edit shcluster-config -auth admin:" <> admin <> " -secret "
          <> wanted)
      on_error e (λ e. pure (err e))
          (modify (λ s. record s { shc_secret_changed = put_at i true s.shc_secret_changed })
            >> pure (ok true))

  -- The change of the admin password of pod `i`.
  change_admin_password : ℕ → String → String → M SearchHeadStatus (Option Err)
  unfolding run_and_restart flag_at put_at
  change_admin_password i admin wanted = if str_eq admin wanted then pure none else do
    flags ← gets (λ s. s.admin_secret_changed)
    if flag_at i flags then pure none else do
      e ← run_and_restart i (
          "/opt/splunk/bin/splunk cmd splunkd rest --noauth POST /services/admin/users/admin 'password="
          <> wanted <> "'")
      on_error e (λ e. pure (some e))
          (do
            modify (λ s. record s { admin_secret_changed = put_at i true s.admin_secret_changed })
            r ← get_secret_from_pod env (member_name cr (pos i)) cr.namespace
            on_result r (λ e. pure (some e))
                (λ secret.
                  modify (λ s. record s {
                    admin_password_changed_secrets =
                        insert secret.id.name true s.admin_password_changed_secrets;
                  })
                  >> pure none))

  -- A round of the loop over the pods.
  check_tokens : String → String → ℕ → M SearchHeadStatus (Option Err)
  unfolding change_shc_secret change_admin_password
  check_tokens wanted_shc wanted_admin i = do
    let name : String = member_name cr (pos i)
    shc ← get_specific_secret_token_from_pod env name cr.namespace "shc_secret"
    on_result shc (λ _. pure (some (message "Couldn't retrieve shc_secret from secret data")))
        λ shc. do
          admin ← get_specific_secret_token_from_pod env name cr.namespace "password"
          on_result admin
              (λ _. pure (some (message "Couldn't retrieve admin password from secret data")))
              λ admin. do
                r ← change_shc_secret i shc admin wanted_shc
                on_result r (λ e. pure (some e))
                    (λ go_on.
                      if go_on then change_admin_password i admin wanted_admin else pure none)

  -- The loop over the pods `i, …, i + k - 1`.
  unfoldable pub check_all_tokens : String → String → ℕ → ℕ → M SearchHeadStatus (Option Err)
  unfolding check_tokens
  check_all_tokens wanted_shc wanted_admin i zero = pure none
  check_all_tokens wanted_shc wanted_admin i (suc k) = do
    e ← check_tokens wanted_shc wanted_admin i
    on_error e (λ e. pure (some e)) (check_all_tokens wanted_shc wanted_admin (suc i) k)

  -- The loop over the secrets whose password was changed; the source's order is that of a Go map.
  unfoldable pub sync_secrets : String → Dict Bool → M SearchHeadStatus (Option Err)
  sync_secrets wanted [] = pure none
  sync_secrets wanted ((name, flag) ∷ names) = do
    r ← get_secret_by_name env cr name
    on_result r
        (λ e.
          pure (some (message ("Could not read secret " <> name <> ", reason - " <> error_text e))))
        λ secret. on_option secret.data_map panic λ m. do
          w ← apply_secret env (record secret { data_map = some (insert "password" wanted m) })
          on_result w (λ e. pure (some e)) (λ _. sync_secrets wanted names)

  unfoldable pub apply_shc_secret : ℤ → M SearchHeadStatus (Option Err)
  unfolding check_all_tokens sync_secrets
  apply_shc_secret replicas = do
    r ← apply_namespace_scoped_secret_object env cr.namespace
    on_result r (λ e. pure (some e))
        λ secret. do
          version ← gets (λ s. s.namespace_secret_resource_version)
          if str_eq version ""
              then modify
                  (λ s. record s { namespace_secret_resource_version = secret.resource_version })
                >> pure none
              else if str_eq version secret.resource_version
              then pure none
              else do
                e ←
                    check_all_tokens (data_token "shc_secret" secret) (data_token "password" secret)
                      0 (rounds_down (dec32 replicas))
                on_error e (λ e. pure (some e))
                    (do
                      names ← gets (λ s. s.admin_password_changed_secrets)
                      sync_secrets (data_token "password" secret) names)

module _ (env : Env) (cr : MetaObject) where
  -- updateStatus returns no error.
  unfoldable pub update_search_heads : StatefulSet → ℤ → M SearchHeadStatus Outcome
  unfolding apply_shc_secret search_head_manager update_status
  update_search_heads ss desired = do
    applied ← apply_stateful_set env ss
    on_error applied.failure (λ e. pure (failed error e applied.set))
        (do
          e ← apply_shc_secret env cr false desired
          on_error e (λ e. pure (failed error e applied.set))
              (do
                update_status env cr applied.set
                s ← gets (λ s. s)
                if eqb_ℤ s.ready_replicas (pos 0) || not s.initialized || not s.captain_ready
                    then pure (done pending applied.set)
                    else update_stateful_set_pods env (search_head_manager env cr) applied.set
                        desired))
