-- ===== src/Enterprise/ClusterMaster/Delivery.antt =====
-- When PerformCmBundlePush pushes: only with the token delivered, and always where nothing is in the way.
use infra_devops.Base.{
  String, true, false, not, Bool-cases, str_eq, none, some, ok, on_option, ◌∷◌, ◌≡◌, inl, inr, refl,
  arith, eq_iff,
}
use infra_devops.Base.Int.{ltb_ℤ, plus64}
use infra_devops.Base.Dict.{lookup}
use infra_devops.Common.Names.{get_namespace_scoped_secret_name}
use infra_devops.Common.Meta.{MetaObject}
use infra_devops.Cluster.{
  ConfigMap, Secret, Executed, Env, State, History, exec, clock, get_config_map,
}
use infra_devops.Cluster.Runs.{
  Runs, Runs-pure, Runs-ask, Runs-gets, Runs-bind, Runs-modify, Runs-weaken, Runs-if, Runs-on_error,
}
use infra_devops.Util.Resource.{fetch_secret, fetch_config_map}
use infra_devops.Util.Owners.{get_secret_by_name}
use infra_devops.Enterprise.Names.{cluster_master, get_splunk_smartstore_config_map_name}
use infra_devops.Enterprise.SmartStore.Maps.{get_smartstore_config_map, has_smartstore}
use infra_devops.Enterprise.ClusterMaster.{
  ClusterMasterState, token_of, token_command, cm_pod, compare_tokens, failed_command, attempt_push,
  master_client, check_if_smartstore_config_map_updated_to_pod, push_master_apps_bundle,
  perform_cm_bundle_push,
}
use infra_devops.Enterprise.ClusterMaster.Pushes.{
  never, smartstore_id, Delivered, Accepted, attempt_push_lem,
}
use text.Mathlib.TextLemmas.{append-eq-nil_iff}

runs_well : (out : Executed) → out.failure ≡ none → out.stderr ≡ "" → failed_command out ≡ false
unfolding failed_command
runs_well out f t = rw f (let same = eq_iff out.stderr "" in ground (arith, t, same))

same_tokens :
    (on_pod : String) (m : ConfigMap) → token_of m ≡ on_pod → compare_tokens on_pod (some m) ≡ none
unfolding compare_tokens
same_tokens on_pod m h = let same = eq_iff (token_of m) on_pod in ground (arith, h, same)

module _ (env : Env) (cr : MetaObject) where
  -- A push that is needed is made only after the pod has shown the token of the config map, and was
  -- then accepted as the last call.
  pub perform_cm_bundle_push-Delivered :
      (s : State ClusterMasterState)
      → s.own.bundle_push_tracker.need_to_push_master_apps ≡ true
      → Runs
          (perform_cm_bundle_push env cr)
          s
          (λ e s'. e ≡ none → Delivered env cr (clock ∷ s.calls) × Accepted env cr s'.calls)
  unfolding perform_cm_bundle_push
  perform_cm_bundle_push-Delivered s need = Runs-bind _ s _ _ (
      Runs-gets _ s _ (
        Runs-if _ s (not s.own.bundle_push_tracker.need_to_push_master_apps) _ _
          (λ n. absurd (ground (arith, n, need)))
          (λ n. Runs-bind _ s _ _ (
            Runs-ask _ s _ _ (
              Runs-if _ _
                (ltb_ℤ (env.now s.calls) (plus64 s.own.bundle_push_tracker.last_check_interval 5)) _
                _ (λ w. Runs-pure _ _ _ never)
                (λ w. Runs-bind _ _ _ _ (
                  Runs-modify _ _ _ (
                    Runs-weaken _ _ _ _ (attempt_push_lem env cr _) (λ e s' p q. elim p [
                      | inl (quiet, own, delivered, accepted) ↦ (delivered, accepted)
                      | inr (failed, own) ↦ absurd (failed q)
                    ])))))))))

  smartstore_name : str_eq (get_splunk_smartstore_config_map_name cr.name cr.kind) "" ≡ false
  unfolding get_splunk_smartstore_config_map_name
  smartstore_name =
      elim (Bool-cases (str_eq (get_splunk_smartstore_config_map_name cr.name cr.kind) "")) [
        | inl e ↦
            let empty = (eq_iff (get_splunk_smartstore_config_map_name cr.name cr.kind) "").0 e in
            absurd (cc ((eq_iff "splunk-" "").1 (append-eq-nil_iff.0 empty).0))
        | inr e ↦ e
      ]

  found :
      (s : State ClusterMasterState) (m : ConfigMap)
      → env.config_map_at s.calls (smartstore_id env cr) ≡ ok m
      → Runs (get_smartstore_config_map env cr cluster_master) s (λ r s'.
        (r ≡ some m) × (s' ≡ record s { calls = get_config_map (smartstore_id env cr) ∷ s.calls }))
  unfolding get_smartstore_config_map fetch_config_map has_smartstore
  found s m h =
      rw smartstore_name (Runs-bind _ s _ _ (Runs-ask _ s _ _ (Runs-pure _ _ _ (rw h refl, refl))))

  -- The check passes where the token is delivered.
  check_passes :
      (s : State ClusterMasterState)
      → Delivered env cr s.calls
      → Runs (check_if_smartstore_config_map_updated_to_pod env cr) s (λ e s'.
        (e ≡ none)
        × (s' ≡ record s {
          calls = get_config_map (smartstore_id env cr) ∷ exec (cm_pod cr) token_command ∷ s.calls;
        }))
  unfolding check_if_smartstore_config_map_updated_to_pod
  check_passes s d =
      let out = env.executed s.calls (cm_pod cr) token_command in
      Runs-bind _ s _ _ (
        Runs-ask _ s _ _ (
          Runs-if _ _ (failed_command out) _ _
            (λ f. absurd (cc (f, runs_well out d.executed d.no_message)))
            (λ f. Runs-bind _ _ _ _ (
              Runs-weaken _ _ _ _ (found _ d.config_map d.stored) (λ r s' p.
                Runs-pure _ s' _
                  (rw p.0 (same_tokens out.stdout d.config_map d.same_token), p.1))))))

  push_passes :
      (s : State ClusterMasterState) (secret : Secret) (password : String)
      → env.secret_at s.calls (record {
        namespace = cr.namespace;
        name = get_namespace_scoped_secret_name cr.namespace;
      })
        ≡ ok secret
      → on_option secret.data_map none (lookup "password") ≡ some password
      → ((h : History) → env.bundle_pushed h (master_client env cr password) true ≡ none)
      → Runs (push_master_apps_bundle env cr) s (λ e s'. (e ≡ none) × (s'.own ≡ s.own))
  unfolding push_master_apps_bundle get_secret_by_name fetch_secret
  push_passes s secret password read has accepts =
      Runs-bind _ s _ _ (Runs-ask _ s _ _ (rw (read, has) (Runs-ask _ _ _ _ (accepts _, refl))))

  -- Nothing is in the way of a push from `s`: five seconds have passed, the pod has the token, the
  -- secret has a password, and the cluster master accepts the push.
  pub record Unhindered (s : State ClusterMasterState) : Type 0 where
    pub due :
        ltb_ℤ (env.now s.calls) (plus64 s.own.bundle_push_tracker.last_check_interval 5) ≡ false
    pub delivered : Delivered env cr (clock ∷ s.calls)
    pub secret : Secret
    pub password : String
    pub read :
        env.secret_at
          (get_config_map (smartstore_id env cr) ∷ exec (cm_pod cr) token_command ∷ clock ∷ s.calls)
          (record {
            namespace = cr.namespace;
            name = get_namespace_scoped_secret_name cr.namespace;
          })
        ≡ ok secret
    pub has_password : on_option secret.data_map none (lookup "password") ≡ some password
    pub accepts : (h : History) → env.bundle_pushed h (master_client env cr password) true ≡ none

  attempt_passes :
      (s : State ClusterMasterState) (secret : Secret) (password : String)
      → Delivered env cr s.calls
      → env.secret_at
          (get_config_map (smartstore_id env cr) ∷ exec (cm_pod cr) token_command ∷ s.calls)
          (record {
            namespace = cr.namespace;
            name = get_namespace_scoped_secret_name cr.namespace;
          })
        ≡ ok secret
      → on_option secret.data_map none (lookup "password") ≡ some password
      → ((h : History) → env.bundle_pushed h (master_client env cr password) true ≡ none)
      → Runs
          (attempt_push env cr)
          s
          (λ e s'. (e ≡ none) × (s'.own.bundle_push_tracker.need_to_push_master_apps ≡ false))
  unfolding attempt_push
  attempt_passes s secret password d read has accepts = Runs-bind _ s _ _ (
      Runs-weaken _ _ _ _ (check_passes s d) (λ e s' p.
        Runs-on_error _ s' e _ _ (λ x h. absurd (cc (h, p.0)))
          (λ h. Runs-bind _ s' _ _ (
            Runs-weaken _ _ _ _ (push_passes s' secret password (rw p.1 read) has accepts)
              (λ f s'' q.
                Runs-on_error _ s'' f _ _ (λ x k. absurd (cc (k, q.0)))
                  (λ k.
                    Runs-bind _ s'' _ _ (Runs-modify _ s'' _ (Runs-pure _ _ _ (refl, refl)))))))))

  -- Where nothing is in the way, PerformCmBundlePush pushes the bundle, and no push is needed any more.
  pub perform_cm_bundle_push-done :
      (s : State ClusterMasterState)
      → s.own.bundle_push_tracker.need_to_push_master_apps ≡ true
      → Unhindered s
      → Runs
          (perform_cm_bundle_push env cr)
          s
          (λ e s'. (e ≡ none) × (s'.own.bundle_push_tracker.need_to_push_master_apps ≡ false))
  unfolding perform_cm_bundle_push
  perform_cm_bundle_push-done s need u = Runs-bind _ s _ _ (
      Runs-gets _ s _ (
        Runs-if _ s (not s.own.bundle_push_tracker.need_to_push_master_apps) _ _
          (λ n. absurd (ground (arith, n, need)))
          (λ n. Runs-bind _ s _ _ (
            Runs-ask _ s _ _ (
              Runs-if _ _
                (ltb_ℤ (env.now s.calls) (plus64 s.own.bundle_push_tracker.last_check_interval 5)) _
                _ (λ w. absurd (cc (w, u.due)))
                (λ w. Runs-bind _ _ _ _ (
                  Runs-modify _ _ _ (
                    attempt_passes _ u.secret u.password u.delivered u.read u.has_password
                      u.accepts))))))))
