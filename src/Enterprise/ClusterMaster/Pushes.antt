-- ===== src/Enterprise/ClusterMaster/Pushes.antt =====
-- The runs of PerformCmBundlePush.
use infra_devops.Base.{
  String, true, false, not, Bool-cases, str_eq, Option, none, some, Err, Result, ok, err, on_result,
  on_option, ◌∷◌, ◌≡◌, ◌≢◌, ◌∙◌, ap, ◌⊎◌, inl, inr, refl, arith, eq_iff,
}
use infra_devops.Base.Dict.{lookup}
use infra_devops.Common.Names.{get_namespace_scoped_secret_name}
use infra_devops.Common.Meta.{MetaObject}
use infra_devops.Cluster.{
  NamespacedName, ConfigMap, Secret, Executed, SplunkClient, Env, State, History, exec, push_bundle,
}
use infra_devops.Cluster.Runs.{
  Runs, Runs-pure, Runs-ask, Runs-bind, Runs-modify, Runs-weaken, Runs-on_error, Runs-on_result,
  Runs-on_option, Still, still_rules,
}
use infra_devops.Util.Owners.{get_secret_by_name}
use infra_devops.Util.Resource.{fetch_secret, fetch_config_map}
use infra_devops.Enterprise.Names.{cluster_master, get_splunk_smartstore_config_map_name}
use infra_devops.Enterprise.SmartStore.Maps.{get_smartstore_config_map, has_smartstore}
use infra_devops.Enterprise.ClusterMaster.{
  ClusterMasterState, token_of, token_command, cm_pod, compare_tokens, failed_command,
  check_if_smartstore_config_map_updated_to_pod, push_master_apps_bundle, attempt_push,
  master_client,
}

get_smartstore_config_map-Still :
    {S : Type 0} (env : Env) (cr : MetaObject)
    → Still {S = S} (get_smartstore_config_map env cr cluster_master)
unfolding get_smartstore_config_map fetch_config_map
get_smartstore_config_map-Still env cr = search still_rules

pub never : {X : Type 0} {e : Err} → ◌≡◌ {A = Option Err} (some e) none → X
never h = absurd (cc h)

module _ (env : Env) (cr : MetaObject) where
  abbrev pub smartstore_id : NamespacedName
  smartstore_id = record {
    namespace = cr.namespace;
    name = get_splunk_smartstore_config_map_name cr.name cr.kind;
  }

  found-some :
      (r : Result ConfigMap) (m : ConfigMap)
      → ◌≡◌ {A = Option ConfigMap} (on_result r (λ _. none) (λ m. some m)) (some m)
      → r ≡ ok m
  found-some (ok m') m h = cc
  found-some (err e) m h = cc

  -- What is found is what the read answers.
  get_smartstore_config_map-found :
      (s : State ClusterMasterState)
      → Runs (get_smartstore_config_map env cr cluster_master) s (λ found s'.
        (s'.own ≡ s.own)
        × ((m : ConfigMap) → found ≡ some m → env.config_map_at s.calls smartstore_id ≡ ok m))
  unfolding get_smartstore_config_map fetch_config_map has_smartstore
  get_smartstore_config_map-found s =
      elim (Bool-cases (str_eq (get_splunk_smartstore_config_map_name cr.name cr.kind) "")) [
        | inl e ↦ rw e (Runs-pure _ s none (refl, λ m q. cc))
        | inr e ↦
            rw e (
              Runs-bind _ s _ _
                (Runs-ask _ s _ _ (Runs-pure _ _ _ (refl, λ m q. found-some _ m q))))
      ]

  -- The pod that runs has the token of the config map as it was then, after the calls `h`.
  pub record Delivered (h : History) : Type 0 where
    pub config_map : ConfigMap
    pub executed : (env.executed h (cm_pod cr) token_command).failure ≡ none
    pub no_message : (env.executed h (cm_pod cr) token_command).stderr ≡ ""
    pub same_token : token_of config_map ≡ (env.executed h (cm_pod cr) token_command).stdout
    pub stored :
        env.config_map_at (exec (cm_pod cr) token_command ∷ h) smartstore_id ≡ ok config_map

  no_failure :
      (f : Option Err) (t : String)
      → on_option f (not (str_eq t "")) (λ _. true) ≡ false
      → (f ≡ none) × (t ≡ "")
  no_failure none t h = let same = eq_iff t "" in (refl, ground (arith, h, same))
  no_failure (some e) t h = absurd (cc h)

  succeeded :
      (out : Executed) → failed_command out ≡ false → (out.failure ≡ none) × (out.stderr ≡ "")
  unfolding failed_command
  succeeded out h = no_failure out.failure out.stderr h

  tokens_agree :
      (on_pod : String) (found : Option ConfigMap)
      → compare_tokens on_pod found ≡ none
      → (m : ConfigMap) × (found ≡ some m) × (token_of m ≡ on_pod)
  unfolding compare_tokens
  tokens_agree on_pod none h = cc
  tokens_agree on_pod (some m) h =
      let same = eq_iff (token_of m) on_pod in (m, refl, ground (arith, h, same))

  check-Delivered :
      (s : State ClusterMasterState)
      → Runs
          (check_if_smartstore_config_map_updated_to_pod env cr)
          s
          (λ e s'. (s'.own ≡ s.own) × (e ≡ none → Delivered s.calls))
  unfolding check_if_smartstore_config_map_updated_to_pod
  check-Delivered s =
      let out = env.executed s.calls (cm_pod cr) token_command in
      Runs-bind _ s _ _ (
        Runs-ask _ s _ _ (elim (Bool-cases (failed_command out)) [
          | inl f ↦ rw f (Runs-pure _ _ _ (refl, never))
          | inr f ↦ rw f (
              Runs-bind _ _ _ _ (
                Runs-weaken _ _ _ _ (get_smartstore_config_map-found _) (λ found s' p.
                  Runs-pure _ s' _ (
                    p.0,
                    λ q.
                        let (m, g, same) = tokens_agree out.stdout found q in
                        let (ran, quiet) = succeeded out f in
                        record {
                          config_map = m;
                          executed = ran;
                          no_message = quiet;
                          same_token = same;
                          stored = p.1 m g;
                        },
                  ))))
        ]))

  -- The push was accepted, as the latest of the calls `h`.
  pub record Accepted (h : History) : Type 0 where
    pub client : SplunkClient
    pub earlier : History
    pub latest : h ≡ push_bundle client true ∷ earlier
    pub answer : env.bundle_pushed earlier client true ≡ none

  push-Accepted :
      (s : State ClusterMasterState)
      → Runs
          (push_master_apps_bundle env cr)
          s
          (λ e s'. (s'.own ≡ s.own) × (e ≡ none → Accepted s'.calls))
  unfolding push_master_apps_bundle get_secret_by_name fetch_secret
  push-Accepted s = Runs-bind _ s _ _ (
      Runs-ask _ s _ _ (
        Runs-on_result {A = Secret} _ _
          (env.secret_at s.calls (record {
            namespace = cr.namespace;
            name = get_namespace_scoped_secret_name cr.namespace;
          }))
          _ _ (λ e h. Runs-pure _ _ _ (refl, never))
          (λ secret h.
            Runs-on_option {A = String} _ _ (on_option secret.data_map none (lookup "password")) _ _
              (λ n. Runs-pure _ _ _ (refl, never))
              (λ password f. Runs-ask _ _ _ _ (
                refl,
                λ q. record {
                  client = master_client env cr password;
                  earlier = _;
                  latest = refl;
                  answer = q;
                },
              )))))

  -- With an attempt that succeeds the need is gone; one that fails changes nothing.
  pub attempt_push_lem :
      (s : State ClusterMasterState)
      → Runs (attempt_push env cr) s (λ e s'.
        ((e ≡ none)
          × (s'.own ≡ record (s.own) {
            bundle_push_tracker = record (s.own.bundle_push_tracker) {
              need_to_push_master_apps = false;
            };
          })
          × Delivered s.calls
          × Accepted s'.calls)
        ⊎ ((e ≢ none) × (s'.own ≡ s.own)))
  unfolding attempt_push
  attempt_push_lem s = Runs-bind _ s _ _ (
      Runs-weaken _ _ _ _ (check-Delivered s) (λ e s' p.
        Runs-on_error _ s' e _ _ (λ x h. Runs-pure _ _ _ (inr (never, p.0)))
          (λ h. Runs-bind _ s' _ _ (
            Runs-weaken _ _ _ _ (push-Accepted s') (λ f s'' q.
              Runs-on_error _ s'' f _ _ (λ x k. Runs-pure _ _ _ (inr (never, q.0 ∙ p.0)))
                (λ k. Runs-bind _ s'' _ _ (
                  Runs-modify _ s'' _ (
                    Runs-pure _ _ _ (
                      inl (
                        refl,
                        ap
                            (λ (o : ClusterMasterState). record o {
                              bundle_push_tracker = record (o.bundle_push_tracker) {
                                need_to_push_master_apps = false;
                              };
                            })
                            (q.0 ∙ p.0),
                        p.1 h,
                        q.1 k,
                      ))))))))))
