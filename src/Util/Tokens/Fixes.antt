-- ===== src/Util/Tokens/Fixes.antt =====
-- Reading the secret of a pod leaves the caller's state as it is.
use infra_devops.Base.{String, ◌==◌, length, str_eq}
use infra_devops.Cluster.{Env}
use infra_devops.Cluster.Fixes.{Fixes, Fixes-pure, Fixes-ask, Fixes-if, Fixes-bind, Fixes-on_result}
use infra_devops.Util.Resource.{fetch_pod, fetch_secret}
use infra_devops.Util.Tokens.{
  find_secret_name, get_secret_from_pod, get_specific_secret_token_from_pod,
}

module _ {S X : Type 0} (view : S → X) (env : Env) where
  get_secret_from_pod-Fixes :
      (name namespace : String) → Fixes view (get_secret_from_pod env name namespace)
  unfolding get_secret_from_pod fetch_pod fetch_secret
  get_secret_from_pod-Fixes name namespace = Fixes-bind _ _ _ (Fixes-ask _ _ _) (λ r.
      Fixes-on_result _ r _ _ (λ e. Fixes-pure _ _)
        (λ p. Fixes-if _ (length p.volumes == 0) _ _ (Fixes-pure _ _) (
          Fixes-if _ (str_eq (find_secret_name p.volumes) "") _ _ (Fixes-pure _ _)
            (Fixes-bind _ _ _ (Fixes-ask _ _ _) (λ s. Fixes-pure _ _)))))

  pub get_token-Fixes :
      (name namespace token : String)
      → Fixes view (get_specific_secret_token_from_pod env name namespace token)
  unfolding get_specific_secret_token_from_pod
  get_token-Fixes name namespace token =
      Fixes-bind _ _ _ (get_secret_from_pod-Fixes name namespace) (λ r. Fixes-pure _ _)
