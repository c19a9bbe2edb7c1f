-- ===== src/Util/Tokens/Emits.antt =====
-- The calls of GetSecretFromPod and GetSpecificSecretTokenFromPod.
use infra_devops.Base.{String, ◌==◌, length, str_eq}
use infra_devops.Cluster.{NamespacedName, Env, Call, get_pod, get_secret}
use infra_devops.Cluster.Emits.{Emits, Emits-pure, Emits-if, Emits-bind, Emits-ask, Emits-on_result}
use infra_devops.Util.Resource.{fetch_pod, fetch_secret}
use infra_devops.Util.Tokens.{
  find_secret_name, get_secret_from_pod, get_specific_secret_token_from_pod,
}

module _ {S : Type 0} (env : Env) {P : Call → Type 0} (pod : (id : NamespacedName) → P (get_pod id))
    (secret : (id : NamespacedName) → P (get_secret id)) where
  pub get_secret_from_pod-Emits :
      (name namespace : String) → Emits {S = S} P (get_secret_from_pod env name namespace)
  unfolding get_secret_from_pod fetch_pod fetch_secret
  get_secret_from_pod-Emits name namespace = Emits-bind _ _ (Emits-ask _ _ (pod _)) (λ r.
      Emits-on_result r _ _ (λ e. Emits-pure _)
        (λ p. Emits-if (length p.volumes == 0) _ _ (Emits-pure _) (
          Emits-if (str_eq (find_secret_name p.volumes) "") _ _ (Emits-pure _)
            (Emits-bind _ _ (Emits-ask _ _ (secret _)) (λ s. Emits-pure _)))))

  pub get_token-Emits :
      (name namespace token : String)
      → Emits {S = S} P (get_specific_secret_token_from_pod env name namespace token)
  unfolding get_specific_secret_token_from_pod
  get_token-Emits name namespace token =
      Emits-bind _ _ (get_secret_from_pod-Emits name namespace) (λ r. Emits-pure _)
