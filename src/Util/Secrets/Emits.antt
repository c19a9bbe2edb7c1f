-- ===== src/Util/Secrets/Emits.antt =====
-- The calls of RemoveUnwantedSecrets.
use infra_devops.Base.{List, [], ◌∷◌, String}
use infra_devops.Base.Int.{ℤ}
use infra_devops.Cluster.{Secret, Env, Call, list_secrets, delete_secret}
use infra_devops.Cluster.Emits.{Emits, emits_rules, Emits-if}
use infra_devops.Util.Resource.{remove_secret}
use infra_devops.Util.Versions.{is_unwanted}
use infra_devops.Util.Secrets.{delete_unwanted, remove_unwanted_secrets}

module _ {S : Type 0} (env : Env) {P : Call → Type 0}
    (delete : (s : Secret) → P (delete_secret s)) where
  pub remove_secret-Emits : (s : Secret) → Emits {S = S} P (remove_secret env s)
  unfolding remove_secret
  remove_secret-Emits s = search (emits_rules, delete)

  pub delete_unwanted-Emits :
      (latest : ℤ) (found : List (ℤ × Secret)) → Emits {S = S} P (delete_unwanted env latest found)
  unfolding delete_unwanted
  delete_unwanted-Emits latest [] = search emits_rules
  delete_unwanted-Emits latest ((v, s) ∷ rest) =
      Emits-if (is_unwanted latest v) _ _
        (search (emits_rules, remove_secret-Emits s, delete_unwanted-Emits latest rest))
        (delete_unwanted-Emits latest rest)

  pub remove_unwanted_secrets-Emits :
      ((namespace : String) → P (list_secrets namespace))
      → (identifier namespace : String)
      → Emits {S = S} P (remove_unwanted_secrets env identifier namespace)
  unfolding remove_unwanted_secrets
  remove_unwanted_secrets-Emits list identifier namespace =
      search (emits_rules, list namespace, delete_unwanted-Emits)
