-- ===== src/Util/Secrets/Quiet.antt =====
-- RemoveUnwantedSecrets returns, and leaves the caller's own state alone.
use infra_devops.Base.{List, [], ◌∷◌, String}
use infra_devops.Base.Int.{ℤ}
use infra_devops.Cluster.{Secret, Env}
use infra_devops.Cluster.Runs.{Still, Still-if, still_rules}
use infra_devops.Util.Resource.{remove_secret, delete_resource}
use infra_devops.Util.Versions.{is_unwanted}
use infra_devops.Util.Secrets.{delete_unwanted, remove_unwanted_secrets}

module _ {S : Type 0} (env : Env) where
  remove_secret-Still : (s : Secret) → Still {S = S} (remove_secret env s)
  unfolding remove_secret delete_resource
  remove_secret-Still s = search still_rules

  delete_unwanted-Still :
      (latest : ℤ) (found : List (ℤ × Secret)) → Still {S = S} (delete_unwanted env latest found)
  unfolding delete_unwanted
  delete_unwanted-Still latest [] = search still_rules
  delete_unwanted-Still latest ((v, s) ∷ rest) =
      Still-if (is_unwanted latest v) _ _
        (search (still_rules, remove_secret-Still s, delete_unwanted-Still latest rest))
        (delete_unwanted-Still latest rest)

  pub remove_unwanted_secrets-Still :
      (identifier namespace : String)
      → Still {S = S} (remove_unwanted_secrets env identifier namespace)
  unfolding remove_unwanted_secrets
  remove_unwanted_secrets-Still identifier namespace = search (still_rules, delete_unwanted-Still)
