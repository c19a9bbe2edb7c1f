-- ===== src/Util/Owners/Quiet.antt =====
-- The reads and writes of secrets return, and leave the caller's own state alone.
use infra_devops.Base.{String, false, ltb}
use infra_devops.Common.Meta.{MetaObject, as_owner}
use infra_devops.Cluster.{Env}
use infra_devops.Cluster.Runs.{Still, Still-if, Still-bind, Still-ask, Still-on_result, still_rules}
use infra_devops.Util.Resource.{fetch_secret, save_secret, update_resource}
use infra_devops.Util.Owners.{
  has_ref, remove_refs, get_secret_by_name, set_secret_owner_ref, remove_secret_owner_ref,
}

module _ {S : Type 0} (env : Env) (cr : MetaObject) where
  pub get_secret_by_name-Still : (name : String) → Still {S = S} (get_secret_by_name env cr name)
  unfolding get_secret_by_name fetch_secret
  get_secret_by_name-Still name = search still_rules

  pub set_secret_owner_ref-Still :
      (name : String) → Still {S = S} (set_secret_owner_ref env name cr)
  unfolding set_secret_owner_ref save_secret update_resource fetch_secret
  set_secret_owner_ref-Still name = Still-bind _ _ (Still-ask _ _) (λ r.
      Still-on_result r _ _ (λ e. search still_rules)
        (λ secret.
          Still-if (has_ref (as_owner cr false) secret.owner_references) _ _ (search still_rules)
            (search still_rules)))

  pub remove_secret_owner_ref-Still :
      (name : String) → Still {S = S} (remove_secret_owner_ref env name cr)
  unfolding remove_secret_owner_ref save_secret update_resource fetch_secret
  remove_secret_owner_ref-Still name = Still-bind _ _ (Still-ask _ _) (λ r.
      Still-on_result r _ _ (λ e. search still_rules)
        (λ secret.
          Still-if (ltb 0 (remove_refs (as_owner cr false) secret.owner_references).1) _ _
            (search still_rules) (search still_rules)))
