-- ===== src/Enterprise/Claims.antt =====
-- DeleteSplunkPvc of pkg/splunk/enterprise/finalizers.go.
pub mod Own
use infra_devops.Base.{
  String, Bool, if◌then◌else◌, str_eq, Option, none, some, List, [], ◌∷◌, Err, on_error, on_result,
  length, ◌==◌,
}
use infra_devops.Base.Text.{◌<>◌}
use infra_devops.Common.Meta.{MetaObject}
use infra_devops.Cluster.{NamespacedName, Env, M, ask, pure, ◌>>=◌, list_claims}
use infra_devops.Util.Resource.{remove_claim}

-- The components of a kind; a kind that the switch does not name has none.
unfoldable pub claim_components : String → List String
claim_components kind =
    if str_eq kind "Standalone"
    then "standalone" ∷ []
    else if str_eq kind "LicenseMaster"
    then "license-master" ∷ []
    else if str_eq kind "SearchHeadCluster"
    then "search-head" ∷ "deployer" ∷ []
    else if str_eq kind "IndexerCluster"
    then "indexer" ∷ []
    else if str_eq kind "ClusterMaster"
    then "cluster-master" ∷ []
    else []

module _ {S : Type 0} (env : Env) where
  unfoldable pub remove_claims : List NamespacedName → M S (Option Err)
  remove_claims [] = pure none
  remove_claims (c ∷ cs) = do
    e ← remove_claim env c
    on_error e (λ e. pure (some e)) (remove_claims cs)

  -- The loop over the components: one without claims ends it.
  unfoldable pub delete_component_claims : MetaObject → List String → M S (Option Err)
  unfolding remove_claims
  delete_component_claims cr [] = pure none
  delete_component_claims cr (component ∷ components) = do
    let label : String = "splunk-" <> cr.name <> "-" <> component
    r ← ask (list_claims cr.namespace label) (λ h. env.claims_of h cr.namespace label)
    on_result r (λ e. pure (some e))
        λ claims. if length claims == 0 then pure none else do
          e ← remove_claims claims
          on_error e (λ e. pure (some e)) (delete_component_claims cr components)

  unfoldable pub delete_splunk_pvc : MetaObject → M S (Option Err)
  unfolding delete_component_claims claim_components
  delete_splunk_pvc cr = delete_component_claims cr (claim_components cr.kind)
