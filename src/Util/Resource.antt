-- ===== src/Util/Resource.antt =====
-- CreateResource, UpdateResource and DeleteResource of pkg/splunk/util/util.go, and the calls that
-- the code makes through them.
use infra_devops.Base.{if◌then◌else◌, Option, none, some, Err, is_already_exists, Result, ok, err}
use infra_devops.Cluster.{
  NamespacedName, StatefulSet, Pod, Secret, Env, History, Call, get_stateful_set,
  create_stateful_set, update_stateful_set, get_pod, delete_pod, get_claim, delete_claim,
  get_secret, create_secret, update_secret, delete_secret, M, ask, pure, ◌>>=◌, ConfigMap,
  ServiceAccount, Service, Deployment, get_config_map, create_config_map, update_config_map,
  get_service_account, create_service_account, update_service_account, get_service, create_service,
  update_service, get_deployment, create_deployment, update_deployment,
}

-- if err != nil && !errors.IsAlreadyExists(err) { return err }; on the success of a call the object
-- holds what the server answered, on a tolerated error it is as it was
unfoldable pub tolerate : {R : Type 0} → R → Result R → Result R
tolerate obj (ok r) = ok r
tolerate obj (err e) = if is_already_exists e then ok obj else err e

unfoldable pub tolerate_deleted : Option Err → Option Err
tolerate_deleted none = none
tolerate_deleted (some e) = if is_already_exists e then none else some e

module _ {S R : Type 0} where
  unfoldable pub create_resource : (R → Call) → (History → R → Result R) → R → M S (Result R)
  unfolding tolerate
  create_resource call answer obj = do r ← ask (call obj) (λ h. answer h obj); pure (tolerate obj r)

  unfoldable pub update_resource : (R → Call) → (History → R → Result R) → R → M S (Result R)
  unfolding tolerate
  update_resource call answer obj = do r ← ask (call obj) (λ h. answer h obj); pure (tolerate obj r)

  unfoldable pub delete_resource : (R → Call) → (History → R → Option Err) → R → M S (Option Err)
  unfolding tolerate_deleted
  delete_resource call answer obj = do
    e ← ask (call obj) (λ h. answer h obj)
    pure (tolerate_deleted e)

-- The client's calls on the kinds that the code uses.
module _ {S : Type 0} (env : Env) where
  unfoldable pub fetch_stateful_set : NamespacedName → M S (Result StatefulSet)
  fetch_stateful_set id = ask (get_stateful_set id) (λ h. env.stateful_set_at h id)

  unfoldable pub new_stateful_set : StatefulSet → M S (Result StatefulSet)
  unfolding create_resource
  new_stateful_set = create_resource create_stateful_set env.stateful_set_created

  unfoldable pub save_stateful_set : StatefulSet → M S (Result StatefulSet)
  unfolding update_resource
  save_stateful_set = update_resource update_stateful_set env.stateful_set_updated

  unfoldable pub fetch_pod : NamespacedName → M S (Result Pod)
  fetch_pod id = ask (get_pod id) (λ h. env.pod_at h id)

  -- c.Delete(ctx, &pod, preconditions)
  unfoldable pub remove_pod : Pod → M S (Option Err)
  remove_pod pod = ask (delete_pod pod.uid pod.resource_version) (λ h. env.pod_deleted h pod)

  unfoldable pub fetch_claim : NamespacedName → M S (Result NamespacedName)
  fetch_claim id = ask (get_claim id) (λ h. env.claim_at h id)

  unfoldable pub remove_claim : NamespacedName → M S (Option Err)
  remove_claim id = ask (delete_claim id) (λ h. env.claim_deleted h id)

  unfoldable pub fetch_secret : NamespacedName → M S (Result Secret)
  fetch_secret id = ask (get_secret id) (λ h. env.secret_at h id)

  unfoldable pub new_secret : Secret → M S (Result Secret)
  unfolding create_resource
  new_secret = create_resource create_secret env.secret_created

  unfoldable pub save_secret : Secret → M S (Result Secret)
  unfolding update_resource
  save_secret = update_resource update_secret env.secret_updated

  unfoldable pub remove_secret : Secret → M S (Option Err)
  unfolding delete_resource
  remove_secret = delete_resource delete_secret env.secret_deleted

  unfoldable pub fetch_config_map : NamespacedName → M S (Result ConfigMap)
  fetch_config_map id = ask (get_config_map id) (λ h. env.config_map_at h id)

  unfoldable pub new_config_map : ConfigMap → M S (Result ConfigMap)
  unfolding create_resource
  new_config_map = create_resource create_config_map env.config_map_created

  unfoldable pub save_config_map : ConfigMap → M S (Result ConfigMap)
  unfolding update_resource
  save_config_map = update_resource update_config_map env.config_map_updated

  unfoldable pub fetch_service_account : NamespacedName → M S (Result ServiceAccount)
  fetch_service_account id = ask (get_service_account id) (λ h. env.service_account_at h id)

  unfoldable pub new_service_account : ServiceAccount → M S (Result ServiceAccount)
  unfolding create_resource
  new_service_account = create_resource create_service_account env.service_account_created

  unfoldable pub save_service_account : ServiceAccount → M S (Result ServiceAccount)
  unfolding update_resource
  save_service_account = update_resource update_service_account env.service_account_updated

  unfoldable pub fetch_service : NamespacedName → M S (Result Service)
  fetch_service id = ask (get_service id) (λ h. env.service_at h id)

  unfoldable pub new_service : Service → M S (Result Service)
  unfolding create_resource
  new_service = create_resource create_service env.service_created

  unfoldable pub save_service : Service → M S (Result Service)
  unfolding update_resource
  save_service = update_resource update_service env.service_updated

  unfoldable pub fetch_deployment : NamespacedName → M S (Result Deployment)
  fetch_deployment id = ask (get_deployment id) (λ h. env.deployment_at h id)

  unfoldable pub new_deployment : Deployment → M S (Result Deployment)
  unfolding create_resource
  new_deployment = create_resource create_deployment env.deployment_created

  unfoldable pub save_deployment : Deployment → M S (Result Deployment)
  unfolding update_resource
  save_deployment = update_resource update_deployment env.deployment_updated
