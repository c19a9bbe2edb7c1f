-- ===== src/Control/Apply.antt =====
-- The functions of pkg/splunk/controller that create an object or bring it up to date: configmap.go,
-- secret.go, serviceaccount.go, service.go and deployment.go, with MergeServiceSpecUpdates of util.go.
pub mod Settled
use infra_devops.Base.{
  ◌&&◌, ◌||◌, String, Bool, true, false, not, if◌then◌else◌, str_eq, Option, none, some, Err,
  Result, ok, err, on_result,
}
use infra_devops.Base.Int.{ℤ, pos, ltb_ℤ}
use infra_devops.Base.Text.{str_lt}
use infra_devops.Common.Names.{Phase, pending, ready, updating, scaling_up, scaling_down}
use infra_devops.Common.Meta.{owner_eq}
use infra_devops.Common.Slices.{
  merged_left, list_eq, Compared, sort_and_compare_slices, compare_ports,
}
use infra_devops.Cluster.{
  NamespacedName, Slice, Secret, ConfigMap, ServiceAccount, Service, ServiceSpec, Deployment, Env,
  M, pure, panic, ◌>>=◌,
}
use infra_devops.Util.Resource.{
  fetch_config_map, new_config_map, save_config_map, fetch_service_account, new_service_account,
  save_service_account, fetch_service, new_service, save_service, fetch_deployment, new_deployment,
  save_deployment, fetch_secret, new_secret, save_secret,
}
use infra_devops.Control.Merge.{map_eq, merge_pod_updates}

same_id : NamespacedName → NamespacedName → Bool
same_id a b = str_eq a.namespace b.namespace && str_eq a.name b.name

-- reflect.DeepEqual
unfoldable pub secret_eq : Secret → Secret → Bool
unfolding same_id map_eq
secret_eq a b =
    same_id a.id b.id
    && str_eq a.resource_version b.resource_version
    && list_eq owner_eq a.owner_references b.owner_references
    && map_eq a.data_map b.data_map
    && str_eq a.rest b.rest

account_eq : ServiceAccount → ServiceAccount → Bool
unfolding same_id
account_eq a b = same_id a.id b.id && str_eq a.rest b.rest

-- CompareSortedStrings
unfoldable pub compare_sorted_strings : Slice String → Slice String → Compared String
unfolding sort_and_compare_slices
compare_sorted_strings = sort_and_compare_slices str_lt str_eq

-- The result, and the current spec afterwards.
unfoldable pub merge_service_spec_updates : ServiceSpec → ServiceSpec → Bool × ServiceSpec
unfolding compare_sorted_strings compare_ports
merge_service_spec_updates current revised =
    let ips = compare_sorted_strings current.external_ips revised.external_ips in
    let ports = compare_ports current.ports revised.ports in
    (
      not (str_eq current.kind revised.kind)
          || not (str_eq current.external_name revised.external_name)
          || not (str_eq current.external_traffic_policy revised.external_traffic_policy)
          || ips.differs
          || ports.differs,
      record {
        kind = revised.kind;
        external_name = revised.external_name;
        external_traffic_policy = revised.external_traffic_policy;
        external_ips = merged_left ips;
        ports = merged_left ports;
      },
    )

module _ {S : Type 0} (env : Env) where
  unfoldable pub apply_secret : Secret → M S (Result Secret)
  unfolding secret_eq
  apply_secret secret = do
    r ← fetch_secret env secret.id
    on_result r (λ _. do c ← new_secret env secret; pure c)
        λ current. if secret_eq current secret then pure (ok current) else save_secret env secret

  -- Whether the data were written, and the error.
  unfoldable pub apply_config_map : ConfigMap → M S (Bool × Option Err)
  unfolding map_eq
  apply_config_map config_map = do
    r ← fetch_config_map env config_map.id
    on_result r
        (λ _. do
          c ← new_config_map env config_map
          pure (on_result c (λ e. (false, some e)) (λ _. (true, none))))
        λ current. if map_eq config_map.data_map current.data_map then pure (false, none) else do
          u ← save_config_map env (record current { data_map = config_map.data_map })
          pure (on_result u (λ e. (false, some e)) (λ _. (true, none)))

  -- GetConfigMapResourceVersion
  unfoldable pub get_config_map_resource_version : NamespacedName → M S (Result String)
  get_config_map_resource_version id = do
    r ← fetch_config_map env id
    pure (on_result r (λ e. err e) (λ m. ok m.resource_version))

  unfoldable pub apply_service_account : ServiceAccount → M S (Option Err)
  unfolding account_eq
  apply_service_account account = do
    r ← fetch_service_account env account.id
    on_result r
        (λ _. do c ← new_service_account env account; pure (on_result c (λ e. some e) (λ _. none)))
        λ current.
          if account_eq account current
          then pure none
          else do u ← save_service_account env account; pure (on_result u (λ e. some e) (λ _. none))

  -- The service that the caller's pointer shows afterwards is not used by any caller.
  unfoldable pub apply_service : Service → M S (Option Err)
  unfolding merge_service_spec_updates
  apply_service revised = do
    r ← fetch_service env revised.id
    on_result r (λ _. do c ← new_service env revised; pure (on_result c (λ e. some e) (λ _. none)))
        λ current.
          (let (has_updates, merged) = merge_service_spec_updates current.spec revised.spec in
            if has_updates
            then (do
              u ← save_service env (record current { spec = merged })
              pure (on_result u (λ e. some e) (λ _. none)))
            else pure none)

  -- A write of a deployment that exists, with the phase that is reported with its error.
  save_with : Phase → Deployment → M S (Phase × Option Err)
  save_with phase d = do
    u ← save_deployment env d
    pure (phase, on_result u (λ e. some e) (λ _. none))

  -- ApplyDeployment after the scaling.
  settle : Bool → Deployment → ℤ → M S (Phase × Option Err)
  unfolding save_with
  settle has_updates current desired =
      if has_updates
      then save_with updating current
      else if ltb_ℤ current.updated_replicas current.status_replicas
      then pure (updating, none)
      else if ltb_ℤ current.ready_replicas desired
      then pure (if ltb_ℤ (pos 0) current.ready_replicas then scaling_up else pending, none)
      else pure (ready, none)

  -- The replicas of a deployment that exists; a nil pointer has none to scale.
  scale : Bool → Deployment → ℤ → M S (Phase × Option Err)
  unfolding settle
  scale has_updates current desired =
      let scaled : Deployment = record current { replicas = some desired } in
      let rest = settle has_updates current desired in
      elim current.replicas [
        | none ↦ rest
        | some n ↦
            if ltb_ℤ n desired
            then save_with scaling_up scaled
            else if ltb_ℤ desired n
            then save_with scaling_down scaled
            else rest
      ]

  unfoldable pub apply_deployment : Deployment → M S (Phase × Option Err)
  unfolding scale
  apply_deployment revised = do
    r ← fetch_deployment env revised.id
    on_result r
        (λ _. do
          c ← new_deployment env revised
          pure (pending, on_result c (λ e. some e) (λ _. none)))
        λ current.
          (let merge = merge_pod_updates current.template revised.template current.id.name in
            elim revised.replicas [
              | none ↦ panic
              | some desired ↦
                  scale merge.result (record current { template = merge.current }) desired
            ])
