-- ===== src/Enterprise/SmartStore/Maps.antt =====
-- The config map of SmartStore: ApplySmartstoreConfigMap of pkg/splunk/enterprise/util.go,
-- prepareSplunkSmartstoreConfigMap and getSmartstoreConfigMap of
-- pkg/splunk/enterprise/configuration.go.
use infra_devops.Base.{
  String, Bool, true, false, not, ◌&&◌, if◌then◌else◌, str_eq, Option, none, some, [], ◌∷◌, ◌++◌,
  message, Err, on_error, on_result,
}
use infra_devops.Base.Text.{◌<>◌, itoa}
use infra_devops.Base.Dict.{Dict, insert}
use infra_devops.Common.Meta.{MetaObject, as_owner}
use infra_devops.Cluster.{ConfigMap, Env, M, ask, pure, ◌>>=◌, clock}
use infra_devops.Util.Resource.{fetch_config_map}
use infra_devops.Control.Apply.{apply_config_map}
use infra_devops.Enterprise.Names.{
  InstanceType, standalone, cluster_master, get_splunk_smartstore_config_map_name,
}
use infra_devops.Enterprise.SmartStore.{SmartStoreSpec, elements}
use infra_devops.Enterprise.SmartStore.Config.{
  get_smartstore_indexes_config, get_smartstore_indexes_defaults, get_server_config_entries,
}
use infra_devops.Enterprise.SmartStore.Keys.{get_smartstore_volumes_config}

abbrev pub config_token : String
config_token = "conftoken"

-- Without an owner reference; the caller may add one.
unfoldable pub prepare_splunk_smartstore_config_map :
    String → String → String → Dict String → ConfigMap
unfolding get_splunk_smartstore_config_map_name
prepare_splunk_smartstore_config_map identifier namespace kind entries = record {
  id = record {
    namespace = namespace;
    name = get_splunk_smartstore_config_map_name identifier kind;
  };
  resource_version = "";
  owner_references = [];
  data_map = some entries;
}

-- The config map, whether its data changed, and the error.
pub record Applied : Type 0 where
  pub config_map : Option ConfigMap
  pub changed : Bool
  pub failure : Option Err

-- The kinds whose pods mount the config map.
unfoldable pub has_smartstore : InstanceType → Bool
has_smartstore standalone = true
has_smartstore cluster_master = true
has_smartstore _ = false

abbrev not_applied : Bool → Err → Applied
not_applied changed e = record { config_map = none; changed = changed; failure = some e }

-- The data of the config map without its token.
unfoldable pub wanted_data : SmartStoreSpec → String → String → Dict String
unfolding get_smartstore_indexes_defaults get_server_config_entries
wanted_data s volumes indexes =
    insert "server.conf" (get_server_config_entries (some s.cache_manager_conf)) (
      insert "indexes.conf"
        (get_smartstore_indexes_defaults s.defaults <> " " <> volumes <> " " <> indexes) [])

module _ {S : Type 0} (env : Env) (cr : MetaObject) where
  -- The config map with a fresh token.
  apply_with_token : Dict String → M S Applied
  unfolding prepare_splunk_smartstore_config_map
  apply_with_token entries = do
    seconds ← ask clock env.now
    let fresh : ConfigMap =
        prepare_splunk_smartstore_config_map cr.name cr.namespace cr.kind
          (insert config_token (itoa seconds) entries)
    (changed, e) ← apply_config_map env fresh
    on_error e (λ e. pure (not_applied changed e))
        (pure (record { config_map = some fresh; changed = changed; failure = none }))

  -- Step 2, once the texts of the volumes and of the indexes are there.
  unfoldable pub apply_entries : Dict String → M S Applied
  unfolding apply_with_token prepare_splunk_smartstore_config_map
  apply_entries entries = do
    let bare : ConfigMap = prepare_splunk_smartstore_config_map cr.name cr.namespace cr.kind entries
    let owned : ConfigMap = record bare {
      owner_references = bare.owner_references ++ as_owner cr true ∷ [];
    }
    (changed, e) ← apply_config_map env owned
    on_error e (λ e. pure (not_applied changed e))
        (if changed
          then apply_with_token entries
          else pure (record { config_map = some owned; changed = false; failure = none }))

  unfoldable pub apply_smartstore_config_map : SmartStoreSpec → M S Applied
  unfolding apply_entries wanted_data get_smartstore_indexes_config
  apply_smartstore_config_map s = do
    r ← get_smartstore_volumes_config env cr s
    on_result r (λ e. pure (not_applied false e))
        λ volumes.
          let indexes = get_smartstore_indexes_config (elements s.index_list) in
          if not (str_eq indexes "") && str_eq volumes ""
          then pure
              (not_applied false (message "Indexes without Volume configuration is not allowed"))
          else apply_entries (wanted_data s volumes indexes)

  unfoldable pub get_smartstore_config_map : InstanceType → M S (Option ConfigMap)
  unfolding get_splunk_smartstore_config_map_name
  get_smartstore_config_map kind = do
    let name : String =
        if has_smartstore kind then get_splunk_smartstore_config_map_name cr.name cr.kind else ""
    if str_eq name "" then pure none else do
      r ← fetch_config_map env (record { namespace = cr.namespace; name = name })
      pure (on_result r (λ _. none) (λ m. some m))
