-- ===== src/Enterprise/SmartStore/Quiet.antt =====
-- The operations on the secrets and on the config map of SmartStore return, and leave the caller's own
-- state alone.
use infra_devops.Base.{String, str_eq, Option, none, some, List, [], ◌∷◌, on_option}
use infra_devops.Base.Dict.{Dict, lookup, or_empty}
use infra_devops.Common.Meta.{MetaObject}
use infra_devops.Cluster.{ConfigMap, Secret, Env}
use infra_devops.Cluster.Runs.{
  Still, Still-if, Still-bind, Still-ask, Still-on_error, Still-on_result, still_rules,
}
use infra_devops.Util.Resource.{
  fetch_config_map, new_config_map, save_config_map, create_resource, update_resource,
}
use infra_devops.Util.Owners.Quiet.{get_secret_by_name-Still, set_secret_owner_ref-Still}
use infra_devops.Control.Merge.{map_eq}
use infra_devops.Control.Apply.{apply_config_map}
use infra_devops.Enterprise.SmartStore.{VolumeSpec, SmartStoreSpec, is_smartstore_configured}
use infra_devops.Enterprise.SmartStore.Keys.{
  check_keys, are_remote_volume_keys_changed, get_smartstore_remote_volume_secrets, add_volumes,
  get_smartstore_volumes_config,
}
use infra_devops.Enterprise.SmartStore.Maps.{apply_entries, apply_smartstore_config_map}

abbrev found_in : Secret → String → String
found_in secret key = or_empty (on_option secret.data_map none (lookup key))

module _ {S : Type 0} (env : Env) where
  pub apply_config_map-Still : (m : ConfigMap) → Still {S = S} (apply_config_map env m)
  unfolding apply_config_map fetch_config_map new_config_map save_config_map create_resource
      update_resource
  apply_config_map-Still m = Still-bind _ _ (Still-ask _ _) (λ r.
      Still-on_result r _ _ (λ e. search still_rules)
        (λ current.
          Still-if (map_eq m.data_map current.data_map) _ _ (search still_rules)
            (search still_rules)))

  module _ (cr : MetaObject) where
    check_keys-Still :
        (vs : List VolumeSpec) (revisions : Dict String)
        → Still {S = S} (check_keys env cr vs revisions)
    unfolding check_keys
    check_keys-Still [] revisions = search still_rules
    check_keys-Still (v ∷ vs) revisions =
        search (still_rules, get_secret_by_name-Still, check_keys-Still vs)

    pub are_remote_volume_keys_changed-Still :
        (s : Option SmartStoreSpec) (revisions : Dict String)
        → Still {S = S} (are_remote_volume_keys_changed env cr s revisions)
    unfolding are_remote_volume_keys_changed
    are_remote_volume_keys_changed-Still none revisions = search still_rules
    are_remote_volume_keys_changed-Still (some s) revisions =
        Still-if (is_smartstore_configured (some s)) _ _ (check_keys-Still _ _) (search still_rules)

    get_secrets-Still :
        (v : VolumeSpec) → Still {S = S} (get_smartstore_remote_volume_secrets env cr v)
    unfolding get_smartstore_remote_volume_secrets
    get_secrets-Still v = Still-bind _ _ (get_secret_by_name-Still env cr _) (λ r.
        Still-on_result r _ _ (λ e. search still_rules)
          (λ secret. Still-bind _ _ (set_secret_owner_ref-Still env cr _) (λ ignored.
            Still-if (str_eq (found_in secret "s3_access_key") "") _ _ (search still_rules) (
              Still-if (str_eq (found_in secret "s3_secret_key") "") _ _ (search still_rules)
                (search still_rules)))))

    add_volumes-Still :
        (conf : String) (vs : List VolumeSpec) → Still {S = S} (add_volumes env cr conf vs)
    unfolding add_volumes
    add_volumes-Still conf [] = search still_rules
    add_volumes-Still conf (v ∷ vs) =
        search (still_rules, get_secrets-Still, λ (c : String). add_volumes-Still c vs)

    apply_entries-Still : (entries : Dict String) → Still {S = S} (apply_entries env cr entries)
    unfolding apply_entries
    apply_entries-Still entries = Still-bind _ _ (apply_config_map-Still _) (λ r.
        Still-on_error r.1 _ _ (λ e. search still_rules)
          (Still-if r.0 _ _ (search (still_rules, apply_config_map-Still)) (search still_rules)))

    pub get_smartstore_volumes_config-Still :
        (s : SmartStoreSpec) → Still {S = S} (get_smartstore_volumes_config env cr s)
    unfolding get_smartstore_volumes_config
    get_smartstore_volumes_config-Still s = add_volumes-Still "" _

    pub apply_smartstore_config_map-Still :
        (s : SmartStoreSpec) → Still {S = S} (apply_smartstore_config_map env cr s)
    unfolding apply_smartstore_config_map get_smartstore_volumes_config
    apply_smartstore_config_map-Still s =
        search (still_rules, add_volumes-Still, apply_entries-Still)
