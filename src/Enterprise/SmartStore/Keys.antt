-- ===== src/Enterprise/SmartStore/Keys.antt =====
-- The secrets of the remote volumes: AreRemoteVolumeKeysChanged and GetSmartstoreVolumesConfig of
-- pkg/splunk/enterprise/configuration.go, GetSmartstoreRemoteVolumeSecrets and the removal of owner
-- references of pkg/splunk/enterprise/util.go.
pub mod Tracking
use infra_devops.Base.{
  String, Bool, true, false, not, if◌then◌else◌, str_eq, Option, none, some, List, [], ◌∷◌, message,
  error_text, Err, Result, ok, err, on_error, on_result, on_option, ◌≡◌,
}
use infra_devops.Base.Text.{◌<>◌}
use infra_devops.Base.Dict.{Dict, lookup, insert, or_empty}
use infra_devops.Common.Names.{get_namespace_scoped_secret_name}
use infra_devops.Common.Meta.{MetaObject}
use infra_devops.Cluster.{Env, M, pure, ◌>>=◌}
use infra_devops.Util.Owners.{get_secret_by_name, set_secret_owner_ref, remove_secret_owner_ref}
use infra_devops.Enterprise.SmartStore.{
  VolumeSpec, SmartStoreSpec, elements, is_smartstore_configured,
}

-- The answer of AreRemoteVolumeKeysChanged, the resource versions tracked afterwards, and the error.
pub record KeyCheck : Type 0 where
  pub changed : Bool
  pub revisions : Dict String
  pub failure : Option Err

abbrev pub same_keys : Dict String → KeyCheck
same_keys revisions = record { changed = false; revisions = revisions; failure = none }

abbrev pub unread : VolumeSpec → Dict String → Err → KeyCheck
unread v revisions e = record {
  changed = false;
  revisions = revisions;
  failure = some (
      message
        ("Not able to access secret object = " <> v.secret_ref <> ", reason: " <> error_text e));
}

-- A secret whose version is tracked.
unfoldable pub compare_version : VolumeSpec → Dict String → String → String → KeyCheck
compare_version v revisions old new =
    if str_eq old new
    then same_keys revisions
    else record { changed = true; revisions = insert v.secret_ref new revisions; failure = none }

module _ {S : Type 0} (env : Env) (cr : MetaObject) where
  -- The loop over the volumes.
  unfoldable pub check_keys : List VolumeSpec → Dict String → M S KeyCheck
  unfolding compare_version
  check_keys [] revisions = pure (same_keys revisions)
  check_keys (v ∷ vs) revisions = do
    r ← get_secret_by_name env cr v.secret_ref
    on_result r (λ e. pure (unread v revisions e))
        λ secret.
          on_option (lookup v.secret_ref revisions)
            (check_keys vs (insert v.secret_ref secret.resource_version revisions))
            (λ old. pure (compare_version v revisions old secret.resource_version))

  unfoldable pub are_remote_volume_keys_changed : Option SmartStoreSpec → Dict String → M S KeyCheck
  unfolding check_keys is_smartstore_configured
  are_remote_volume_keys_changed none revisions = pure (same_keys revisions)
  are_remote_volume_keys_changed (some s) revisions =
      if is_smartstore_configured (some s)
      then check_keys (elements s.vol_list) revisions
      else pure (same_keys revisions)

  -- The access key, the secret key and the version of the secret.
  unfoldable pub get_smartstore_remote_volume_secrets :
      VolumeSpec → M S (Result (String × String × String))
  get_smartstore_remote_volume_secrets volume = do
    r ← get_secret_by_name env cr volume.secret_ref
    on_result r (λ e. pure (err e))
        λ secret. do
          let access = or_empty (on_option secret.data_map none (lookup "s3_access_key"))
          let key = or_empty (on_option secret.data_map none (lookup "s3_secret_key"))
          ignored ← set_secret_owner_ref env volume.secret_ref cr
          if str_eq access ""
              then pure (err (message "S3 Access Key is missing"))
              else if str_eq key ""
              then pure (err (message "S3 Secret Key is missing"))
              else pure (ok (access, key, secret.resource_version))

  -- The loop over the volumes, behind the text so far.
  unfoldable pub add_volumes : String → List VolumeSpec → M S (Result String)
  unfolding get_smartstore_remote_volume_secrets
  add_volumes conf [] = pure (ok conf)
  add_volumes conf (v ∷ vs) = do
    r ← get_smartstore_remote_volume_secrets v
    on_result r
        (λ e. pure (
          err (
            message
              ("Unable to read the secrets for volume = " <> v.name <> ". " <> error_text e))))
        λ keys.
          add_volumes
            (conf <> "\n[volume:" <> v.name <> "]\nstorageType = remote\npath = s3://" <> v.path
              <> "\nremote.s3.access_key = " <> keys.0 <> "\nremote.s3.secret_key = " <> keys.1
              <> "\nremote.s3.endpoint = " <> v.endpoint <> "\n")
            vs

  unfoldable pub get_smartstore_volumes_config : SmartStoreSpec → M S (Result String)
  unfolding add_volumes
  get_smartstore_volumes_config s = add_volumes "" (elements s.vol_list)

  -- The loop over the volumes; the error is that of the last one.
  unfoldable pub remove_volume_refs : List VolumeSpec → Option Err → M S (Option Err)
  remove_volume_refs [] last = pure last
  remove_volume_refs (v ∷ vs) last = do
    removed ← remove_secret_owner_ref env v.secret_ref cr
    remove_volume_refs vs removed.1

  unfoldable pub delete_owner_references_for_s3_secret_objects :
      Option SmartStoreSpec → M S (Option Err)
  unfolding remove_volume_refs is_smartstore_configured
  delete_owner_references_for_s3_secret_objects none = pure none
  delete_owner_references_for_s3_secret_objects (some s) =
      if is_smartstore_configured (some s)
      then remove_volume_refs (elements s.vol_list) none
      else pure none

  -- The error of the volumes' secrets is dropped.
  unfoldable pub delete_owner_references_for_resources : Option SmartStoreSpec → M S (Option Err)
  unfolding delete_owner_references_for_s3_secret_objects
  delete_owner_references_for_resources smartstore = do
    ignored ←
        on_option smartstore (pure none)
          (λ s. delete_owner_references_for_s3_secret_objects (some s))
    removed ← remove_secret_owner_ref env (get_namespace_scoped_secret_name cr.namespace) cr
    pure removed.1
