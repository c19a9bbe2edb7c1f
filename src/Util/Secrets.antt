-- ===== src/Util/Secrets.antt =====
-- The versioned secrets of pkg/splunk/util/secrets.go: the latest one, its creation from the
-- namespace's secret, and the removal of old ones.
pub mod Emits
pub mod Removal
pub mod Quiet
use infra_devops.Base.{
  String, Bool, true, false, if◌then◌else◌, Option, none, some, List, [], ◌∷◌, Err, Result, ok, err,
  on_error, on_result, on_option, ltb, ◌==◌, ◌+◌, ◌-◌, length,
}
use infra_devops.Base.Int.{ℤ, pos, negsuc, eqb_ℤ}
use infra_devops.Base.Text.{◌<>◌, itoa}
use infra_devops.Base.Dict.{Dict, lookup, insert, or_empty, dict_eq}
use infra_devops.Common.Names.{
  get_versioned_secret_name, get_splunk_secret_token_types, first_version,
}
use infra_devops.Common.Meta.{MetaObject, as_owner}
use infra_devops.Cluster.{
  NamespacedName, OwnerReference, Secret, Env, list_secrets, M, ask, pure, ◌>>=◌,
}
use infra_devops.Util.Resource.{fetch_secret, new_secret, save_secret, remove_secret}
use infra_devops.Util.Versions.{Latest, scan_secrets, no_version, is_unwanted}
use infra_devops.Util.Tokens.{apply_namespace_scoped_secret_object}

abbrev secret_data : Option (Dict String) → Dict String
secret_data none = []
secret_data (some m) = m

-- Data[key], which is empty for a missing key
token : Option (Dict String) → String → String
token m key = or_empty (lookup key (secret_data m))

default_yml : Option (Dict String) → String
unfolding token
default_yml m =
    "\nsplunk:\n    hec_disabled: 0\n    hec_enableSSL: 0\n    hec_token: \""
    <> token m "hec_token"
    <> "\"\n    password: \""
    <> token m "password"
    <> "\"\n    pass4SymmKey: \""
    <> token m "pass4SymmKey"
    <> "\"\n    idxc:\n        secret: \""
    <> token m "idxc_secret"
    <> "\"\n    shc:\n        secret: \""
    <> token m "shc_secret"
    <> "\"\n"

copy_tokens : Option (Dict String) → List String → Dict String → Dict String
unfolding token
copy_tokens m [] acc = acc
copy_tokens m (t ∷ types) acc = copy_tokens m types (insert t (token m t) acc)

-- The data of a versioned secret, from the data of the namespace's secret.
unfoldable pub splunk_readable : Option (Dict String) → Dict String
unfolding copy_tokens default_yml
splunk_readable m =
    insert "default.yml" (default_yml m) (copy_tokens m get_splunk_secret_token_types [])

same_data : Dict String → Option (Dict String) → Bool
same_data m none = false
same_data m (some m') = dict_eq m m'

abbrev owned_by : Option MetaObject → List OwnerReference
owned_by none = []
owned_by (some cr) = as_owner cr false ∷ []

-- existingLatestVersion + 1, of a positive int64
unfoldable pub next_version : ℤ → ℤ
next_version (pos n) = if n == 9223372036854775807 then negsuc 9223372036854775807 else pos (n + 1)
next_version (negsuc n) = if n == 0 then pos 0 else negsuc (n - 1)

module _ {S : Type 0} (env : Env) where
  unfoldable pub get_splunk_readable_namespace_scoped_secret_data :
      String → M S (Result (Dict String))
  unfolding splunk_readable
  get_splunk_readable_namespace_scoped_secret_data namespace = do
    r ← apply_namespace_scoped_secret_object env namespace
    pure (on_result r (λ e. err e) (λ secret. ok (splunk_readable secret.data_map)))

  -- `none` for the data stands for nil.
  unfoldable pub apply_splunk_secret :
      Option MetaObject → Option (Dict String) → String → String → M S (Result Secret)
  unfolding get_splunk_readable_namespace_scoped_secret_data same_data
  apply_splunk_secret cr given name namespace = do
    prepared ←
        on_option given (get_splunk_readable_namespace_scoped_secret_data namespace)
          (λ m. pure (ok m))
    on_result prepared (λ e. pure (err e))
        λ new_data. do
          let id : NamespacedName = record { namespace = namespace; name = name }
          r ← fetch_secret env id
          on_result r
              (λ _. new_secret env (record {
                id = id;
                resource_version = "";
                owner_references = owned_by cr;
                data_map = some new_data;
                rest = "";
              }))
              (λ current.
                if same_data new_data current.data_map
                then pure (ok current)
                else save_secret env (record current { data_map = some new_data }))

  unfoldable pub get_existing_latest_versioned_secret : String → String → Bool → M S Latest
  unfolding scan_secrets
  get_existing_latest_versioned_secret namespace identifier list = do
    r ← ask (list_secrets namespace) (λ h. env.secrets_in h namespace)
    pure (on_result r (λ _. no_version) (λ items. scan_secrets identifier list no_version items))

  -- On a first version that cannot be created the result is a nil secret with no error.
  unfoldable pub get_latest_versioned_secret :
      Option MetaObject → String → String → M S (Result (Option Secret))
  unfolding get_existing_latest_versioned_secret apply_splunk_secret
  get_latest_versioned_secret cr namespace identifier = do
    readable ← get_splunk_readable_namespace_scoped_secret_data namespace
    on_result readable (λ e. pure (err e))
        λ m. do
          latest ← get_existing_latest_versioned_secret namespace identifier false
          if eqb_ℤ latest.version (negsuc 0)
              then (do
                r ←
                    apply_splunk_secret cr (some m)
                      (get_versioned_secret_name identifier first_version) namespace
                pure (ok (on_result r (λ _. none) (λ secret. some secret))))
              else if same_data m (on_option latest.secret none (λ secret. secret.data_map))
              then pure (ok latest.secret)
              else do
                r ←
                    apply_splunk_secret cr (some m)
                      (get_versioned_secret_name identifier (itoa (next_version latest.version)))
                      namespace
                pure (on_result r (λ e. err e) (λ secret. ok (some secret)))

  -- The loop over the map of versions, in one order; Go leaves the order open.
  unfoldable pub delete_unwanted : ℤ → List (ℤ × Secret) → M S (Option Err)
  unfolding is_unwanted
  delete_unwanted latest [] = pure none
  delete_unwanted latest ((version, secret) ∷ rest) =
      if is_unwanted latest version
      then (do
        e ← remove_secret env secret
        on_error e (λ e. pure (some e)) (delete_unwanted latest rest))
      else delete_unwanted latest rest

  unfoldable pub remove_unwanted_secrets : String → String → M S (Option Err)
  unfolding get_existing_latest_versioned_secret delete_unwanted
  remove_unwanted_secrets identifier namespace = do
    latest ← get_existing_latest_versioned_secret namespace identifier true
    if eqb_ℤ latest.version (negsuc 0)
        then pure none
        else if ltb 3 (length latest.found)
        then delete_unwanted latest.version latest.found
        else pure none
