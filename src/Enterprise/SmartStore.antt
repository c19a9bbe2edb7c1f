-- ===== src/Enterprise/SmartStore.antt =====
-- SmartStore, the remote storage of indexes: its part of pkg/apis/enterprise/v1/common_types.go, and
-- the validation of pkg/splunk/enterprise/configuration.go. The counts are Go's uint.
pub mod Distinct
pub mod Valid
pub mod Config
pub mod Texts
pub mod Stanzas
pub mod Keys
pub mod Maps
pub mod Same
pub mod Quiet
pub mod Volumes
use infra_devops.Base.{
  ℕ, suc, String, Bool, true, false, ◌&&◌, ◌||◌, not, if◌then◌else◌, str_eq, Option, none, some,
  List, [], ◌∷◌, message, error_text, Err, Result, ok, err, on_error, on_result, length, ltb, ◌==◌,
}
use infra_devops.Base.Int.{pos}
use infra_devops.Base.Text.{◌<>◌, itoa}
use infra_devops.Base.Dict.{Dict, lookup, insert, is_some}
use infra_devops.Cluster.{Slice}

pub record VolumeSpec : Type 0 where
  pub name : String
  pub endpoint : String
  pub path : String
  pub secret_ref : String

-- IndexAndGlobalCommonSpec
pub record IndexConfDefaultsSpec : Type 0 where
  pub vol_name : String
  pub max_global_data_size_mb : ℕ
  pub max_global_raw_data_size_mb : ℕ

-- IndexAndCacheManagerCommonSpec
pub record Hotlist : Type 0 where
  pub recency_secs : ℕ
  pub bloom_filter_recency_hours : ℕ

pub record IndexSpec : Type 0 where
  pub name : String
  pub remote_path : String
  pub hotlist : Hotlist
  pub common : IndexConfDefaultsSpec

pub record CacheManagerSpec : Type 0 where
  pub hotlist : Hotlist
  pub eviction_policy : String
  pub max_cache_size_mb : ℕ
  pub eviction_padding_size_mb : ℕ
  pub max_concurrent_downloads : ℕ
  pub max_concurrent_uploads : ℕ

pub record SmartStoreSpec : Type 0 where
  pub vol_list : Slice VolumeSpec
  pub index_list : Slice IndexSpec
  pub defaults : IndexConfDefaultsSpec
  pub cache_manager_conf : CacheManagerSpec

-- A nil slice has no elements.
abbrev pub elements : {A : Type 0} → Slice A → List A
elements none = []
elements (some l) = l

-- `none` is a nil pointer.
unfoldable pub is_smartstore_configured : Option SmartStoreSpec → Bool
is_smartstore_configured none = false
is_smartstore_configured (some s) =
    is_some s.index_list || is_some s.vol_list || not (str_eq s.defaults.vol_name "")

-- The volumes from index `i` on.
unfoldable pub volume_from : List VolumeSpec → ℕ → String → Result ℕ
volume_from [] i name = err (message ("Volume: " <> name <> ", doesn't exist"))
volume_from (v ∷ vs) i name =
    let rest = volume_from vs (suc i) name in if str_eq v.name name then ok i else rest

unfoldable pub check_if_volume_exists : List VolumeSpec → String → Result ℕ
unfolding volume_from
check_if_volume_exists vs name = volume_from vs 0 name

unfoldable pub check_volume : ℕ → VolumeSpec → Option Err
check_volume i v =
    if str_eq v.name ""
    then some (message ("Volume name is missing for volume at : " <> itoa (pos i)))
    else if str_eq v.endpoint ""
    then some (message "Volume Endpoint URI is missing")
    else if str_eq v.path ""
    then some (message "Volume Path is missing")
    else if str_eq v.secret_ref ""
    then some (message "Volume SecretRef is missing")
    else none

-- The loop over the volumes from index `i` on, with the names seen before.
unfoldable pub check_volumes : List VolumeSpec → ℕ → Dict Bool → Option Err
unfolding check_volume
check_volumes [] i seen = none
check_volumes (v ∷ vs) i seen =
    let rest = check_volumes vs (suc i) (insert v.name true seen) in
    if is_some (lookup v.name seen)
    then some (
        message (
          "Duplicate volume name detected: " <> v.name
          <> ". Remove the duplicate entry and reapply the configuration"))
    else on_error (check_volume i v) (λ e. some e) rest

-- A name that is set is the name of a volume.
unfoldable pub check_reference : String → List VolumeSpec → String → Option Err
unfolding check_if_volume_exists
check_reference text vs name =
    if str_eq name ""
    then none
    else on_result (check_if_volume_exists vs name) (λ e. some (message (text <> error_text e)))
        (λ _. none)

unfoldable pub check_index : List VolumeSpec → String → ℕ → IndexSpec → Option Err
unfolding check_reference
check_index vs default i index =
    if str_eq index.name ""
    then some (message ("Index name is missing for index at: " <> itoa (pos i)))
    else if str_eq index.common.vol_name "" && str_eq default ""
    then some (message ("volumeName is missing for index: " <> index.name))
    else check_reference ("Invalid configuration for index: " <> index.name <> ". ") vs
        index.common.vol_name

-- The loop over the indexes from index `i` on, with the names seen before.
unfoldable pub check_indexes :
    List VolumeSpec → String → List IndexSpec → ℕ → Dict Bool → Option Err
unfolding check_index
check_indexes vs default [] i seen = none
check_indexes vs default (index ∷ indexes) i seen =
    let rest = check_indexes vs default indexes (suc i) (insert index.name true seen) in
    if is_some (lookup index.name seen)
    then some (
        message (
          "Duplicate index name detected: " <> index.name
          <> ".Remove the duplicate entry and reapply the configuration"))
    else on_error (check_index vs default i index) (λ e. some e) rest

-- What follows the test that SmartStore is configured.
unfoldable pub check_configured : List VolumeSpec → List IndexSpec → String → Option Err
unfolding check_volumes check_reference check_indexes
check_configured vs indexes default =
    if ltb 0 (length indexes) && (length vs == 0)
    then some (
        message (
          "Volume configuration is missing. Num. of indexes = "
          <> itoa (pos (length indexes))
          <> ". Num. of Volumes = "
          <> itoa (pos (length vs))))
    else on_error (check_volumes vs 0 []) (λ e. some e)
        (on_error (check_reference "Invalid configuration for defaults volume. " vs default)
          (λ e. some e) (check_indexes vs default indexes 0 []))

unfoldable pub validate_splunk_smartstore_spec : Option SmartStoreSpec → Option Err
unfolding is_smartstore_configured check_configured
validate_splunk_smartstore_spec none = none
validate_splunk_smartstore_spec (some s) =
    if is_smartstore_configured (some s)
    then check_configured (elements s.vol_list) (elements s.index_list) s.defaults.vol_name
    else none
