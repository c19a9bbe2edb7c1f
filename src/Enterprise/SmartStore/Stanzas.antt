-- ===== src/Enterprise/SmartStore/Stanzas.antt =====
-- What the stanza of an index says: GetSmartstoreIndexesConfig of pkg/splunk/enterprise/configuration.go.
use infra_devops.Base.{
  ℕ, String, true, false, Bool-cases, str_eq, if◌then◌else◌, List, [], ◌∷◌, ◌++◌, ◌==◌, ◌≡◌, ◌≢◌,
  ◌∙◌, ap, inl, inr, arith, eq_iff,
}
use infra_devops.Base.Int.{pos}
use infra_devops.Base.Text.{◌<>◌, itoa, contains_str}
use infra_devops.Base.Strings.{contains_str-append, contains_str-prepend, contains_str-itself}
use infra_devops.Enterprise.SmartStore.{IndexSpec}
use infra_devops.Enterprise.SmartStore.Config.{
  with_number, with_remote_path, add_index, add_indexes, get_smartstore_indexes_config,
}
use infra_devops.Enterprise.SmartStore.Texts.{get_smartstore_indexes_config-append}

abbrev pub Has : String → String → Type 0
Has text p = contains_str text p ≡ true

-- The line of a number.
abbrev pub setting : String → ℕ → String
setting key n = "\n" <> key <> " = " <> itoa (pos n)

module _ (key : String) (n : ℕ) (conf : String) where
  with_number-keeps : (p : String) → Has conf p → Has (with_number key n conf) p
  unfolding with_number
  with_number-keeps p h = elim (Bool-cases (n == 0)) [
    | inl e ↦ rw e h
    | inr e ↦ rw e (contains_str-append conf (setting key n) p h)
  ]

  with_number-shows : n ≢ 0 → Has (with_number key n conf) (setting key n)
  unfolding with_number
  with_number-shows h =
      let e : (n == 0) ≡ false = ground (arith, h) in
      rw e (contains_str-prepend conf (setting key n) (setting key n) (contains_str-itself _))

-- The path of an index that gives none is the variable that stands for its name.
abbrev pub path_of : IndexSpec → String
path_of index = if str_eq index.remote_path "" then "$_index_name" else index.remote_path

abbrev pub location : IndexSpec → String
location index = "\nremotePath = volume:" <> index.common.vol_name <> "/" <> path_of index

module _ (index : IndexSpec) (conf : String) where
  with_remote_path-keeps : (p : String) → Has conf p → Has (with_remote_path index conf) p
  unfolding with_remote_path
  with_remote_path-keeps p h = elim (Bool-cases (str_eq index.common.vol_name "")) [
    | inl e ↦ ground (arith, e, h)
    | inr e ↦ elim (Bool-cases (str_eq index.remote_path "")) [
      | inl f ↦ rw (e, f) (contains_str-append conf _ p h)
      | inr f ↦ rw (e, f) (contains_str-append conf _ p h)
    ]
  ]

  with_remote_path-shows :
      index.common.vol_name ≢ "" → Has (with_remote_path index conf) (location index)
  unfolding with_remote_path
  with_remote_path-shows h =
      let same = eq_iff index.common.vol_name "" in
      let e : str_eq index.common.vol_name "" ≡ false = ground (arith, h, same) in
      elim (Bool-cases (str_eq index.remote_path "")) [
        | inl f ↦ rw (e, f) (contains_str-prepend conf _ _ (contains_str-itself _))
        | inr f ↦ rw (e, f) (contains_str-prepend conf _ _ (contains_str-itself _))
      ]

-- The text has the name of the index, the place of its data where it has a volume, and each setting
-- that is not zero.
pub record Shows (index : IndexSpec) (text : String) : Type 0 where
  pub name : Has text ("\n[" <> index.name <> "]")
  pub place : index.common.vol_name ≢ "" → Has text (location index)
  pub bloom :
      index.hotlist.bloom_filter_recency_hours ≢ 0
      → Has text
          (setting "hotlist_bloom_filter_recency_hours" index.hotlist.bloom_filter_recency_hours)
  pub recency :
      index.hotlist.recency_secs ≢ 0
      → Has text (setting "hotlist_recency_secs" index.hotlist.recency_secs)
  pub size :
      index.common.max_global_data_size_mb ≢ 0
      → Has text (setting "maxGlobalDataSizeMB" index.common.max_global_data_size_mb)
  pub raw :
      index.common.max_global_raw_data_size_mb ≢ 0
      → Has text (setting "maxGlobalRawDataSizeMB" index.common.max_global_raw_data_size_mb)

add_index-Shows : (conf : String) (index : IndexSpec) → Shows index (add_index conf index)
unfolding add_index
add_index-Shows conf index =
    let end : (t p : String) → Has t p → Has (t <> "\n") p =
      λ t p h. contains_str-append t "\n" p h in
    let raw = with_number-keeps "maxGlobalRawDataSizeMB" index.common.max_global_raw_data_size_mb in
    let size = with_number-keeps "maxGlobalDataSizeMB" index.common.max_global_data_size_mb in
    let hot = with_number-keeps "hotlist_recency_secs" index.hotlist.recency_secs in
    let bloom =
      with_number-keeps "hotlist_bloom_filter_recency_hours"
        index.hotlist.bloom_filter_recency_hours in
    record {
      name = end _ _ (
          raw _ _ (
            size _ _ (
              hot _ _ (
                bloom _ _ (
                  with_remote_path-keeps index _ _
                    (contains_str-prepend conf _ _ (contains_str-itself _)))))));
      place = λ h.
          end _ _ (raw _ _ (size _ _ (hot _ _ (bloom _ _ (with_remote_path-shows index _ h)))));
      bloom = λ h. end _ _ (raw _ _ (size _ _ (hot _ _ (with_number-shows _ _ _ h))));
      recency = λ h. end _ _ (raw _ _ (size _ _ (with_number-shows _ _ _ h)));
      size = λ h. end _ _ (raw _ _ (with_number-shows _ _ _ h));
      raw = λ h. end _ _ (with_number-shows _ _ _ h);
    }

of_one :
    (index : IndexSpec) (ys : List IndexSpec)
    → get_smartstore_indexes_config (index ∷ ys)
      ≡ add_index "" index <> get_smartstore_indexes_config ys
unfolding get_smartstore_indexes_config add_indexes
of_one index ys = get_smartstore_indexes_config-append (index ∷ []) ys

-- The text of a list of indexes has a stanza for each index, between the texts of the indexes before
-- and behind it; the stanza has the index's name, the place of its data where a volume is given (the
-- remote path, or $_index_name where none is given), and each setting that is not zero.
pub get_smartstore_indexes_config-Shows :
    (xs : List IndexSpec) (index : IndexSpec) (ys : List IndexSpec)
    → (stanza : String) × Shows index stanza
      × (get_smartstore_indexes_config (xs ++ index ∷ ys)
          ≡ get_smartstore_indexes_config xs <> (stanza <> get_smartstore_indexes_config ys))
get_smartstore_indexes_config-Shows xs index ys = (
  add_index "" index,
  add_index-Shows "" index,
  get_smartstore_indexes_config-append xs (index ∷ ys)
      ∙ ap (λ t. get_smartstore_indexes_config xs <> t) (of_one index ys),
)
