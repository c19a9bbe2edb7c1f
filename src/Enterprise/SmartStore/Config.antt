-- ===== src/Enterprise/SmartStore/Config.antt =====
-- The texts of indexes.conf and server.conf: GetSmartstoreIndexesConfig, GetServerConfigEntries and
-- GetSmartstoreIndexesDefaults of pkg/splunk/enterprise/configuration.go.
use infra_devops.Base.{
  ℕ, String, not, ◌&&◌, if◌then◌else◌, str_eq, List, [], ◌∷◌, ◌==◌, Option, none, some,
}
use infra_devops.Base.Int.{pos}
use infra_devops.Base.Text.{◌<>◌, itoa}
use infra_devops.Enterprise.SmartStore.{IndexSpec, CacheManagerSpec, IndexConfDefaultsSpec}

-- fmt.Sprintf("%s\nkey = %d", conf, n), unless `n` is zero
unfoldable pub with_number : String → ℕ → String → String
with_number key n conf = if n == 0 then conf else conf <> "\n" <> key <> " = " <> itoa (pos n)

unfoldable pub with_text : String → String → String → String
with_text key s conf = if str_eq s "" then conf else conf <> "\n" <> key <> " = " <> s

abbrev pub default_remote_path : String
default_remote_path = "$_index_name"

abbrev in_volume : String → String → String → String
in_volume conf volume path = conf <> "\nremotePath = volume:" <> volume <> "/" <> path

unfoldable pub with_remote_path : IndexSpec → String → String
with_remote_path index conf =
    if not (str_eq index.remote_path "") && not (str_eq index.common.vol_name "")
    then in_volume conf index.common.vol_name index.remote_path
    else if not (str_eq index.common.vol_name "")
    then in_volume conf index.common.vol_name default_remote_path
    else conf

-- A round of the loop: a stanza behind the text so far.
unfoldable pub add_index : String → IndexSpec → String
add_index conf index =
    let named = conf <> "\n[" <> index.name <> "]" in
    let placed = with_remote_path index named in
    let bloom =
      with_number "hotlist_bloom_filter_recency_hours" index.hotlist.bloom_filter_recency_hours
        placed in
    let hot = with_number "hotlist_recency_secs" index.hotlist.recency_secs bloom in
    let size = with_number "maxGlobalDataSizeMB" index.common.max_global_data_size_mb hot in
    let raw = with_number "maxGlobalRawDataSizeMB" index.common.max_global_raw_data_size_mb size in
    raw <> "\n"

unfoldable pub add_indexes : String → List IndexSpec → String
add_indexes conf [] = conf
add_indexes conf (index ∷ indexes) = add_indexes (add_index conf index) indexes

unfoldable pub get_smartstore_indexes_config : List IndexSpec → String
unfolding add_indexes
get_smartstore_indexes_config indexes = add_indexes "" indexes

-- The entries of a cache manager that is there; the caller's pointer is never nil.
unfoldable pub cache_entries : CacheManagerSpec → String → String
cache_entries c conf =
    let padding = with_number "eviction_padding" c.eviction_padding_size_mb conf in
    let policy = with_text "eviction_policy" c.eviction_policy padding in
    let bloom =
      with_number "hotlist_bloom_filter_recency_hours" c.hotlist.bloom_filter_recency_hours
        policy in
    let hot = with_number "hotlist_recency_secs" c.hotlist.recency_secs bloom in
    let size = with_number "max_cache_size" c.max_cache_size_mb hot in
    let down = with_number "max_concurrent_downloads" c.max_concurrent_downloads size in
    with_number "max_concurrent_uploads" c.max_concurrent_uploads down

abbrev pub empty_stanza : String
empty_stanza = "[cachemanager]"

unfoldable pub get_server_config_entries : Option CacheManagerSpec → String
unfolding cache_entries
get_server_config_entries none = ""
get_server_config_entries (some c) =
    let conf = cache_entries c empty_stanza in if str_eq empty_stanza conf then "" else conf <> "\n"

unfoldable pub get_smartstore_indexes_defaults : IndexConfDefaultsSpec → String
unfolding with_number
get_smartstore_indexes_defaults d =
    let base =
      "[default]\nrepFactor = auto\nmaxDataSize = auto\nhomePath = $SPLUNK_DB/"
      <> default_remote_path <> "/db\ncoldPath = $SPLUNK_DB/" <> default_remote_path
      <> "/colddb\nthawedPath = $SPLUNK_DB/" <> default_remote_path <> "/thaweddb" in
    let placed =
      if str_eq d.vol_name "" then base else in_volume base d.vol_name default_remote_path in
    let size = with_number "maxGlobalDataSizeMB" d.max_global_data_size_mb placed in
    let raw = with_number "maxGlobalRawDataSizeMB" d.max_global_raw_data_size_mb size in raw <> "\n"
