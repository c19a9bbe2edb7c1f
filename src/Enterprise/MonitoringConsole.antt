-- ===== src/Enterprise/MonitoringConsole.antt =====
-- The URLs in the config map of the monitoring console: ApplyMonitoringConsoleEnvConfigMap,
-- AddURLsConfigMap and DeleteURLsConfigMap of pkg/splunk/enterprise/monitoringconsole.go. A value is a
-- list of hosts with commas between them, to which several custom resources contribute.
pub mod Frame
pub mod Growth
use infra_devops.Base.{
  String, Bool, true, false, not, ◌&&◌, if◌then◌else◌, str_eq, ltb, ◌==◌, Option, none, some, List,
  [], ◌∷◌, Result, ok, on_result, on_option,
}
use infra_devops.Base.Text.{◌<>◌, contains_str, str_lt}
use infra_devops.Base.Strings.{
  byte_length, split_commas, replace_all, ends_with, trim_suffix, trim_prefix, starts_with,
}
use infra_devops.Base.Dict.{Dict, lookup, insert, erase, or_empty}
use infra_devops.Common.Slices.{sort}
use infra_devops.Cluster.{NamespacedName, ConfigMap, Env, M, pure, panic, ◌>>=◌, create_config_map}
use infra_devops.Util.Resource.{fetch_config_map, new_config_map, save_config_map}
use infra_devops.Control.Merge.{map_eq}
use infra_devops.Enterprise.Names.{monitoring_console, get_splunk_monitoringconsole_config_map_name}

-- corev1.EnvVar, as far as the code uses it
pub record EnvVar : Type 0 where
  pub name : String
  pub value : String

-- The field Data of the revised config map, which may be nil.
abbrev pub Data : Type 0
Data = Option (Dict String)

unfoldable pub read : String → Data → String
unfolding lookup
read key none = ""
read key (some d) = or_empty (lookup key d)

-- A write to a nil map panics.
unfoldable pub write : String → String → Data → Option Data
write key v none = none
write key v (some d) = some (some (insert key v d))

unfoldable pub remove : String → Data → Data
remove key none = none
remove key (some d) = some (erase key d)

infixl 5 ◌then◌
abbrev pub ◌then◌ : Option Data → (Data → Option Data) → Option Data
◌then◌ none f = none
◌then◌ (some d) f = f d

-- Where the test holds of what `name` has, another value for it.
unfoldable pub rewrite : String → (String → Bool) → (String → String) → Data → Option Data
unfolding read write
rewrite name test change d =
    let v = read name d in if test v then write name (change v) d else some d

module _ (cr_name : String) where
  -- One round of the inner loop of DeleteURLsConfigMap, statement by statement.
  module _ (url : EnvVar) (delete_cr : Bool) (curr : String) where
    unfoldable pub cut : Data → Option Data
    unfolding read write
    cut d =
        if contains_str curr cr_name && not (contains_str url.value curr) && not delete_cr
        then write url.name (replace_all curr "" (read url.name d)) d
        else if contains_str curr cr_name && delete_cr
        then write url.name (replace_all url.value "" (read url.name d)) d
        else some d

    unfoldable pub drop_site : Data → Option Data
    unfolding remove
    drop_site d =
        if str_eq url.name "SPLUNK_SITE" && delete_cr then some (remove "SPLUNK_SITE" d) else some d

    unfoldable pub trim_front : Data → Option Data
    unfolding rewrite
    trim_front d = rewrite url.name (λ v. starts_with v ",") (trim_prefix ",") d

    unfoldable pub trim_back : Data → Option Data
    unfolding rewrite
    trim_back d = rewrite url.name (λ v. ends_with v ",") (trim_suffix ",") d

    unfoldable pub collapse : Data → Option Data
    unfolding rewrite
    collapse d = rewrite url.name (λ v. contains_str v ",,") (replace_all ",," ",") d

    unfoldable pub drop_empty : Data → Option Data
    unfolding read remove
    drop_empty d = if str_eq (read url.name d) "" then some (remove url.name d) else some d

    unfoldable pub delete_url : Data → Option Data
    unfolding cut drop_site trim_front trim_back collapse drop_empty
    delete_url d = cut d then drop_site then trim_front then trim_back then collapse then drop_empty

  unfoldable pub delete_each : EnvVar → Bool → List String → Data → Option Data
  unfolding delete_url
  delete_each url delete_cr [] d = some d
  delete_each url delete_cr (curr ∷ currs) d =
      delete_url url delete_cr curr d then delete_each url delete_cr currs

  unfoldable pub delete_urls_config_map : List EnvVar → Bool → Data → Option Data
  unfolding delete_each read
  delete_urls_config_map [] delete_cr d = some d
  delete_urls_config_map (url ∷ urls) delete_cr d =
      delete_each url delete_cr (sort str_lt (split_commas (read url.name d))) d
      then delete_urls_config_map urls delete_cr

  -- The current URLs that have the name of the custom resource in them, the last one first.
  unfoldable pub urls_of : String → List String → String
  urls_of own [] = own
  urls_of own (curr ∷ currs) =
      if contains_str curr cr_name
      then if str_eq own "" then urls_of curr currs else urls_of (curr <> "," <> own) currs
      else urls_of own currs

  -- The loop of a scaling up, on the value that it extends.
  unfoldable pub with_entry : String → String → String
  with_entry v entry = if contains_str v entry then v else v <> "," <> entry

  unfoldable pub extend : String → List String → String
  unfolding with_entry
  extend v [] = v
  extend v (entry ∷ entries) = extend (with_entry v entry) entries

  -- The loop of AddURLsConfigMap, whose scaling down is of all the URLs. The break in the second branch
  -- ends it.
  unfoldable pub add_each : List EnvVar → List EnvVar → Data → Option Data
  unfolding write read urls_of extend delete_urls_config_map
  add_each new_urls [] d = some d
  add_each new_urls (url ∷ urls) none = none
  add_each new_urls (url ∷ urls) (some d) =
      on_option (lookup url.name d) (write url.name url.value (some d) then add_each new_urls urls)
        λ old.
          let own = urls_of "" (split_commas old) in
          if byte_length own == byte_length url.value
          then some (some d)
          else if ltb (byte_length own) (byte_length url.value)
          then write url.name (extend old (split_commas url.value)) (some d)
          then add_each new_urls urls
          else delete_urls_config_map new_urls false (some d) then add_each new_urls urls

  unfoldable pub add_urls_config_map : List EnvVar → Data → Option Data
  unfolding add_each
  add_urls_config_map urls d = add_each urls urls d

  -- The branch that ApplyMonitoringConsoleEnvConfigMap takes on a config map that is there.
  unfoldable pub revise : List EnvVar → Bool → Data → Option Data
  unfolding add_urls_config_map delete_urls_config_map
  revise urls add_new d =
      if add_new then add_urls_config_map urls d else delete_urls_config_map urls true d

unfoldable pub fill : List EnvVar → Dict String → Dict String
unfolding insert
fill [] d = d
fill (url ∷ urls) d = fill urls (insert url.name url.value d)

-- An error of the first call stands for a config map that is not there.
unfoldable pub apply_monitoring_console_env_config_map :
    {S : Type 0} → Env → String → String → List EnvVar → Bool → M S (Result ConfigMap)
unfolding revise fill get_splunk_monitoringconsole_config_map_name
apply_monitoring_console_env_config_map env namespace cr_name urls add_new = do
  let id : NamespacedName = record {
    namespace = namespace;
    name = get_splunk_monitoringconsole_config_map_name namespace monitoring_console;
  }
  r ← fetch_config_map env id
  on_result r
      (λ _. new_config_map env (record {
        id = id;
        resource_version = "";
        owner_references = [];
        data_map = some (if add_new then fill urls [] else []);
      }))
      λ current. on_option (revise cr_name urls add_new current.data_map) panic λ revised.
        if map_eq revised current.data_map
        then pure (ok current)
        else save_config_map env (record current { data_map = revised })
