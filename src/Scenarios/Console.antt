-- ===== src/Scenarios/Console.antt =====
-- Concrete inputs of the theorems on the config map of the monitoring console.
use infra_devops.Base.{String, true, some, [], ◌∷◌, inl, inr, ◌≡◌, refl, arith}
use infra_devops.Base.Text.{contains_str, str_lt}
use infra_devops.Base.Strings.{byte_length, split_commas, replace_all, ends_with, trim_suffix}
use infra_devops.Common.Slices.{sort}
use infra_devops.Base.Dict.{Dict, insert, lookup}
use infra_devops.Enterprise.MonitoringConsole.{
  EnvVar, urls_of, add_urls_config_map, delete_urls_config_map,
}
use infra_devops.Enterprise.MonitoringConsole.Growth.{Added, add_urls_config_map-grows}

abbrev shared_hosts : String
shared_hosts = "splunk-s2-standalone-0,splunk-s1-standalone-0"

abbrev console_data : Dict String
console_data = ("SPLUNK_STANDALONE_URL", shared_hosts) ∷ ("SPLUNK_SITE", "site0") ∷ []

abbrev two_standalones : EnvVar
two_standalones = record {
  name = "SPLUNK_STANDALONE_URL";
  value = "splunk-s1-standalone-0,splunk-s1-standalone-1";
}

abbrev site : EnvVar
site = record { name = "SPLUNK_SITE"; value = "site0" }

abbrev cluster_master_url : EnvVar
cluster_master_url = record { name = "SPLUNK_CLUSTER_MASTER_URL"; value = "splunk-s1" }

add_urls_config_map-grows_example :
    Added "s1" console_data
      (two_standalones ∷ cluster_master_url ∷ [])
      (add_urls_config_map "s1" (two_standalones ∷ cluster_master_url ∷ []) (some console_data))
unfolding lookup byte_length split_commas urls_of contains_str
add_urls_config_map-grows_example =
    add_urls_config_map-grows "s1" (two_standalones ∷ cluster_master_url ∷ []) console_data
      ((refl, tt), (tt, tt)) (inr (shared_hosts, refl, omega arith), (inl refl, tt))

-- A third host behind the two, and the host of the other resource where a custom resource goes.
scaling_up :
    add_urls_config_map "s1" (two_standalones ∷ []) (some console_data)
    ≡ some (
        some (
          (
            "SPLUNK_STANDALONE_URL",
            "splunk-s2-standalone-0,splunk-s1-standalone-0,splunk-s1-standalone-1",
          )
          ∷ ("SPLUNK_SITE", "site0")
          ∷ []))
unfolding add_urls_config_map byte_length split_commas contains_str insert
scaling_up = refl

deletion :
    delete_urls_config_map "s1"
      (record { name = "SPLUNK_STANDALONE_URL"; value = "splunk-s1-standalone-0" } ∷ [])
      true
      (some console_data)
    ≡ some
        (some (("SPLUNK_STANDALONE_URL", "splunk-s2-standalone-0") ∷ ("SPLUNK_SITE", "site0") ∷ []))
unfolding delete_urls_config_map sort split_commas str_lt contains_str insert replace_all ends_with
    trim_suffix
deletion = refl
