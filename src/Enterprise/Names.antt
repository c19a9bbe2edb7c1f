-- ===== src/Enterprise/Names.antt =====
-- pkg/splunk/enterprise/names.go, and the instance types of pkg/splunk/enterprise/types.go.
use infra_devops.Base.{String, Bool, if◌then◌else◌}
use infra_devops.Base.Int.{ℤ}
use infra_devops.Base.Text.{◌<>◌, itoa, to_lower}

-- InstanceType
pub data InstanceType : Type 0 where
  standalone cluster_master search_head indexer deployer license_master monitoring_console :
      InstanceType

-- InstanceType.ToString
unfoldable pub to_string : InstanceType → String
to_string standalone = "standalone"
to_string cluster_master = "cluster-master"
to_string search_head = "search-head"
to_string indexer = "indexer"
to_string deployer = "deployer"
to_string license_master = "license-master"
to_string monitoring_console = "monitoring-console"

-- InstanceType.ToKind
unfoldable pub to_kind : InstanceType → String
to_kind standalone = "standalone"
to_kind cluster_master = "indexer"
to_kind search_head = "search-head"
to_kind indexer = "indexer"
to_kind deployer = "search-head"
to_kind license_master = "license-master"
to_kind monitoring_console = "monitoring-console"

unfoldable pub get_splunk_statefulset_name : InstanceType → String → String
unfolding to_string
get_splunk_statefulset_name kind identifier = "splunk-" <> identifier <> "-" <> to_string kind

unfoldable pub get_splunk_statefulset_pod_name : InstanceType → String → ℤ → String
unfolding to_string
get_splunk_statefulset_pod_name kind identifier index =
    "splunk-" <> identifier <> "-" <> to_string kind <> "-" <> itoa index

unfoldable pub get_splunk_service_name : InstanceType → String → Bool → String
unfolding to_string
get_splunk_service_name kind identifier headless =
    "splunk-"
    <> identifier
    <> "-"
    <> to_string kind
    <> "-"
    <> (if headless then "headless" else "service")

unfoldable pub get_splunk_smartstore_config_map_name : String → String → String
get_splunk_smartstore_config_map_name identifier kind =
    "splunk-" <> identifier <> "-" <> to_lower kind <> "-smartstore"

unfoldable pub get_splunk_monitoringconsole_config_map_name : String → InstanceType → String
unfolding to_kind
get_splunk_monitoringconsole_config_map_name identifier kind =
    "splunk-" <> identifier <> "-" <> to_kind kind
