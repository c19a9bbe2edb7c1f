-- ===== src/Common/Names.antt =====
-- pkg/splunk/common/names.go, and the phases of pkg/splunk/common/types.go.
use infra_devops.Base.{Bool, true, false, String, List, [], ◌∷◌, if◌then◌else◌, str_eq}
use infra_devops.Base.Text.{◌<>◌}

-- type Phase
pub data Phase : Type 0 where
  pending ready updating scaling_up scaling_down terminating error : Phase

-- phase == PhaseReady
abbrev pub ready_phase : Phase → Bool
ready_phase ready = true
ready_phase _ = false

abbrev pub first_version : String
first_version = "1"

abbrev pub idxc_secret : String
idxc_secret = "idxc_secret"

-- fmt.Sprintf("%s-secret-v%s", versionedSecretIdentifier, version)
unfoldable pub get_versioned_secret_name : String → String → String
get_versioned_secret_name identifier version = (identifier <> "-secret-v") <> version

unfoldable pub get_namespace_scoped_secret_name : String → String
get_namespace_scoped_secret_name namespace = "splunk-" <> namespace <> "-secret"

abbrev pub get_splunk_secret_token_types : List String
get_splunk_secret_token_types =
    "hec_token" ∷ "password" ∷ "pass4SymmKey" ∷ "idxc_secret" ∷ "shc_secret" ∷ []

-- The first argument is the value of CLUSTER_DOMAIN.
unfoldable pub get_service_fqdn : String → String → String → String
get_service_fqdn domain namespace name =
    name <> "." <> namespace <> ".svc." <> (if str_eq domain "" then "cluster.local" else domain)
