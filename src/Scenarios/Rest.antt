-- ===== src/Scenarios/Rest.antt =====
-- Concrete inputs of the theorems on secrets, specs, finalizers and claims.
use infra_devops.Base.{String, Bool, false, Option, none, some, [], ◌∷◌, Err, ok, ◌≡◌, refl, arith}
use infra_devops.Base.Int.{ℤ, pos}
use infra_devops.Base.Text.{itoa}
use infra_devops.Common.Names.{get_versioned_secret_name}
use infra_devops.Common.Meta.{MetaObject, owner_eq}
use infra_devops.Common.Spec.{Resources, TargetPort, Spec, validate_spec}
use infra_devops.Common.Spec.Defaults.{validate_spec-again}
use infra_devops.Cluster.{
  Container, ServiceSpec, OwnerReference, State, M, pure, ask, gets, modify, ◌>>=◌,
}
use mathlib.Core.Path.{subst}
use infra_devops.Cluster.Fixes.{Fixes-pure}
use infra_devops.Cluster.Emits.{Emits}
use infra_devops.Cluster.Yields.{Yields}
use infra_devops.Util.Versions.{get_versioned_secret_version}
use infra_devops.Util.Versions.Names.{get_versioned_secret_version-name}
use infra_devops.Util.Secrets.{remove_unwanted_secrets}
use infra_devops.Util.Secrets.Removal.{DeletesOutdated, remove_unwanted_secrets-outdated}
use infra_devops.Util.Owners.{remove_refs, set_secret_owner_ref}
use infra_devops.Util.Owners.Writes.{OwnedOnce, set_secret_owner_ref-OwnedOnce}
use infra_devops.Util.Tokens.{fill_tokens}
use infra_devops.Util.Tokens.Filled.{Filled, fill_tokens-Filled}
use infra_devops.Util.Owners.Counts.{occurrences, remove_refs-occurrences}
use infra_devops.Control.Merge.{merge_containers}
use infra_devops.Control.Merge.Settled.{merge_containers-settled}
use infra_devops.Control.Apply.{merge_service_spec_updates}
use infra_devops.Control.Apply.Settled.{merge_service_spec_updates-settled}
use infra_devops.Control.Finalizers.{Deletable, Registry, check_for_deletion}
use infra_devops.Control.Finalizers.Clear.{Spares, check_for_deletion-clears}
use infra_devops.Control.Reconcile.{reconcile, no_requeue}
use infra_devops.Control.Reconcile.Results.{reconcile-Reported}
use infra_devops.Control.Reconcile.Results
use infra_devops.Cluster.Runs.{Runs, Runs-pure}
use infra_devops.Enterprise.Claims.{claim_components, delete_splunk_pvc}
use infra_devops.Enterprise.Claims.Own.{TouchesOwn, delete_splunk_pvc-TouchesOwn}
use infra_devops.Scenarios.World.{world, begin, result_of}

get_versioned_secret_version-name_example :
    get_versioned_secret_version (get_versioned_secret_name "splunk-s1" (itoa (pos 12))) "splunk-s1"
    ≡ ok (pos 12)
get_versioned_secret_version-name_example =
    get_versioned_secret_version-name "splunk-s1" 12 (omega arith) (omega arith)

remove_unwanted_secrets-outdated_example :
    Emits {S = Unit {0}}
      (DeletesOutdated (world "b") "splunk-s1" "ns")
      (remove_unwanted_secrets (world "b") "splunk-s1" "ns")
remove_unwanted_secrets-outdated_example =
    remove_unwanted_secrets-outdated (world "b") "splunk-s1" "ns"

abbrev owner : String → OwnerReference
owner name = record { api_version = "v1"; kind = "k"; name = name; uid = "u"; controller = false }

remove_refs-occurrences_example :
    (occurrences (owner "b") (remove_refs (owner "b") (owner "a" ∷ owner "b" ∷ owner "c" ∷ [])).0
      ≡ 0)
    × ((remove_refs (owner "b") (owner "a" ∷ owner "b" ∷ owner "c" ∷ [])).1
        ≡ occurrences (owner "b") (owner "a" ∷ owner "b" ∷ owner "c" ∷ []))
unfolding owner_eq
remove_refs-occurrences_example =
    remove_refs-occurrences (owner "b") (owner "a" ∷ owner "b" ∷ owner "c" ∷ []) (omega arith)

abbrev search_head_cr : MetaObject
search_head_cr = record {
  api_version = "v1";
  kind = "SearchHeadCluster";
  name = "c";
  namespace = "ns";
  uid = "u";
}

set_secret_owner_ref-OwnedOnce_example :
    Emits {S = Unit {0}}
      (OwnedOnce "s" search_head_cr)
      (set_secret_owner_ref (world "b") "s" search_head_cr)
set_secret_owner_ref-OwnedOnce_example =
    set_secret_owner_ref-OwnedOnce (world "b") "s" search_head_cr

fill_tokens-Filled_example :
    Yields {S = Unit {0}}
      (Filled ("hec_token" ∷ "password" ∷ []) false (("password", "pw") ∷ []))
      (fill_tokens (world "b") ("hec_token" ∷ "password" ∷ []) false (("password", "pw") ∷ []))
fill_tokens-Filled_example =
    fill_tokens-Filled (world "b") ("hec_token" ∷ "password" ∷ []) false (("password", "pw") ∷ [])

-- Of two entries that follow each other the second one is left.
adjacent_refs : occurrences (owner "b") (remove_refs (owner "b") (owner "b" ∷ owner "b" ∷ [])).0 ≡ 1
unfolding remove_refs owner_eq
adjacent_refs = refl

abbrev bare : Spec
bare = record {
  image = "";
  image_pull_policy = "";
  scheduler_name = "";
  affinity = "";
  tolerations = none;
  resources = record { requests = none; limits = none };
  service_template = record {
    ports = some (
        record {
          protocol = "";
          port = pos 80;
          target_port = record { int_val = pos 0; text = none };
        }
        ∷ []);
    kind = "";
    rest = "";
  };
}

abbrev defaults : Resources
defaults = record { requests = some (("cpu", "0.1") ∷ ("memory", "512Mi") ∷ []); limits = none }

abbrev int_value : TargetPort → ℤ
int_value t = t.int_val

validate_spec-again_example :
    validate_spec int_value "" defaults (validate_spec int_value "" defaults bare).0
    ≡ validate_spec int_value "" defaults bare
validate_spec-again_example = validate_spec-again int_value "" defaults bare

abbrev registry : Registry
registry name = some (pure none)

registry-Spares : (f : String) (m : M Deletable (Option Err)) → registry f ≡ some m → Spares m
registry-Spares f m k s s' e h =
    let same : m ≡ pure none = cc in
    (Fixes-pure (λ (cr : Deletable). cr.finalizers) none).fixed s s' e
      (subst (λ (m : M Deletable (Option Err)). m s ≡ some (e, s')) same h)

abbrev doomed : Deletable
doomed = record { deletion_timestamp = some "now"; finalizers = "a" ∷ "b" ∷ "a" ∷ [] }

abbrev deletion_run : (Bool × Option Err) × State Deletable
deletion_run =
    result_of ((false, none), begin doomed) (check_for_deletion (world "b") registry (begin doomed))

check_for_deletion-clears_example :
    (◌≡◌ {A = Option Err} none none) × (deletion_run.1.own.finalizers ≡ [])
unfolding check_for_deletion pure gets modify ask ◌>>=◌
check_for_deletion-clears_example =
    check_for_deletion-clears (world "b") registry registry-Spares (begin doomed) deletion_run.1
      none refl

reconcile-Reported_example :
    Runs {S = Unit {0}}
      (reconcile (world "b") (pure (no_requeue, none)) (record { namespace = "ns"; name = "n" }))
      (begin tt)
      (λ r s'.
        Results.Reported none (record { namespace = "ns"; name = "n" }) (begin tt) r.0 r.1 s')
reconcile-Reported_example =
    reconcile-Reported (world "b") (pure (no_requeue, none))
      (record { namespace = "ns"; name = "n" }) (begin tt) (λ t. Runs-pure _ t _ tt)

delete_splunk_pvc-TouchesOwn_example :
    Emits {S = Unit {0}}
      (TouchesOwn (world "b") search_head_cr (claim_components "SearchHeadCluster"))
      (delete_splunk_pvc (world "b") search_head_cr)
delete_splunk_pvc-TouchesOwn_example =
    delete_splunk_pvc-TouchesOwn (world "b") search_head_cr {S = Unit {0}}

abbrev container : Container
container = record {
  image = "splunk:1";
  ports = some (record { key = pos 8089; rest = "" } ∷ record { key = pos 8000; rest = "" } ∷ []);
  volume_mounts = none;
  resources = "";
  env = some (record { key = "A"; rest = "1" } ∷ []);
}

abbrev newer : Container
newer = record container { image = "splunk:2"; env = some (record { key = "A"; rest = "2" } ∷ []) }

merge_containers-settled_example :
    (merge_containers false
      (merge_containers false (container ∷ []) (newer ∷ [])).current
      (newer ∷ [])).result
    ≡ false
merge_containers-settled_example = merge_containers-settled false (container ∷ []) (newer ∷ [])

abbrev service_spec : String → ServiceSpec
service_spec kind = record {
  kind = kind;
  external_name = "";
  external_traffic_policy = "";
  external_ips = none;
  ports = some (record { key = pos 8089; rest = kind } ∷ []);
}

merge_service_spec_updates-settled_example :
    (merge_service_spec_updates
      (merge_service_spec_updates (service_spec "ClusterIP") (service_spec "NodePort")).1
      (service_spec "NodePort")).0
    ≡ false
merge_service_spec_updates-settled_example =
    merge_service_spec_updates-settled (service_spec "ClusterIP") (service_spec "NodePort")
