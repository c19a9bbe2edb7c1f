-- ===== src/Common/Spec.antt =====
-- type Spec of pkg/splunk/common/types.go with its DeepCopyInto, and the validation of
-- pkg/splunk/common/util.go.
pub mod Defaults
use infra_devops.Base.{
  String, Bool, if◌then◌else◌, str_eq, Option, none, some, List, [], ◌∷◌, map, message, Err,
}
use infra_devops.Base.Int.{ℤ, pos, eqb_ℤ}
use infra_devops.Base.Text.{◌<>◌}
use infra_devops.Base.Dict.{Dict, lookup, insert, or_empty, is_some}
use infra_devops.Cluster.{Slice}

-- corev1.ResourceRequirements: the quantities by their names, `none` for a nil map
pub record Resources : Type 0 where
  pub requests : Option (Dict String)
  pub limits : Option (Dict String)

-- intstr.IntOrString: IntVal, and StrVal where the type is String
pub record TargetPort : Type 0 where
  pub int_val : ℤ
  pub text : Option String

pub record ServicePort : Type 0 where
  pub protocol : String
  pub port : ℤ
  pub target_port : TargetPort

-- corev1.Service, without its metadata and what the code only copies, which is `rest`
pub record ServiceTemplate : Type 0 where
  pub ports : Slice ServicePort
  pub kind : String
  pub rest : String

pub record Spec : Type 0 where
  pub image : String
  pub image_pull_policy : String
  pub scheduler_name : String
  pub affinity : String
  pub tolerations : Slice String
  pub resources : Resources
  pub service_template : ServiceTemplate

-- DeepCopyInto: `in` and `out` afterwards. DeepCopyInto of a Kubernetes type copies its receiver into
-- its argument, and the receiver is `out`.
unfoldable pub deep_copy_into : Spec → Spec → Spec × Spec
deep_copy_into source target = (
  record source {
    affinity = target.affinity;
    resources = target.resources;
    service_template = target.service_template;
  },
  record target {
    image = source.image;
    image_pull_policy = source.image_pull_policy;
    scheduler_name = source.scheduler_name;
    tolerations = elim source.tolerations [ none ↦ target.tolerations | some t ↦ some t ];
  },
)

unfoldable pub made : Option (Dict String) → Dict String
made none = []
made (some m) = m

-- The value of the key where it has one, and that of the defaults where not.
unfoldable pub fill_default : String → Option (Dict String) → Dict String → Dict String
unfolding made
fill_default key defaults m =
    let filled = insert key (or_empty (lookup key (made defaults))) m in
    if is_some (lookup key m) then m else filled

unfoldable pub fill_defaults : Option (Dict String) → Option (Dict String) → Dict String
unfolding fill_default made
fill_defaults defaults m = fill_default "memory" defaults (fill_default "cpu" defaults (made m))

unfoldable pub validate_resources : Resources → Resources → Resources
unfolding fill_defaults
validate_resources resources defaults = record {
  requests = some (fill_defaults defaults.requests resources.requests);
  limits = some (fill_defaults defaults.limits resources.limits);
}

-- The policy afterwards, and the error; the first argument is IMAGE_PULL_POLICY.
unfoldable pub validate_image_pull_policy : String → String → String × Option Err
validate_image_pull_policy variable given =
    let policy = if str_eq given "" then variable else given in
    if str_eq policy ""
    then ("IfNotPresent", none)
    else if str_eq policy "Always"
    then (policy, none)
    else if str_eq policy "IfNotPresent"
    then (policy, none)
    else (
      policy,
      some (message ("ImagePullPolicy must be one of Always or IfNotPresent; value=" <> policy)),
    )

-- `int_value` is the method IntValue of intstr.IntOrString.
module _ (int_value : TargetPort → ℤ) where
  unfoldable pub default_port : ServicePort → ServicePort
  default_port p = record p {
    protocol = if str_eq p.protocol "" then "TCP" else p.protocol;
    target_port =
        if eqb_ℤ (int_value p.target_port) (pos 0)
        then record p.target_port { int_val = p.port }
        else p.target_port;
  }

  unfoldable pub default_ports : Slice ServicePort → Slice ServicePort
  unfolding default_port
  default_ports none = none
  default_ports (some ps) = some (map default_port ps)

  unfoldable pub set_service_template_defaults : ServiceTemplate → ServiceTemplate
  unfolding default_ports
  set_service_template_defaults t = record t {
    ports = default_ports t.ports;
    kind = if str_eq t.kind "" then "ClusterIP" else t.kind;
  }

  unfoldable pub validate_spec : String → Resources → Spec → Spec × Option Err
  unfolding set_service_template_defaults validate_resources validate_image_pull_policy
  validate_spec variable defaults spec =
      let policy = validate_image_pull_policy variable spec.image_pull_policy in
      (
        record spec {
          scheduler_name =
              if str_eq spec.scheduler_name "" then "default-scheduler" else spec.scheduler_name;
          service_template = set_service_template_defaults spec.service_template;
          resources = validate_resources spec.resources defaults;
          image_pull_policy = policy.0;
        },
        policy.1,
      )
