-- ===== src/Common/Spec/Defaults.antt =====
-- The defaults of a Spec.
use infra_devops.Base.{
  true, false, if◌then◌else◌, Bool-cases, String, str_eq, eq_iff, Option, none, some, List, [], ◌∷◌,
  map, ◌≡◌, refl, ap, ◌∙◌, arith, inl, inr,
}
use infra_devops.Base.Int.{ℤ, pos, eqb_ℤ}
use infra_devops.Base.Dict.{Dict, lookup, lookup-insert, is_some}
use infra_devops.Cluster.{Slice}
use infra_devops.Common.Spec.{
  Resources, TargetPort, ServicePort, ServiceTemplate, Spec, fill_default, fill_defaults, made,
  validate_resources, validate_image_pull_policy, default_port, default_ports,
  set_service_template_defaults, validate_spec,
}

-- A key that has a value keeps it and every key that is filled has one.
fill_default-has :
    (key : String) (defaults : Option (Dict String)) (m : Dict String)
    → is_some (lookup key (fill_default key defaults m)) ≡ true
unfolding fill_default
fill_default-has key defaults m = elim (Bool-cases (is_some (lookup key m))) [
  | inl b ↦ rw b b
  | inr b ↦ rw b (rw (lookup-insert key key _ m) (ground (arith, eq_iff key key)))
]

fill_default-keeps :
    (key other : String) (defaults : Option (Dict String)) (m : Dict String)
    → is_some (lookup other m) ≡ true
    → is_some (lookup other (fill_default key defaults m)) ≡ true
unfolding fill_default
fill_default-keeps key other defaults m h = elim (Bool-cases (is_some (lookup key m))) [
  | inl b ↦ rw b h
  | inr b ↦ rw b (rw (lookup-insert key other _ m) (ground (arith, h)))
]

fill_default-full :
    (key : String) (defaults : Option (Dict String)) (m : Dict String)
    → is_some (lookup key m) ≡ true
    → fill_default key defaults m ≡ m
unfolding fill_default
fill_default-full key defaults m h = rw h refl

fill_defaults-again :
    (defaults m : Option (Dict String))
    → fill_defaults defaults (some (fill_defaults defaults m)) ≡ fill_defaults defaults m
unfolding fill_defaults made
fill_defaults-again defaults m =
    let once = fill_default "cpu" defaults (made m) in
    let cpu =
      fill_default-keeps "memory" "cpu" defaults once (fill_default-has "cpu" defaults (made m)) in
    ap (fill_default "memory" defaults) (fill_default-full "cpu" defaults _ cpu)
    ∙ fill_default-full "memory" defaults _ (fill_default-has "memory" defaults once)

pub validate_resources-again :
    (defaults r : Resources)
    → validate_resources (validate_resources r defaults) defaults ≡ validate_resources r defaults
unfolding validate_resources
validate_resources-again defaults r =
    rw
      (
        fill_defaults-again defaults.requests r.requests,
        fill_defaults-again defaults.limits r.limits,
      )
      refl

policy-kept :
    (variable p : String) → str_eq p "" ≡ false → (validate_image_pull_policy variable p).0 ≡ p
unfolding validate_image_pull_policy
policy-kept variable p h = elim (Bool-cases (str_eq p "Always")) [
  | inl a ↦ rw h (rw h (rw a refl))
  | inr a ↦ elim (Bool-cases (str_eq p "IfNotPresent")) [
    | inl b ↦ rw h (rw h (rw a (rw b refl)))
    | inr b ↦ rw h (rw h (rw a (rw b refl)))
  ]
]

-- Where no policy is given, that of the environment is validated.
policy-variable :
    (variable given : String)
    → str_eq given "" ≡ true
    → str_eq variable "" ≡ false
    → validate_image_pull_policy variable given ≡ validate_image_pull_policy variable variable
unfolding validate_image_pull_policy
policy-variable variable given h k = rw (h, k) (rw k refl)

pub validate_image_pull_policy-again :
    (variable given : String)
    → validate_image_pull_policy variable (validate_image_pull_policy variable given).0
      ≡ validate_image_pull_policy variable given
validate_image_pull_policy-again variable given = elim (Bool-cases (str_eq given "")) [
  | inr g ↦ ap (validate_image_pull_policy variable) (policy-kept variable given g)
  | inl g ↦ elim (Bool-cases (str_eq variable "")) [
    | inr v ↦
        let e = policy-variable variable given g v in
        rw e (ap (validate_image_pull_policy variable) (policy-kept variable variable v))
    | inl v ↦ unset g v
  ]
]
  where
    unset :
        str_eq given "" ≡ true
        → str_eq variable "" ≡ true
        → validate_image_pull_policy variable (validate_image_pull_policy variable given).0
          ≡ validate_image_pull_policy variable given
    unset g v = unfold validate_image_pull_policy in rw (g, v) refl

-- A text that is empty is set, to one that is not empty.
abbrev or_set : String → String → String
or_set d t = if str_eq t "" then d else t

or_set-again : (d t : String) → str_eq d "" ≡ false → or_set d (or_set d t) ≡ or_set d t
or_set-again d t h = elim (Bool-cases (str_eq t "")) [
  | inl a ↦ rw a (rw h refl)
  | inr a ↦ rw a (rw a refl)
]

module _ (int_value : TargetPort → ℤ) where
  abbrev or_port : ℤ → TargetPort → TargetPort
  or_port port t = if eqb_ℤ (int_value t) (pos 0) then record t { int_val = port } else t

  or_port-again : (port : ℤ) (t : TargetPort) → or_port port (or_port port t) ≡ or_port port t
  or_port-again port t = elim (Bool-cases (eqb_ℤ (int_value t) (pos 0))) [
    | inr a ↦ rw a (rw a refl)
    | inl a ↦ rw a (elim (Bool-cases (eqb_ℤ (int_value (record t { int_val = port })) (pos 0))) [
      | inl b ↦ rw b refl
      | inr b ↦ rw b refl
    ])
  ]

  default_port-again :
      (p : ServicePort)
      → default_port int_value (default_port int_value p) ≡ default_port int_value p
  unfolding default_port
  default_port-again p =
      let protocol = or_set-again "TCP" p.protocol refl in
      let target = or_port-again p.port p.target_port in cc

  default_ports-again :
      (ps : List ServicePort)
      → map (default_port int_value) (map (default_port int_value) ps)
        ≡ map (default_port int_value) ps
  default_ports-again [] = refl
  default_ports-again (p ∷ ps) =
      let first = default_port-again p in let others = default_ports-again ps in cc

  slice-again :
      (ps : Slice ServicePort)
      → default_ports int_value (default_ports int_value ps) ≡ default_ports int_value ps
  unfolding default_ports
  slice-again none = refl
  slice-again (some ps) = rw (default_ports-again ps) refl

  template-again :
      (t : ServiceTemplate)
      → set_service_template_defaults int_value (set_service_template_defaults int_value t)
        ≡ set_service_template_defaults int_value t
  unfolding set_service_template_defaults
  template-again t = rw (or_set-again "ClusterIP" t.kind refl, slice-again t.ports) refl

  -- ValidateSpec on a spec that it has validated changes nothing and returns the same error, whatever
  -- the environment's policy, the default resources and the value of a target port are.
  pub validate_spec-again :
      (variable : String) (defaults : Resources) (spec : Spec)
      → validate_spec int_value variable defaults (validate_spec int_value variable defaults spec).0
        ≡ validate_spec int_value variable defaults spec
  unfolding validate_spec
  validate_spec-again variable defaults spec =
      rw
        (
          or_set-again "default-scheduler" spec.scheduler_name refl,
          template-again spec.service_template,
          validate_resources-again defaults spec.resources,
          validate_image_pull_policy-again variable spec.image_pull_policy,
        )
        refl
