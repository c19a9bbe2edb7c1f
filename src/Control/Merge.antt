-- ===== src/Control/Merge.antt =====
-- MergePodUpdates and SortStatefulSetSlices of pkg/splunk/controller/util.go. Each comparison sorts
-- the slices that it compares in place, so both templates come back.
pub mod Settled
use infra_devops.Base.{
  String, Bool, true, false, not, ◌&&◌, ◌||◌, if◌then◌else◌, str_eq, Option, none, some, List, [],
  ◌∷◌, ◌==◌, length,
}
use infra_devops.Base.Dict.{Dict, dict_eq}
use infra_devops.Base.Text.{contains_str}
use infra_devops.Common.Slices.{
  merged_left, Compared, compare_by_key, compare_ports, sort_slice, keyed_less, port_less,
}
use infra_devops.Cluster.{Slice, Container, PodSpec, PodTemplate}

-- What a merge leaves: the two values, and whether they differed materially.
pub record Merged (A : Type 0) : Type 0 where
  pub result : Bool
  pub current : A
  pub revised : A

-- One round of the loop over the containers.
unfoldable pub merge_container : Bool → Container → Container → Merged Container
unfolding compare_by_key compare_ports
merge_container skip_for_mc current revised =
    let ports = compare_ports current.ports revised.ports in
    let mounts = compare_by_key current.volume_mounts revised.volume_mounts in
    let envs = compare_by_key current.env revised.env in
    record {
      result =
          not (str_eq current.image revised.image)
          || ports.differs
          || mounts.differs
          || not (str_eq current.resources revised.resources)
          || (not skip_for_mc && envs.differs);
      current = record {
        image = revised.image;
        ports = merged_left ports;
        volume_mounts = merged_left mounts;
        resources = revised.resources;
        env = if skip_for_mc then current.env else merged_left envs;
      };
      revised = record revised {
        ports = ports.right;
        volume_mounts = mounts.right;
        env = if skip_for_mc then revised.env else envs.right;
      };
    }

-- The loop over the containers, of equally many on both sides.
unfoldable pub merge_containers : Bool → List Container → List Container → Merged (List Container)
unfolding merge_container
merge_containers skip [] revised = record { result = false; current = []; revised = revised }
merge_containers skip (c ∷ cs) [] = record { result = false; current = c ∷ cs; revised = [] }
merge_containers skip (c ∷ cs) (r ∷ rs) =
    let one = merge_container skip c r in
    let rest = merge_containers skip cs rs in
    record {
      result = one.result || rest.result;
      current = one.current ∷ rest.current;
      revised = one.revised ∷ rest.revised;
    }

unfoldable pub merge_pod_spec_updates : PodSpec → PodSpec → String → Merged PodSpec
unfolding compare_by_key merge_containers
merge_pod_spec_updates current revised name =
    let tolerations = compare_by_key current.tolerations revised.tolerations in
    let volumes = compare_by_key current.volumes revised.volumes in
    let same_inits = length current.init_containers == length revised.init_containers in
    let same_containers = length current.containers == length revised.containers in
    let containers : Merged (List Container) =
      if same_containers
      then merge_containers (contains_str name "monitoring-console") current.containers
          revised.containers
      else record { result = true; current = revised.containers; revised = revised.containers } in
    record {
      result =
          not (str_eq current.affinity revised.affinity)
          || tolerations.differs
          || not (str_eq current.scheduler_name revised.scheduler_name)
          || volumes.differs
          || not same_inits
          || containers.result;
      current = record {
        affinity = revised.affinity;
        tolerations = merged_left tolerations;
        scheduler_name = revised.scheduler_name;
        volumes = merged_left volumes;
        init_containers = if same_inits then current.init_containers else revised.init_containers;
        containers = containers.current;
      };
      revised = record revised {
        tolerations = tolerations.right;
        volumes = volumes.right;
        containers = containers.revised;
      };
    }

-- reflect.DeepEqual on maps that may be nil
unfoldable pub map_eq : Option (Dict String) → Option (Dict String) → Bool
map_eq none none = true
map_eq none (some b) = false
map_eq (some a) none = false
map_eq (some a) (some b) = dict_eq a b

-- MergePodMetaUpdates on the annotations and the labels, after MergePodSpecUpdates.
unfoldable pub merge_pod_updates : PodTemplate → PodTemplate → String → Merged PodTemplate
unfolding merge_pod_spec_updates map_eq
merge_pod_updates current revised name =
    let spec = merge_pod_spec_updates current.spec revised.spec name in
    let same_annotations = map_eq current.annotations revised.annotations in
    let same_labels = map_eq current.labels revised.labels in
    record {
      result = spec.result || not same_annotations || not same_labels;
      current = record {
        annotations = if same_annotations then current.annotations else revised.annotations;
        labels = if same_labels then current.labels else revised.labels;
        spec = spec.current;
      };
      revised = record revised { spec = spec.revised };
    }

sort_container : Container → Container
sort_container c = record c {
  ports = sort_slice port_less c.ports;
  volume_mounts = sort_slice keyed_less c.volume_mounts;
  env = sort_slice keyed_less c.env;
}

sort_containers : List Container → List Container
sort_containers [] = []
sort_containers (c ∷ cs) = sort_container c ∷ sort_containers cs

unfoldable pub sort_stateful_set_slices : PodSpec → PodSpec
unfolding sort_containers sort_container sort_slice keyed_less port_less
sort_stateful_set_slices spec = record spec {
  tolerations = sort_slice keyed_less spec.tolerations;
  volumes = sort_slice keyed_less spec.volumes;
  containers = sort_containers spec.containers;
}
