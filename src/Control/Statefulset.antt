-- ===== src/Control/Statefulset.antt =====
-- The rest of pkg/splunk/controller/statefulset.go: ApplyStatefulSet, the manager that does nothing,
-- and the owner references of stateful sets.
use infra_devops.Base.{
  Bool, true, false, if◌then◌else◌, Option, none, some, [], ◌∷◌, ◌++◌, Err, on_error, on_result,
}
use infra_devops.Base.Int.{ℤ}
use infra_devops.Common.Names.{pending, ready, updating, ready_phase}
use infra_devops.Common.Meta.{MetaObject, as_owner}
use infra_devops.Cluster.{NamespacedName, StatefulSet, PodTemplate, Env, M, pure, ◌>>=◌}
use infra_devops.Util.Resource.{fetch_stateful_set, new_stateful_set, save_stateful_set}
use infra_devops.Util.Owners.{has_ref}
use infra_devops.Control.Merge.{merge_pod_updates, sort_stateful_set_slices}
use infra_devops.Control.Pods.{PodManager, Outcome, done, failed, update_stateful_set_pods}

module _ {S : Type 0} where
  -- DefaultStatefulSetPodManager
  unfoldable pub default_manager : PodManager S
  default_manager = record {
    prepare_scale_down = λ n. pure (true, none);
    prepare_recycle = λ n. pure (true, none);
    finish_recycle = λ n. pure (true, none);
  }

abbrev is_ready : Outcome → Bool
is_ready o = on_error o.failure (λ _. false) (ready_phase o.phase)

module _ {S : Type 0} (env : Env) where
  unfoldable pub apply_stateful_set : StatefulSet → M S Outcome
  apply_stateful_set revised = do
    r ← fetch_stateful_set env revised.id
    on_result r
        (λ _. do
          let template : PodTemplate = record revised.template {
            spec = sort_stateful_set_slices revised.template.spec;
          }
          let sorted : StatefulSet = record revised { template = template }
          c ← new_stateful_set env sorted
          pure (on_result c (λ e. failed pending e sorted) (λ created. done pending created)))
        λ current.
          (let merge = merge_pod_updates current.template revised.template current.id.name in
            let merged : StatefulSet = record current { template = merge.current } in
            if merge.result
            then (do
              u ← save_stateful_set env merged
              pure (on_result u (λ e. failed updating e merged) (λ saved. done updating saved)))
            else pure (done ready merged))

  -- Update of DefaultStatefulSetPodManager
  unfoldable pub update_default : StatefulSet → ℤ → M S Outcome
  unfolding apply_stateful_set default_manager update_stateful_set_pods
  update_default ss desired = do
    o ← apply_stateful_set ss
    if is_ready o then update_stateful_set_pods env default_manager o.set desired else pure o

  unfoldable pub set_stateful_set_owner_ref : MetaObject → NamespacedName → M S (Option Err)
  unfolding has_ref
  set_stateful_set_owner_ref cr id = do
    r ← fetch_stateful_set env id
    on_result r (λ e. pure (some e))
        λ ss. if has_ref (as_owner cr false) ss.owner_references then pure none else do
          u ←
              save_stateful_set env
                (record ss { owner_references = ss.owner_references ++ as_owner cr false ∷ [] })
          pure (on_result u (λ e. some e) (λ _. none))
