-- ===== src/Scenarios/Pods.antt =====
-- Runs of UpdateStatefulSetPods with the default manager.
use infra_devops.Base.{ℕ, ◌+◌, ◌≤◌, ◌<◌, ◌≡◌, refl}
use infra_devops.Base.Int.{pos, dec32}
use infra_devops.Base.Dict.{lookup}
use infra_devops.Util.Resource.{fetch_pod, remove_pod}
use infra_devops.Util.Secrets.{remove_unwanted_secrets}
use infra_devops.Common.Names.{ready, updating}
use infra_devops.Cluster.{State, pure, ask, ◌>>=◌}
use infra_devops.Cluster.Emits.{Emits, Emits-pure}
use infra_devops.Cluster.Costs.{total}
use infra_devops.Control.Pods.{Outcome, done, update_stateful_set_pods}
use infra_devops.Control.Statefulset.{default_manager}
use infra_devops.Control.Pods.Scaling.{ScalesOnly, update_stateful_set_pods-ScalesOnly}
use infra_devops.Control.Pods.Deletions.{pod_deletion, may_delete, update_stateful_set_pods-deletes}
use infra_devops.Control.Pods.Rollout.{IsRolledOut, update_stateful_set_pods-ready}
use infra_devops.Scenarios.World.{world, indexers, begin, result_of}

update_stateful_set_pods-ScalesOnly_example :
    Emits {S = Unit {0}}
      (ScalesOnly (indexers (pos 3)) (pos 2))
      (update_stateful_set_pods (world "b") default_manager (indexers (pos 3)) (pos 2))
unfolding default_manager
update_stateful_set_pods-ScalesOnly_example =
    update_stateful_set_pods-ScalesOnly (world "b") default_manager (indexers (pos 3)) (pos 2)
      (λ n. Emits-pure _) (λ n. Emits-pure _) (λ n. Emits-pure _)

-- An outdated pod: the last one is deleted.
abbrev outdated_run : Outcome × State Unit
outdated_run =
    result_of (done ready (indexers (pos 2)), begin tt)
      (update_stateful_set_pods (world "a") default_manager (indexers (pos 2)) (pos 2) (begin tt))

outdated_deletes : total pod_deletion outdated_run.1.calls ≡ 1
unfolding update_stateful_set_pods default_manager pure ask ◌>>=◌ dec32 fetch_pod lookup remove_pod
outdated_deletes = refl

update_stateful_set_pods-deletes_example :
    total pod_deletion outdated_run.1.calls ≤ 0 + may_delete outdated_run.0.phase
unfolding update_stateful_set_pods default_manager pure ask ◌>>=◌ dec32 fetch_pod lookup remove_pod
update_stateful_set_pods-deletes_example =
    update_stateful_set_pods-deletes (world "a") default_manager (indexers (pos 2)) (pos 2)
      (λ n. Emits-pure _) (λ n. Emits-pure _) (λ n. Emits-pure _) (begin tt) outdated_run.1
      outdated_run.0 refl

-- No pod is outdated.
abbrev current_run : Outcome × State Unit
current_run =
    result_of (done updating (indexers (pos 2)), begin tt)
      (update_stateful_set_pods (world "b") default_manager (indexers (pos 2)) (pos 2) (begin tt))

update_stateful_set_pods-ready_example :
    ((indexers (pos 2)).replicas ≡ pos 2)
    × (pos 2 ≡ pos 2)
    × ((n : ℕ)
        → n < 2
        → IsRolledOut {S = Unit {0}} (world "b") default_manager (indexers (pos 2)) (pos n))
unfolding update_stateful_set_pods default_manager pure ask ◌>>=◌ dec32 fetch_pod lookup remove_pod
    remove_unwanted_secrets
update_stateful_set_pods-ready_example =
    update_stateful_set_pods-ready (world "b") default_manager (indexers (pos 2)) (pos 2) (begin tt)
      current_run.1 current_run.0 refl refl
