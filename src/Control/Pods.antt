-- ===== src/Control/Pods.antt =====
-- UpdateStatefulSetPods of pkg/splunk/controller/statefulset.go, over the pod manager's methods
-- (the interface StatefulSetPodManager of pkg/splunk/common/types.go).
pub mod Scaling
pub mod Deletions
pub mod Ready
pub mod Rollout
use infra_devops.Base.{
  ℕ, zero, suc, String, Bool, false, not, ◌&&◌, if◌then◌else◌, str_eq, Option, none, some, List, [],
  ◌∷◌, Err, on_error, on_result,
}
use infra_devops.Base.Int.{ℤ, pos, negsuc, ltb_ℤ, dec32}
use infra_devops.Base.Text.{◌<>◌, itoa}
use infra_devops.Base.Dict.{lookup, or_empty}
use infra_devops.Common.Names.{Phase, pending, ready, updating, scaling_up, scaling_down, error}
use infra_devops.Cluster.{NamespacedName, StatefulSet, Pod, Env, M, pure, ◌>>=◌}
use infra_devops.Util.Resource.{save_stateful_set, fetch_pod, remove_pod, fetch_claim, remove_claim}
use infra_devops.Util.Secrets.{remove_unwanted_secrets}

-- The methods that UpdateStatefulSetPods calls on its manager, as actions on the manager's state.
pub record PodManager (S : Type 0) : Type 0 where
  pub prepare_scale_down : ℤ → M S (Bool × Option Err)
  pub prepare_recycle : ℤ → M S (Bool × Option Err)
  pub finish_recycle : ℤ → M S (Bool × Option Err)

-- The phase and the error that are returned, and the stateful set that the caller's pointer shows.
pub record Outcome : Type 0 where
  pub phase : Phase
  pub failure : Option Err
  pub set : StatefulSet

abbrev pub done : Phase → StatefulSet → Outcome
done phase ss = record { phase = phase; failure = none; set = ss }

abbrev pub failed : Phase → Err → StatefulSet → Outcome
failed phase e ss = record { phase = phase; failure = some e; set = ss }

-- fmt.Sprintf("%s-%d", statefulSet.GetName(), n)
unfoldable pub pod_name : StatefulSet → ℤ → String
pod_name ss n = ss.id.name <> "-" <> itoa n

abbrev first_ready : List Bool → Bool
first_ready [] = false
first_ready (b ∷ bs) = b

-- Status.Phase is Running, there is a container, and the first one is ready.
unfoldable pub is_pod_ready : Pod → Bool
is_pod_ready pod = str_eq pod.phase "Running" && first_ready pod.containers_ready

-- The revision is set, and is not that of the pod's label.
unfoldable pub is_outdated : StatefulSet → Pod → Bool
is_outdated ss pod =
    not (str_eq ss.update_revision "")
    && not (str_eq ss.update_revision (or_empty (lookup "controller-revision-hash" pod.labels)))

-- How many rounds `for n := z; n >= 0; n--` makes.
abbrev pub rounds_down : ℤ → ℕ
rounds_down (pos n) = suc n
rounds_down (negsuc n) = 0

module _ {S : Type 0} (env : Env) where
  -- The loop that deletes the claims of the pod that a scale down removes.
  unfoldable pub delete_claims : String → List NamespacedName → M S (Option Err)
  delete_claims pod [] = pure none
  delete_claims pod (vol ∷ vols) = do
    let id : NamespacedName = record { namespace = vol.namespace; name = vol.name <> "-" <> pod }
    r ← fetch_claim env id
    on_result r (λ e. pure (some e))
        λ claim. do
          d ← remove_claim env claim
          on_error d (λ e. pure (some e)) (delete_claims pod vols)

  unfoldable pub scale_up : StatefulSet → ℤ → M S Outcome
  scale_up ss desired = do
    let ss' : StatefulSet = record ss { replicas = desired }
    u ← save_stateful_set env ss'
    pure (on_result u (λ e. failed scaling_up e ss') (λ saved. done scaling_up saved))

  unfoldable pub scale_down : PodManager S → StatefulSet → ℤ → M S Outcome
  unfolding delete_claims
  scale_down mgr ss n = do
    (prepared, e) ← mgr.prepare_scale_down n
    on_error e (λ e. pure (failed error e ss))
        (if not prepared then pure (done scaling_down ss) else do
          let ss' : StatefulSet = record ss { replicas = n }
          u ← save_stateful_set env ss'
          on_result u (λ e. pure (failed error e ss'))
              λ saved. do
                d ← delete_claims (pod_name ss n) saved.volume_claim_templates
                pure (on_error d (λ e. failed error e saved) (done scaling_down saved)))

  -- The branch that deletes an outdated pod.
  unfoldable pub recycle_pod : PodManager S → StatefulSet → ℤ → Pod → M S Outcome
  recycle_pod mgr ss n pod = do
    (prepared, e) ← mgr.prepare_recycle n
    on_error e (λ e. pure (failed error e ss))
        (if not prepared then pure (done updating ss) else do
          d ← remove_pod env pod
          pure (on_error d (λ e. failed error e ss) (done updating ss)))

  -- The end of a round; `none` goes on with the next pod.
  unfoldable pub finish_pod : PodManager S → StatefulSet → ℤ → M S (Option Outcome)
  finish_pod mgr ss n = do
    (complete, e) ← mgr.finish_recycle n
    pure (
        on_error e (λ e. some (failed error e ss))
          (if complete then none else some (done updating ss)))

  -- A round of the loop over the pods after the pod is read; `some` returns.
  unfoldable pub visit_pod : PodManager S → StatefulSet → ℤ → Pod → M S (Option Outcome)
  unfolding recycle_pod finish_pod is_pod_ready is_outdated
  visit_pod mgr ss n pod =
      if not (is_pod_ready pod)
      then pure (some (done updating ss))
      else if is_outdated ss pod
      then (do o ← recycle_pod mgr ss n pod; pure (some o))
      else finish_pod mgr ss n

  unfoldable pub check_pod : PodManager S → StatefulSet → ℤ → M S (Option Outcome)
  unfolding visit_pod
  check_pod mgr ss n = do
    r ← fetch_pod env (record { namespace = ss.id.namespace; name = pod_name ss n })
    on_result r (λ e. pure (some (failed error e ss))) (visit_pod mgr ss n)

  -- The loop over the pods `k - 1, …, 0`.
  unfoldable pub check_pods : PodManager S → StatefulSet → ℕ → M S (Option Outcome)
  unfolding check_pod
  check_pods mgr ss zero = pure none
  check_pods mgr ss (suc k) = do
    o ← check_pod mgr ss (pos k)
    elim o [ none ↦ check_pods mgr ss k | some out ↦ pure (some out) ]

  -- Ready, and no scaling is required.
  unfoldable pub roll_pods : PodManager S → StatefulSet → M S Outcome
  unfolding check_pods
  roll_pods mgr ss = do
    o ← check_pods mgr ss (rounds_down (dec32 ss.ready_replicas))
    elim o [
      | some out ↦ pure out
      | none ↦ do
        e ← remove_unwanted_secrets env ss.id.name ss.id.namespace
        pure (on_error e (λ e. failed ready e ss) (done ready ss))
    ]

  unfoldable pub update_stateful_set_pods : PodManager S → StatefulSet → ℤ → M S Outcome
  unfolding scale_up scale_down roll_pods
  update_stateful_set_pods mgr ss desired =
      if ltb_ℤ ss.ready_replicas ss.replicas
      then pure (done (if ltb_ℤ (pos 0) ss.ready_replicas then scaling_up else pending) ss)
      else if ltb_ℤ ss.replicas ss.ready_replicas
      then pure (done scaling_down ss)
      else if ltb_ℤ ss.ready_replicas desired
      then scale_up ss desired
      else if ltb_ℤ desired ss.ready_replicas
      then scale_down mgr ss (dec32 ss.ready_replicas)
      else roll_pods mgr ss
