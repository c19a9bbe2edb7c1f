-- ===== src/Control/Pods/Deletions.antt =====
-- How many pods one call of UpdateStatefulSetPods deletes.
use infra_devops.Base.{
  ℕ, zero, suc, ◌+◌, ◌≤◌, String, not, Option, none, some, List, [], ◌∷◌, ◌≡◌, refl, arith,
}
use infra_devops.Base.Int.{ℤ, pos, ltb_ℤ}
use infra_devops.Common.Names.{Phase, updating, error}
use infra_devops.Cluster.{NamespacedName, StatefulSet, Pod, Env, Call, delete_pod, State}
use infra_devops.Cluster.Emits.{
  Emits, Emits-ask, Emits-bind, Emits-on_error, Emits-on_result, Emits-pure,
}
use infra_devops.Cluster.Costs.{
  total, Costs, Costs-free, Costs-pure, Costs-ask, Costs-if, Costs-on_error, Costs-bind,
  Costs-on_result,
}
use infra_devops.Control.Pods.{
  PodManager, Outcome, delete_claims, scale_up, scale_down, recycle_pod, finish_pod, is_pod_ready,
  is_outdated, visit_pod, check_pod, check_pods, roll_pods, update_stateful_set_pods,
}
use infra_devops.Util.Resource.{save_stateful_set, fetch_pod, remove_pod, fetch_claim, remove_claim}
use infra_devops.Util.Secrets.{remove_unwanted_secrets}
use infra_devops.Util.Secrets.Emits.{remove_unwanted_secrets-Emits}

-- One for a deletion of a pod.
abbrev pub pod_deletion : Call → ℕ
pod_deletion (delete_pod uid version) = 1
pod_deletion _ = 0

abbrev pub DeletesNoPod : Call → Type 0
DeletesNoPod c = pod_deletion c ≡ 0

-- What a run that reports this phase may have deleted.
abbrev pub may_delete : Phase → ℕ
may_delete updating = 1
may_delete error = 1
may_delete _ = 0

abbrev cost : Outcome → ℕ
cost o = may_delete o.phase

abbrev round_cost : Option Outcome → ℕ
round_cost none = 0
round_cost (some o) = cost o

module _ {S : Type 0} (env : Env) (mgr : PodManager S) (ss : StatefulSet) (desired : ℤ) where
  delete_claims-free :
      (pod : String) (vols : List NamespacedName)
      → Emits {S = S} DeletesNoPod (delete_claims env pod vols)
  unfolding delete_claims fetch_claim remove_claim
  delete_claims-free pod [] = Emits-pure _
  delete_claims-free pod (v ∷ vols) = Emits-bind _ _ (Emits-ask _ _ refl) λ r.
      Emits-on_result r _ _ (λ e. Emits-pure _)
        λ claim.
          Emits-bind _ _ (Emits-ask _ _ refl)
            λ d. Emits-on_error d _ _ (λ e. Emits-pure _) (delete_claims-free pod vols)

  save-free : (t : StatefulSet) → Emits {S = S} DeletesNoPod (save_stateful_set env t)
  unfolding save_stateful_set
  save-free t = Emits-bind _ _ (Emits-ask _ _ refl) (λ r. Emits-pure _)

  fetch_pod-free : (id : NamespacedName) → Emits {S = S} DeletesNoPod (fetch_pod env id)
  unfolding fetch_pod
  fetch_pod-free id = Emits-ask _ _ refl

  scale_up-Costs : Costs {S = S} pod_deletion 0 cost (scale_up env ss desired)
  unfolding scale_up
  scale_up-Costs =
      Costs-bind _ _ _ _ _ _ (Costs-free _ _ _ (save-free _))
        (λ u. Costs-pure _ _ _ _ (omega arith))

  remove_pod-Costs : (pod : Pod) → Costs {S = S} pod_deletion 0 (λ _. 1) (remove_pod env pod)
  unfolding remove_pod
  remove_pod-Costs pod = Costs-ask _ _ _ _

  module _ (quiet_scale_down : (n : ℤ) → Emits DeletesNoPod (mgr.prepare_scale_down n))
      (quiet_recycle : (n : ℤ) → Emits DeletesNoPod (mgr.prepare_recycle n))
      (quiet_finish : (n : ℤ) → Emits DeletesNoPod (mgr.finish_recycle n)) where
    scale_down-Costs : (n : ℤ) → Costs pod_deletion 0 cost (scale_down env mgr ss n)
    unfolding scale_down
    scale_down-Costs n = Costs-bind _ _ _ _ _ _ (Costs-free _ _ _ (quiet_scale_down n)) λ o.
        Costs-on_error _ _ _ o.1 _ _ (λ e. Costs-pure _ _ _ _ (omega arith))
          (Costs-if _ _ _ (not o.0) _ _ (Costs-pure _ _ _ _ (omega arith)) (
            Costs-bind _ _ _ _ _ _ (Costs-free _ _ _ (save-free _)) λ u.
              Costs-on_result _ _ _ u _ _ (λ e. Costs-pure _ _ _ _ (omega arith))
                λ saved.
                  Costs-bind _ _ _ _ _ _ (Costs-free _ _ _ (delete_claims-free _ _))
                    (λ d. Costs-pure _ _ _ _ (omega arith))))

    recycle_pod-Costs :
        (n : ℤ) (pod : Pod) → Costs pod_deletion 0 cost (recycle_pod env mgr ss n pod)
    unfolding recycle_pod
    recycle_pod-Costs n pod = Costs-bind _ _ _ _ _ _ (Costs-free _ _ _ (quiet_recycle n)) λ o.
        Costs-on_error _ _ _ o.1 _ _ (λ e. Costs-pure _ _ _ _ (omega arith))
          (Costs-if _ _ _ (not o.0) _ _ (Costs-pure _ _ _ _ (omega arith)) (
            Costs-bind _ _ _ _ _ _ (remove_pod-Costs pod) (elim [
              | none ↦ Costs-pure _ _ _ _ (omega arith)
              | some e ↦ Costs-pure _ _ _ _ (omega arith)
            ])))

    finish_pod-Costs : (n : ℤ) → Costs pod_deletion 0 round_cost (finish_pod env mgr ss n)
    unfolding finish_pod
    finish_pod-Costs n =
        Costs-bind _ _ _ _ _ _ (Costs-free _ _ _ (quiet_finish n))
          (λ o. Costs-pure _ _ _ _ (omega arith))

    visit_pod-Costs :
        (n : ℤ) (pod : Pod) → Costs pod_deletion 0 round_cost (visit_pod env mgr ss n pod)
    unfolding visit_pod
    visit_pod-Costs n pod =
        Costs-if _ _ _ (not (is_pod_ready pod)) _ _ (Costs-pure _ _ _ _ (omega arith)) (
          Costs-if _ _ _ (is_outdated ss pod) _ _
            (Costs-bind _ _ _ _ _ _ (recycle_pod-Costs n pod)
              (λ o. Costs-pure _ _ _ _ (omega arith)))
            (finish_pod-Costs n))

    check_pod-Costs : (n : ℤ) → Costs pod_deletion 0 round_cost (check_pod env mgr ss n)
    unfolding check_pod
    check_pod-Costs n =
        Costs-bind _ _ _ _ _ _ (Costs-free _ _ _ (fetch_pod-free _)) λ r.
          Costs-on_result _ _ _ r _ _ (λ e. Costs-pure _ _ _ _ (omega arith)) (visit_pod-Costs n)

    check_pods-Costs : (k : ℕ) → Costs pod_deletion 0 round_cost (check_pods env mgr ss k)
    unfolding check_pods
    check_pods-Costs zero = Costs-pure _ _ _ _ (omega arith)
    check_pods-Costs (suc k) =
        Costs-bind _ _ _ _ _ _ (check_pod-Costs (pos k))
          (elim [ none ↦ check_pods-Costs k | some out ↦ Costs-pure _ _ _ _ (omega arith) ])

    remove_unwanted-free :
        (identifier namespace : String)
        → Emits {S = S} DeletesNoPod (remove_unwanted_secrets env identifier namespace)
    remove_unwanted-free = remove_unwanted_secrets-Emits env (λ s. refl) (λ n. refl)

    roll_pods-Costs : Costs pod_deletion 0 cost (roll_pods env mgr ss)
    unfolding roll_pods
    roll_pods-Costs = Costs-bind _ _ _ _ _ _ (check_pods-Costs _) (elim [
      | none ↦
          Costs-bind _ _ _ _ _ _ (Costs-free _ _ _ (remove_unwanted-free _ _))
            (λ e. Costs-pure _ _ _ _ (omega arith))
      | some out ↦ Costs-pure _ _ _ _ (omega arith)
    ])

    update-Costs : Costs pod_deletion 0 cost (update_stateful_set_pods env mgr ss desired)
    unfolding update_stateful_set_pods
    update-Costs =
        Costs-if _ _ _ (ltb_ℤ ss.ready_replicas ss.replicas) _ _ (Costs-pure _ _ _ _ (omega arith))
          (Costs-if _ _ _ (ltb_ℤ ss.replicas ss.ready_replicas) _ _
            (Costs-pure _ _ _ _ (omega arith))
            (Costs-if _ _ _ (ltb_ℤ ss.ready_replicas desired) _ _ scale_up-Costs (
              Costs-if _ _ _ (ltb_ℤ desired ss.ready_replicas) _ _ (scale_down-Costs _)
                roll_pods-Costs)))

    -- A call of UpdateStatefulSetPods that returns makes at most one deletion of a pod, and none
    -- unless it reports that it is updating or that there was an error, given a manager whose
    -- methods delete no pod.
    pub update_stateful_set_pods-deletes :
        (s s' : State S) (o : Outcome)
        → update_stateful_set_pods env mgr ss desired s ≡ some (o, s')
        → total pod_deletion s'.calls ≤ total pod_deletion s.calls + may_delete o.phase
    update_stateful_set_pods-deletes s s' o h = omega (arith, update-Costs.bounded s s' o h)
