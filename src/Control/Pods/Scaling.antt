-- ===== src/Control/Pods/Scaling.antt =====
-- What UpdateStatefulSetPods writes to the stateful set.
use infra_devops.Base.{
  ℕ, zero, suc, String, true, none, some, List, [], ◌∷◌, ◌≡◌, refl, ◌⊎◌, inl, inr, Bool-cases, not,
}
use infra_devops.Base.Int.{ℤ, pos, ltb_ℤ, dec32}
use infra_devops.Cluster.{
  NamespacedName, StatefulSet, Pod, Env, Call, create_stateful_set, update_stateful_set,
}
use infra_devops.Cluster.Emits.{
  Emits, Emits-ask, Emits-bind, Emits-if, Emits-on_error, Emits-on_result, Emits-pure, emits_rules,
}
use infra_devops.Control.Pods.{
  PodManager, delete_claims, scale_up, scale_down, recycle_pod, finish_pod, is_pod_ready,
  is_outdated, visit_pod, check_pod, check_pods, roll_pods, update_stateful_set_pods,
}
use infra_devops.Util.Resource.{save_stateful_set, fetch_pod, remove_pod, fetch_claim, remove_claim}
use infra_devops.Util.Secrets.{remove_unwanted_secrets}
use infra_devops.Util.Secrets.Emits.{remove_unwanted_secrets-Emits}

-- No stateful set is created, and one that is written is `ss` with another number of replicas: the
-- desired one where that is more than are ready, or one less than are ready where it is less.
abbrev pub ScalesOnly : StatefulSet → ℤ → Call → Type 0
ScalesOnly ss desired (create_stateful_set t) = ⊥
ScalesOnly ss desired (update_stateful_set t) =
    ((t ≡ record ss { replicas = desired }) × (ltb_ℤ ss.ready_replicas desired ≡ true))
    ⊎ ((t ≡ record ss { replicas = dec32 ss.ready_replicas })
        × (ltb_ℤ desired ss.ready_replicas ≡ true))
ScalesOnly ss desired _ = Unit {0}

module _ {S : Type 0} (env : Env) (mgr : PodManager S) (ss : StatefulSet) (desired : ℤ) where
  fetch_claim-ScalesOnly :
      (id : NamespacedName) → Emits {S = S} (ScalesOnly ss desired) (fetch_claim env id)
  unfolding fetch_claim
  fetch_claim-ScalesOnly id = Emits-ask _ _ tt

  remove_claim-ScalesOnly :
      (id : NamespacedName) → Emits {S = S} (ScalesOnly ss desired) (remove_claim env id)
  unfolding remove_claim
  remove_claim-ScalesOnly id = Emits-ask _ _ tt

  delete_claims-ScalesOnly :
      (pod : String) (vols : List NamespacedName)
      → Emits {S = S} (ScalesOnly ss desired) (delete_claims env pod vols)
  unfolding delete_claims
  delete_claims-ScalesOnly pod [] = search emits_rules
  delete_claims-ScalesOnly pod (v ∷ vols) = Emits-bind _ _ (fetch_claim-ScalesOnly _) λ r.
      Emits-on_result r _ _ (λ e. Emits-pure _)
        λ claim.
          Emits-bind _ _ (remove_claim-ScalesOnly claim)
            λ d. Emits-on_error d _ _ (λ e. Emits-pure _) (delete_claims-ScalesOnly pod vols)

  save-ScalesOnly :
      (t : StatefulSet)
      → ScalesOnly ss desired (update_stateful_set t)
      → Emits {S = S} (ScalesOnly ss desired) (save_stateful_set env t)
  unfolding save_stateful_set
  save-ScalesOnly t h = search (emits_rules, h)

  scale_up-ScalesOnly :
      ltb_ℤ ss.ready_replicas desired ≡ true
      → Emits {S = S} (ScalesOnly ss desired) (scale_up env ss desired)
  unfolding scale_up
  scale_up-ScalesOnly h = search (emits_rules, save-ScalesOnly _ (inl (refl, h)))

  remove_unwanted-ScalesOnly :
      (identifier namespace : String)
      → Emits {S = S} (ScalesOnly ss desired) (remove_unwanted_secrets env identifier namespace)
  remove_unwanted-ScalesOnly = remove_unwanted_secrets-Emits env (λ s. tt) (λ n. tt)

  -- The manager's methods write no stateful set.
  module _ (quiet_scale_down : (n : ℤ) → Emits (ScalesOnly ss desired) (mgr.prepare_scale_down n))
      (quiet_recycle : (n : ℤ) → Emits (ScalesOnly ss desired) (mgr.prepare_recycle n))
      (quiet_finish : (n : ℤ) → Emits (ScalesOnly ss desired) (mgr.finish_recycle n)) where
    scale_down-ScalesOnly :
        ltb_ℤ desired ss.ready_replicas ≡ true
        → Emits (ScalesOnly ss desired) (scale_down env mgr ss (dec32 ss.ready_replicas))
    unfolding scale_down
    scale_down-ScalesOnly h = Emits-bind _ _ (quiet_scale_down _) λ o.
        Emits-on_error o.1 _ _ (λ e. Emits-pure _)
          (Emits-if (not o.0) _ _ (Emits-pure _) (
            Emits-bind _ _ (save-ScalesOnly _ (inr (refl, h))) λ u.
              Emits-on_result u _ _ (λ e. Emits-pure _)
                λ saved. Emits-bind _ _ (delete_claims-ScalesOnly _ _) (λ d. Emits-pure _)))

    remove_pod-ScalesOnly : (pod : Pod) → Emits {S = S} (ScalesOnly ss desired) (remove_pod env pod)
    unfolding remove_pod
    remove_pod-ScalesOnly pod = Emits-ask _ _ tt

    fetch_pod-ScalesOnly :
        (id : NamespacedName) → Emits {S = S} (ScalesOnly ss desired) (fetch_pod env id)
    unfolding fetch_pod
    fetch_pod-ScalesOnly id = Emits-ask _ _ tt

    recycle_pod-ScalesOnly :
        (n : ℤ) (pod : Pod) → Emits (ScalesOnly ss desired) (recycle_pod env mgr ss n pod)
    unfolding recycle_pod
    recycle_pod-ScalesOnly n pod =
        search (emits_rules, quiet_recycle, remove_pod-ScalesOnly) depth 8

    finish_pod-ScalesOnly : (n : ℤ) → Emits (ScalesOnly ss desired) (finish_pod env mgr ss n)
    unfolding finish_pod
    finish_pod-ScalesOnly n = search (emits_rules, quiet_finish)

    visit_pod-ScalesOnly :
        (n : ℤ) (pod : Pod) → Emits (ScalesOnly ss desired) (visit_pod env mgr ss n pod)
    unfolding visit_pod
    visit_pod-ScalesOnly n pod = Emits-if (not (is_pod_ready pod)) _ _ (Emits-pure _) (
        Emits-if (is_outdated ss pod) _ _
          (Emits-bind _ _ (recycle_pod-ScalesOnly n pod) (λ o. Emits-pure _))
          (finish_pod-ScalesOnly n))

    check_pod-ScalesOnly : (n : ℤ) → Emits (ScalesOnly ss desired) (check_pod env mgr ss n)
    unfolding check_pod
    check_pod-ScalesOnly n =
        Emits-bind _ _ (fetch_pod-ScalesOnly _)
          λ r. Emits-on_result r _ _ (λ e. Emits-pure _) (visit_pod-ScalesOnly n)

    check_pods-ScalesOnly : (k : ℕ) → Emits (ScalesOnly ss desired) (check_pods env mgr ss k)
    unfolding check_pods
    check_pods-ScalesOnly zero = search emits_rules
    check_pods-ScalesOnly (suc k) =
        Emits-bind _ _ (check_pod-ScalesOnly (pos k))
          (elim [ none ↦ check_pods-ScalesOnly k | some out ↦ Emits-pure _ ])

    roll_pods-ScalesOnly : Emits (ScalesOnly ss desired) (roll_pods env mgr ss)
    unfolding roll_pods
    roll_pods-ScalesOnly = Emits-bind _ _ (check_pods-ScalesOnly _) (elim [
      | none ↦ Emits-bind _ _ (remove_unwanted-ScalesOnly _ _) (λ e. Emits-pure _)
      | some out ↦ Emits-pure _
    ])

    -- UpdateStatefulSetPods creates no stateful set, and writes the given one only with another
    -- number of replicas: the desired number where fewer are ready, or one less than are ready
    -- where fewer are desired, given a manager whose methods write no stateful set otherwise.
    pub update_stateful_set_pods-ScalesOnly :
        Emits (ScalesOnly ss desired) (update_stateful_set_pods env mgr ss desired)
    unfolding update_stateful_set_pods
    update_stateful_set_pods-ScalesOnly =
        Emits-if (ltb_ℤ ss.ready_replicas ss.replicas) _ _ (Emits-pure _) (
          Emits-if (ltb_ℤ ss.replicas ss.ready_replicas) _ _ (Emits-pure _)
            (elim (Bool-cases (ltb_ℤ ss.ready_replicas desired)) [
              | inl up ↦ rw up (scale_up-ScalesOnly up)
              | inr up ↦ rw up (elim (Bool-cases (ltb_ℤ desired ss.ready_replicas)) [
                | inl down ↦ rw down (scale_down-ScalesOnly down)
                | inr down ↦ rw down roll_pods-ScalesOnly
              ])
            ]))
