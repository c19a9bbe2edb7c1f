-- ===== src/Enterprise/SearchHeads/Deletions.antt =====
-- The calls of the pod manager of search head clusters.
use infra_devops.Base.{◌+◌, ◌≤◌, Bool, some, ◌≡◌, refl, str_eq, not}
use infra_devops.Base.Int.{ℤ, pos, negsuc}
use infra_devops.Common.Meta.{MetaObject}
use infra_devops.Cluster.{
  NamespacedName, StatefulSet, SplunkClient, Env, State, Call, get_pod, get_secret, set_detention,
  remove_member,
}
use infra_devops.Cluster.Emits.{
  Emits, Emits-pure, Emits-panic, Emits-gets, Emits-if, Emits-bind, Emits-ask, Emits-on_error,
  Emits-on_option,
}
use infra_devops.Cluster.Costs.{total}
use infra_devops.Util.Tokens.Emits.{get_token-Emits}
use infra_devops.Control.Pods.{Outcome, update_stateful_set_pods}
use infra_devops.Control.Pods.Deletions.{pod_deletion, may_delete, update_stateful_set_pods-deletes}
use infra_devops.Enterprise.SearchHeads.{
  SearchHeadStatus, member_at, get_client, detain, prepare_recycle, prepare_scale_down,
  finish_recycle, search_head_manager,
}

pub member_at-Emits : {P : Call → Type 0} (n : ℤ) → Emits P (member_at n)
unfolding member_at
member_at-Emits (negsuc n) = Emits-panic
member_at-Emits (pos n) =
    Emits-bind _ _ (Emits-gets _) (λ ms. Emits-on_option _ _ _ Emits-panic (λ m. Emits-pure _))

module _ (env : Env) (cr : MetaObject) {P : Call → Type 0}
    (pod : (id : NamespacedName) → P (get_pod id))
    (secret : (id : NamespacedName) → P (get_secret id))
    (detention : (c : SplunkClient) (on : Bool) → P (set_detention c on)) where
  get_client-Emits : (n : ℤ) → Emits P (get_client env cr n)
  unfolding get_client
  get_client-Emits n = Emits-bind _ _ (get_token-Emits env pod secret _ _ _) (λ r. Emits-pure _)

  detain-Emits : (n : ℤ) (on : Bool) → Emits P (detain env cr n on)
  unfolding detain
  detain-Emits n on =
      Emits-bind _ _ (get_client-Emits n)
        (λ c. Emits-bind _ _ (Emits-ask _ _ (detention c on)) (λ e. Emits-pure _))

  pub prepare_recycle-Emits : (n : ℤ) → Emits P (prepare_recycle env cr n)
  unfolding prepare_recycle
  prepare_recycle-Emits n = Emits-bind _ _ (member_at-Emits n) (λ m.
      Emits-if (str_eq m.status "Up") _ _ (detain-Emits n _) (
        Emits-if (str_eq m.status "ManualDetention") _ _ (Emits-pure _)
          (Emits-if (str_eq m.status "") _ _ (Emits-pure _) (Emits-pure _))))

  pub finish_recycle-Emits : (n : ℤ) → Emits P (finish_recycle env cr n)
  unfolding finish_recycle
  finish_recycle-Emits n = Emits-bind _ _ (member_at-Emits n) (λ m.
      Emits-if (str_eq m.status "Up") _ _ (Emits-pure _)
        (Emits-if (str_eq m.status "ManualDetention") _ _ (detain-Emits n _) (Emits-pure _)))

  pub prepare_scale_down-Emits :
      ((c : SplunkClient) → P (remove_member c)) → (n : ℤ) → Emits P (prepare_scale_down env cr n)
  unfolding prepare_scale_down
  prepare_scale_down-Emits remove n = Emits-bind _ _ (prepare_recycle-Emits n) (λ r.
      Emits-on_error _ _ _ (λ e. Emits-pure _)
        (Emits-if (not r.0) _ _ (Emits-pure _) (
          Emits-bind _ _ (get_client-Emits n)
            (λ c. Emits-bind _ _ (Emits-ask _ _ (remove c)) (λ e. Emits-pure _)))))

-- A call of UpdateStatefulSetPods with the manager of a search head cluster that returns makes at most
-- one deletion of a pod, and none unless it reports that it is updating or that there was an error.
pub search_heads-deletes :
    (env : Env) (cr : MetaObject) (ss : StatefulSet) (desired : ℤ) (s s' : State SearchHeadStatus)
    (o : Outcome)
    → update_stateful_set_pods env (search_head_manager env cr) ss desired s ≡ some (o, s')
    → total pod_deletion s'.calls ≤ total pod_deletion s.calls + may_delete o.phase
unfolding search_head_manager
search_heads-deletes env cr ss desired =
    update_stateful_set_pods-deletes env (search_head_manager env cr) ss desired
      (prepare_scale_down-Emits env cr (λ _. refl) (λ _. refl) (λ _ _. refl) (λ _. refl))
      (prepare_recycle-Emits env cr (λ _. refl) (λ _. refl) (λ _ _. refl))
      (finish_recycle-Emits env cr (λ _. refl) (λ _. refl) (λ _ _. refl))
