-- ===== src/Control/Reconcile.antt =====
-- Reconcile of pkg/splunk/controller/controller.go; the controller's own Reconcile is a parameter.
pub mod Results
use infra_devops.Base.{
  ℕ, Bool, false, if◌then◌else◌, Option, none, some, Err, is_not_found, on_error,
}
use infra_devops.Cluster.{NamespacedName, Env, M, ask, pure, ◌>>=◌, get_custom_resource}

-- reconcile.Result, with the seconds of RequeueAfter
pub record Requeue : Type 0 where
  pub requeue : Bool
  pub requeue_after : ℕ

abbrev pub no_requeue : Requeue
no_requeue = record { requeue = false; requeue_after = 0 }

-- What is returned after the controller's Reconcile.
unfoldable pub conclude : Requeue → Option Err → Requeue × Option Err
conclude result e =
    on_error e (λ _. (result, none)) (if result.requeue then (result, none) else (no_requeue, none))

unfoldable pub reconcile :
    {S : Type 0} → Env → M S (Requeue × Option Err) → NamespacedName → M S (Requeue × Option Err)
unfolding conclude
reconcile env controller id = do
  found ← ask (get_custom_resource id) (λ h. env.custom_resource_at h id)
  on_error found
      (λ e. if is_not_found e then pure (no_requeue, none) else pure (no_requeue, some e))
      (do (result, e) ← controller; pure (conclude result e))
