-- ===== src/Control/Reconcile/Results.antt =====
-- What Reconcile returns.
use infra_devops.Base.{
  Bool, true, false, if◌then◌else◌, Option, none, some, ◌∷◌, Err, is_not_found, ◌≡◌, ◌↔◌, refl, sym,
  ◌∙◌,
}
use infra_devops.Cluster.{NamespacedName, Env, State, M, get_custom_resource}
use infra_devops.Cluster.Runs.{
  Runs, Runs-pure, Runs-ask, Runs-bind, Runs-weaken, Runs-on_error, Runs-if,
}
use infra_devops.Control.Reconcile.{Requeue, no_requeue, conclude, reconcile}

-- The controller has not run.
abbrev pub NotRun : {S : Type 0} → NamespacedName → State S → State S → Type 0
NotRun id s s' = (s'.own ≡ s.own) × (s'.calls ≡ get_custom_resource id ∷ s.calls)

module _ {S : Type 0} (found : Option Err) (id : NamespacedName) (s : State S) where
  -- The result of Reconcile, against that of reading the custom resource.
  pub record Reported (result : Requeue) (e : Option Err) (s' : State S) : Type 0 where
    -- an error is that of the read, which found the resource
    pub error_iff : (x : Err) → (e ≡ some x) ↔ ((found ≡ some x) × (is_not_found x ≡ false))
    -- without the resource the controller does not run, and nothing is scheduled
    pub unread : (x : Err) → found ≡ some x → NotRun id s s' × (result ≡ no_requeue)

nothing : {X : Type 0} {e : Err} → ◌≡◌ {A = Option Err} none (some e) → X
nothing h = absurd (cc h)

module _ {S : Type 0} (env : Env) (controller : M S (Requeue × Option Err))
    (id : NamespacedName) where
  conclude-silent : (result : Requeue) (e : Option Err) → (conclude result e).1 ≡ none
  unfolding conclude
  conclude-silent result (some e) = refl
  conclude-silent result none = by_flag result.requeue
    where
      by_flag :
          (b : Bool)
          → (if◌then◌else◌ {A = Requeue × Option Err} b (result, none) (no_requeue, none)).1 ≡ none
      by_flag true = refl
      by_flag false = refl

  -- For a controller that returns, Reconcile returns. Its error is that of reading the custom resource,
  -- unless that is missing, and never one of the controller; where the resource cannot be read the
  -- controller does not run, and no requeue is asked for.
  pub reconcile-Reported :
      (s : State S)
      → ((t : State S) → Runs controller t (λ r t'. Unit {0}))
      → Runs
          (reconcile env controller id)
          s
          (λ r s'. Reported (env.custom_resource_at s.calls id) id s r.0 r.1 s')
  unfolding reconcile
  reconcile-Reported s runs = Runs-bind _ s _ _ (
      Runs-ask _ s _ _ (
        Runs-on_error _ _ (env.custom_resource_at s.calls id) _ _
          (λ e h.
            Runs-if _ _ (is_not_found e) _ _
              (λ missing. Runs-pure _ _ _ (record {
                error_iff = λ x.
                    (nothing, λ p. let q = p.0 in let r = p.1 in absurd (cc (h, q, r, missing)));
                unread = λ x k. ((refl, refl), refl);
              }))
              (λ other. Runs-pure _ _ _ (record {
                error_iff =
                    λ x. (λ p. (h ∙ p, let q : e ≡ x = cc p in rw (← q) other), λ p. sym h ∙ p.0);
                unread = λ x k. ((refl, refl), refl);
              })))
          (λ h. Runs-bind _ _ _ _ (
            Runs-weaken _ _ _ _ (runs _) (λ r s' u. Runs-pure _ s' _ (record {
              error_iff = λ x. (
                λ p. let silent = conclude-silent r.0 r.1 in absurd (cc (silent, p)),
                λ p. let q = p.0 in absurd (cc (h, q)),
              );
              unread = λ x k. absurd (cc (h, k));
            }))))))
