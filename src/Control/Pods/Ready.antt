-- ===== src/Control/Pods/Ready.antt =====
-- No step of UpdateStatefulSetPods but its end reports readiness.
use infra_devops.Base.{
  ℕ, zero, suc, Bool, true, false, not, if◌then◌else◌, Option, none, some, ◌≡◌, refl, Result, ok,
  err, on_error, on_result, Err,
}
use mathlib.Core.Path.{subst}
use infra_devops.Base.Int.{ℤ, pos}
use infra_devops.Common.Names.{updating, error, ready_phase}
use infra_devops.Cluster.{StatefulSet, Pod, Env, State, M, pure, ◌>>=◌}
use infra_devops.Cluster.Emits.{>>=-some}
use infra_devops.Cluster.Yields.{
  pure-some, Yields, Yields-pure, Yields-if, Yields-on_error, Yields-bind, Yields-on_result,
}
use infra_devops.Control.Pods.{
  PodManager, Outcome, done, failed, scale_up, scale_down, recycle_pod, finish_pod, is_pod_ready,
  is_outdated, visit_pod, check_pod, check_pods,
}

module _ {S : Type 0} (env : Env) (mgr : PodManager S) (ss : StatefulSet) where
  abbrev pub NotReady : Outcome → Type 0
  NotReady o = ready_phase o.phase ≡ false

  abbrev pub RoundNotReady : Option Outcome → Type 0
  RoundNotReady none = Unit {0}
  RoundNotReady (some o) = NotReady o

  outcome-NotReady :
      (e : Option Err) (f : Err → Outcome) (y : Outcome)
      → ((x : Err) → NotReady (f x))
      → NotReady y
      → NotReady (on_error e f y)
  outcome-NotReady none f y hf hy = hy
  outcome-NotReady (some x) f y hf hy = hf x

  saved-NotReady :
      (u : Result StatefulSet) (f : Err → Outcome) (g : StatefulSet → Outcome)
      → ((x : Err) → NotReady (f x))
      → ((t : StatefulSet) → NotReady (g t))
      → NotReady (on_result u f g)
  saved-NotReady (ok t) f g hf hg = hg t
  saved-NotReady (err x) f g hf hg = hf x

  pub scale_up-NotReady : (desired : ℤ) → Yields {S = S} NotReady (scale_up env ss desired)
  unfolding scale_up
  scale_up-NotReady desired =
      Yields-bind _ _ _ (λ u. Yields-pure _ _ (saved-NotReady u _ _ (λ x. refl) (λ t. refl)))

  pub scale_down-NotReady : (n : ℤ) → Yields NotReady (scale_down env mgr ss n)
  unfolding scale_down
  scale_down-NotReady n = Yields-bind _ _ _ λ o.
      Yields-on_error _ o.1 _ _ (λ e. Yields-pure _ _ refl)
        (Yields-if _ (not o.0) _ _ (Yields-pure _ _ refl) (
          Yields-bind _ _ _ λ u.
            Yields-on_result _ u _ _ (λ e. Yields-pure _ _ refl)
              λ saved.
                Yields-bind _ _ _ (λ d. Yields-pure _ _ (outcome-NotReady d _ _ (λ x. refl) refl))))

  recycle_pod-NotReady : (n : ℤ) (pod : Pod) → Yields NotReady (recycle_pod env mgr ss n pod)
  unfolding recycle_pod
  recycle_pod-NotReady n pod = Yields-bind _ _ _ λ o.
      Yields-on_error _ o.1 _ _ (λ e. Yields-pure _ _ refl)
        (Yields-if _ (not o.0) _ _ (Yields-pure _ _ refl)
          (Yields-bind _ _ _ (λ d. Yields-pure _ _ (outcome-NotReady d _ _ (λ x. refl) refl))))

  finish_pod-NotReady : (n : ℤ) → Yields RoundNotReady (finish_pod env mgr ss n)
  unfolding finish_pod
  finish_pod-NotReady n = Yields-bind _ _ _ (λ o. Yields-pure _ _ (round o.1 o.0))
    where
      round :
          (e : Option Err) (complete : Bool)
          → RoundNotReady (
              on_error e
                (λ x. some (failed error x ss))
                (if complete then none else some (done updating ss)))
      round none true = tt
      round none false = refl
      round (some x) c = refl

  wrapped-NotReady :
      (m : M S Outcome) → Yields NotReady m → Yields RoundNotReady (m >>= λ o. pure (some o))
  wrapped-NotReady m h = record {
    yielded = λ s s' r k.
        let (o, t, p, q) = >>=-some m (λ o. pure (some o)) s s' r k in
        let e : some o ≡ r = pure-some (some o) r t s' q in
        subst RoundNotReady e (h.yielded s t o p);
  }

  visit_pod-NotReady : (n : ℤ) (pod : Pod) → Yields RoundNotReady (visit_pod env mgr ss n pod)
  unfolding visit_pod
  visit_pod-NotReady n pod = Yields-if _ (not (is_pod_ready pod)) _ _ (Yields-pure _ _ refl) (
      Yields-if _ (is_outdated ss pod) _ _ (wrapped-NotReady _ (recycle_pod-NotReady n pod))
        (finish_pod-NotReady n))

  check_pod-NotReady : (n : ℤ) → Yields RoundNotReady (check_pod env mgr ss n)
  unfolding check_pod
  check_pod-NotReady n =
      Yields-bind _ _ _
        λ r. Yields-on_result _ r _ _ (λ e. Yields-pure _ _ refl) (visit_pod-NotReady n)

  pub check_pods-NotReady : (k : ℕ) → Yields RoundNotReady (check_pods env mgr ss k)
  unfolding check_pods
  check_pods-NotReady zero = Yields-pure _ _ tt
  check_pods-NotReady (suc k) = record {
    yielded = λ s s' r h.
        let (o, t, p, q) = >>=-some (check_pod env mgr ss (pos k)) _ s s' r h in
        go o r t s' ((check_pod-NotReady (pos k)).yielded s t o p)
          (λ e. (check_pods-NotReady k).yielded t s' r e) q;
  }
    where
      go :
          (o r : Option Outcome) (t s' : State S)
          → RoundNotReady o
          → (check_pods env mgr ss k t ≡ some (r, s') → RoundNotReady r)
          → (elim o as (λ _. M S (Option Outcome)) [
            | none ↦ check_pods env mgr ss k
            | some out ↦ pure (some out)
          ])
              t
            ≡ some (r, s')
          → RoundNotReady r
      go none r t s' h f e = f e
      go (some out) r t s' h f e = subst RoundNotReady (pure-some (some out) r t s' e) h
