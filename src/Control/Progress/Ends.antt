-- ===== src/Control/Progress/Ends.antt =====
-- The end of a rolling update over several calls of UpdateStatefulSetPods.
use infra_devops.Base.{
  ℕ, zero, suc, ◌+◌, false, Option, none, some, Err, on_error, ◌≡◌, ◌∙◌, ap, ◌⊎◌, inl, inr, refl,
  arith,
}
use infra_devops.Base.Int.{ℤ, pos, ltb_ℤ, dec32}
use infra_devops.Common.Names.{ready, updating}
use infra_devops.Cluster.{StatefulSet, Env, State, M, pure, ◌>>=◌}
use infra_devops.Cluster.Runs.{Runs, Runs-pure, Runs-bind, Runs-weaken, Runs-if, Runs-still}
use infra_devops.Util.Secrets.{remove_unwanted_secrets}
use infra_devops.Util.Secrets.Quiet.{remove_unwanted_secrets-Still}
use infra_devops.Control.Pods.{
  Outcome, done, failed, rounds_down, roll_pods, update_stateful_set_pods,
}
use infra_devops.Control.Statefulset.{default_manager}
use infra_devops.Control.Progress.{Outdated, outdated_below, Renews, Rolls, check_pods-Rolls}

-- The stateful set has `count` replicas, all of them ready, and is to have as many.
abbrev pub IsScaled : StatefulSet → ℕ → ℤ → Type 0
IsScaled ss count desired =
    (ss.ready_replicas ≡ pos count) × (ss.replicas ≡ pos count) × (desired ≡ pos count)

rounds-count : (n : ℕ) → rounds_down (dec32 (pos n)) ≡ n
unfolding dec32
rounds-count zero = refl
rounds-count (suc n) = refl

-- An action once, and `n` times more; the last result counts.
pub again : {S A : Type 0} → ℕ → M S A → M S A
again zero m = m
again (suc n) m = m >>= λ _. again n m

module _ {S : Type 0} (env : Env) (ss : StatefulSet) (count : ℕ) (old : Outdated)
    (r : Renews env ss count old) where
  -- Either no pod is outdated and readiness is reported, or one that is outdated is deleted.
  abbrev pub Progresses : State S → Outcome → State S → Type 0
  Progresses s o s' =
      ((outdated_below old count s.calls ≡ 0) × (o.phase ≡ ready))
      ⊎ ((o ≡ done updating ss)
          × (outdated_below old count s'.calls + 1 ≡ outdated_below old count s.calls))

  roll_pods-Progresses :
      (s : State S)
      → rounds_down (dec32 ss.ready_replicas) ≡ count
      → Runs (roll_pods env default_manager ss) s (λ o s'. Progresses s o s')
  unfolding roll_pods
  roll_pods-Progresses s e = rw e (
      Runs-bind _ s _ _ (
        Runs-weaken _ _ _ _ (check_pods-Rolls env ss count old r count s (omega arith))
          (λ o s' p. conclude o s' p)))
    where
      finish : M S Outcome
      finish = do
        e ← remove_unwanted_secrets env ss.id.name ss.id.namespace
        pure (on_error e (λ e. failed ready e ss) (done ready ss))

      reported :
          (e : Option Err) → (on_error e (λ e. failed ready e ss) (done ready ss)).phase ≡ ready
      reported none = refl
      reported (some e) = refl

      conclude :
          (o : Option Outcome) (s' : State S)
          → Rolls env ss count old r count s o s'
          → Runs
              (elim o as (λ _. M S Outcome) [ some out ↦ pure out | none ↦ finish ])
              s'
              (λ o' s''. Progresses s o' s'')
      conclude none s' (inl (z, n)) =
          Runs-still _ s' _ _ (remove_unwanted_secrets-Still env ss.id.name ss.id.namespace)
            (λ e calls. Runs-pure _ _ _ (inl (z, reported e)))
      conclude none s' (inr (n, c)) = absurd (cc n)
      conclude (some out) s' (inl (z, n)) = absurd (cc n)
      conclude (some out) s' (inr (n, c)) =
          Runs-pure _ s' _ (inr (let same : out ≡ done updating ss = cc n in same, c))

  -- A call of UpdateStatefulSetPods on a stateful set that needs no scaling returns. It either finds no
  -- pod outdated and reports readiness, or leaves one outdated pod less.
  pub update_stateful_set_pods-Progresses :
      (desired : ℤ) (s : State S)
      → IsScaled ss count desired
      → Runs (update_stateful_set_pods env default_manager ss desired) s (λ o s'. Progresses s o s')
  unfolding update_stateful_set_pods
  update_stateful_set_pods-Progresses desired s (a, b, c) =
      let same : ltb_ℤ (pos count) (pos count) ≡ false = ground arith in
      Runs-if _ s (ltb_ℤ ss.ready_replicas ss.replicas) _ _ (λ h. absurd (cc (h, a, b, same)))
        (λ h.
          Runs-if _ s (ltb_ℤ ss.replicas ss.ready_replicas) _ _ (λ k. absurd (cc (k, a, b, same)))
            (λ k.
              Runs-if _ s (ltb_ℤ ss.ready_replicas desired) _ _ (λ u. absurd (cc (u, c)))
                (λ u.
                  Runs-if _ s (ltb_ℤ desired ss.ready_replicas) _ _ (λ d. absurd (cc (d, a, c)))
                    (λ d.
                      roll_pods-Progresses s
                        (ap (λ z. rounds_down (dec32 z)) a ∙ rounds-count count)))))

  -- After as many calls of UpdateStatefulSetPods as there are outdated pods, the next one reports
  -- readiness: a rolling update ends.
  pub update_stateful_set_pods-ends :
      (desired : ℤ) (n : ℕ) (s : State S)
      → IsScaled ss count desired
      → outdated_below old count s.calls ≡ n
      → Runs
          (again n (update_stateful_set_pods env default_manager ss desired))
          s
          (λ o s'. o.phase ≡ ready)
  unfolding again
  update_stateful_set_pods-ends desired zero s scaled e =
      Runs-weaken _ _ _ _ (update_stateful_set_pods-Progresses desired s scaled)
        (λ o s' p. elim p [ inl (z, h) ↦ h | inr (g, c) ↦ absurd (omega (arith, c, e)) ])
  update_stateful_set_pods-ends desired (suc n) s scaled e = Runs-bind _ s _ _ (
      Runs-weaken _ _ _ _ (update_stateful_set_pods-Progresses desired s scaled) (λ o s' p. elim p [
        | inl (z, h) ↦ absurd (omega (arith, z, e))
        | inr (g, c) ↦ update_stateful_set_pods-ends desired n s' scaled (omega (arith, c, e))
      ]))
