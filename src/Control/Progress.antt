-- ===== src/Control/Progress.antt =====
-- The progress of a rolling update: what the loop over the pods does to the number of outdated ones.
pub mod Ends
use infra_devops.Base.{
  ℕ, zero, suc, ◌+◌, ◌<◌, ◌≤◌, Bool, true, false, not, if◌then◌else◌, Bool-cases, Option, none,
  some, Err, Result, ok, err, on_error, on_result, ◌∷◌, ◌≡◌, ◌≢◌, ◌∙◌, sym, ap, ◌⊎◌, inl, inr, refl,
  arith, ltb,
}
use native.Mathlib.Decide.{ℕ_discrete}
use infra_devops.Base.Int.{ℤ, pos, ltb_ℤ, dec32}
use infra_devops.Common.Names.{ready, updating, error}
use infra_devops.Cluster.{
  NamespacedName, StatefulSet, Pod, Env, History, State, M, Call, pure, ◌>>=◌, get_pod, delete_pod,
}
use infra_devops.Cluster.Runs.{
  Runs, Runs-pure, Runs-ask, Runs-bind, Runs-weaken, Runs-if, Runs-on_error, Runs-on_result,
  Runs-still, Still,
}
use infra_devops.Util.Resource.{fetch_pod, remove_pod}
use infra_devops.Util.Secrets.{remove_unwanted_secrets}
use infra_devops.Util.Secrets.Quiet.{remove_unwanted_secrets-Still}
use infra_devops.Control.Pods.{
  Outcome, done, failed, pod_name, is_pod_ready, is_outdated, recycle_pod, finish_pod, visit_pod,
  check_pod, check_pods, rounds_down, roll_pods, update_stateful_set_pods,
}
use infra_devops.Control.Statefulset.{default_manager}

-- Which pod is outdated after given calls.
abbrev pub Outdated : Type 0
Outdated = ℕ → History → Bool

abbrev one_if : Bool → ℕ
one_if true = 1
one_if false = 0

-- How many of the pods below `k` are outdated.
abbrev pub outdated_below : Outdated → ℕ → History → ℕ
outdated_below old zero h = 0
outdated_below old (suc k) h = one_if (old k h) + outdated_below old k h

outdated_below-same :
    (old : Outdated) (k : ℕ) (h h' : History)
    → ((n : ℕ) → old n h' ≡ old n h)
    → outdated_below old k h' ≡ outdated_below old k h
outdated_below-same old zero h h' same = refl
outdated_below-same old (suc k) h h' same =
    let here = same k in
    let rest = outdated_below-same old k h h' same in omega (arith, ap one_if here, rest)

-- Above the pod that is renewed, and from it on.
outdated_below-renewed :
    (old : Outdated) (k n : ℕ) (h h' : History)
    → n < k
    → old n h ≡ true
    → old n h' ≡ false
    → ((m : ℕ) → m ≢ n → old m h' ≡ old m h)
    → outdated_below old k h' + 1 ≡ outdated_below old k h
outdated_below-renewed old zero n h h' lt was is others = absurd (omega (arith, lt))
outdated_below-renewed old (suc k) n h h' lt was is others = elim (ℕ_discrete n k) [
  | yes e ↦
      let rest = below k (λ m p. others m (λ q. absurd (omega (arith, p, q, e)))) in
      let a = ap one_if (ap (λ j. old j h) (sym e) ∙ was) in
      let b = ap one_if (ap (λ j. old j h') (sym e) ∙ is) in omega (arith, a, b, rest)
  | no ne ↦
      let rest = outdated_below-renewed old k n h h' (omega (arith, lt, ne)) was is others in
      let a = ap one_if (others k (λ q. ne (sym q))) in omega (arith, a, rest)
]
  where
    below :
        (j : ℕ)
        → ((m : ℕ) → m < j → old m h' ≡ old m h)
        → outdated_below old j h' ≡ outdated_below old j h
    below zero same = refl
    below (suc j) same =
        let here = same j (omega arith) in
        let rest = below j (λ m p. same m (omega (arith, p))) in omega (arith, ap one_if here, rest)

abbrev pod_id : StatefulSet → ℕ → NamespacedName
pod_id ss n = record { namespace = ss.id.namespace; name = pod_name ss (pos n) }

-- The pods below `count` are there and ready whenever they are read; each is outdated or not, only its
-- deletion changes that, and deletions succeed.
pub record Renews (env : Env) (ss : StatefulSet) (count : ℕ) (old : Outdated) : Type 0 where
  pub pod : ℕ → History → Pod
  pub reads : (n : ℕ) (h : History) → n < count → env.pod_at h (pod_id ss n) ≡ ok (pod n h)
  pub stays_ready : (n : ℕ) (h : History) → n < count → is_pod_ready (pod n h) ≡ true
  pub shows : (n : ℕ) (h : History) → n < count → is_outdated ss (pod n h) ≡ old n h
  pub deletes : (h : History) (p : Pod) → env.pod_deleted h p ≡ none
  pub quiet : (n : ℕ) (id : NamespacedName) (h : History) → old n (get_pod id ∷ h) ≡ old n h
  pub renewed :
      (n : ℕ) (h : History)
      → n < count
      → old n (delete_pod (pod n h).uid (pod n h).resource_version ∷ get_pod (pod_id ss n) ∷ h)
        ≡ false
  pub others :
      (n m : ℕ) (h : History)
      → n < count
      → m ≢ n
      → old m (delete_pod (pod n h).uid (pod n h).resource_version ∷ get_pod (pod_id ss n) ∷ h)
        ≡ old m h

module _ {S : Type 0} (env : Env) (ss : StatefulSet) (count : ℕ) (old : Outdated)
    (r : Renews env ss count old) where
  -- Either no pod below `k` is outdated, or one that is outdated is deleted.
  abbrev pub Rolls : ℕ → State S → Option Outcome → State S → Type 0
  Rolls k s o s' =
      ((outdated_below old k s.calls ≡ 0) × (o ≡ none))
      ⊎ ((o ≡ some (done updating ss))
          × (outdated_below old count s'.calls + 1 ≡ outdated_below old count s.calls))

  visit_pod-Rolls :
      (k : ℕ) (s : State S)
      → k < count
      → Runs (check_pod env default_manager ss (pos k)) s (λ o s'.
        ((old k s.calls ≡ false) × (o ≡ none) × (s'.calls ≡ get_pod (pod_id ss k) ∷ s.calls))
        ⊎ ((o ≡ some (done updating ss))
            × (outdated_below old count s'.calls + 1 ≡ outdated_below old count s.calls)))
  unfolding check_pod fetch_pod visit_pod recycle_pod remove_pod finish_pod default_manager
  visit_pod-Rolls k s lt = Runs-bind _ s _ _ (
      Runs-ask _ s _ _ (
        rw (r.reads k s.calls lt) (
          Runs-if _ _ (not (is_pod_ready (r.pod k s.calls))) _ _
            (λ b. absurd (let g = r.stays_ready k s.calls lt in ground (arith, b, g)))
            (λ b.
              Runs-if _ _ (is_outdated ss (r.pod k s.calls)) _ _
                (λ o. Runs-bind _ _ _ _ (
                  Runs-bind _ _ _ _ (
                    Runs-pure _ _ _ (
                      Runs-bind _ _ _ _ (
                        Runs-ask _ _ _ _ (
                          Runs-pure _ _ _ (
                            Runs-pure _ _ _ (
                              inr (
                                ap
                                    (λ d.
                                      some (on_error d (λ e. failed error e ss) (done updating ss)))
                                    (r.deletes _ _),
                                outdated_below-renewed old count k s.calls _ lt
                                    (sym (r.shows k s.calls lt) ∙ o) (r.renewed k s.calls lt)
                                    (λ m ne. r.others k m s.calls lt ne),
                              )))))))))
                (λ o. Runs-bind _ _ _ _ (
                  Runs-pure _ _ _
                    (Runs-pure _ _ _ (inl (sym (r.shows k s.calls lt) ∙ o, refl, refl)))))))))

  pub check_pods-Rolls :
      (k : ℕ) (s : State S)
      → k ≤ count
      → Runs (check_pods env default_manager ss k) s (λ o s'. Rolls k s o s')
  unfolding check_pods
  check_pods-Rolls zero s le = Runs-pure _ s _ (inl (refl, refl))
  check_pods-Rolls (suc k) s le = Runs-bind _ s _ _ (
      Runs-weaken _ _ _ _ (visit_pod-Rolls k s (omega (arith, le)))
        (λ o s' p. go_on (λ t. check_pods-Rolls k t (omega (arith, le))) o s' p))
    where
      same_count :
          (s' : State S)
          → s'.calls ≡ get_pod (pod_id ss k) ∷ s.calls
          → (j : ℕ) → outdated_below old j s'.calls ≡ outdated_below old j s.calls
      same_count s' e j =
          outdated_below-same old j s.calls s'.calls (λ n. ap (old n) e ∙ r.quiet n _ s.calls)

      go_on :
          ((t : State S) → Runs (check_pods env default_manager ss k) t (λ o t'. Rolls k t o t'))
          → (o : Option Outcome) (s' : State S)
          → ((old k s.calls ≡ false) × (o ≡ none) × (s'.calls ≡ get_pod (pod_id ss k) ∷ s.calls))
            ⊎ ((o ≡ some (done updating ss))
                × (outdated_below old count s'.calls + 1 ≡ outdated_below old count s.calls))
          → Runs
              (elim o as (λ _. M S (Option Outcome)) [
                | none ↦ check_pods env default_manager ss k
                | some out ↦ pure (some out)
              ])
              s'
              (λ o' s''. Rolls (suc k) s o' s'')
      go_on rest none s' (inl (current, n, e)) = Runs-weaken _ _ _ _ (rest s') (λ o' s'' q. elim q [
        | inl (z, g) ↦
            inl
              (let a = ap one_if current in let b = same_count s' e k in omega (arith, a, b, z), g)
        | inr (g, c) ↦ inr (g, let b = same_count s' e count in omega (arith, b, c))
      ])
      go_on rest none s' (inr (n, c)) = absurd (cc n)
      go_on rest (some out) s' (inl (current, n, e)) = absurd (cc n)
      go_on rest (some out) s' (inr (n, c)) = Runs-pure _ s' _ (inr (n, c))
