-- ===== src/Control/Pods/Rollout.antt =====
-- What it means that UpdateStatefulSetPods reports readiness.
use infra_devops.Base.{
  ℕ, zero, suc, ◌<◌, Bool, true, false, not, if◌then◌else◌, Option, none, some, ◌≡◌, refl, arith,
  ◌∙◌, ap, Result, ok, err, on_result, Err,
}
use mathlib.Core.Path.{subst}
use native.Mathlib.Decide.{dec_lt}
use infra_devops.Base.Int.{ℤ, pos, ltb_ℤ, dec32, eq_of_not_lt}
use infra_devops.Common.Names.{
  pending, ready, updating, scaling_up, scaling_down, error, ready_phase,
}
use infra_devops.Cluster.{
  NamespacedName, StatefulSet, Pod, Env, History, State, M, pure, ◌>>=◌, ask,
}
use infra_devops.Cluster.Emits.{>>=-some}
use infra_devops.Cluster.Yields.{pure-some, Yields}
use infra_devops.Control.Pods.{
  PodManager, Outcome, done, failed, pod_name, scale_up, scale_down, recycle_pod, finish_pod,
  is_pod_ready, is_outdated, visit_pod, check_pod, check_pods, rounds_down, roll_pods,
  update_stateful_set_pods,
}
use infra_devops.Control.Pods.Ready.{
  NotReady, RoundNotReady, scale_up-NotReady, scale_down-NotReady, check_pods-NotReady,
}
use infra_devops.Util.Resource.{fetch_pod}

module _ {S : Type 0} (env : Env) (mgr : PodManager S) (ss : StatefulSet) where
  -- The pod was read, at some time of the run, running and ready and with the revision of the
  -- stateful set, and the manager found its recycling complete.
  pub record IsRolledOut (n : ℤ) : Type 0 where
    pub history : History
    pub pod : Pod
    pub read :
        env.pod_at history (record { namespace = ss.id.namespace; name = pod_name ss n }) ≡ ok pod
    pub is_ready : is_pod_ready pod ≡ true
    pub is_current : is_outdated ss pod ≡ false
    pub before : State S
    pub after : State S
    pub finished : mgr.finish_recycle n before ≡ some ((true, none), after)

  finish_pod-none :
      (n : ℤ) (s s' : State S)
      → finish_pod env mgr ss n s ≡ some (none, s')
      → mgr.finish_recycle n s ≡ some ((true, none), s')
  unfolding finish_pod ◌>>=◌ pure
  finish_pod-none n s s' h = ground arith

  bind-some :
      {A : Type 0} (m : M S A) (s s' : State S) → (m >>= λ o. pure (some o)) s ≡ some (none, s') → ⊥
  bind-some m s s' h =
      let (o, t, p, q) = >>=-some m (λ o. pure (some o)) s s' none h in
      let e : some o ≡ none = pure-some (some o) none t s' q in cc

  -- The round goes on only past both of its tests.
  round-none :
      (r c : Bool) (o : Outcome) (m : M S Outcome) (f : M S (Option Outcome)) (s s' : State S)
      → (if not r then pure (some o) else if c then (m >>= λ o. pure (some o)) else f) s
        ≡ some (none, s')
      → (r ≡ true) × (c ≡ false) × (f s ≡ some (none, s'))
  round-none false c o m f s s' h =
      let e : some o ≡ none = pure-some (some o) none s s' h in absurd (cc)
  round-none true true o m f s s' h = absurd (bind-some m s s' h)
  round-none true false o m f s s' h = (refl, refl, h)

  read-none :
      (r : Result Pod) (o : Err → Outcome) (f : Pod → M S (Option Outcome)) (s s' : State S)
      → on_result r (λ e. pure (some (o e))) f s ≡ some (none, s')
      → (pod : Pod) × (r ≡ ok pod) × (f pod s ≡ some (none, s'))
  read-none (ok pod) o f s s' h = (pod, refl, h)
  read-none (err x) o f s s' h =
      let e : some (o x) ≡ none = pure-some (some (o x)) none s s' h in absurd (cc)

  answer :
      (id : NamespacedName) (s s' : State S) (r : Result Pod)
      → fetch_pod env id s ≡ some (r, s')
      → env.pod_at s.calls id ≡ r
  answer id s s' r h = unfold fetch_pod ask in cc

  check_pod-none :
      (n : ℤ) (s s' : State S) → check_pod env mgr ss n s ≡ some (none, s') → IsRolledOut n
  unfolding check_pod
  check_pod-none n s s' h =
      let id : NamespacedName = record { namespace = ss.id.namespace; name = pod_name ss n } in
      let (r, t, p, q) = >>=-some (fetch_pod env id) _ s s' none h in
      let (pod, e, v) = read-none r (λ x. failed error x ss) (visit_pod env mgr ss n) t s' q in
      let (good, current, f) =
        round-none (is_pod_ready pod) (is_outdated ss pod) (done updating ss)
          (recycle_pod env mgr ss n pod) (finish_pod env mgr ss n) t s' (unfold visit_pod in v) in
      record {
        history = s.calls;
        pod = pod;
        read = answer id s t r p ∙ e;
        is_ready = good;
        is_current = current;
        before = t;
        after = s';
        finished = finish_pod-none n t s' f;
      }

  next-none :
      (o : Option Outcome) (m : M S (Option Outcome)) (t s' : State S)
      → (elim o as (λ _. M S (Option Outcome)) [ none ↦ m | some out ↦ pure (some out) ]) t
        ≡ some (none, s')
      → (o ≡ none) × (m t ≡ some (none, s'))
  next-none none m t s' h = (refl, h)
  next-none (some out) m t s' h =
      let e : some out ≡ none = pure-some (some out) none t s' h in absurd (cc)

  -- The loop over the pods ends without a result only when each of them is rolled out.
  check_pods-none :
      (k : ℕ) (s s' : State S)
      → check_pods env mgr ss k s ≡ some (none, s')
      → (n : ℕ) → n < k
      → IsRolledOut (pos n)
  unfolding check_pods
  check_pods-none zero s s' h n lt = elim lt [ ]
  check_pods-none (suc k) s s' h n lt =
      let (o, t, p, q) = >>=-some (check_pod env mgr ss (pos k)) _ s s' none h in
      let (e, r) = next-none o (check_pods env mgr ss k) t s' q in
      let last : IsRolledOut (pos k) = check_pod-none (pos k) s t (p ∙ rw e) in
      elim (dec_lt n k) [
        | yes below ↦ check_pods-none k t s' r n below
        | no top ↦ let e : k ≡ n = omega arith in subst (λ j. IsRolledOut (pos j)) e last
      ]

  not_ready : (o : Outcome) → NotReady env mgr ss o → o.phase ≡ ready → ⊥
  not_ready o h e = let k : ready_phase o.phase ≡ true = rw e in cc

  roll_pods-ready :
      (s s' : State S) (o : Outcome)
      → roll_pods env mgr ss s ≡ some (o, s')
      → o.phase ≡ ready
      → (n : ℕ) → n < rounds_down (dec32 ss.ready_replicas)
      → IsRolledOut (pos n)
  unfolding roll_pods
  roll_pods-ready s s' o h is_ready n lt =
      let (r, t, p, q) = >>=-some (check_pods env mgr ss k) _ s s' o h in
      go r _ _ p q ((check_pods-NotReady env mgr ss k).yielded s t r p)
    where
      k : ℕ
      k = rounds_down (dec32 ss.ready_replicas)

      go :
          (r : Option Outcome) (t : State S) (m : M S Outcome)
          → check_pods env mgr ss k s ≡ some (r, t)
          → (elim r as (λ _. M S Outcome) [ some out ↦ pure out | none ↦ m ]) t ≡ some (o, s')
          → RoundNotReady env mgr ss r
          → IsRolledOut (pos n)
      go none t m p q y = check_pods-none k s t p n lt
      go (some out) t m p q y =
          let e : out ≡ o = pure-some out o t s' q in
          absurd (not_ready out y (ap (λ (x : Outcome). x.phase) e ∙ is_ready))

  -- The ladder of UpdateStatefulSetPods: only its last branch can report readiness.
  ladder :
      (few some_ready many up down : Bool) (u d r : M S Outcome) (s s' : State S) (o : Outcome)
      → Yields (NotReady env mgr ss) u
      → Yields (NotReady env mgr ss) d
      → (if few
            then pure (done (if some_ready then scaling_up else pending) ss)
            else if many
            then pure (done scaling_down ss)
            else if up
            then u
            else if down
            then d
            else r)
          s
        ≡ some (o, s')
      → o.phase ≡ ready
      → (few ≡ false) × (many ≡ false) × (up ≡ false) × (down ≡ false) × (r s ≡ some (o, s'))
  ladder true true many up down u d r s s' o hu hd h e =
      let x : scaling_up ≡ o.phase =
        ap (λ (x : Outcome). x.phase) (pure-some (done scaling_up ss) o s s' h) in
      absurd (cc)
  ladder true false many up down u d r s s' o hu hd h e =
      let x : pending ≡ o.phase =
        ap (λ (x : Outcome). x.phase) (pure-some (done pending ss) o s s' h) in
      absurd (cc)
  ladder false b true up down u d r s s' o hu hd h e =
      let x : scaling_down ≡ o.phase =
        ap (λ (x : Outcome). x.phase) (pure-some (done scaling_down ss) o s s' h) in
      absurd (cc)
  ladder false b false true down u d r s s' o hu hd h e =
      absurd (not_ready o (hu.yielded s s' o h) e)
  ladder false b false false true u d r s s' o hu hd h e =
      absurd (not_ready o (hd.yielded s s' o h) e)
  ladder false b false false false u d r s s' o hu hd h e = (refl, refl, refl, refl, h)

  -- UpdateStatefulSetPods reports readiness only where as many replicas are ready as the stateful
  -- set has and as are desired, and where it has found each pod rolled out.
  pub update_stateful_set_pods-ready :
      (desired : ℤ) (s s' : State S) (o : Outcome)
      → update_stateful_set_pods env mgr ss desired s ≡ some (o, s')
      → o.phase ≡ ready
      → (ss.replicas ≡ ss.ready_replicas)
        × (desired ≡ ss.ready_replicas)
        × ((n : ℕ) → n < rounds_down (dec32 ss.ready_replicas) → IsRolledOut (pos n))
  update_stateful_set_pods-ready desired s s' o h is_ready =
      let (few, many, up, down, rolled) =
        ladder (ltb_ℤ ss.ready_replicas ss.replicas) (ltb_ℤ (pos 0) ss.ready_replicas)
          (ltb_ℤ ss.replicas ss.ready_replicas) (ltb_ℤ ss.ready_replicas desired)
          (ltb_ℤ desired ss.ready_replicas) (scale_up env ss desired)
          (scale_down env mgr ss (dec32 ss.ready_replicas)) (roll_pods env mgr ss) s s' o
          (scale_up-NotReady env mgr ss desired) (scale_down-NotReady env mgr ss _)
          (unfold update_stateful_set_pods in h) is_ready in
      (eq_of_not_lt _ _ many few, eq_of_not_lt _ _ down up, roll_pods-ready s s' o rolled is_ready)
