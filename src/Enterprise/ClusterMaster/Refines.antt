-- ===== src/Enterprise/ClusterMaster/Refines.antt =====
-- PerformCmBundlePush makes moves of the protocol.
use infra_devops.Base.{
  ℕ, suc, ◌+◌, ◌<◌, ◌==◌, length, if◌then◌else◌, on_option, some, ap, Bool, true, false, not,
  Option, none, Err, ◌≡◌, ◌≢◌, ◌∙◌, sym, inl, inr, refl, arith,
}
use mathlib.Core.Path.{subst}
use infra_devops.Base.Int.{ℤ, ltb_ℤ, plus64}
use infra_devops.Common.Meta.{MetaObject}
use infra_devops.Cluster.{Env, State}
use infra_devops.Cluster.Runs.{
  Runs, Runs-pure, Runs-ask, Runs-gets, Runs-bind, Runs-modify, Runs-weaken, Runs-also, Runs-if,
}
use infra_devops.Enterprise.ClusterMaster.{ClusterMasterState, attempt_push, perform_cm_bundle_push}
use infra_devops.Enterprise.ClusterMaster.Tracker.{
  Event, idle, early, tried, pushed, asked, Move, rests, waits, fails, pushes,
}
use infra_devops.Enterprise.ClusterMaster.Calls.{attempt_push-grows}
use infra_devops.Enterprise.ClusterMaster.Pushes.{never, attempt_push_lem}

-- What is returned with an event, where the clock reads `now`.
abbrev pub Reports : ℤ → Event → Option Err → Type 0
Reports now idle e = e ≡ none
Reports now early e = e ≢ none
Reports now (tried t) e = (t ≡ now) × (e ≢ none)
Reports now (pushed t) e = (t ≡ now) × (e ≡ none)
Reports now (asked t) e = ⊥

-- The status but for the tracker.
abbrev pub SameBut : ClusterMasterState → ClusterMasterState → Type 0
SameBut a b = (b.smart_store ≡ a.smart_store) × (b.resource_rev_map ≡ a.resource_rev_map)

pub record Moved (now : ℤ) (s s' : ClusterMasterState) (e : Option Err) : Type 0 where
  pub event : Event
  pub move : Move s.bundle_push_tracker event s'.bundle_push_tracker
  pub reports : Reports now event e
  pub same : SameBut s s'

-- A run with a given event.
pub record MovedBy (now : ℤ) (s s' : ClusterMasterState) (e : Option Err) (event : Event)
    : Type 0 where
  pub move : Move s.bundle_push_tracker event s'.bundle_push_tracker
  pub reports : Reports now event e
  pub same : SameBut s s'

-- What a run of PerformCmBundlePush did, from the numbers of calls before and after it: without a call
-- it was idle, with one, which reads the clock, it was too early; with more it attempted a push.
abbrev pub seen : ℕ → ℕ → ℤ → Option Err → Event
seen before after now e =
    if after == before
    then idle
    else if after == before + 1
    then early
    else on_option e (pushed now) (λ _. tried now)

-- The tracker after an attempt at the time `now`.
abbrev with_tracker : ClusterMasterState → Bool → ℤ → ClusterMasterState
with_tracker s need now = record s {
  bundle_push_tracker = record { need_to_push_master_apps = need; last_check_interval = now };
}

abbrev tried_at : ClusterMasterState → ℤ → ClusterMasterState
tried_at s now = record s {
  bundle_push_tracker = record (s.bundle_push_tracker) { last_check_interval = now };
}

module _ (now : ℤ) (s : ClusterMasterState)
    (need : s.bundle_push_tracker.need_to_push_master_apps ≡ true)
    (due : ltb_ℤ now (plus64 s.bundle_push_tracker.last_check_interval 5) ≡ false) where
  push_Moved :
      (s' : ClusterMasterState) (e : Option Err) (ev : Event)
      → s' ≡ with_tracker s false now
      → e ≡ none
      → ev ≡ pushed now
      → MovedBy now s s' e ev
  push_Moved s' e ev h none_left k =
      subst (λ t. MovedBy now s t e ev) (sym h)
        (subst (λ v. MovedBy now s (with_tracker s false now) e v) (sym k)
          (record { move = pushes now need due; reports = (refl, none_left); same = (refl, refl) }))

  fail_Moved :
      (s' : ClusterMasterState) (e : Option Err) (ev : Event)
      → s' ≡ tried_at s now
      → e ≢ none
      → ev ≡ tried now
      → MovedBy now s s' e ev
  fail_Moved s' e ev h failed k =
      subst (λ t. MovedBy now s t e ev) (sym h)
        (subst (λ v. MovedBy now s (tried_at s now) e v) (sym k)
          (record { move = fails now need due; reports = (refl, failed); same = (refl, refl) }))

-- An attempt is seen as one.
seen-attempt :
    (before after : ℕ) (now : ℤ) (e : Option Err)
    → before + 1 < after
    → seen before after now e ≡ on_option e (pushed now) (λ _. tried now)
seen-attempt before after now e h =
    let some_calls : (after == before) ≡ false = ground arith in
    let more_calls : (after == before + 1) ≡ false = ground arith in
    rw some_calls (rw more_calls refl)

seen-idle : (n : ℕ) (now : ℤ) (e : Option Err) → seen n n now e ≡ idle
seen-idle n now e = let same : (n == n) ≡ true = ground arith in rw same refl

seen-early : (n : ℕ) (now : ℤ) (e : Option Err) → seen n (suc n) now e ≡ early
seen-early n now e =
    let a_call : (suc n == n) ≡ false = ground arith in
    let just_one : (suc n == n + 1) ≡ true = ground arith in rw a_call (rw just_one refl)

early_Moved :
    (now : ℤ) (s : ClusterMasterState)
    → s.bundle_push_tracker.need_to_push_master_apps ≡ true
    → ltb_ℤ now (plus64 s.bundle_push_tracker.last_check_interval 5) ≡ true
    → (n : ℕ) (x : Err) → MovedBy now s s (some x) (seen n (suc n) now (some x))
early_Moved now s need soon n x =
    subst (λ v. MovedBy now s s (some x) v) (sym (seen-early n now (some x)))
      (record { move = waits now need soon; reports = never; same = (refl, refl) })

tried_of :
    (now : ℤ) (e : Option Err) → e ≢ none → on_option e (pushed now) (λ _. tried now) ≡ tried now
tried_of now none h = absurd (h refl)
tried_of now (some x) h = refl

module _ (env : Env) (cr : MetaObject) where
  -- PerformCmBundlePush returns, and what is seen of the run is the move of the protocol that it makes.
  pub perform_cm_bundle_push-seen :
      (s : State ClusterMasterState)
      → Runs (perform_cm_bundle_push env cr) s (λ e s'.
        MovedBy
          (env.now s.calls)
          s.own
          s'.own
          e
          (seen (length s.calls) (length s'.calls) (env.now s.calls) e))
  unfolding perform_cm_bundle_push
  perform_cm_bundle_push-seen s =
      let now = env.now s.calls in
      let n = length s.calls in
      Runs-bind _ s _ _ (
        Runs-gets _ s _ (
          Runs-if _ s (not s.own.bundle_push_tracker.need_to_push_master_apps) _ _
            (λ k. Runs-pure _ s none (
              subst (λ v. MovedBy now s.own s.own none v) (sym (seen-idle n now none))
                (record { move = rests (ground (arith, k)); reports = refl; same = (refl, refl) })))
            (λ k. Runs-bind _ s _ _ (
              Runs-ask _ s _ _ (
                Runs-if _ _ (ltb_ℤ now (plus64 s.own.bundle_push_tracker.last_check_interval 5)) _ _
                  (λ w. Runs-pure _ _ _ (early_Moved now s.own (ground (arith, k)) w n _))
                  (λ w. Runs-bind _ _ _ _ (
                    Runs-modify _ _ _ (
                      Runs-weaken _ _ _ _
                        (Runs-also _ _ (attempt_push env cr) _ (attempt_push_lem env cr _)
                          (λ e s' run. attempt_push-grows env cr _ s' e run))
                        (λ e s' p.
                          let calls = p.1 in
                          let attempt =
                            seen-attempt n (length s'.calls) now e (omega (arith, calls)) in
                          elim p.0 [
                            | inl (quiet, own, delivered, accepted) ↦
                                push_Moved now s.own (ground (arith, k)) w s'.own e _ own quiet (
                                  attempt
                                  ∙ ap (λ x. on_option x (pushed now) (λ _. tried now)) quiet)
                            | inr (failed, own) ↦
                                fail_Moved now s.own (ground (arith, k)) w s'.own e _ own failed
                                  (attempt ∙ tried_of now e failed)
                          ])))))))))

  -- PerformCmBundlePush returns, makes a move of the protocol at the time of the clock, reports an error
  -- just where a push that is needed is not made, and leaves the rest of the status as it is.
  pub perform_cm_bundle_push-refines :
      (s : State ClusterMasterState)
      → Runs (perform_cm_bundle_push env cr) s (λ e s'. Moved (env.now s.calls) s.own s'.own e)
  perform_cm_bundle_push-refines s =
      Runs-weaken _ _ (perform_cm_bundle_push env cr) s (perform_cm_bundle_push-seen s)
        (λ e s' m. record { event = _; move = m.move; reports = m.reports; same = m.same })
