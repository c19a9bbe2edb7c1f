-- ===== src/Enterprise/ClusterMaster/Rounds.antt =====
-- Sequences of reconciliations, as runs of the two operations on the tracker.
use infra_devops.Base.{
  ◌+◌, ◌≤◌, Option, some, List, [], ◌∷◌, Err, ◌≡◌, ◌≢◌, ◌∙◌, sym, ap, length, inl, inr,
}
use mathlib.Core.Path.{subst}
use infra_devops.Base.Int.{ℤ}
use infra_devops.Common.Meta.{MetaObject}
use infra_devops.Cluster.{Env, State}
use infra_devops.Enterprise.SmartStore.{SmartStoreSpec}
use infra_devops.Enterprise.ClusterMaster.{
  ClusterMasterState, BundlePushInfo, perform_cm_bundle_push, sync_smartstore,
}
use infra_devops.Enterprise.ClusterMaster.Tracker.{
  Event, asked, asks, Move, Trace, start, later, Spaced, Trace-Spaced, count_pushed, count_asked,
  needed, Trace-pushes_le,
}
use infra_devops.Enterprise.ClusterMaster.Refines.{seen, perform_cm_bundle_push-seen}
use infra_devops.Enterprise.ClusterMaster.Sync.{sync_smartstore-refines}
use infra_devops.Cluster.Runs.{result-Runs}

-- Runs of the two operations one after the other, with the events that are seen of them, the latest
-- first: what a run of PerformCmBundlePush did is seen from the calls it made and from its error, and a
-- push is requested where the other operation changes the tracker. Between two runs the calls of others
-- may come; the tracker is only theirs.
pub data Rounds (env : Env) (cr : MetaObject) (s : ClusterMasterState)
    : List Event → ClusterMasterState → Type 0 where
  begun : Rounds env cr s [] s
  kept :
      {evs : List Event} {t : ClusterMasterState}
      → Rounds env cr s evs t
      → (wanted : SmartStoreSpec) (from to : State ClusterMasterState) (e : Option Err)
      → from.own ≡ t
      → sync_smartstore env cr wanted from ≡ some (e, to)
      → to.own.bundle_push_tracker ≡ t.bundle_push_tracker
      → Rounds env cr s evs to.own
  requested :
      {evs : List Event} {t : ClusterMasterState}
      → Rounds env cr s evs t
      → (wanted : SmartStoreSpec) (from to : State ClusterMasterState) (e : Option Err)
      → from.own ≡ t
      → sync_smartstore env cr wanted from ≡ some (e, to)
      → to.own.bundle_push_tracker ≢ t.bundle_push_tracker
      → Rounds env cr s (asked to.own.bundle_push_tracker.last_check_interval ∷ evs) to.own
  performed :
      {evs : List Event} {t : ClusterMasterState}
      → Rounds env cr s evs t
      → (from to : State ClusterMasterState) (e : Option Err) → from.own ≡ t
      → perform_cm_bundle_push env cr from ≡ some (e, to)
      → (ev : Event) → ev ≡ seen (length from.calls) (length to.calls) (env.now from.calls) e
      → Rounds env cr s (ev ∷ evs) to.own

-- A request notes its own time.
asked-time :
    (t u : BundlePushInfo) (now : ℤ) → Move t (asked now) u → Move t (asked u.last_check_interval) u
asked-time t u now (asks _) = asks now

module _ (env : Env) (cr : MetaObject) where
  performed-Move :
      (from to : State ClusterMasterState) (e : Option Err) (ev : Event)
      → perform_cm_bundle_push env cr from ≡ some (e, to)
      → ev ≡ seen (length from.calls) (length to.calls) (env.now from.calls) e
      → Move from.own.bundle_push_tracker ev to.own.bundle_push_tracker
  performed-Move from to e ev run saw =
      let m =
        result-Runs (perform_cm_bundle_push env cr) from to e
          (perform_cm_bundle_push-seen env cr from) run in
      rw saw m.move

  requested-Move :
      (wanted : SmartStoreSpec) (from to : State ClusterMasterState) (e : Option Err)
      → sync_smartstore env cr wanted from ≡ some (e, to)
      → to.own.bundle_push_tracker ≢ from.own.bundle_push_tracker
      → Move from.own.bundle_push_tracker
          (asked to.own.bundle_push_tracker.last_check_interval)
          to.own.bundle_push_tracker
  requested-Move wanted from to e run changed =
      elim (result-Runs (sync_smartstore env cr wanted) from to e
        (sync_smartstore-refines env cr from wanted) run).0 [
          | inl same ↦ absurd (changed same)
          | inr (now, m) ↦ asked-time _ _ now m
        ]

  module _ (s : ClusterMasterState) where
    -- The tracker follows the protocol.
    Rounds-Trace :
        (evs : List Event) (t : ClusterMasterState)
        → Rounds env cr s evs t
        → Trace s.bundle_push_tracker evs t.bundle_push_tracker
    Rounds-Trace [] t begun = start
    Rounds-Trace evs u (kept {t = t} r wanted from to e here run same) =
        subst (Trace s.bundle_push_tracker evs) (sym same) (Rounds-Trace evs t r)
    Rounds-Trace (ev ∷ evs) u (requested {t = t} r wanted from to e here run changed) =
        later (Rounds-Trace evs t r) (
          rw (← here) (
            requested-Move wanted from to e run
              (λ same. changed (same ∙ ap (λ o. o.bundle_push_tracker) here))))
    Rounds-Trace (ev ∷ evs) u (performed {t = t} r from to e here run _ saw) =
        later (Rounds-Trace evs t r) (rw (← here) (performed-Move from to e ev run saw))

    -- However runs of PerformCmBundlePush and of the part of ApplyClusterMaster before it follow each
    -- other, each attempt at a push is at least five seconds after the attempt or the request before it,
    -- and there are no more pushes than requests and a need at the start.
    pub Rounds-Spaced :
        (evs : List Event) (t : ClusterMasterState)
        → Rounds env cr s evs t
        → Spaced s.bundle_push_tracker.last_check_interval evs
          × (count_pushed evs + needed t.bundle_push_tracker.need_to_push_master_apps
              ≤ count_asked evs + needed s.bundle_push_tracker.need_to_push_master_apps)
    Rounds-Spaced evs t r =
        let trace = Rounds-Trace evs t r in
        (
          Trace-Spaced s.bundle_push_tracker t.bundle_push_tracker evs trace,
          Trace-pushes_le s.bundle_push_tracker t.bundle_push_tracker evs trace,
        )
