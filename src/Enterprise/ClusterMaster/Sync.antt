-- ===== src/Enterprise/ClusterMaster/Sync.antt =====
-- The part of ApplyClusterMaster before the push makes moves of the protocol.
use infra_devops.Base.{false, not, none, ◌≡◌, ◌∙◌, ◌⊎◌, inl, inr, refl, arith}
use mathlib.Core.Path.{subst}
use infra_devops.Base.Int.{ℤ}
use infra_devops.Common.Meta.{MetaObject}
use infra_devops.Cluster.{Env, State}
use infra_devops.Cluster.Runs.{
  Runs, Runs-pure, Runs-ask, Runs-gets, Runs-bind, Runs-modify, Runs-weaken, Runs-if, Runs-on_error,
  Runs-still,
}
use infra_devops.Enterprise.SmartStore.{SmartStoreSpec}
use infra_devops.Enterprise.SmartStore.Same.{smart_store_eq, smart_store_eq-eq}
use infra_devops.Enterprise.SmartStore.Quiet.{
  are_remote_volume_keys_changed-Still, apply_smartstore_config_map-Still,
}
use infra_devops.Enterprise.ClusterMaster.{
  ClusterMasterState, compare_keys, refresh_smartstore, sync_smartstore,
}
use infra_devops.Enterprise.ClusterMaster.Tracker.{asked, Move, asks}
use infra_devops.Enterprise.ClusterMaster.Pushes.{never}

-- The tracker is as it was, or a push was asked for.
abbrev pub MayAsk : ClusterMasterState → ClusterMasterState → Type 0
MayAsk a b =
    (b.bundle_push_tracker ≡ a.bundle_push_tracker)
    ⊎ ((now : ℤ) × Move a.bundle_push_tracker (asked now) b.bundle_push_tracker)

module _ (env : Env) (cr : MetaObject) where
  pub compare_keys_lem :
      (s : State ClusterMasterState) (wanted : SmartStoreSpec)
      → Runs (compare_keys env cr wanted) s (λ c s'.
        (s'.own.bundle_push_tracker ≡ s.own.bundle_push_tracker)
        × (s'.own.smart_store ≡ s.own.smart_store)
        × (c.changed ≡ false → s.own.smart_store ≡ wanted))
  unfolding compare_keys
  compare_keys_lem s wanted = Runs-bind _ s _ _ (
      Runs-gets _ s _ (
        Runs-if _ s (not (smart_store_eq s.own.smart_store wanted)) _ _
          (λ d. Runs-pure _ s _ (refl, refl, λ q. absurd (cc q)))
          (λ d. Runs-still _ s _ _ (are_remote_volume_keys_changed-Still env cr _ _) (λ check h.
            Runs-bind _ _ _ _ (
              Runs-modify _ _ _ (
                Runs-pure _ _ _ (
                  refl,
                  refl,
                  λ q. smart_store_eq-eq s.own.smart_store wanted (ground (arith, d)),
                )))))))

  refresh_lem :
      (s : State ClusterMasterState) (wanted : SmartStoreSpec)
      → Runs
          (refresh_smartstore env cr wanted)
          s
          (λ e s'. MayAsk s.own s'.own × (e ≡ none → s'.own.smart_store ≡ wanted))
  unfolding refresh_smartstore
  refresh_lem s wanted =
      Runs-still _ s _ _ (apply_smartstore_config_map-Still env cr wanted) (λ applied h.
        Runs-on_error _ _ applied.failure _ _ (λ x k. Runs-pure _ _ _ (inl refl, never))
          (λ k. Runs-bind _ _ _ _ (
            Runs-if _ _ applied.changed _ _
              (λ c. Runs-bind _ _ _ _ (
                Runs-ask _ _ _ _ (
                  Runs-modify _ _ _ (
                    Runs-bind _ _ _ _
                      (Runs-modify _ _ _ (Runs-pure _ _ _ (inr (_, asks _), λ q. refl)))))))
              (λ c.
                Runs-pure _ _ _ (
                  Runs-bind _ _ _ _ (Runs-modify _ _ _ (Runs-pure _ _ _ (inl refl, λ q. refl))))))))

  moved_from :
      (s s' s'' : State ClusterMasterState)
      → s'.own.bundle_push_tracker ≡ s.own.bundle_push_tracker
      → MayAsk s'.own s''.own
      → MayAsk s.own s''.own
  moved_from s s' s'' e (inl same) = inl (same ∙ e)
  moved_from s s' s'' e (inr (now, m)) =
      inr (now, subst (λ t. Move t (asked now) s''.own.bundle_push_tracker) e m)

  -- The part of the reconciler that keeps the config map returns; it leaves the tracker as it is or asks
  -- for a push, and where it returns no error the status holds the wanted specification.
  pub sync_smartstore-refines :
      (s : State ClusterMasterState) (wanted : SmartStoreSpec)
      → Runs
          (sync_smartstore env cr wanted)
          s
          (λ e s'. MayAsk s.own s'.own × (e ≡ none → s'.own.smart_store ≡ wanted))
  unfolding sync_smartstore
  sync_smartstore-refines s wanted = Runs-bind _ s _ _ (
      Runs-weaken _ _ _ _ (compare_keys_lem s wanted) (λ check s' p.
        Runs-if _ s' check.changed _ _
          (λ c. Runs-bind _ s' _ _ (
            Runs-weaken _ _ _ _ (refresh_lem s' wanted) (λ e s'' q.
              Runs-on_error _ s'' e _ _
                (λ x k. Runs-pure _ _ _ (moved_from s s' s'' p.0 q.0, never))
                (λ k. Runs-pure _ _ _ (moved_from s s' s'' p.0 q.0, λ r. q.1 k)))))
          (λ c. Runs-pure _ s' _ (inl p.0, λ r. p.1 ∙ p.2 c))))
