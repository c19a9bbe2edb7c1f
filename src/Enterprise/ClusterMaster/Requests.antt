-- ===== src/Enterprise/ClusterMaster/Requests.antt =====
-- When the part of ApplyClusterMaster that keeps the config map of SmartStore asks for a push.
use infra_devops.Base.{
  String, true, not, Option, none, some, List, [], ◌∷◌, Err, ◌≡◌, ◌∙◌, refl, ap, ◌⊎◌, inl, inr,
}
use mathlib.Core.Path.{subst}
use infra_devops.Base.Dict.{Dict, lookup}
use infra_devops.Common.Meta.{MetaObject}
use infra_devops.Cluster.{NamespacedName, Env, State, Call, History, clock, get_secret}
use infra_devops.Cluster.Emits.{
  Emits, Extends, here, more, Emits-pure, Emits-bind, Emits-ask, Emits-gets, Emits-modify, Emits-if,
  Emits-on_result, Emits-on_option,
}
use infra_devops.Cluster.Runs.{
  Runs, Runs-pure, Runs-ask, Runs-bind, Runs-modify, Runs-weaken, Runs-also, Runs-if, Runs-on_error,
}
use infra_devops.Util.Resource.{fetch_secret}
use infra_devops.Util.Owners.{get_secret_by_name}
use infra_devops.Enterprise.SmartStore.{SmartStoreSpec, VolumeSpec, is_smartstore_configured}
use infra_devops.Enterprise.SmartStore.Same.{smart_store_eq}
use infra_devops.Enterprise.ClusterMaster.Sync.{compare_keys_lem}
use infra_devops.Enterprise.SmartStore.Keys.{check_keys, are_remote_volume_keys_changed}
use infra_devops.Enterprise.ClusterMaster.{
  ClusterMasterState, BundlePushInfo, compare_keys, refresh_smartstore, sync_smartstore,
}
use infra_devops.Enterprise.ClusterMaster.Writes.{Written, Tells, apply_smartstore-Tells}

-- The call reads a secret.
ReadsSecret : Call → Type 0
ReadsSecret c = (id : NamespacedName) × (c ≡ get_secret id)

-- Reading secrets writes no config map.
Extends-unwritten :
    {old new : History} → Extends ReadsSecret old new → (Written old → ⊥) → Written new → ⊥
unfolding ReadsSecret
Extends-unwritten here n w = n w
Extends-unwritten (more (id, e) rest) n w = absurd (rw e at w)

never : {X : Type 0} {e : Err} → ◌≡◌ {A = Option Err} (some e) none → X
never h = absurd (cc h)

abbrev tracker_of : ClusterMasterState → BundlePushInfo
tracker_of s = s.bundle_push_tracker

module _ (env : Env) where
  module _ (cr : MetaObject) where
    -- The tracker asks for a push, at the time that the clock reads behind a write of the config map.
    pub record Asked (s' : State ClusterMasterState) : Type 0 where
      pub earlier : History
      pub latest : s'.calls ≡ clock ∷ earlier
      pub wrote : Written earlier
      pub tracker :
          s'.own.bundle_push_tracker
          ≡ record { need_to_push_master_apps = true; last_check_interval = env.now earlier }

    -- The tracker is as it was; without an error the latest call wrote no config map.
    pub record Silent (s s' : State ClusterMasterState) (e : Option Err) : Type 0 where
      pub same : s'.own.bundle_push_tracker ≡ s.own.bundle_push_tracker
      pub unwritten : e ≡ none → Written s'.calls → ⊥

    abbrev pub Outcome : State ClusterMasterState → State ClusterMasterState → Option Err → Type 0
    Outcome s s' e = Asked s' ⊎ Silent s s' e

    refresh-Outcome :
        (s : State ClusterMasterState) (wanted : SmartStoreSpec)
        → Runs
            (refresh_smartstore env cr wanted)
            s
            (λ e s'. Outcome s s' e × (e ≡ none → s'.own.smart_store ≡ wanted))
    unfolding refresh_smartstore Tells
    refresh-Outcome s wanted = Runs-bind _ s _ _ (
        Runs-weaken _ _ _ _ (apply_smartstore-Tells env cr wanted s) (λ applied s' p.
          Runs-on_error _ s' applied.failure _ _
            (λ x k.
              Runs-pure _ s' _
                (inr (record { same = ap tracker_of p.0; unwritten = never }), never))
            (λ k. Runs-bind _ s' _ _ (
              Runs-if _ s' applied.changed _ _
                (λ c. Runs-bind _ s' _ _ (
                  Runs-ask _ s' _ _ (
                    Runs-modify _ _ _ (
                      Runs-bind _ _ _ _ (
                        Runs-modify _ _ _ (
                          Runs-pure _ _ _ (
                            inl (record {
                              earlier = s'.calls;
                              latest = refl;
                              wrote = (p.1 k).0 c;
                              tracker = refl;
                            }),
                            λ q. refl,
                          )))))))
                (λ c. Runs-pure _ s' _ (
                  Runs-bind _ s' _ _ (
                    Runs-modify _ s' _ (
                      Runs-pure _ _ _ (
                        inr (record { same = ap tracker_of p.0; unwritten = λ q. (p.1 k).1 c }),
                        λ q. refl,
                      )))))))))

    check_keys-Emits :
        (vs : List VolumeSpec) (revisions : Dict String)
        → Emits {S = ClusterMasterState} ReadsSecret (check_keys env cr vs revisions)
    unfolding check_keys get_secret_by_name fetch_secret ReadsSecret
    check_keys-Emits [] revisions = Emits-pure _
    check_keys-Emits (v ∷ vs) revisions = Emits-bind _ _ (Emits-ask _ _ (_, refl)) (λ r.
        Emits-on_result r _ _ (λ e. Emits-pure _)
          (λ secret.
            Emits-on_option (lookup v.secret_ref revisions) _ _ (check_keys-Emits vs _)
              (λ old. Emits-pure _)))

    keys_changed-Emits :
        (wanted : SmartStoreSpec) (revisions : Dict String)
        → Emits {S = ClusterMasterState} ReadsSecret
            (are_remote_volume_keys_changed env cr (some wanted) revisions)
    unfolding are_remote_volume_keys_changed
    keys_changed-Emits wanted revisions =
        Emits-if (is_smartstore_configured (some wanted)) _ _ (check_keys-Emits _ _) (Emits-pure _)

    compare_keys-Emits : (wanted : SmartStoreSpec) → Emits ReadsSecret (compare_keys env cr wanted)
    unfolding compare_keys
    compare_keys-Emits wanted = Emits-bind _ _ (Emits-gets _) (λ s.
        Emits-if (not (smart_store_eq s.smart_store wanted)) _ _ (Emits-pure _) (
          Emits-bind _ _ (keys_changed-Emits wanted _)
            (λ check. Emits-bind _ _ (Emits-modify _) (λ u. Emits-pure _))))

    outcome_from :
        (s s' s'' : State ClusterMasterState) (e : Option Err)
        → s'.own.bundle_push_tracker ≡ s.own.bundle_push_tracker
        → Outcome s' s'' e
        → Outcome s s'' e
    outcome_from s s' s'' e k (inl asked) = inl asked
    outcome_from s s' s'' e k (inr silent) =
        inr (record { same = silent.same ∙ k; unwritten = silent.unwritten })

    -- The same with the error that is returned in the end.
    outcome_error :
        (s s' s'' : State ClusterMasterState) (e : Option Err) (x : Err)
        → e ≡ some x
        → s'.own.bundle_push_tracker ≡ s.own.bundle_push_tracker
        → Outcome s' s'' e
        → Outcome s s'' (some x)
    outcome_error s s' s'' e x k same o =
        subst (λ v. Outcome s s'' v) k (outcome_from s s' s'' e same o)

    outcome_none :
        (s s' s'' : State ClusterMasterState) (e f : Option Err)
        → e ≡ none
        → s'.own.bundle_push_tracker ≡ s.own.bundle_push_tracker
        → Outcome s' s'' e
        → Outcome s s'' f
    outcome_none s s' s'' e f k same (inl asked) = inl asked
    outcome_none s s' s'' e f k same (inr silent) =
        inr (record { same = silent.same ∙ same; unwritten = λ q. silent.unwritten k })

    -- The part of the reconciler that keeps the config map returns. It asks for a push, at the time of the
    -- clock, where its latest call before reading the clock wrote a config map; else it leaves the tracker
    -- alone, and then, unless it returns an error, its latest call has written none. Where it returns no
    -- error the status holds the wanted specification. The latest call before it wrote no config map.
    pub sync_smartstore-asks :
        (s : State ClusterMasterState) (wanted : SmartStoreSpec)
        → (Written s.calls → ⊥)
        → Runs
            (sync_smartstore env cr wanted)
            s
            (λ e s'. Outcome s s' e × (e ≡ none → s'.own.smart_store ≡ wanted))
    unfolding sync_smartstore
    sync_smartstore-asks s wanted n = Runs-bind _ s _ _ (
        Runs-weaken _ _ _ _
          (Runs-also _ _ (compare_keys env cr wanted) s (compare_keys_lem env cr s wanted)
            (λ c s' run. Extends-unwritten ((compare_keys-Emits wanted).emitted s s' c run) n))
          (λ check s' p.
            Runs-if _ s' check.changed _ _
              (λ c. Runs-bind _ s' _ _ (
                Runs-weaken _ _ _ _ (refresh-Outcome s' wanted) (λ e s'' q.
                  Runs-on_error _ s'' e _ _
                    (λ x k. Runs-pure _ _ _ (outcome_error s s' s'' e x k p.0.0 q.0, never))
                    (λ k.
                      Runs-pure _ _ _
                        (outcome_none s s' s'' e check.failure k p.0.0 q.0, λ r. q.1 k)))))
              (λ c.
                Runs-pure _ s' _
                  (inr (record { same = p.0.0; unwritten = λ q. p.1 }), λ r. p.0.1 ∙ p.0.2 c))))
