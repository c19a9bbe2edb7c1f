-- ===== src/Enterprise/SmartStore/Keys/Tracking.antt =====
-- What AreRemoteVolumeKeysChanged compares, and what it keeps.
use infra_devops.Base.{
  String, false, Bool-cases, str_eq, Option, none, some, List, [], ◌∷◌, ◌++◌, ◌≡◌, refl, arith,
  eq_iff, inl, inr,
}
use infra_devops.Base.Dict.{Dict, lookup, insert, lookup-insert}
use infra_devops.Common.Meta.{MetaObject}
use infra_devops.Cluster.{Secret, Env, State}
use infra_devops.Cluster.Runs.{Runs, Runs-pure, Runs-still, Runs-if, Runs-on_result, Runs-on_option}
use infra_devops.Enterprise.SmartStore.{
  VolumeSpec, SmartStoreSpec, is_smartstore_configured, elements,
}
use infra_devops.Util.Owners.Quiet.{get_secret_by_name-Still}
use infra_devops.Enterprise.SmartStore.Keys.{
  KeyCheck, compare_version, check_keys, are_remote_volume_keys_changed,
}

-- A version is recorded for the secret.
abbrev pub IsTracked : String → Dict String → Type 0
IsTracked ref revisions = (old : String) × (lookup ref revisions ≡ some old)

IsTracked-insert :
    (ref other version : String) (revisions : Dict String)
    → IsTracked ref revisions
    → IsTracked ref (insert other version revisions)
IsTracked-insert ref other version revisions (old, h) =
    let after = lookup-insert other ref version revisions in
    elim (Bool-cases (str_eq other ref)) [
      | inl e ↦ (version, ground (arith, after, e))
      | inr e ↦ (old, ground (arith, after, e, h))
    ]

-- A version is not lost where another secret is recorded first.
keeps_version :
    (ref other old version : String) (revisions : Dict String)
    → lookup other revisions ≡ none
    → lookup ref revisions ≡ some old
    → lookup ref (insert other version revisions) ≡ some old
keeps_version ref other old version revisions free h =
    let after = lookup-insert other ref version revisions in
    let same = eq_iff other ref in ground (arith, after, same, free, h)

-- Every version recorded before is still recorded.
abbrev Keeps : Dict String → KeyCheck → Type 0
Keeps before c =
    c.changed ≡ false
    → (ref old : String) → lookup ref before ≡ some old
    → lookup ref c.revisions ≡ some old

compare_version-Keeps :
    (v : VolumeSpec) (revisions : Dict String) (old new : String)
    → Keeps revisions (compare_version v revisions old new)
unfolding compare_version
compare_version-Keeps v revisions old new h ref kept l = elim (Bool-cases (str_eq old new)) [
  | inl e ↦ rw e l
  | inr e ↦ absurd (let c = rw e at h in cc c)
]

module _ {S : Type 0} (env : Env) (cr : MetaObject) where
  -- The check stops at the first volume whose secret is tracked: what is compared does not depend on the
  -- volumes behind it.
  pub check_keys-behind :
      (vs : List VolumeSpec) (v : VolumeSpec) (ws : List VolumeSpec) (revisions : Dict String)
      → IsTracked v.secret_ref revisions
      → check_keys {S = S} env cr (vs ++ v ∷ ws) revisions
        ≡ check_keys env cr (vs ++ v ∷ []) revisions
  unfolding check_keys
  check_keys-behind [] v ws revisions (old, h) = rw h refl
  check_keys-behind (x ∷ vs) v ws revisions t = simp (λ (version : String).
      check_keys-behind vs v ws (insert x.secret_ref version revisions)
        (IsTracked-insert v.secret_ref x.secret_ref version revisions t))

  check_keys-Keeps :
      (vs : List VolumeSpec) (before revisions : Dict String)
      → ((ref old : String) → lookup ref before ≡ some old → lookup ref revisions ≡ some old)
      → (s : State S) → Runs (check_keys env cr vs revisions) s (λ c s'. Keeps before c)
  unfolding check_keys
  check_keys-Keeps [] before revisions k s = Runs-pure _ s _ (λ h. k)
  check_keys-Keeps (v ∷ vs) before revisions k s =
      Runs-still _ s _ _ (get_secret_by_name-Still env cr v.secret_ref) (λ r calls.
        Runs-on_result {A = Secret} _ _ r _ _ (λ e h. Runs-pure _ _ _ (λ h. k))
          (λ secret h.
            Runs-on_option {A = String} _ _ (lookup v.secret_ref revisions) _ _
              (λ free.
                check_keys-Keeps vs before (insert v.secret_ref secret.resource_version revisions)
                  (λ ref old l.
                    keeps_version ref v.secret_ref old secret.resource_version revisions free
                      (k ref old l))
                  _)
              (λ old found. Runs-pure _ _ _ (λ q ref kept l.
                compare_version-Keeps v revisions old secret.resource_version q ref kept
                  (k ref kept l)))))

  -- The check returns, and where it reports no change every version recorded before is recorded still.
  pub are_remote_volume_keys_changed-keeps :
      (smartstore : Option SmartStoreSpec) (revisions : Dict String) (s : State S)
      → Runs (are_remote_volume_keys_changed env cr smartstore revisions) s (λ c s'.
        c.changed ≡ false
        → (ref old : String) → lookup ref revisions ≡ some old
        → lookup ref c.revisions ≡ some old)
  unfolding are_remote_volume_keys_changed
  are_remote_volume_keys_changed-keeps none revisions s = Runs-pure _ s _ (λ h ref old l. l)
  are_remote_volume_keys_changed-keeps (some spec) revisions s =
      Runs-if _ s (is_smartstore_configured (some spec)) _ _
        (λ c. check_keys-Keeps (elements spec.vol_list) revisions revisions (λ ref old l. l) s)
        (λ c. Runs-pure _ s _ (λ h ref old l. l))
