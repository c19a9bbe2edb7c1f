-- ===== src/Enterprise/SmartStore/Valid.antt =====
-- What ValidateSplunkSmartstoreSpec accepts.
use infra_devops.Base.{
  ℕ, suc, String, Bool, true, ◌&&◌, str_eq, if◌then◌else◌, Bool-cases, Option, none, some, List, [],
  ◌∷◌, map, Err, on_error, ◌≡◌, ◌≢◌, ◌↔◌, inl, inr, refl, All, length, ltb, ◌==◌, arith, eq_iff,
}
use infra_devops.Base.Text.{◌<>◌}
use infra_devops.Base.Dict.{Dict, lookup, insert}
use infra_devops.Enterprise.SmartStore.{
  VolumeSpec, IndexSpec, SmartStoreSpec, elements, is_smartstore_configured, check_volumes,
  check_reference, check_index, check_indexes, check_configured, validate_splunk_smartstore_spec,
}
use infra_devops.Enterprise.SmartStore.Distinct.{Distinct, NewIn, NewIn-Distinct}
use infra_devops.Enterprise.SmartStore.Volumes.{
  IsComplete, Refers, IsPlaced, volume_name, index_name, index_duplicate, round_iff,
  check_volumes_iff, check_reference_iff,
}

-- The three tests of an index, in their order.
ladder_iff :
    (name own default : String) (a b : Err) (rest : Option Err)
    → ((if str_eq name ""
          then some a
          else if str_eq own "" && str_eq default ""
          then some b
          else rest)
        ≡ none)
      ↔ ((name ≢ "") × (own ≡ "" → default ≢ "") × (rest ≡ none))
ladder_iff name own default a b rest =
    let x = eq_iff name "" in
    let y = eq_iff own "" in
    let z = eq_iff default "" in
    (
      λ h. (
        λ p. ground (arith, h, x, y, z),
        λ p q. ground (arith, h, x, y, z),
        ground (arith, h, x, y, z),
      ),
      λ h. elim (Bool-cases (str_eq own "")) [
        | inl e ↦ let w = h.1 (y.0 e) in ground (arith, h.0, w, h.2, x, z)
        | inr e ↦ ground (arith, h.0, h.2, x, z)
      ],
    )

check_index_iff :
    (vs : List VolumeSpec) (default : String) (i : ℕ) (index : IndexSpec)
    → (check_index vs default i index ≡ none) ↔ IsPlaced vs default index
unfolding check_index
check_index_iff vs default i index =
    let refer =
      check_reference_iff ("Invalid configuration for index: " <> index.name <> ". ") vs
        index.common.vol_name in
    let ladder = ladder_iff index.name index.common.vol_name default _ _ (
      check_reference ("Invalid configuration for index: " <> index.name <> ". ") vs
        index.common.vol_name) in
    (λ h. let p = ladder.0 h in (p.0, p.1, refer.0 p.2), λ h. ladder.1 (h.0, h.1, refer.1 h.2))

check_indexes_iff :
    (vs : List VolumeSpec) (default : String) (indexes : List IndexSpec) (i : ℕ) (seen : Dict Bool)
    → (check_indexes vs default indexes i seen ≡ none)
      ↔ (NewIn seen (map index_name indexes) × All (IsPlaced vs default) indexes)
unfolding check_indexes
check_indexes_iff vs default [] i seen = (λ h. (tt, tt), λ h. refl)
check_indexes_iff vs default (x ∷ xs) i seen =
    let one = check_index_iff vs default i x in
    let ih = check_indexes_iff vs default xs (suc i) (insert x.name true seen) in
    let round =
      round_iff (lookup x.name seen) (index_duplicate x) (check_index vs default i x)
        (check_indexes vs default xs (suc i) (insert x.name true seen)) in
    (
      λ h.
          let parts = round.0 h in
          let tail = ih.0 parts.2 in ((parts.0, tail.0), (one.0 parts.1, tail.1)),
      λ h. round.1 (h.0.0, one.1 h.1.0, ih.1 (h.0.1, h.1.1)),
    )

-- What a specification of volumes, indexes and the default volume must be.
pub record IsSound (vs : List VolumeSpec) (indexes : List IndexSpec) (default : String)
    : Type 0 where
  pub volumes_complete : All IsComplete vs
  pub volumes_distinct : Distinct (map volume_name vs)
  pub default_exists : Refers vs default
  pub indexes_placed : All (IsPlaced vs default) indexes
  pub indexes_distinct : Distinct (map index_name indexes)

-- Two checks in sequence.
sequence_iff : (a b : Option Err) → (on_error a (λ e. some e) b ≡ none) ↔ ((a ≡ none) × (b ≡ none))
sequence_iff none b = (λ h. (refl, h), λ h. h.1)
sequence_iff (some e) b = (λ h. absurd (cc h), λ h. absurd (cc h.0))

-- Without a volume no index is placed.
no_volume :
    (index : IndexSpec) (default : String) → Refers [] default → IsPlaced [] default index → ⊥
no_volume index default r (named, chosen, own) =
    let unset : index.common.vol_name ≢ "" → ⊥ = λ n. let (i, v, at, same) = own n in cc at in
    elim (Bool-cases (str_eq index.common.vol_name "")) [
      | inl e ↦ let (i, v, at, same) = r (chosen ((eq_iff index.common.vol_name "").0 e)) in cc at
      | inr e ↦ unset (λ q. absurd (cc (e, (eq_iff index.common.vol_name "").1 q)))
    ]

-- Indexes without a volume are refused, and cannot be sound.
counts_iff :
    (vs : List VolumeSpec) (indexes : List IndexSpec) (default : String) (e : Err)
    (rest : Option Err)
    → ((rest ≡ none) ↔ IsSound vs indexes default)
    → ((if ltb 0 (length indexes) && (length vs == 0) then some e else rest) ≡ none)
      ↔ IsSound vs indexes default
counts_iff [] [] default e rest h =
    (λ k. h.0 (ground (arith, k)), λ k. let r = h.1 k in ground (arith, r))
counts_iff [] (x ∷ xs) default e rest h = (
  λ k. absurd (ground (arith, k)),
  λ k. absurd (no_volume x default k.default_exists k.indexes_placed.0),
)
counts_iff (v ∷ vs) indexes default e rest h =
    (λ k. h.0 (ground (arith, k)), λ k. let r = h.1 k in ground (arith, r))

checks_iff :
    (vs : List VolumeSpec) (indexes : List IndexSpec) (default : String)
    → (on_error
          (check_volumes vs 0 [])
          (λ e. some e)
          (on_error
            (check_reference "Invalid configuration for defaults volume. " vs default)
            (λ e. some e)
            (check_indexes vs default indexes 0 []))
        ≡ none)
      ↔ IsSound vs indexes default
checks_iff vs indexes default =
    let a = check_volumes_iff vs 0 [] in
    let b = check_reference_iff "Invalid configuration for defaults volume. " vs default in
    let c = check_indexes_iff vs default indexes 0 [] in
    let first = NewIn-Distinct (map volume_name vs) in
    let second = NewIn-Distinct (map index_name indexes) in
    let inner =
      sequence_iff (check_reference "Invalid configuration for defaults volume. " vs default)
        (check_indexes vs default indexes 0 []) in
    let outer = sequence_iff (check_volumes vs 0 []) (
      on_error (check_reference "Invalid configuration for defaults volume. " vs default)
        (λ e. some e) (check_indexes vs default indexes 0 [])) in
    (
      λ h.
          let p = outer.0 h in
          let q = inner.0 p.1 in
          let x = a.0 p.0 in
          let y = c.0 q.1 in
          record {
            volumes_complete = x.1;
            volumes_distinct = first.0 x.0;
            default_exists = b.0 q.0;
            indexes_placed = y.1;
            indexes_distinct = second.0 y.0;
          },
      λ s. outer.1 (
        a.1 (first.1 s.volumes_distinct, s.volumes_complete),
        inner.1 (b.1 s.default_exists, c.1 (second.1 s.indexes_distinct, s.indexes_placed)),
      ),
    )

-- A specification with SmartStore configured is accepted just where every volume has all its fields,
-- volume names and index names differ, the default volume exists, and every index has a name and
-- a volume that exists.
pub validate_splunk_smartstore_spec-IsSound :
    (s : SmartStoreSpec)
    → is_smartstore_configured (some s) ≡ true
    → (validate_splunk_smartstore_spec (some s) ≡ none)
      ↔ IsSound (elements s.vol_list) (elements s.index_list) s.defaults.vol_name
unfolding validate_splunk_smartstore_spec check_configured
validate_splunk_smartstore_spec-IsSound s h = rw h (
    counts_iff (elements s.vol_list) (elements s.index_list) s.defaults.vol_name _ _
      (checks_iff (elements s.vol_list) (elements s.index_list) s.defaults.vol_name))
