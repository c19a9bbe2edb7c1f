-- ===== src/Enterprise/SmartStore/Volumes.antt =====
-- What the checks of volumes and of references to them accept.
use infra_devops.Base.{
  ℕ, zero, suc, String, Bool, true, str_eq, if◌then◌else◌, Bool-cases, Option, none, some, List, [],
  ◌∷◌, map, message, Result, ok, err, Err, on_error, on_result, ◌≡◌, ◌≢◌, ◌↔◌, inl, inr, refl, All,
  get_elem?, arith, eq_iff, error_text,
}
use infra_devops.Base.Text.{◌<>◌}
use infra_devops.Base.Dict.{Dict, lookup, insert, is_some}
use infra_devops.Enterprise.SmartStore.{
  VolumeSpec, IndexSpec, check_if_volume_exists, volume_from, check_volume, check_volumes,
  check_reference,
}
use infra_devops.Enterprise.SmartStore.Distinct.{NewIn}

-- Every field of a volume is set.
abbrev pub IsComplete : VolumeSpec → Type 0
IsComplete v = (v.name ≢ "") × (v.endpoint ≢ "") × (v.path ≢ "") × (v.secret_ref ≢ "")

-- Some volume has the name.
abbrev pub Names : List VolumeSpec → String → Type 0
Names vs name = (i : ℕ) × (v : VolumeSpec) × (get_elem? vs i ≡ some v) × (v.name ≡ name)

-- A name that is set is that of a volume.
abbrev pub Refers : List VolumeSpec → String → Type 0
Refers vs name = name ≢ "" → Names vs name

-- An index has a name and a volume, its own or the default, which exists.
abbrev pub IsPlaced : List VolumeSpec → String → IndexSpec → Type 0
IsPlaced vs default index =
    (index.name ≢ "")
    × (index.common.vol_name ≡ "" → default ≢ "")
    × Refers vs index.common.vol_name

abbrev pub volume_name : VolumeSpec → String
volume_name v = v.name

abbrev pub index_name : IndexSpec → String
index_name i = i.name

check_volume_iff : (i : ℕ) (v : VolumeSpec) → (check_volume i v ≡ none) ↔ IsComplete v
unfolding check_volume
check_volume_iff i v =
    let a = eq_iff v.name "" in
    let b = eq_iff v.endpoint "" in
    let c = eq_iff v.path "" in let d = eq_iff v.secret_ref "" in ground (arith, a, b, c, d)

abbrev volume_duplicate : VolumeSpec → Err
volume_duplicate v = message (
    "Duplicate volume name detected: " <> v.name
    <> ". Remove the duplicate entry and reapply the configuration")

abbrev pub index_duplicate : IndexSpec → Err
index_duplicate i = message (
    "Duplicate index name detected: " <> i.name
    <> ".Remove the duplicate entry and reapply the configuration")

-- One round of a loop with a duplicate check, which goes on with `rest`.
pub round_iff :
    (o : Option Bool) (duplicate : Err) (own rest : Option Err)
    → ((if is_some o then some duplicate else on_error own (λ e. some e) rest) ≡ none)
      ↔ ((o ≡ none) × (own ≡ none) × (rest ≡ none))
round_iff none duplicate none none = ground arith
round_iff none duplicate none (some e) = ground arith
round_iff none duplicate (some e) rest = ground arith
round_iff (some b) duplicate own rest = ground arith

pub check_volumes_iff :
    (vs : List VolumeSpec) (i : ℕ) (seen : Dict Bool)
    → (check_volumes vs i seen ≡ none) ↔ (NewIn seen (map volume_name vs) × All IsComplete vs)
unfolding check_volumes
check_volumes_iff [] i seen = (λ h. (tt, tt), λ h. refl)
check_volumes_iff (v ∷ vs) i seen =
    let one = check_volume_iff i v in
    let ih = check_volumes_iff vs (suc i) (insert v.name true seen) in
    let round =
      round_iff (lookup v.name seen) (volume_duplicate v) (check_volume i v)
        (check_volumes vs (suc i) (insert v.name true seen)) in
    (
      λ h.
          let parts = round.0 h in
          let tail = ih.0 parts.2 in ((parts.0, tail.0), (one.0 parts.1, tail.1)),
      λ h. round.1 (h.0.0, one.1 h.1.0, ih.1 (h.0.1, h.1.1)),
    )

-- The search succeeds just where a volume has the name.
volume_from_found :
    (vs : List VolumeSpec) (i : ℕ) (name : String) (k : ℕ)
    → volume_from vs i name ≡ ok k
    → Names vs name
unfolding volume_from
volume_from_found [] i name k h = absurd (cc h)
volume_from_found (v ∷ vs) i name k h = elim (Bool-cases (str_eq v.name name)) [
  | inl e ↦ (0, v, refl, (eq_iff v.name name).0 e)
  | inr e ↦
      let found = volume_from_found vs (suc i) name k (rw e at h) in
      (suc found.0, found.1, found.2, found.3)
]

volume_from_finds :
    (vs : List VolumeSpec) (i j : ℕ) (v : VolumeSpec)
    → get_elem? vs j ≡ some v
    → (k : ℕ) × (volume_from vs i v.name ≡ ok k)
unfolding volume_from
volume_from_finds [] i j v h = absurd (cc h)
volume_from_finds (w ∷ vs) i zero v h = elim (Bool-cases (str_eq w.name v.name)) [
  | inl e ↦ (i, rw e refl)
  | inr e ↦ let same = eq_iff w.name v.name in absurd (ground (arith, h, e, same))
]
volume_from_finds (w ∷ vs) i (suc j) v h = elim (Bool-cases (str_eq w.name v.name)) [
  | inl e ↦ (i, rw e refl)
  | inr e ↦ rw e (volume_from_finds vs (suc i) j v h)
]

-- A result that is only tested for its error.
tested :
    (r : Result ℕ) (f : Err → Err)
    → (on_result r (λ e. some (f e)) (λ _. none) ≡ none) ↔ ((k : ℕ) × (r ≡ ok k))
tested (ok k) f = (λ h. (k, refl), λ h. refl)
tested (err e) f = (λ h. absurd (cc h), λ h. absurd (cc h.1))

pub check_reference_iff :
    (text : String) (vs : List VolumeSpec) (name : String)
    → (check_reference text vs name ≡ none) ↔ Refers vs name
unfolding check_reference check_if_volume_exists
check_reference_iff text vs name = elim (Bool-cases (str_eq name "")) [
  | inl e ↦ rw e (λ h n. absurd (n ((eq_iff name "").0 e)), λ h. refl)
  | inr e ↦ rw e (
      let t = tested (volume_from vs 0 name) (λ e. message (text <> error_text e)) in
      (
        λ h n. let (k, f) = t.0 h in volume_from_found vs 0 name k f,
        λ h.
            let (i, v, at, same) = h (λ q. absurd (cc (e, (eq_iff name "").1 q))) in
            t.1 (rw same at (volume_from_finds vs 0 i v at)),
      ))
]
