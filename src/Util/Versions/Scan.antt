-- ===== src/Util/Versions/Scan.antt =====
-- What the loop over the secrets finds.
use infra_devops.Base.{
  Bool, true, false, Bool-cases, String, List, [], ◌∷◌, All, Result, ok, err, on_result, ◌≡◌, refl,
  sym, ap, ◌∙◌, ◌⊎◌, inl, inr, ◌≤◌, ◌+◌, ℕ, arith,
}
use infra_devops.Base.Int.{ℤ, pos, negsuc, ltb_ℤ, eqb_ℤ, eqb_ℤ-eq}
use infra_devops.Cluster.{Secret}
use infra_devops.Util.Versions.{
  get_versioned_secret_version, Latest, put_version, note_version, scan_secrets, is_unwanted,
}

-- The name of the secret has the version.
abbrev pub Versioned : String → ℤ → Secret → Type 0
Versioned identifier v s = get_versioned_secret_version s.id.name identifier ≡ ok v

-- One of the secrets has the version.
abbrev pub SomeVersioned : String → ℤ → List Secret → Type 0
SomeVersioned identifier v [] = ⊥
SomeVersioned identifier v (s ∷ rest) = Versioned identifier v s ⊎ SomeVersioned identifier v rest

abbrev pub Entry : String → ℤ × Secret → Type 0
Entry identifier e = Versioned identifier e.0 e.1

pub is_unwanted-le :
    (latest version : ℤ)
    → is_unwanted latest version ≡ true
    → (l : ℕ) × (v : ℕ) × (latest ≡ pos l) × (version ≡ pos v) × (v + 3 ≤ l)
unfolding is_unwanted
is_unwanted-le (pos l) (pos v) h = (l, v, refl, refl, ground arith)
is_unwanted-le (pos l) (negsuc v) h = absurd (cc)
is_unwanted-le (negsuc l) version h = absurd (cc)

module _ (identifier : String) where
  put_version-Entry :
      (v : ℤ) (s : Secret) (m : List (ℤ × Secret))
      → Versioned identifier v s
      → All (Entry identifier) m
      → All (Entry identifier) (put_version v s m)
  unfolding put_version
  put_version-Entry v s [] h all = (h, tt)
  put_version-Entry v s ((w, t) ∷ m) h (p, all) = elim (Bool-cases (eqb_ℤ v w)) [
    | inl e ↦ rw e (h ∙ ap ok (eqb_ℤ-eq v w e), all)
    | inr e ↦ rw e (p, put_version-Entry v s m h all)
  ]

  -- The entries found have the versions of their names.
  Sound : Latest → Type 0
  Sound acc = All (Entry identifier) acc.found

  note-Sound :
      (list : Bool) (acc : Latest) (v : ℤ) (s : Secret)
      → Versioned identifier v s
      → Sound acc
      → Sound (note_version list acc v s)
  unfolding note_version Sound
  note-Sound true acc v s h all = elim (Bool-cases (ltb_ℤ acc.version v)) [
    | inl e ↦ rw e (put_version-Entry v s acc.found h all)
    | inr e ↦ rw e (put_version-Entry v s acc.found h all)
  ]
  note-Sound false acc v s h all = elim (Bool-cases (ltb_ℤ acc.version v)) [
    | inl e ↦ rw e all
    | inr e ↦ rw e all
  ]

  note-version :
      (list : Bool) (acc : Latest) (v : ℤ) (s : Secret)
      → ((note_version list acc v s).version ≡ acc.version)
        ⊎ ((note_version list acc v s).version ≡ v)
  unfolding note_version
  note-version list acc v s = elim (Bool-cases (ltb_ℤ acc.version v)) [
    | inl e ↦ rw e (inr refl)
    | inr e ↦ rw e (inl refl)
  ]

  -- The round of the loop for the secret `s`.
  abbrev round : Bool → Latest → Secret → Result ℤ → Latest
  round list acc s r = on_result r (λ _. acc) (λ v. note_version list acc v s)

  round-Sound :
      (list : Bool) (acc : Latest) (s : Secret) (r : Result ℤ)
      → get_versioned_secret_version s.id.name identifier ≡ r
      → Sound acc
      → Sound (round list acc s r)
  round-Sound list acc s (ok v) e all = note-Sound list acc v s e all
  round-Sound list acc s (err x) e all = all

  round-version :
      (list : Bool) (acc : Latest) (s : Secret) (r : Result ℤ)
      → get_versioned_secret_version s.id.name identifier ≡ r
      → ((round list acc s r).version ≡ acc.version)
        ⊎ Versioned identifier (round list acc s r).version s
  round-version list acc s (err x) e = inl refl
  round-version list acc s (ok v) e = elim (note-version list acc v s) [
    | inl q ↦ inl q
    | inr q ↦ inr (e ∙ sym (ap ok q))
  ]

  pub scan-Sound :
      (list : Bool) (items : List Secret) (acc : Latest)
      → All (Entry identifier) acc.found
      → All (Entry identifier) (scan_secrets identifier list acc items).found
  unfolding scan_secrets Sound
  scan-Sound list [] acc all = all
  scan-Sound list (s ∷ rest) acc all =
      let r = get_versioned_secret_version s.id.name identifier in
      scan-Sound list rest (round list acc s r) (round-Sound list acc s r refl all)

  pub scan-version :
      (list : Bool) (items : List Secret) (acc : Latest)
      → ((scan_secrets identifier list acc items).version ≡ acc.version)
        ⊎ SomeVersioned identifier (scan_secrets identifier list acc items).version items
  unfolding scan_secrets
  scan-version list [] acc = inl refl
  scan-version list (s ∷ rest) acc =
      let r = get_versioned_secret_version s.id.name identifier in
      elim (scan-version list rest (round list acc s r)) [
        | inr p ↦ inr (inr p)
        | inl p ↦ elim (round-version list acc s r refl) [
          | inl q ↦ inl (p ∙ q)
          | inr q ↦ inr (inl (q ∙ ap ok (sym p)))
        ]
      ]
