-- ===== src/Util/Secrets/Removal.antt =====
-- Which secrets RemoveUnwantedSecrets deletes.
use infra_devops.Base.{
  ℕ, ◌+◌, ◌≤◌, true, Bool-cases, String, List, [], ◌∷◌, All, Result, ok, err, on_result, ◌≡◌, refl,
  ap, ◌∙◌, ◌⊎◌, inl, inr,
}
use infra_devops.Base.Int.{ℤ, pos}
use infra_devops.Cluster.{Secret, Env, Call, History, list_secrets, delete_secret}
use infra_devops.Cluster.Emits.{Emits, Emits-pure, Emits-if, Emits-bind, Emits-ask, Emits-on_error}
use infra_devops.Cluster.Yields.{Yields, Yields-pure, Yields-then, Yields-ask, Emits-then}
use mathlib.Core.Path.{subst}
use infra_devops.Util.Resource.{remove_secret}
use infra_devops.Util.Versions.{Latest, no_version, scan_secrets, is_unwanted}
use infra_devops.Util.Versions.Scan.{
  Versioned, SomeVersioned, Entry, is_unwanted-le, scan-Sound, scan-version,
}
use infra_devops.Util.Secrets.{
  delete_unwanted, get_existing_latest_versioned_secret, remove_unwanted_secrets,
}

module _ (env : Env) (identifier namespace : String) where
  -- A version of the identifier that is at least three below one of the namespace's secrets.
  abbrev Outdated : Secret → Type 0
  Outdated s =
      (h : History) × (items : List Secret) × (env.secrets_in h namespace ≡ ok items)
      × (v : ℕ) × (newer : ℕ) × Versioned identifier (pos v) s
      × SomeVersioned identifier (pos newer) items
      × (v + 3 ≤ newer)

  -- What the calls may be.
  pub DeletesOutdated : Call → Type 0
  DeletesOutdated (delete_secret s) = Outdated s
  DeletesOutdated (list_secrets ns) = ns ≡ namespace
  DeletesOutdated _ = ⊥

  -- What the scan of a listing returns.
  Scanned : Latest → Type 0
  Scanned latest =
      (latest ≡ no_version)
      ⊎ ((h : History) × (items : List Secret) × (env.secrets_in h namespace ≡ ok items)
          × (latest ≡ scan_secrets identifier true no_version items))

  scan-Scanned :
      (r : Result (List Secret))
      → (h : History) × (env.secrets_in h namespace ≡ r)
      → Scanned
          (on_result r (λ _. no_version) (λ items. scan_secrets identifier true no_version items))
  unfolding Scanned
  scan-Scanned (ok items) (h, e) = inr (h, items, e, refl)
  scan-Scanned (err x) (h, e) = inl refl

  module _ {S : Type 0} where
    remove_secret_once :
        (s : Secret) → Outdated s → Emits {S = S} DeletesOutdated (remove_secret env s)
    unfolding remove_secret DeletesOutdated
    remove_secret_once s o = Emits-bind _ _ (Emits-ask _ _ o) (λ e. Emits-pure _)

    delete-DeletesOutdated :
        (h : History) (items : List Secret)
        → env.secrets_in h namespace ≡ ok items
        → (latest : ℤ)
        → ((newer : ℕ) → latest ≡ pos newer → SomeVersioned identifier (pos newer) items)
        → (found : List (ℤ × Secret)) → All (Entry identifier) found
        → Emits {S = S} DeletesOutdated (delete_unwanted env latest found)
    unfolding delete_unwanted DeletesOutdated
    delete-DeletesOutdated h items e latest known [] all = Emits-pure _
    delete-DeletesOutdated h items e latest known ((version, s) ∷ rest) (p, all) =
        let later = delete-DeletesOutdated h items e latest known rest all in
        elim (Bool-cases (is_unwanted latest version)) [
          | inr b ↦ rw b later
          | inl b ↦ rw b (
              let (l, v, el, ev, le) = is_unwanted-le latest version b in
              let old : Versioned identifier (pos v) s = p ∙ ap ok ev in
              Emits-bind _ _ (remove_secret_once s (h, items, e, v, l, old, known l el, le))
                (λ d. Emits-on_error d _ _ (λ x. Emits-pure _) later))
        ]

    latest-Scanned :
        Yields {S = S} Scanned (get_existing_latest_versioned_secret env namespace identifier true)
    unfolding get_existing_latest_versioned_secret
    latest-Scanned =
        Yields-then (λ r. (h : History) × (env.secrets_in h namespace ≡ r)) _ _ _
          (Yields-ask _ _ _ (λ h. (h, refl))) (λ r known. Yields-pure _ _ (scan-Scanned r known))

    latest-DeletesOutdated :
        Emits {S = S} DeletesOutdated
          (get_existing_latest_versioned_secret env namespace identifier true)
    unfolding get_existing_latest_versioned_secret DeletesOutdated
    latest-DeletesOutdated = Emits-bind _ _ (Emits-ask _ _ refl) (λ r. Emits-pure _)

    delete-Scanned :
        (latest : Latest)
        → Scanned latest
        → Emits {S = S} DeletesOutdated (delete_unwanted env latest.version latest.found)
    unfolding Scanned delete_unwanted
    delete-Scanned latest (inl e) = rw e (Emits-pure _)
    delete-Scanned latest (inr (h, items, e, q)) = rw q (
        delete-DeletesOutdated h items e _
          (λ newer k. elim (scan-version identifier true items no_version) [
            | inl p ↦ absurd (cc)
            | inr p ↦ subst (λ v. SomeVersioned identifier v items) k p
          ])
          _ (scan-Sound identifier true items no_version tt))

    -- RemoveUnwantedSecrets lists the secrets of its own namespace, and makes no other call than to
    -- delete secrets whose name has a version of its identifier that is at least three below that
    -- of a secret listed.
    pub remove_unwanted_secrets-outdated :
        Emits {S = S} DeletesOutdated (remove_unwanted_secrets env identifier namespace)
    unfolding remove_unwanted_secrets
    remove_unwanted_secrets-outdated =
        Emits-then Scanned _ _ _ latest-Scanned latest-DeletesOutdated (λ latest known.
          Emits-if _ _ _ (Emits-pure _)
            (Emits-if _ _ _ (delete-Scanned latest known) (Emits-pure _)))
