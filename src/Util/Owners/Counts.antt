-- ===== src/Util/Owners/Counts.antt =====
-- How often an owner is among the references of a secret.
use infra_devops.Base.{
  ◌++◌, ℕ, suc, ◌+◌, ◌≤◌, false, if◌then◌else◌, List, [], ◌∷◌, ◌≡◌, refl, arith,
}
use infra_devops.Common.Meta.{owner_eq, owner_eq_iff}
use infra_devops.Cluster.{OwnerReference}
use infra_devops.Util.Owners.{remove_refs, has_ref}

abbrev pub occurrences : OwnerReference → List OwnerReference → ℕ
occurrences owner [] = 0
occurrences owner (r ∷ refs) =
    let rest = occurrences owner refs in if owner_eq r owner then suc rest else rest

module _ (owner : OwnerReference) where
  -- Every entry of the owner is kept or counted.
  balance :
      (refs : List OwnerReference)
      → occurrences owner (remove_refs owner refs).0 + (remove_refs owner refs).1
        ≡ occurrences owner refs
  unfolding remove_refs
  balance [] = refl
  balance (r ∷ []) = ground arith
  balance (r ∷ next ∷ refs) = ground (arith, balance refs, balance (next ∷ refs))

  counted :
      (refs : List OwnerReference) → 1 ≤ occurrences owner refs → 1 ≤ (remove_refs owner refs).1
  unfolding remove_refs
  counted [] h = absurd (omega (arith, h))
  counted (r ∷ []) h = ground arith
  counted (r ∷ next ∷ refs) h = ground (arith, counted (next ∷ refs))

  -- An owner that is at most once among the references of a secret is not among those that
  -- RemoveSecretOwnerRef leaves, and the count that is returned is the number of its entries.
  pub remove_refs-occurrences :
      (refs : List OwnerReference)
      → occurrences owner refs ≤ 1
      → (occurrences owner (remove_refs owner refs).0 ≡ 0)
        × ((remove_refs owner refs).1 ≡ occurrences owner refs)
  remove_refs-occurrences refs h =
      let b = balance refs in let c = counted refs in (ground (arith, b, c), ground (arith, b, c))

  has_ref-occurrences :
      (refs : List OwnerReference) → has_ref owner refs ≡ false → occurrences owner refs ≡ 0
  unfolding has_ref
  has_ref-occurrences [] h = refl
  has_ref-occurrences (r ∷ refs) h = ground (arith, has_ref-occurrences refs)

  occurrences-append :
      (xs ys : List OwnerReference)
      → occurrences owner (xs ++ ys) ≡ occurrences owner xs + occurrences owner ys
  occurrences-append [] ys = omega arith
  occurrences-append (x ∷ xs) ys = ground (arith, occurrences-append xs ys)

  -- An owner that is not found is appended as the only entry.
  pub once-appended :
      (refs : List OwnerReference)
      → has_ref owner refs ≡ false
      → occurrences owner (refs ++ owner ∷ []) ≡ 1
  once-appended refs h =
      let absent = has_ref-occurrences refs h in
      let sum = occurrences-append refs (owner ∷ []) in
      ground (arith, absent, sum, owner_eq_iff owner owner)
