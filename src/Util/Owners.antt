-- ===== src/Util/Owners.antt =====
-- The owner references of secrets: SetSecretOwnerRef and RemoveSecretOwnerRef of
-- pkg/splunk/util/secrets.go.
pub mod Counts
pub mod Writes
pub mod Quiet
use infra_devops.Base.{
  ℕ, suc, String, Bool, false, ◌||◌, if◌then◌else◌, Option, none, some, List, [], ◌∷◌, ◌++◌, Err,
  Result, on_result, ltb,
}
use infra_devops.Common.Meta.{MetaObject, as_owner, owner_eq}
use infra_devops.Cluster.{OwnerReference, Secret, Env, M, pure, ◌>>=◌}
use infra_devops.Util.Resource.{fetch_secret, save_secret}

-- The loop removes entry `i` and then goes on at `i + 1` of the shorter slice, so that the entry
-- after a removed one is passed over; it counts the entries that it removes.
unfoldable pub remove_refs : OwnerReference → List OwnerReference → List OwnerReference × ℕ
remove_refs owner [] = ([], 0)
remove_refs owner (r ∷ []) = if owner_eq r owner then ([], 1) else (r ∷ [], 0)
remove_refs owner (r ∷ next ∷ refs) =
    let removed = remove_refs owner refs in
    let kept = remove_refs owner (next ∷ refs) in
    if owner_eq r owner then (next ∷ removed.0, suc removed.1) else (r ∷ kept.0, kept.1)

-- The loop that looks for the owner among the references.
unfoldable pub has_ref : OwnerReference → List OwnerReference → Bool
has_ref owner [] = false
has_ref owner (r ∷ refs) = owner_eq r owner || has_ref owner refs

module _ {S : Type 0} (env : Env) where
  unfoldable pub get_secret_by_name : MetaObject → String → M S (Result Secret)
  get_secret_by_name cr name = fetch_secret env (record { namespace = cr.namespace; name = name })

  unfoldable pub set_secret_owner_ref : String → MetaObject → M S (Option Err)
  unfolding get_secret_by_name has_ref
  set_secret_owner_ref name cr = do
    r ← get_secret_by_name cr name
    on_result r (λ e. pure (some e))
        λ secret. if has_ref (as_owner cr false) secret.owner_references then pure none else do
          u ← save_secret env (record secret {
            owner_references = secret.owner_references ++ as_owner cr false ∷ [];
          })
          pure (on_result u (λ e. some e) (λ _. none))

  -- The reference count and the error.
  unfoldable pub remove_secret_owner_ref : String → MetaObject → M S (ℕ × Option Err)
  unfolding get_secret_by_name remove_refs
  remove_secret_owner_ref name cr = do
    r ← get_secret_by_name cr name
    on_result r (λ e. pure (0, some e))
        λ secret.
          let (refs, count) = remove_refs (as_owner cr false) secret.owner_references in
          if ltb 0 count
          then (do
            u ← save_secret env (record secret { owner_references = refs })
            pure (on_result u (λ e. (0, some e)) (λ _. (count, none))))
          else pure (count, none)
