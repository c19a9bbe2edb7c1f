-- ===== src/Util/Owners/Writes.antt =====
-- What SetSecretOwnerRef writes.
use infra_devops.Base.{false, Bool-cases, String, ◌≡◌, refl, inl, inr}
use infra_devops.Common.Meta.{MetaObject, as_owner}
use infra_devops.Cluster.{Secret, Env, Call, get_secret, update_secret}
use infra_devops.Cluster.Emits.{Emits, Emits-pure, Emits-bind, Emits-ask, Emits-on_result}
use infra_devops.Util.Resource.{fetch_secret, save_secret}
use infra_devops.Util.Owners.{has_ref, get_secret_by_name, set_secret_owner_ref}
use infra_devops.Util.Owners.Counts.{occurrences, once-appended}

module _ (name : String) (cr : MetaObject) where
  -- The reads of the named secret, and the writes of a secret with the resource as an owner once.
  pub OwnedOnce : Call → Type 0
  OwnedOnce (get_secret id) = (id.namespace ≡ cr.namespace) × (id.name ≡ name)
  OwnedOnce (update_secret s) = occurrences (as_owner cr false) s.owner_references ≡ 1
  OwnedOnce _ = ⊥

module _ {S : Type 0} (env : Env) (name : String) (cr : MetaObject) where
  save-OwnedOnce :
      (s : Secret)
      → occurrences (as_owner cr false) s.owner_references ≡ 1
      → Emits {S = S} (OwnedOnce name cr) (save_secret env s)
  unfolding save_secret OwnedOnce
  save-OwnedOnce s h = Emits-bind _ _ (Emits-ask _ _ h) (λ r. Emits-pure _)

  -- SetSecretOwnerRef reads the named secret, and writes a secret only with exactly one reference to
  -- the custom resource; it makes no other call.
  pub set_secret_owner_ref-OwnedOnce :
      Emits {S = S} (OwnedOnce name cr) (set_secret_owner_ref env name cr)
  unfolding set_secret_owner_ref get_secret_by_name fetch_secret OwnedOnce
  set_secret_owner_ref-OwnedOnce = Emits-bind _ _ (Emits-ask _ _ (refl, refl)) (λ r.
      Emits-on_result r _ _ (λ e. Emits-pure _)
        (λ secret. elim (Bool-cases (has_ref (as_owner cr false) secret.owner_references)) [
          | inl b ↦ rw b (Emits-pure _)
          | inr b ↦ rw b (
              Emits-bind _ _ (save-OwnedOnce _ (once-appended _ secret.owner_references b))
                (λ u. Emits-pure _))
        ]))
