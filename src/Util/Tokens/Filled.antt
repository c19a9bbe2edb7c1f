-- ===== src/Util/Tokens/Filled.antt =====
-- The tokens after the missing ones are generated.
use infra_devops.Base.{
  Bool, true, false, Bool-cases, String, eq_iff, Option, none, some, List, [], ◌∷◌, All, ◌≡◌, refl,
  arith, inl, inr,
}
use infra_devops.Base.Dict.{Dict, lookup, insert, lookup-insert, is_some}
use infra_devops.Cluster.{Env}
use infra_devops.Cluster.Yields.{Yields, Yields-pure, Yields-bind}
use infra_devops.Util.Tokens.{fill_tokens}

-- Every entry of `m` is in `m'` with the same value.
abbrev pub Keeps : Dict String → Dict String → Type 0
Keeps m m' = (k v : String) → lookup k m ≡ some v → lookup k m' ≡ some v

has-Keeps :
    (t : String) (m m' : Dict String)
    → Keeps m m'
    → is_some (lookup t m) ≡ true
    → is_some (lookup t m') ≡ true
has-Keeps t m m' keeps h = by_value (lookup t m) refl h
  where
    by_value :
        (o : Option String) → lookup t m ≡ o → is_some o ≡ true → is_some (lookup t m') ≡ true
    by_value none e k = absurd (cc)
    by_value (some v) e k = rw (keeps t v e) refl

insert-Keeps :
    (t new : String) (m : Dict String) → is_some (lookup t m) ≡ false → Keeps m (insert t new m)
insert-Keeps t new m h k v e = ground (arith, lookup-insert t k new m, eq_iff t k)

has-insert : (t new : String) (m : Dict String) → is_some (lookup t (insert t new m)) ≡ true
has-insert t new m = ground (arith, lookup-insert t t new m, eq_iff t t)

-- What the loop returns of the data `m`.
pub Filled : List String → Bool → Dict String → Dict String × Bool → Type 0
Filled types updated m r =
    All (λ t. is_some (lookup t r.0) ≡ true) types
    × Keeps m r.0
    × (updated ≡ true → r.1 ≡ true)
    × (r.1 ≡ false → r.0 ≡ m)

module _ {S : Type 0} (env : Env) where
  -- The loop over the token types returns data in which each of them has a value and every entry that
  -- was there has the value that it had; it reports no update only where the data are unchanged, and
  -- an update that was reported before it is still reported.
  pub fill_tokens-Filled :
      (types : List String) (updated : Bool) (m : Dict String)
      → Yields {S = S} (Filled types updated m) (fill_tokens env types updated m)
  unfolding fill_tokens Filled
  fill_tokens-Filled [] updated m = Yields-pure _ _ (tt, λ k v e. e, λ h. h, λ h. refl)
  fill_tokens-Filled (t ∷ types) updated m = elim (Bool-cases (is_some (lookup t m))) [
    | inl b ↦ rw b (record {
      yielded = λ s s' r h.
          let (all, keeps, still, same) = (fill_tokens-Filled types updated m).yielded s s' r h in
          ((has-Keeps t m r.0 keeps b, all), keeps, still, same);
    })
    | inr b ↦ rw b (
        Yields-bind _ _ _ (λ new. record {
          yielded = λ s s' r h.
              let (all, keeps, still, same) =
                (fill_tokens-Filled types true (insert t new m)).yielded s s' r h in
              (
                (has-Keeps t _ r.0 keeps (has-insert t new m), all),
                λ k v e. keeps k v (insert-Keeps t new m b k v e),
                λ u. still refl,
                λ u. absurd (let x = still refl in cc),
              );
        }))
  ]
