-- ===== src/Cluster/Action.antt =====
-- Stateful code: an action on the calls made so far and on the caller's own state `S`, such as the
-- status of a custom resource. `none` is a panic.
use infra_devops.Base.{Option, none, some, ◌∷◌}
use infra_devops.Cluster.Calls.{Call, History}

-- `calls` has the latest call first.
pub record State (S : Type 0) : Type 0 where
  pub own : S
  pub calls : History

abbrev pub M : Type 0 → Type 0 → Type 0
M S A = State S → Option (A × State S)

module _ {S A : Type 0} where
  unfoldable pub pure : A → M S A
  pure a s = some (a, s)

  unfoldable pub panic : M S A
  panic s = none

  -- One call, answered by `answer` from the calls before it.
  unfoldable pub ask : Call → (History → A) → M S A
  ask c answer s = some (answer s.calls, record s { calls = c ∷ s.calls })

  unfoldable pub gets : (S → A) → M S A
  gets f s = some (f s.own, s)

unfoldable pub modify : {S : Type 0} → (S → S) → M S (Unit {0})
modify f s = some (tt, record s { own = f s.own })

module _ {S A B : Type 0} where
  infixl 5 ◌>>=◌ ◌>>◌
  abbrev pub continue : (A → M S B) → Option (A × State S) → Option (B × State S)
  continue f none = none
  continue f (some (a, s)) = f a s

  unfoldable pub ◌>>=◌ : M S A → (A → M S B) → M S B
  ◌>>=◌ m f s = continue f (m s)

  abbrev pub ◌>>◌ : M S A → M S B → M S B
  m >> k = m >>= λ _. k
