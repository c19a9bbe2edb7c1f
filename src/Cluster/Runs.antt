-- ===== src/Cluster/Runs.antt =====
-- Total correctness: an action returns, and what it returns satisfies a condition. There is a rule for
-- each way to build an action.
use infra_devops.Base.{
  Bool, true, false, if◌then◌else◌, Option, none, some, Err, Result, ok, err, on_error, on_result,
  on_option, ◌∷◌, ◌≡◌, ◌≢◌, ◌∙◌, refl,
}
use mathlib.Core.Path.{subst}
use infra_devops.Cluster.Calls.{Call, History}
use infra_devops.Cluster.Action.{State, M, pure, ask, gets, modify, ◌>>=◌}

abbrev After : {S A : Type 0} → (A → State S → Type 0) → Option (A × State S) → Type 0
After P none = ⊥
After P (some (a, s)) = P a s

-- From `s`, `m` returns a value and a state with `P`.
pub record Runs {S A : Type 0} (m : M S A) (s : State S) (P : A → State S → Type 0) : Type 0 where
  pub after : After P (m s)

-- The value, the state and the equation of a run.
pub returned :
    {S A : Type 0} {P : A → State S → Type 0} (m : M S A) (s : State S)
    → Runs m s P
    → (a : A) × (s' : State S) × (m s ≡ some (a, s')) × P a s'
returned {S} {A} {P} m s r = go (m s) refl r.after
  where
    go :
        (o : Option (A × State S))
        → m s ≡ o
        → After P o
        → (a : A) × (s' : State S) × (m s ≡ some (a, s')) × P a s'
    go none e h = absurd h
    go (some (a, s')) e h = (a, s', e, h)

-- It does not panic.
pub Runs-ne_none :
    {S A : Type 0} {P : A → State S → Type 0} (m : M S A) (s : State S) → Runs m s P → m s ≢ none
Runs-ne_none m s r h = let (a, s', e, p) = returned m s r in absurd (cc (e, h))

-- What holds after a run holds of every result.
pub result-Runs :
    {S A : Type 0} {P : A → State S → Type 0} (m : M S A) (s s' : State S) (a : A)
    → Runs m s P
    → m s ≡ some (a, s')
    → P a s'
result-Runs {S} {A} {P} m s s' a r e = subst (After P) e r.after

module _ {S A : Type 0} (P : A → State S → Type 0) (s : State S) where
  pub Runs-pure : (a : A) → P a s → Runs (pure a) s P
  unfolding pure
  Runs-pure a h = record { after = h }

  pub Runs-ask :
      (c : Call) (f : History → A)
      → P (f s.calls) (record s { calls = c ∷ s.calls })
      → Runs (ask c f) s P
  unfolding ask
  Runs-ask c f h = record { after = h }

  pub Runs-gets : (f : S → A) → P (f s.own) s → Runs (gets f) s P
  unfolding gets
  Runs-gets f h = record { after = h }

  -- A branch may use its test.
  pub Runs-if :
      (b : Bool) (m n : M S A)
      → (b ≡ true → Runs m s P)
      → (b ≡ false → Runs n s P)
      → Runs (if b then m else n) s P
  Runs-if true m n hm hn = hm refl
  Runs-if false m n hm hn = hn refl

  pub Runs-on_error :
      (e : Option Err) (f : Err → M S A) (m : M S A)
      → ((x : Err) → e ≡ some x → Runs (f x) s P)
      → (e ≡ none → Runs m s P)
      → Runs (on_error e f m) s P
  Runs-on_error none f m hf hm = hm refl
  Runs-on_error (some x) f m hf hm = hf x refl

pub Runs-modify :
    {S : Type 0} (P : Unit {0} → State S → Type 0) (s : State S) (f : S → S)
    → P tt (record s { own = f s.own })
    → Runs (modify f) s P
unfolding modify
Runs-modify P s f h = record { after = h }

module _ {S A B : Type 0} (P : B → State S → Type 0) (s : State S) where
  pub Runs-bind :
      (m : M S A) (f : A → M S B) → Runs m s (λ a s'. Runs (f a) s' P) → Runs (m >>= f) s P
  unfolding ◌>>=◌
  Runs-bind m f r = go (m s) refl r.after
    where
      go :
          (o : Option (A × State S))
          → m s ≡ o
          → After (λ a s'. Runs (f a) s' P) o
          → Runs (m >>= f) s P
      go none e h = absurd h
      go (some (a, s')) e h = record { after = rw e h.after }

  pub Runs-on_result :
      (r : Result A) (f : Err → M S B) (g : A → M S B)
      → ((x : Err) → r ≡ err x → Runs (f x) s P)
      → ((a : A) → r ≡ ok a → Runs (g a) s P)
      → Runs (on_result r f g) s P
  Runs-on_result (ok a) f g hf hg = hg a refl
  Runs-on_result (err x) f g hf hg = hf x refl

  pub Runs-on_option :
      (o : Option A) (m : M S B) (g : A → M S B)
      → (o ≡ none → Runs m s P)
      → ((a : A) → o ≡ some a → Runs (g a) s P)
      → Runs (on_option o m g) s P
  Runs-on_option none m g hm hg = hm refl
  Runs-on_option (some a) m g hm hg = hg a refl

-- A weaker condition.
pub Runs-weaken :
    {S A : Type 0} (P Q : A → State S → Type 0) (m : M S A) (s : State S)
    → Runs m s P
    → ((a : A) (s' : State S) → P a s' → Q a s')
    → Runs m s Q
Runs-weaken P Q m s r w = let (a, s', e, p) = returned m s r in record { after = rw e (w a s' p) }

-- A condition that every result has.
pub Runs-also :
    {S A : Type 0} (P Q : A → State S → Type 0) (m : M S A) (s : State S)
    → Runs m s P
    → ((a : A) (s' : State S) → m s ≡ some (a, s') → Q a s')
    → Runs m s (λ a s'. P a s' × Q a s')
Runs-also P Q m s r q = let (a, s', e, p) = returned m s r in record { after = rw e (p, q a s' e) }

-- `m` returns and leaves the caller's own state alone.
pub record Still {S A : Type 0} (m : M S A) : Type 0 where
  pub still : (s : State S) → Runs m s (λ a s'. s'.own ≡ s.own)

module _ {S A : Type 0} where
  pub Still-pure : (a : A) → Still {S = S} (pure a)
  Still-pure a = record { still = λ s. Runs-pure _ s a refl }

  pub Still-ask : (c : Call) (f : History → A) → Still {S = S} (ask c f)
  Still-ask c f = record { still = λ s. Runs-ask _ s c f refl }

  pub Still-gets : (f : S → A) → Still (gets f)
  Still-gets f = record { still = λ s. Runs-gets _ s f refl }

  pub Still-if : (b : Bool) (m n : M S A) → Still m → Still n → Still (if b then m else n)
  Still-if true m n hm hn = hm
  Still-if false m n hm hn = hn

  pub Still-on_error :
      (e : Option Err) (f : Err → M S A) (m : M S A)
      → ((x : Err) → Still (f x))
      → Still m
      → Still (on_error e f m)
  Still-on_error none f m hf hm = hm
  Still-on_error (some x) f m hf hm = hf x

module _ {S A B : Type 0} where
  pub Still-bind : (m : M S A) (f : A → M S B) → Still m → ((a : A) → Still (f a)) → Still (m >>= f)
  Still-bind m f hm hf = record {
    still = λ s. Runs-bind _ s m f (
        Runs-weaken _ _ m s (hm.still s)
          (λ a s' e. Runs-weaken _ _ (f a) s' ((hf a).still s') (λ b s'' q. q ∙ e)));
  }

  pub Still-on_result :
      (r : Result A) (f : Err → M S B) (g : A → M S B)
      → ((x : Err) → Still (f x))
      → ((a : A) → Still (g a))
      → Still (on_result r f g)
  Still-on_result (ok a) f g hf hg = hg a
  Still-on_result (err x) f g hf hg = hf x

  pub Still-on_option :
      (o : Option A) (m : M S B) (g : A → M S B)
      → Still m
      → ((a : A) → Still (g a))
      → Still (on_option o m g)
  Still-on_option none m g hm hg = hm
  Still-on_option (some a) m g hm hg = hg a

  -- Past such an action only the calls are other ones.
  pub Runs-still :
      (P : B → State S → Type 0) (s : State S) (m : M S A) (f : A → M S B)
      → Still m
      → ((a : A) (h : History) → Runs (f a) (record { own = s.own; calls = h }) P)
      → Runs (m >>= f) s P
  Runs-still P s m f hm hf = Runs-bind P s m f (
      Runs-weaken _ _ m s (hm.still s) (λ a s' e.
        let q : record { own = s.own; calls = s'.calls } ≡ s' = cc in
        subst (λ (t : State S). Runs (f a) t P) q (hf a s'.calls)))

pub ruleset still_rules = (
  Still-pure, Still-ask, Still-gets, Still-if, Still-on_error, Still-bind, Still-on_result,
  Still-on_option,
)
