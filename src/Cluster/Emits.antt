-- ===== src/Cluster/Emits.antt =====
-- What calls an action may make: a rule for each way to build an action.
use infra_devops.Base.{
  Bool, true, false, if◌then◌else◌, Option, none, some, Err, Result, ok, err, on_error, on_result,
  on_option, ◌∷◌, ◌≡◌, refl,
}
use mathlib.Core.Path.{subst}
use infra_devops.Cluster.Calls.{Call, History}
use infra_devops.Cluster.Action.{State, M, pure, panic, ask, gets, modify, continue, ◌>>=◌}

-- `new` is `old` with more calls, each of which satisfies `P`.
pub data Extends (P : Call → Type 0) (old : History) : History → Type 0 where
  here : Extends P old old
  more : {c : Call} {h : History} → P c → Extends P old h → Extends P old (c ∷ h)

pub Extends-trans :
    {P : Call → Type 0} {a b c : History} → Extends P a b → Extends P b c → Extends P a c
Extends-trans e here = e
Extends-trans e (more p f) = more p (Extends-trans e f)

-- Every call that `m` makes satisfies `P`.
pub record Emits {S A : Type 0} (P : Call → Type 0) (m : M S A) : Type 0 where
  pub emitted : (s s' : State S) (a : A) → m s ≡ some (a, s') → Extends P s.calls s'.calls

-- The two halves of a run of a `bind`.
pub >>=-some :
    {S A B : Type 0} (m : M S A) (f : A → M S B) (s s'' : State S) (b : B)
    → (m >>= f) s ≡ some (b, s'')
    → (a : A) × (s' : State S) × (m s ≡ some (a, s')) × (f a s' ≡ some (b, s''))
unfolding ◌>>=◌
>>=-some {S} {A} {B} m f s s'' b h = go (m s) refl h
  where
    go :
        (o : Option (A × State S))
        → m s ≡ o
        → continue f o ≡ some (b, s'')
        → (a : A) × (s' : State S) × (m s ≡ some (a, s')) × (f a s' ≡ some (b, s''))
    go none e k = cc
    go (some (a, s')) e k = (a, s', e, k)

module _ {S A : Type 0} {P : Call → Type 0} where
  -- An action that leaves the calls alone.
  keeps_calls :
      (s s' t : State S) (a b : A)
      → ◌≡◌ {A = Option (A × State S)} (some (a, s)) (some (b, s'))
      → s.calls ≡ t.calls
      → Extends P t.calls s'.calls
  keeps_calls s s' t a b h e =
      let q : t.calls ≡ s'.calls = cc in subst (λ h. Extends P t.calls h) q here

  pub Emits-pure : (a : A) → Emits {S = S} P (pure a)
  unfolding pure
  Emits-pure a = record { emitted = λ s s' b h. keeps_calls s s' s a b h refl }

  pub Emits-panic : Emits P (panic {S = S} {A = A})
  unfolding panic
  Emits-panic = record { emitted = λ s s' b h. absurd (cc) }

  pub Emits-gets : (f : S → A) → Emits P (gets f)
  unfolding gets
  Emits-gets f = record { emitted = λ s s' b h. keeps_calls s s' s (f s.own) b h refl }

  pub Emits-ask : (c : Call) (f : History → A) → P c → Emits P (ask {S = S} c f)
  unfolding ask
  Emits-ask c f p = record {
    emitted = λ s s' b h.
        let q : c ∷ s.calls ≡ s'.calls = cc in subst (λ h. Extends P s.calls h) q (more p here);
  }

  pub Emits-if : (b : Bool) (m n : M S A) → Emits P m → Emits P n → Emits P (if b then m else n)
  Emits-if true m n hm hn = hm
  Emits-if false m n hm hn = hn

  pub Emits-on_error :
      (e : Option Err) (f : Err → M S A) (m : M S A)
      → ((x : Err) → Emits P (f x))
      → Emits P m
      → Emits P (on_error e f m)
  Emits-on_error none f m hf hm = hm
  Emits-on_error (some x) f m hf hm = hf x

module _ {S A B : Type 0} {P : Call → Type 0} where
  pub Emits-bind :
      (m : M S A) (f : A → M S B) → Emits P m → ((a : A) → Emits P (f a)) → Emits P (m >>= f)
  Emits-bind m f hm hf = record {
    emitted = λ s s'' b h.
        let (a, s', p, q) = >>=-some m f s s'' b h in
        Extends-trans (hm.emitted s s' a p) ((hf a).emitted s' s'' b q);
  }

  pub Emits-on_result :
      (r : Result A) (f : Err → M S B) (g : A → M S B)
      → ((x : Err) → Emits P (f x))
      → ((a : A) → Emits P (g a))
      → Emits P (on_result r f g)
  Emits-on_result (ok a) f g hf hg = hg a
  Emits-on_result (err x) f g hf hg = hf x

  pub Emits-on_option :
      (o : Option A) (m : M S B) (g : A → M S B)
      → Emits P m
      → ((a : A) → Emits P (g a))
      → Emits P (on_option o m g)
  Emits-on_option none m g hm hg = hm
  Emits-on_option (some a) m g hm hg = hg a

pub Emits-modify : {S : Type 0} {P : Call → Type 0} (f : S → S) → Emits P (modify f)
unfolding modify
Emits-modify {S} {P} f = record {
  emitted = λ s s' b h. let q : s.calls ≡ s'.calls = cc in subst (λ h. Extends P s.calls h) q here;
}

pub ruleset emits_rules = (
  Emits-pure, Emits-panic, Emits-gets, Emits-ask, Emits-if, Emits-on_error, Emits-bind,
  Emits-on_result, Emits-on_option, Emits-modify,
)
