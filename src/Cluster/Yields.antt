-- ===== src/Cluster/Yields.antt =====
-- What an action may return: a rule for each way to build an action.
use infra_devops.Base.{
  Bool, true, false, if◌then◌else◌, Option, none, some, Err, Result, ok, err, on_error, on_result,
  ◌≡◌,
}
use mathlib.Core.Path.{subst}
use infra_devops.Cluster.Calls.{Call, History}
use infra_devops.Cluster.Action.{State, M, pure, ask, ◌>>=◌}
use infra_devops.Cluster.Emits.{Emits, Extends-trans, >>=-some}

pub pure-some : {S A : Type 0} (a b : A) (s s' : State S) → pure a s ≡ some (b, s') → a ≡ b
unfolding pure
pure-some a b s s' h = cc

-- Every value that `m` returns satisfies `Q`.
pub record Yields {S A : Type 0} (Q : A → Type 0) (m : M S A) : Type 0 where
  pub yielded : (s s' : State S) (a : A) → m s ≡ some (a, s') → Q a

module _ {S A : Type 0} (Q : A → Type 0) where
  pub Yields-pure : (a : A) → Q a → Yields {S = S} Q (pure a)
  unfolding pure
  Yields-pure a q = record { yielded = λ s s' b h. let e : a ≡ b = cc in subst Q e q }

  pub Yields-if : (b : Bool) (m n : M S A) → Yields Q m → Yields Q n → Yields Q (if b then m else n)
  Yields-if true m n hm hn = hm
  Yields-if false m n hm hn = hn

  pub Yields-on_error :
      (e : Option Err) (f : Err → M S A) (m : M S A)
      → ((x : Err) → Yields Q (f x))
      → Yields Q m
      → Yields Q (on_error e f m)
  Yields-on_error none f m hf hm = hm
  Yields-on_error (some x) f m hf hm = hf x

module _ {S A B : Type 0} (Q : B → Type 0) where
  pub Yields-bind : (m : M S A) (f : A → M S B) → ((a : A) → Yields Q (f a)) → Yields Q (m >>= f)
  Yields-bind m f hf = record {
    yielded = λ s s'' b h. let (a, s', p, q) = >>=-some m f s s'' b h in (hf a).yielded s' s'' b q;
  }

  pub Yields-on_result :
      (r : Result A) (f : Err → M S B) (g : A → M S B)
      → ((x : Err) → Yields Q (f x))
      → ((a : A) → Yields Q (g a))
      → Yields Q (on_result r f g)
  Yields-on_result (ok a) f g hf hg = hg a
  Yields-on_result (err x) f g hf hg = hf x

-- A `bind` whose first half returns only what satisfies `R`.
module _ {S A B : Type 0} (R : A → Type 0) where
  pub Yields-then :
      (Q : B → Type 0) (m : M S A) (f : A → M S B)
      → Yields R m
      → ((a : A) → R a → Yields Q (f a))
      → Yields Q (m >>= f)
  Yields-then Q m f hm hf = record {
    yielded = λ s s'' b h.
        let (a, s', p, q) = >>=-some m f s s'' b h in
        (hf a (hm.yielded s s' a p)).yielded s' s'' b q;
  }

  pub Emits-then :
      (P : Call → Type 0) (m : M S A) (f : A → M S B)
      → Yields R m
      → Emits P m
      → ((a : A) → R a → Emits P (f a))
      → Emits P (m >>= f)
  Emits-then P m f hm em hf = record {
    emitted = λ s s'' b h.
        let (a, s', p, q) = >>=-some m f s s'' b h in
        Extends-trans (em.emitted s s' a p) ((hf a (hm.yielded s s' a p)).emitted s' s'' b q);
  }

-- The answer of a call.
pub Yields-ask :
    {S A : Type 0} (Q : A → Type 0) (c : Call) (f : History → A)
    → ((h : History) → Q (f h))
    → Yields {S = S} Q (ask c f)
unfolding ask
Yields-ask Q c f q = record {
  yielded = λ s s' b h. let e : f s.calls ≡ b = cc in subst Q e (q s.calls);
}
