-- ===== src/Cluster/Costs.antt =====
-- How many calls of a kind an action may make, in terms of its result: a rule for each way to build
-- an action.
use infra_devops.Base.{
  ℕ, ◌+◌, ◌≤◌, Bool, true, false, if◌then◌else◌, Option, none, some, Err, Result, ok, err, on_error,
  on_result, [], ◌∷◌, ◌≡◌, arith, ap, refl,
}
use infra_devops.Cluster.Calls.{Call, History}
use infra_devops.Cluster.Action.{State, M, pure, ask, ◌>>=◌}
use infra_devops.Cluster.Emits.{Extends, here, more, Emits, >>=-some}

abbrev pub total : (Call → ℕ) → History → ℕ
total weight [] = 0
total weight (c ∷ cs) = weight c + total weight cs

-- With `i` spent before, a run of `m` that returns `a` has spent at most `cost a` in all.
pub record Costs {S A : Type 0} (weight : Call → ℕ) (i : ℕ) (cost : A → ℕ) (m : M S A)
    : Type 0 where
  pub bounded :
      (s s' : State S) (a : A)
      → m s ≡ some (a, s')
      → total weight s'.calls + i ≤ total weight s.calls + cost a

total-Extends :
    (weight : Call → ℕ) {old new : History}
    → Extends (λ c. weight c ≡ 0) old new
    → total weight new ≡ total weight old
total-Extends weight here = refl
total-Extends weight (more p e) = omega (arith, total-Extends weight e)

module _ {S A : Type 0} (weight : Call → ℕ) (i : ℕ) where
  pub Costs-free : (m : M S A) → Emits (λ c. weight c ≡ 0) m → Costs weight i (λ a. i) m
  Costs-free m h = record {
    bounded = λ s s' a r. omega (arith, total-Extends weight (h.emitted s s' a r));
  }

  pub Costs-pure : (cost : A → ℕ) (a : A) → i ≤ cost a → Costs {S = S} weight i cost (pure a)
  unfolding pure
  Costs-pure cost a h = record {
    bounded = λ s s' b r.
        let p : s.calls ≡ s'.calls = cc in
        let q : a ≡ b = cc in omega (arith, ap (total weight) p, ap cost q);
  }

  pub Costs-ask :
      (c : Call) (f : History → A) → Costs {S = S} weight i (λ _. weight c + i) (ask c f)
  unfolding ask
  Costs-ask c f = record {
    bounded =
        λ s s' b r. let p : (c ∷ s.calls) ≡ s'.calls = cc in omega (arith, ap (total weight) p);
  }

  pub Costs-if :
      (cost : A → ℕ) (b : Bool) (m n : M S A)
      → Costs weight i cost m
      → Costs weight i cost n
      → Costs weight i cost (if b then m else n)
  Costs-if cost true m n hm hn = hm
  Costs-if cost false m n hm hn = hn

  pub Costs-on_error :
      (cost : A → ℕ) (e : Option Err) (f : Err → M S A) (m : M S A)
      → ((x : Err) → Costs weight i cost (f x))
      → Costs weight i cost m
      → Costs weight i cost (on_error e f m)
  Costs-on_error cost none f m hf hm = hm
  Costs-on_error cost (some x) f m hf hm = hf x

module _ {S A B : Type 0} (weight : Call → ℕ) (i : ℕ) where
  pub Costs-bind :
      (first : A → ℕ) (cost : B → ℕ) (m : M S A) (f : A → M S B)
      → Costs weight i first m
      → ((a : A) → Costs weight (first a) cost (f a))
      → Costs weight i cost (m >>= f)
  Costs-bind first cost m f hm hf = record {
    bounded = λ s s'' b h.
        let (a, s', p, q) = >>=-some m f s s'' b h in
        omega (arith, hm.bounded s s' a p, (hf a).bounded s' s'' b q);
  }

  pub Costs-on_result :
      (cost : B → ℕ) (r : Result A) (f : Err → M S B) (g : A → M S B)
      → ((x : Err) → Costs weight i cost (f x))
      → ((a : A) → Costs weight i cost (g a))
      → Costs weight i cost (on_result r f g)
  Costs-on_result cost (ok a) f g hf hg = hg a
  Costs-on_result cost (err x) f g hf hg = hf x
