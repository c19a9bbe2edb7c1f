-- ===== src/Cluster/Fixes.antt =====
-- What an action leaves as it is of the caller's own state: a rule for each way to build an action.
use infra_devops.Base.{
  Bool, true, false, if◌then◌else◌, Option, some, Err, Result, ok, err, on_result, ◌≡◌, ap, ◌∙◌,
}
use infra_devops.Cluster.Calls.{Call, History}
use infra_devops.Cluster.Action.{State, M, pure, ask, gets, modify, ◌>>=◌}
use infra_devops.Cluster.Emits.{>>=-some}

-- `m` does not change `view` of the state.
pub record Fixes {S A X : Type 0} (view : S → X) (m : M S A) : Type 0 where
  pub fixed : (s s' : State S) (a : A) → m s ≡ some (a, s') → view s'.own ≡ view s.own

module _ {S A X : Type 0} (view : S → X) where
  same_state :
      (s s' : State S) (a b : A)
      → ◌≡◌ {A = Option (A × State S)} (some (a, s)) (some (b, s'))
      → view s'.own ≡ view s.own
  same_state s s' a b h = let e : s' ≡ s = cc in ap (λ (t : State S). view t.own) e

  pub Fixes-pure : (a : A) → Fixes view (pure a)
  unfolding pure
  Fixes-pure a = record { fixed = λ s s' b h. same_state s s' a b h }

  pub Fixes-ask : (c : Call) (f : History → A) → Fixes view (ask c f)
  unfolding ask
  Fixes-ask c f = record { fixed = λ s s' b h. let e : s'.own ≡ s.own = cc in ap view e }

  pub Fixes-gets : (f : S → A) → Fixes view (gets f)
  unfolding gets
  Fixes-gets f = record { fixed = λ s s' b h. same_state s s' (f s.own) b h }

  pub Fixes-if :
      (b : Bool) (m n : M S A) → Fixes view m → Fixes view n → Fixes view (if b then m else n)
  Fixes-if true m n hm hn = hm
  Fixes-if false m n hm hn = hn

module _ {S X : Type 0} (view : S → X) where
  pub Fixes-modify : (f : S → S) → ((s : S) → view (f s) ≡ view s) → Fixes view (modify f)
  unfolding modify
  Fixes-modify f same = record {
    fixed = λ s s' b h. let e : s'.own ≡ f s.own = cc in ap view e ∙ same s.own;
  }

module _ {S A B X : Type 0} (view : S → X) where
  pub Fixes-bind :
      (m : M S A) (f : A → M S B)
      → Fixes view m
      → ((a : A) → Fixes view (f a))
      → Fixes view (m >>= f)
  Fixes-bind m f hm hf = record {
    fixed = λ s s'' b h.
        let (a, s', p, q) = >>=-some m f s s'' b h in (hf a).fixed s' s'' b q ∙ hm.fixed s s' a p;
  }

  pub Fixes-on_result :
      (r : Result A) (f : Err → M S B) (g : A → M S B)
      → ((x : Err) → Fixes view (f x))
      → ((a : A) → Fixes view (g a))
      → Fixes view (on_result r f g)
  Fixes-on_result (ok a) f g hf hg = hg a
  Fixes-on_result (err x) f g hf hg = hf x
