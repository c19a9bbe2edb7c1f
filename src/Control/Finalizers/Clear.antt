-- ===== src/Control/Finalizers/Clear.antt =====
-- What CheckForDeletion leaves behind.
use infra_devops.Base.{
  String, Bool, true, false, ◌&&◌, ◌||◌, if◌then◌else◌, str_eq, eq_iff, Option, none, some, List,
  [], ◌∷◌, Err, on_error, on_option, message, ◌≡◌, refl, sym, ◌∙◌, arith,
}
use infra_devops.Base.Text.{◌<>◌}
use infra_devops.Base.Dict.{is_some}
use infra_devops.Cluster.{Env, State, M, ask, gets, modify, pure, ◌>>=◌}
use infra_devops.Cluster.Emits.{>>=-some}
use infra_devops.Control.Finalizers.{
  Deletable, Registry, without, remove_splunk_finalizer, process_finalizers, check_for_deletion,
}

abbrev has : String → List String → Bool
has f [] = false
has f (g ∷ gs) = str_eq f g || has f gs

-- Every string of the second list is in the first.
abbrev covers : List String → List String → Bool
covers fs [] = true
covers fs (x ∷ xs) = has x fs && covers fs xs

covers-without :
    (f : String) (fs xs : List String) → covers (f ∷ fs) xs ≡ true → covers fs (without f xs) ≡ true
unfolding without
covers-without f fs [] h = refl
covers-without f fs (x ∷ xs) h = ground (arith, covers-without f fs xs)

covers-cons : (f : String) (fs xs : List String) → covers fs xs ≡ true → covers (f ∷ fs) xs ≡ true
covers-cons f fs [] h = refl
covers-cons f fs (x ∷ xs) h = ground (arith, covers-cons f fs xs)

covers_self : (fs : List String) → covers fs fs ≡ true
covers_self [] = refl
covers_self (f ∷ fs) = ground (arith, eq_iff f f, covers-cons f fs fs (covers_self fs))

covers-none : (xs : List String) → covers [] xs ≡ true → xs ≡ []
covers-none [] h = refl
covers-none (x ∷ xs) h = absurd (cc)

-- A callback that leaves the finalizers as they are.
abbrev pub Spares : M Deletable (Option Err) → Type 0
Spares m =
    (s s' : State Deletable) (e : Option Err)
    → m s ≡ some (e, s')
    → s'.own.finalizers ≡ s.own.finalizers

module _ (env : Env) (registry : Registry) where
  removed :
      (f : String) (s s' : State Deletable) (e : Option Err)
      → remove_splunk_finalizer env registry f s ≡ some (e, s')
      → s'.own.finalizers ≡ without f s.own.finalizers
  unfolding remove_splunk_finalizer ◌>>=◌ modify gets ask
  removed f s s' e h = cc

  module _
      (spares : (f : String) (m : M Deletable (Option Err)) → registry f ≡ some m → Spares m) where
    -- What a run that ends with `true` has returned and left.
    Cleared : List String → Type 0
    Cleared fs =
        (s s' : State Deletable) (e : Option Err)
        → covers fs s.own.finalizers ≡ true
        → process_finalizers env registry fs s ≡ some ((true, e), s')
        → (e ≡ none) × (s'.own.finalizers ≡ [])

    after_removal :
        (fs : List String) (d : Option Err)
        → Cleared fs
        → (s s' : State Deletable) (e : Option Err) → covers fs s.own.finalizers ≡ true
        → on_error d (λ e. pure (false, some e)) (process_finalizers env registry fs) s
          ≡ some ((true, e), s')
        → (e ≡ none) × (s'.own.finalizers ≡ [])
    unfolding pure Cleared
    after_removal fs none rest s s' e c h = rest s s' e c h
    after_removal fs (some x) rest s s' e c h = absurd (cc)

    after_callback :
        (f : String) (fs : List String) (d : Option Err)
        → Cleared fs
        → (s s' : State Deletable) (e : Option Err) → covers (f ∷ fs) s.own.finalizers ≡ true
        → on_error d
            (λ e. pure (false, some e))
            (remove_splunk_finalizer env registry f >>= λ d.
              on_error d (λ e. pure (false, some e)) (process_finalizers env registry fs))
            s
          ≡ some ((true, e), s')
        → (e ≡ none) × (s'.own.finalizers ≡ [])
    unfolding pure
    after_callback f fs (some x) rest s s' e c h = absurd (cc)
    after_callback f fs none rest s s' e c h =
        let (d, t, p, q) = >>=-some (remove_splunk_finalizer env registry f) _ s s' (true, e) h in
        after_removal fs d rest t s' e
          (rw (removed f s t d p) (covers-without f fs s.own.finalizers c)) q

    at_finalizer :
        (f : String) (fs : List String) (o : Option (M Deletable (Option Err)))
        → registry f ≡ o
        → Cleared fs
        → (s s' : State Deletable) (e : Option Err) → covers (f ∷ fs) s.own.finalizers ≡ true
        → on_option o
            (pure (false, some (message ("Finalizer not recognized: " <> f))))
            (λ callback. callback >>= λ d.
              on_error d
                (λ e. pure (false, some e))
                (remove_splunk_finalizer env registry f >>= λ d.
                  on_error d (λ e. pure (false, some e)) (process_finalizers env registry fs)))
            s
          ≡ some ((true, e), s')
        → (e ≡ none) × (s'.own.finalizers ≡ [])
    unfolding pure
    at_finalizer f fs none known rest s s' e c h = absurd (cc)
    at_finalizer f fs (some m) known rest s s' e c h =
        let (d, t, p, q) = >>=-some m _ s s' (true, e) h in
        after_callback f fs d rest t s' e (rw (spares f m known s t d p) c) q

    process-clears : (fs : List String) → Cleared fs
    unfolding process_finalizers pure Cleared
    process-clears [] s s' e c h =
        let same : s.own.finalizers ≡ s'.own.finalizers = cc in
        (cc, sym same ∙ covers-none s.own.finalizers c)
    process-clears (f ∷ fs) s s' e c h =
        at_finalizer f fs (registry f) refl (process-clears fs) s s' e c h

    -- Where CheckForDeletion returns true it returns no error and leaves no finalizer, given callbacks
    -- that leave the finalizers as they are.
    pub check_for_deletion-clears :
        (s s' : State Deletable) (e : Option Err)
        → check_for_deletion env registry s ≡ some ((true, e), s')
        → (e ≡ none) × (s'.own.finalizers ≡ [])
    unfolding check_for_deletion ◌>>=◌ gets pure Cleared
    check_for_deletion-clears s s' e h = by_timestamp (is_some s.own.deletion_timestamp) h
      where
        by_timestamp :
            (b : Bool)
            → (if b then process_finalizers env registry s.own.finalizers else pure (false, none)) s
              ≡ some ((true, e), s')
            → (e ≡ none) × (s'.own.finalizers ≡ [])
        by_timestamp true k =
            process-clears s.own.finalizers s s' e (covers_self s.own.finalizers) k
        by_timestamp false k = absurd (cc)
