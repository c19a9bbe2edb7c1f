-- ===== src/Enterprise/ClusterMaster/Tracker.antt =====
-- The protocol of the bundle push, as a machine on the tracker of the status: what a reconciliation
-- may do to it, and when.
use infra_devops.Base.{ℕ, ◌+◌, ◌≤◌, Bool, true, false, List, [], ◌∷◌, ◌≡◌, refl, ap, arith}
use infra_devops.Base.Int.{ℤ, ltb_ℤ, plus64}
use infra_devops.Enterprise.ClusterMaster.{BundlePushInfo}

-- What a reconciliation does: nothing, as no push is needed, or as it is too early; an attempt that
-- fails, or that pushes; a request for a push.
pub data Event : Type 0 where
  idle early : Event
  tried pushed asked : ℤ → Event

-- The times are those of the clock.
pub data Move (t : BundlePushInfo) : Event → BundlePushInfo → Type 0 where
  rests : t.need_to_push_master_apps ≡ false → Move t idle t
  waits :
      (now : ℤ)
      → t.need_to_push_master_apps ≡ true
      → ltb_ℤ now (plus64 t.last_check_interval 5) ≡ true
      → Move t early t
  fails :
      (now : ℤ)
      → t.need_to_push_master_apps ≡ true
      → ltb_ℤ now (plus64 t.last_check_interval 5) ≡ false
      → Move t (tried now) (record t { last_check_interval = now })
  pushes :
      (now : ℤ)
      → t.need_to_push_master_apps ≡ true
      → ltb_ℤ now (plus64 t.last_check_interval 5) ≡ false
      → Move t (pushed now) (record { need_to_push_master_apps = false; last_check_interval = now })
  asks :
      (now : ℤ)
      → Move t (asked now) (record { need_to_push_master_apps = true; last_check_interval = now })

-- A sequence of moves, with its events, the latest first.
pub data Trace (t : BundlePushInfo) : List Event → BundlePushInfo → Type 0 where
  start : Trace t [] t
  later :
      {evs : List Event} {u v : BundlePushInfo} {ev : Event}
      → Trace t evs u
      → Move u ev v
      → Trace t (ev ∷ evs) v

-- The time of the latest attempt or request, or a given one.
abbrev pub latest : ℤ → List Event → ℤ
latest first [] = first
latest first (idle ∷ evs) = latest first evs
latest first (early ∷ evs) = latest first evs
latest first (tried now ∷ evs) = now
latest first (pushed now ∷ evs) = now
latest first (asked now ∷ evs) = now

-- An attempt is not before five seconds after the given time.
abbrev pub Apart : Event → ℤ → Type 0
Apart idle before = Unit
Apart early before = Unit
Apart (tried now) before = ltb_ℤ now (plus64 before 5) ≡ false
Apart (pushed now) before = ltb_ℤ now (plus64 before 5) ≡ false
Apart (asked now) before = Unit

abbrev pub Spaced : ℤ → List Event → Type 0
Spaced first [] = Unit
Spaced first (ev ∷ evs) = Apart ev (latest first evs) × Spaced first evs

abbrev pub count_pushed : List Event → ℕ
count_pushed [] = 0
count_pushed (pushed now ∷ evs) = count_pushed evs + 1
count_pushed (_ ∷ evs) = count_pushed evs

abbrev pub count_asked : List Event → ℕ
count_asked [] = 0
count_asked (asked now ∷ evs) = count_asked evs + 1
count_asked (_ ∷ evs) = count_asked evs

abbrev pub needed : Bool → ℕ
needed false = 0
needed true = 1

Move-latest :
    (t u v : BundlePushInfo) (evs : List Event) (ev : Event)
    → u.last_check_interval ≡ latest t.last_check_interval evs
    → Move u ev v
    → v.last_check_interval ≡ latest t.last_check_interval (ev ∷ evs)
Move-latest t u v evs idle h (rests n) = h
Move-latest t u v evs early h (waits _ n e) = h
Move-latest t u v evs (tried now) h (fails _ n e) = refl
Move-latest t u v evs (pushed now) h (pushes _ n e) = refl
Move-latest t u v evs (asked now) h (asks _) = refl

-- The tracker holds the time of the latest attempt or request.
Trace-latest :
    (t u : BundlePushInfo) (evs : List Event)
    → Trace t evs u
    → u.last_check_interval ≡ latest t.last_check_interval evs
Trace-latest t u [] start = refl
Trace-latest t v (ev ∷ evs) (later {u = u} r m) =
    Move-latest t u v evs ev (Trace-latest t u evs r) m

Move-Apart : (u v : BundlePushInfo) (ev : Event) → Move u ev v → Apart ev u.last_check_interval
Move-Apart u v idle (rests n) = tt
Move-Apart u v early (waits _ n e) = tt
Move-Apart u v (tried now) (fails _ n e) = e
Move-Apart u v (pushed now) (pushes _ n e) = e
Move-Apart u v (asked now) (asks _) = tt

-- In any sequence of moves, each attempt is at least five seconds after the attempt or the request
-- before it.
pub Trace-Spaced :
    (t u : BundlePushInfo) (evs : List Event) → Trace t evs u → Spaced t.last_check_interval evs
Trace-Spaced t u [] start = tt
Trace-Spaced t v (ev ∷ evs) (later {u = u} r m) =
    (rw (← Trace-latest t u evs r) (Move-Apart u v ev m), Trace-Spaced t u evs r)

Move-needed :
    (u v : BundlePushInfo) (ev : Event) (evs : List Event) (n : ℕ)
    → Move u ev v
    → count_pushed evs + needed u.need_to_push_master_apps ≤ count_asked evs + n
    → count_pushed (ev ∷ evs) + needed v.need_to_push_master_apps ≤ count_asked (ev ∷ evs) + n
Move-needed u v idle evs n (rests e) h = h
Move-needed u v early evs n (waits _ e k) h = h
Move-needed u v (tried now) evs n (fails _ e k) h = h
Move-needed u v (pushed now) evs n (pushes _ e k) h =
    let one : needed u.need_to_push_master_apps ≡ 1 = ap needed e in omega (arith, h, one)
Move-needed u v (asked now) evs n (asks _) h = omega (arith, h)

-- In any sequence of moves there are no more pushes than requests, and than a need at the start.
pub Trace-pushes_le :
    (t u : BundlePushInfo) (evs : List Event)
    → Trace t evs u
    → count_pushed evs + needed u.need_to_push_master_apps
      ≤ count_asked evs + needed t.need_to_push_master_apps
Trace-pushes_le t u [] start = omega arith
Trace-pushes_le t v (ev ∷ evs) (later {u = u} r m) =
    Move-needed u v ev evs _ m (Trace-pushes_le t u evs r)
