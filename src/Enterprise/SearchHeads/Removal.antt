-- ===== src/Enterprise/SearchHeads/Removal.antt =====
-- When a search head may be removed from its cluster.
use infra_devops.Base.{
  ℕ, Bool, true, false, not, if◌then◌else◌, str_eq, eq_iff, Option, none, some, Err, message,
  on_error, on_option, get_elem?, ◌≡◌, refl, ap,
}
use infra_devops.Base.Int.{ℤ, pos}
use infra_devops.Base.Text.{◌<>◌}
use infra_devops.Common.Meta.{MetaObject}
use infra_devops.Cluster.{Env, State, gets, ask, remove_member, pure, panic, ◌>>=◌}
use infra_devops.Cluster.Emits.{>>=-some}
use infra_devops.Cluster.Yields.{pure-some}
use infra_devops.Enterprise.SearchHeads.{
  MemberStatus, SearchHeadStatus, member_at, sums_to_zero, detain, get_client, prepare_recycle,
  prepare_scale_down,
}

-- Member `n` is detained and has no searches.
pub IsQuarantined : SearchHeadStatus → ℕ → Type 0
IsQuarantined s n =
    (m : MemberStatus) × (get_elem? s.members n ≡ some m)
    × (m.status ≡ "ManualDetention")
    × (sums_to_zero m.active_historical_search_count m.active_realtime_search_count ≡ true)

read_member :
    (n : ℕ) (s s' : State SearchHeadStatus) (m : MemberStatus)
    → member_at (pos n) s ≡ some (m, s')
    → get_elem? s.own.members n ≡ some m
unfolding member_at ◌>>=◌ gets pure panic
read_member n s s' m h = read (get_elem? s.own.members n) h
  where
    read : (o : Option MemberStatus) → on_option o panic pure s ≡ some (m, s') → o ≡ some m
    read none k = absurd (cc)
    read (some x) k = cc

-- A run of PrepareRecycle that reports that the member is ready.
module _ (env : Env) (cr : MetaObject) where
  detain-waits :
      (n : ℤ) (on : Bool) (s s' : State SearchHeadStatus) (e : Option Err)
      → detain env cr n on s ≡ some ((true, e), s')
      → ⊥
  unfolding detain
  detain-waits n on s s' e h =
      let (c, s1, p, q) = >>=-some _ _ s s' (true, e) h in
      let (d, s2, r, t) = >>=-some _ _ s1 s' (true, e) q in
      let x : false ≡ true =
        ap (λ (x : Bool × Option Err). x.0) (pure-some (false, d) (true, e) s2 s' t) in
      absurd (cc)

  ready_member :
      (n : ℤ) (m : MemberStatus) (s s' : State SearchHeadStatus) (e : Option Err)
      → (if str_eq m.status "Up"
            then detain env cr n true
            else if str_eq m.status "ManualDetention"
            then pure
                (sums_to_zero m.active_historical_search_count m.active_realtime_search_count, none)
            else if str_eq m.status ""
            then pure (false, none)
            else pure (false, some (message ("Status=" <> m.status))))
          s
        ≡ some ((true, e), s')
      → (m.status ≡ "ManualDetention")
        × (sums_to_zero m.active_historical_search_count m.active_realtime_search_count ≡ true)
  ready_member n m s s' e h =
      by_status (str_eq m.status "Up") (str_eq m.status "ManualDetention") (str_eq m.status "")
        (sums_to_zero m.active_historical_search_count m.active_realtime_search_count)
        (eq_iff m.status "ManualDetention").0 h
    where
      by_status :
          (up detained unset idle : Bool)
          → (detained ≡ true → m.status ≡ "ManualDetention")
          → (if up
                then detain env cr n true
                else if detained
                then pure (idle, none)
                else if unset
                then pure (false, none)
                else pure (false, some (message ("Status=" <> m.status))))
              s
            ≡ some ((true, e), s')
          → (m.status ≡ "ManualDetention") × (idle ≡ true)
      by_status true detained unset idle known h = absurd (detain-waits n true s s' e h)
      by_status false true unset idle known h = (
        known refl,
        ap (λ (x : Bool × Option Err). x.0) (pure-some (idle, none) (true, e) s s' h),
      )
      by_status false false true idle known h = absurd (unfold pure in cc)
      by_status false false false idle known h = absurd (unfold pure in cc)

  -- PrepareRecycle reports a search head ready only where its status is that of a member in manual
  -- detention with no active searches.
  pub prepare_recycle-IsQuarantined :
      (n : ℕ) (s s' : State SearchHeadStatus) (e : Option Err)
      → prepare_recycle env cr (pos n) s ≡ some ((true, e), s')
      → IsQuarantined s.own n
  unfolding prepare_recycle IsQuarantined
  prepare_recycle-IsQuarantined n s s' e h =
      let (m, s1, p, q) = >>=-some (member_at (pos n)) _ s s' (true, e) h in
      let (detained, idle) = ready_member (pos n) m s1 s' e q in
      (m, read_member n s s1 m p, detained, idle)

  -- PrepareScaleDown reports a search head ready only where its status is that of a member in manual
  -- detention with no active searches.
  pub prepare_scale_down-IsQuarantined :
      (n : ℕ) (s s' : State SearchHeadStatus) (e : Option Err)
      → prepare_scale_down env cr (pos n) s ≡ some ((true, e), s')
      → IsQuarantined s.own n
  unfolding prepare_scale_down
  prepare_scale_down-IsQuarantined n s s' e h =
      let ((ready, d), s1, r, q) = >>=-some (prepare_recycle env cr (pos n)) _ s s' (true, e) h in
      after ready d s1 r q
    where
      after :
          (ready : Bool) (d : Option Err) (s1 : State SearchHeadStatus)
          → prepare_recycle env cr (pos n) s ≡ some ((ready, d), s1)
          → on_error d
              (λ x. pure {A = Bool × Option Err} (ready, some x))
              (if not ready then pure {A = Bool × Option Err} (false, none) else (do
                c ← get_client env cr (pos n)
                x ← ask (remove_member c) (λ h. env.member_removed h c)
                pure {A = Bool × Option Err} (on_error x (λ x. (false, some x)) (true, none))))
              s1
            ≡ some ((true, e), s')
          → IsQuarantined s.own n
      after true d s1 r q = prepare_recycle-IsQuarantined n s s1 d r
      after false (some x) s1 r q = absurd (unfold pure in cc)
      after false none s1 r q = absurd (unfold pure in cc)
