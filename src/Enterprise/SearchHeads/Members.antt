-- ===== src/Enterprise/SearchHeads/Members.antt =====
-- The list of members after updateStatus.
use infra_devops.Base.{
  ℕ, zero, suc, ◌+◌, ◌≤◌, Bool, true, false, if◌then◌else◌, List, some, Result, on_result, length,
  ltb, take, ◌≡◌, refl, sym, ap, ◌∙◌, arith,
}
use infra_devops.Base.Int.{ℤ, pos, eqb_ℤ, to_ℕ}
use infra_devops.Common.Meta.{MetaObject}
use infra_devops.Cluster.{
  StatefulSet, SplunkClient, MemberInfo, Env, State, ask, modify, pure, member_info,
}
use infra_devops.Cluster.Emits.{>>=-some}
use infra_devops.Cluster.Fixes.{
  Fixes, Fixes-pure, Fixes-ask, Fixes-if, Fixes-bind, Fixes-on_result, Fixes-modify,
}
use infra_devops.Util.Tokens.Fixes.{get_token-Fixes}
use infra_devops.Enterprise.Slots.{length-put_at, length-cut}
use infra_devops.Enterprise.SearchHeads.{
  SearchHeadStatus, MemberStatus, put_at, get_client, find_captain, note_captain, put_member,
  drop_members, read_members, update_status,
}

abbrev view : SearchHeadStatus → List MemberStatus
view s = s.members

put-length :
    (n : ℕ) (m : MemberStatus) (s s' : State SearchHeadStatus) (u : Unit {0})
    → n ≤ length s.own.members
    → modify (put_member n m) s ≡ some (u, s')
    → suc n ≤ length s'.own.members
unfolding modify put_member
put-length n m s s' u h e =
    let same : put_at n m s.own.members ≡ s'.own.members = cc in
    omega (arith, length-put_at n m s.own.members h, ap length same)

drop-length :
    (n : ℕ) (s s' : State SearchHeadStatus) (u : Unit {0})
    → n ≤ length s.own.members
    → modify (drop_members n) s ≡ some (u, s')
    → length s'.own.members ≡ n
unfolding modify drop_members
drop-length n s s' u h e =
    let cut = if ltb n (length s.own.members) then take n s.own.members else s.own.members in
    let same : cut ≡ s'.own.members = cc in sym (ap length same) ∙ length-cut n s.own.members h

module _ (env : Env) (cr : MetaObject) where
  get_client-Fixes : (n : ℤ) → Fixes view (get_client env cr n)
  unfolding get_client
  get_client-Fixes n = Fixes-bind _ _ _ (get_token-Fixes _ env _ _ _) (λ r. Fixes-pure _ _)

  find_captain-Fixes : (c : SplunkClient) → Fixes view (find_captain env cr c)
  unfolding find_captain note_captain
  find_captain-Fixes c = Fixes-bind _ _ _ (Fixes-ask _ _ _) (λ r.
      Fixes-on_result _ r _ _ (λ e. Fixes-pure _ _)
        (λ i. Fixes-bind _ _ _ (Fixes-modify _ _ (λ s. refl)) (λ u. Fixes-pure _ _)))

  captain-Fixes :
      (r : Result MemberInfo) (got : Bool) (c : SplunkClient)
      → Fixes view
          (on_result r (λ _. pure got) (λ _. if got then pure true else find_captain env cr c))
  captain-Fixes r got c =
      Fixes-on_result _ r _ _ (λ e. Fixes-pure _ _)
        (λ i. Fixes-if _ got _ _ (Fixes-pure _ _) (find_captain-Fixes c))

  length-read_members :
      (n k : ℕ) (got : Bool) (s s' : State SearchHeadStatus) (u : Unit {0})
      → n ≤ length s.own.members
      → read_members env cr n k got s ≡ some (u, s')
      → n + k ≤ length s'.own.members
  unfolding read_members pure
  length-read_members n zero got s s' u h e =
      let same : s.own.members ≡ s'.own.members = cc in omega (arith, h, ap length same)
  length-read_members n (suc k) got s s' u h e =
      let (c, s1, p1, q1) = >>=-some (get_client env cr (pos n)) _ s s' u e in
      let (r, s2, p2, q2) = >>=-some (ask (member_info c) (λ h. env.member h c)) _ s1 s' u q1 in
      let (got', s3, p3, q3) = >>=-some _ _ s2 s' u q2 in
      let (v, s4, p4, q4) = >>=-some (modify _) _ s3 s' u q3 in
      let kept =
        (captain-Fixes r got c).fixed s2 s3 got' p3
        ∙ (Fixes-ask view _ _).fixed s1 s2 r p2
        ∙ (get_client-Fixes (pos n)).fixed s s1 c p1 in
      let room : n ≤ length s3.own.members = omega (arith, h, ap length kept) in
      omega (arith, length-read_members (suc n) k got' s4 s' u (put-length n _ s3 s4 v room p4) q4)

  -- After updateStatus, where pods are ready, there are as many members as the stateful set has
  -- replicas, whatever the members were before and whatever the REST API answers.
  pub update_status-members :
      (ss : StatefulSet) (s s' : State SearchHeadStatus) (u : Unit {0})
      → eqb_ℤ ss.ready_replicas (pos 0) ≡ false
      → update_status env cr ss s ≡ some (u, s')
      → length s'.own.members ≡ to_ℕ ss.status_replicas
  unfolding update_status
  update_status-members ss s s' u some_ready e =
      let (v, s1, p1, q1) = >>=-some (modify _) _ s s' u e in
      let rest = rw some_ready at q1 in
      let (w, s2, p2, q2) =
        >>=-some (read_members env cr 0 (to_ℕ ss.status_replicas) false) _ s1 s' u rest in
      let full = length-read_members 0 (to_ℕ ss.status_replicas) false s1 s2 w (omega arith) p2 in
      drop-length (to_ℕ ss.status_replicas) s2 s' u (omega (arith, full)) q2
