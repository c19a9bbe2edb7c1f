-- ===== src/Enterprise/Indexers/Decommission.antt =====
-- When an indexer may be recycled, and the calls of the pod manager of indexer clusters.
use infra_devops.Base.{
  ℕ, ◌+◌, ◌≤◌, String, Bool, true, false, not, if◌then◌else◌, str_eq, eq_iff, Option, none, some,
  Err, message, get_elem?, on_option, ◌≡◌, refl, ap, ◌⊎◌, inl, inr, length, on_error,
}
use infra_devops.Base.Int.{ℤ, pos, negsuc, ltb_ℤ}
use infra_devops.Base.Text.{◌<>◌}
use infra_devops.Cluster.{
  NamespacedName, StatefulSet, SplunkClient, Env, State, M, Call, get_pod, get_secret,
  decommission_peer, remove_peer, ask, gets, pure, panic, ◌>>=◌,
}
use infra_devops.Cluster.Emits.{
  >>=-some, Emits, Emits-pure, Emits-panic, Emits-gets, Emits-if, Emits-bind, Emits-ask,
  Emits-on_error, Emits-on_option,
}
use infra_devops.Cluster.Yields.{pure-some}
use infra_devops.Cluster.Costs.{total}
use infra_devops.Util.Tokens.Emits.{get_token-Emits}
use infra_devops.Control.Pods.{Outcome, update_stateful_set_pods}
use infra_devops.Control.Pods.Deletions.{pod_deletion, may_delete, update_stateful_set_pods-deletes}
use infra_devops.Enterprise.Indexers.{
  PeerStatus, IndexerState, IndexerCr, peer_at, client_of, get_client, get_cluster_master_client,
  decommission, prepare_scale_down, prepare_recycle, finish_recycle, indexer_manager,
}

-- Peer `n` is down.
pub IsDecommissioned : IndexerState → ℕ → Type 0
IsDecommissioned s n =
    (p : PeerStatus) × (get_elem? s.peers n ≡ some p)
    × ((p.status ≡ "GracefulShutdown") ⊎ (p.status ≡ "Down"))

read_peer :
    (n : ℕ) (s s' : State IndexerState) (p : PeerStatus)
    → peer_at (pos n) s ≡ some (p, s')
    → get_elem? s.own.peers n ≡ some p
unfolding peer_at ◌>>=◌ gets pure panic
read_peer n s s' p h = read (get_elem? s.own.peers n) h
  where
    read : (o : Option PeerStatus) → on_option o panic pure s ≡ some (p, s') → o ≡ some p
    read none k = absurd (cc)
    read (some x) k = cc

module _ (env : Env) (cr : IndexerCr) where
  start_decommission : ℤ → Bool → M IndexerState (Bool × Option Err)
  start_decommission n enforce_counts = do
    c ← get_client env cr n
    e ← ask (decommission_peer c enforce_counts) (λ h. env.peer_decommissioned h c enforce_counts)
    pure (false, e)

  start-waits :
      (n : ℤ) (b : Bool) (s s' : State IndexerState) (e : Option Err)
      → start_decommission n b s ≡ some ((true, e), s')
      → ⊥
  unfolding start_decommission
  start-waits n b s s' e h =
      let (c, s1, p, q) = >>=-some _ _ s s' (true, e) h in
      let (d, s2, r, t) = >>=-some _ _ s1 s' (true, e) q in
      let x : false ≡ true =
        ap (λ (x : Bool × Option Err). x.0) (pure-some (false, d) (true, e) s2 s' t) in
      absurd (cc)

  by_status :
      (p : PeerStatus) (n : ℤ) (b : Bool) (s s' : State IndexerState) (e : Option Err)
      (up leaving primaries graceful down unset : Bool)
      → (graceful ≡ true → p.status ≡ "GracefulShutdown")
      → (down ≡ true → p.status ≡ "Down")
      → (if up
            then start_decommission n b
            else if leaving
            then pure (false, none)
            else if primaries
            then pure (false, none)
            else if graceful
            then pure (true, none)
            else if down
            then pure (true, none)
            else if unset
            then pure (false, none)
            else pure (false, some (message ("Status=" <> p.status))))
          s
        ≡ some ((true, e), s')
      → (p.status ≡ "GracefulShutdown") ⊎ (p.status ≡ "Down")
  unfolding pure
  by_status p n b s s' e true leaving primaries graceful down unset g d h =
      absurd (start-waits n b s s' e h)
  by_status p n b s s' e false true primaries graceful down unset g d h = absurd (cc)
  by_status p n b s s' e false false true graceful down unset g d h = absurd (cc)
  by_status p n b s s' e false false false true down unset g d h = inl (g refl)
  by_status p n b s s' e false false false false true unset g d h = inr (d refl)
  by_status p n b s s' e false false false false false true g d h = absurd (cc)
  by_status p n b s s' e false false false false false false g d h = absurd (cc)

  decommission-done :
      (n : ℕ) (b : Bool) (s s' : State IndexerState) (e : Option Err)
      → decommission env cr (pos n) b s ≡ some ((true, e), s')
      → IsDecommissioned s.own n
  unfolding decommission IsDecommissioned start_decommission
  decommission-done n b s s' e h =
      let (p, s1, r, q) = >>=-some (peer_at (pos n)) _ s s' (true, e) h in
      (
        p,
        read_peer n s s1 p r,
        by_status p (pos n) b s1 s' e (str_eq p.status "Up") (str_eq p.status "Decommissioning")
            (str_eq p.status "ReassigningPrimaries") (str_eq p.status "GracefulShutdown")
            (str_eq p.status "Down") (str_eq p.status "") (eq_iff p.status "GracefulShutdown").0
            (eq_iff p.status "Down").0 q,
      )

  -- PrepareScaleDown reports an indexer ready only where its status is that of a peer that is down:
  -- GracefulShutdown or Down.
  pub prepare_scale_down-IsDecommissioned :
      (n : ℕ) (s s' : State IndexerState) (e : Option Err)
      → prepare_scale_down env cr (pos n) s ≡ some ((true, e), s')
      → IsDecommissioned s.own n
  unfolding prepare_scale_down
  prepare_scale_down-IsDecommissioned n s s' e h =
      let ((complete, d), s1, r, q) =
        >>=-some (decommission env cr (pos n) true) _ s s' (true, e) h in
      after complete d s1 r q
    where
      after :
          (complete : Bool) (d : Option Err) (s1 : State IndexerState)
          → decommission env cr (pos n) true s ≡ some ((complete, d), s1)
          → on_error d
              (λ x. pure {A = Bool × Option Err} (false, some x))
              (if not complete then pure {A = Bool × Option Err} (false, none) else (do
                c ← get_cluster_master_client env cr
                p ← peer_at (pos n)
                x ← ask (remove_peer c p.id) (λ h. env.peer_removed h c p.id)
                pure {A = Bool × Option Err} (true, x)))
              s1
            ≡ some ((true, e), s')
          → IsDecommissioned s.own n
      after complete (some x) s1 r q = absurd (unfold pure in cc)
      after false none s1 r q = absurd (unfold pure in cc)
      after true none s1 r q = decommission-done n true s s1 none r

  -- PrepareRecycle reports an indexer ready only where its status is GracefulShutdown or Down.
  pub prepare_recycle-IsDecommissioned :
      (n : ℕ) (s s' : State IndexerState) (e : Option Err)
      → prepare_recycle env cr (pos n) s ≡ some ((true, e), s')
      → IsDecommissioned s.own n
  unfolding prepare_recycle
  prepare_recycle-IsDecommissioned n = decommission-done n false

pub peer_at-Emits : {P : Call → Type 0} (n : ℤ) → Emits P (peer_at n)
unfolding peer_at
peer_at-Emits (negsuc n) = Emits-panic
peer_at-Emits (pos n) =
    Emits-bind _ _ (Emits-gets _) (λ ms. Emits-on_option _ _ _ Emits-panic (λ m. Emits-pure _))

module _ (env : Env) (cr : IndexerCr) {P : Call → Type 0}
    (pod : (id : NamespacedName) → P (get_pod id))
    (secret : (id : NamespacedName) → P (get_secret id)) where
  client_of-Emits : (name host : String) → Emits P (client_of env cr name host)
  unfolding client_of
  client_of-Emits name host =
      Emits-bind _ _ (get_token-Emits env pod secret _ _ _) (λ r. Emits-pure _)

  decommission-Emits :
      ((c : SplunkClient) (b : Bool) → P (decommission_peer c b))
      → (n : ℤ) (b : Bool) → Emits P (decommission env cr n b)
  unfolding decommission get_client
  decommission-Emits leave n b = Emits-bind _ _ (peer_at-Emits n) (λ p.
      Emits-if (str_eq p.status "Up") _ _
        (Emits-bind _ _ (client_of-Emits _ _)
          (λ c. Emits-bind _ _ (Emits-ask _ _ (leave c b)) (λ e. Emits-pure _)))
        (Emits-if (str_eq p.status "Decommissioning") _ _ (Emits-pure _) (
          Emits-if (str_eq p.status "ReassigningPrimaries") _ _ (Emits-pure _) (
            Emits-if (str_eq p.status "GracefulShutdown") _ _ (Emits-pure _) (
              Emits-if (str_eq p.status "Down") _ _ (Emits-pure _)
                (Emits-if (str_eq p.status "") _ _ (Emits-pure _) (Emits-pure _)))))))

  finish_recycle-Emits : (n : ℤ) → Emits P (finish_recycle env cr n)
  unfolding finish_recycle
  finish_recycle-Emits n = Emits-bind _ _ (Emits-gets _) (λ ps.
      Emits-if (not (ltb_ℤ n (pos (length ps)))) _ _ (Emits-pure _)
        (Emits-bind _ _ (peer_at-Emits n) (λ p. Emits-pure _)))

  prepare_scale_down-Emits :
      ((c : SplunkClient) (b : Bool) → P (decommission_peer c b))
      → ((c : SplunkClient) (id : String) → P (remove_peer c id))
      → (n : ℤ) → Emits P (prepare_scale_down env cr n)
  unfolding prepare_scale_down get_cluster_master_client
  prepare_scale_down-Emits leave remove n = Emits-bind _ _ (decommission-Emits leave n true) (λ r.
      Emits-on_error _ _ _ (λ e. Emits-pure _)
        (Emits-if (not r.0) _ _ (Emits-pure _) (
          Emits-bind _ _ (client_of-Emits _ _) (λ c.
            Emits-bind _ _ (peer_at-Emits n)
              (λ p. Emits-bind _ _ (Emits-ask _ _ (remove c p.id)) (λ e. Emits-pure _))))))

-- A call of UpdateStatefulSetPods with the manager of an indexer cluster that returns makes at most
-- one deletion of a pod, and none unless it reports that it is updating or that there was an error.
pub indexers-deletes :
    (env : Env) (cr : IndexerCr) (ss : StatefulSet) (desired : ℤ) (s s' : State IndexerState)
    (o : Outcome)
    → update_stateful_set_pods env (indexer_manager env cr) ss desired s ≡ some (o, s')
    → total pod_deletion s'.calls ≤ total pod_deletion s.calls + may_delete o.phase
unfolding indexer_manager prepare_recycle
indexers-deletes env cr ss desired =
    update_stateful_set_pods-deletes env (indexer_manager env cr) ss desired
      (prepare_scale_down-Emits env cr (λ _. refl) (λ _. refl) (λ _ _. refl) (λ _ _. refl))
      (λ n. decommission-Emits env cr (λ _. refl) (λ _. refl) (λ _ _. refl) n false)
      (finish_recycle-Emits env cr (λ _. refl) (λ _. refl))
