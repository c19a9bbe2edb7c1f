-- ===== src/Enterprise/Indexers/Status.antt =====
-- The status after updateStatus of indexer clusters.
use infra_devops.Base.{
  ℕ, ◌<◌, String, Option, none, some, ◌∷◌, Err, ok, not, length, get_elem?, ◌≡◌, ◌≢◌, refl, str_eq,
  ◌==◌, on_option,
}
use infra_devops.Base.Int.{to_ℕ, pos}
use infra_devops.Base.Dict.{Dict, lookup}
use infra_devops.Common.Names.{ready_phase}
use infra_devops.Cluster.{StatefulSet, Env, State, PeerInfo, SplunkClient, History, master_peers}
use infra_devops.Cluster.Runs.{
  Runs, Runs-pure, Runs-ask, Runs-gets, Runs-bind, Runs-modify, Runs-if, Runs-on_result, Runs-still,
  Still, Still-pure, Still-ask, Still-if, Still-bind, Still-on_result, still_rules,
}
use infra_devops.Util.Resource.{fetch_pod, fetch_secret}
use infra_devops.Util.Tokens.{
  get_secret_from_pod, get_specific_secret_token_from_pod, find_secret_name,
}
use infra_devops.Enterprise.Indexers.{
  IndexerState, IndexerCr, peer_name, known_peer, unknown_peer, get_cluster_master_client,
  update_status,
}
use infra_devops.Enterprise.Indexers.Peers.{current_peers-reported}

module _ (env : Env) (cr : IndexerCr) where
  get_secret-Still :
      (name namespace : String) → Still {S = IndexerState} (get_secret_from_pod env name namespace)
  unfolding get_secret_from_pod fetch_pod fetch_secret
  get_secret-Still name namespace = Still-bind _ _ (Still-ask _ _) (λ r.
      Still-on_result r _ _ (λ e. Still-pure _)
        (λ p. Still-if (length p.volumes == 0) _ _ (Still-pure _) (
          Still-if (str_eq (find_secret_name p.volumes) "") _ _ (Still-pure _)
            (Still-bind _ _ (Still-ask _ _) (λ s. Still-pure _)))))

  client-Still : Still (get_cluster_master_client env cr)
  unfolding get_cluster_master_client get_specific_secret_token_from_pod
  client-Still = search (still_rules, get_secret-Still)

  -- The peers are `n`, and each is what the answer `infos` of the cluster master has under its pod's
  -- name.
  pub record Reported (n : ℕ) (infos : Dict PeerInfo) (s : IndexerState) : Type 0 where
    pub count : length s.peers ≡ n
    pub each :
        (i : ℕ)
        → i < n
        → get_elem? s.peers i
          ≡ some (
              on_option
                (lookup (peer_name cr (pos i)) infos)
                (unknown_peer (peer_name cr (pos i)))
                (known_peer (peer_name cr (pos i))))

  -- The latest call asked for the peers, and the answer was `infos`.
  pub record Answered (infos : Dict PeerInfo) (h : History) : Type 0 where
    pub client : SplunkClient
    pub earlier : History
    pub latest : h ≡ master_peers client ∷ earlier
    pub answer : env.peers earlier client ≡ ok infos

  never : {X : Type 0} {e : Err} → ◌≡◌ {A = Option Err} (some e) none → X
  never h = absurd (cc h)

  -- updateStatus returns. Without an error it has asked the cluster master for its peers, and there are
  -- then as many peers as the stateful set has replicas, each as the cluster master reports it, whatever
  -- the peers were before; with an error the peers are as they were. The ready replicas are those of the
  -- stateful set in any case.
  pub update_status-peers :
      (ss : StatefulSet) (s : State IndexerState)
      → Runs (update_status env cr ss) s (λ e s'.
        (e ≡ none
          → (infos : Dict PeerInfo) × Answered infos s'.calls
            × Reported (to_ℕ ss.status_replicas) infos s'.own)
        × (e ≢ none → s'.own.peers ≡ s.own.peers)
        × (s'.own.ready_replicas ≡ ss.ready_replicas))
  unfolding update_status
  update_status-peers ss s = Runs-bind _ s _ _ (
      Runs-modify _ s _ (
        Runs-bind _ _ _ _ (
          Runs-gets _ _ _ (
            Runs-if _ _ (not (ready_phase s.own.cluster_master_phase)) _ _
              (λ n.
                Runs-bind _ _ _ _ (Runs-modify _ _ _ (Runs-pure _ _ _ (never, λ q. refl, refl))))
              (λ n. Runs-still _ _ _ _ client-Still (λ c h. Runs-bind _ _ _ _ (
                Runs-ask _ _ _ _ (
                  Runs-on_result _ _ (env.master h c) _ _
                    (λ e k. Runs-pure _ _ _ (never, λ q. refl, refl))
                    (λ info k. Runs-bind _ _ _ _ (
                      Runs-modify _ _ _ (
                        Runs-bind _ _ _ _ (
                          Runs-ask _ _ _ _ (
                            Runs-on_result _ _ _ _ _
                              (λ e j. Runs-pure _ _ _ (never, λ q. refl, refl))
                              (λ infos j. Runs-bind _ _ _ _ (
                                Runs-modify _ _ _ (
                                  Runs-pure _ _ _ (
                                    λ q. (
                                      infos,
                                      record { client = c; earlier = _; latest = refl; answer = j },
                                      (let r =
                                            current_peers-reported cr infos
                                              (to_ℕ ss.status_replicas) s.own.peers in
                                          record { count = r.0; each = r.1 }),
                                    ),
                                    λ q. absurd (q refl),
                                    refl,
                                  )))))))))))))))))
