-- ===== src/Enterprise/Indexers.antt =====
-- The pod manager of indexer clusters: pkg/splunk/enterprise/indexercluster.go, without its secrets
-- and its reconciler. The own state of an action is what the code changes of the custom resource.
pub mod Peers
pub mod Status
pub mod Decommission
use infra_devops.Base.{
  ℕ, zero, suc, ◌-◌, ◌^◌, ◌%◌, List, String, Bool, true, false, not, if◌then◌else◌, str_eq, Option,
  none, some, message, Err, Result, ok, err, on_error, on_result, on_option, ltb, length, get_elem?,
  take,
}
use infra_devops.Base.Int.{ℤ, pos, negsuc, ltb_ℤ, to_ℕ}
use infra_devops.Base.Text.{◌<>◌, strip_prefix, atoi}
use infra_devops.Base.Dict.{Dict, lookup}
use infra_devops.Common.Names.{Phase, ready_phase, get_service_fqdn}
use infra_devops.Common.Meta.{MetaObject}
use infra_devops.Cluster.{
  StatefulSet, Env, SplunkClient, MasterInfo, PeerInfo, M, ask, gets, modify, pure, panic, ◌>>=◌,
  ◌>>◌, decommission_peer, remove_peer, master_info, master_peers, cluster_info,
}
use infra_devops.Util.Tokens.{get_specific_secret_token_from_pod}
use infra_devops.Control.Pods.{PodManager}
use infra_devops.Enterprise.Names.{
  indexer, cluster_master, get_splunk_statefulset_pod_name, get_splunk_service_name,
}
use infra_devops.Enterprise.SearchHeads.{put_at}

-- enterprisev1.IndexerClusterMemberStatus
pub record PeerStatus : Type 0 where
  pub id : String
  pub name : String
  pub status : String
  pub active_bundle_id : String
  pub bucket_count : ℤ
  pub searchable : Bool

-- Spec.Replicas, and of enterprisev1.IndexerClusterStatus the fields that not only the reconciler uses
pub record IndexerState : Type 0 where
  pub replicas : ℤ
  pub cluster_master_phase : Phase
  pub ready_replicas : ℤ
  pub initialized : Bool
  pub indexing_ready : Bool
  pub service_ready : Bool
  pub maintenance_mode : Bool
  pub indexer_secret_changed : List Bool
  pub namespace_secret_resource_version : String
  pub idxc_password_changed_secrets : Dict Bool
  pub peers : List PeerStatus

-- The custom resource's metadata and Spec.ClusterMasterRef.Name
pub record IndexerCr : Type 0 where
  pub meta : MetaObject
  pub master_ref : String

unfoldable pub peer_name : IndexerCr → ℤ → String
peer_name cr n = get_splunk_statefulset_pod_name indexer cr.meta.name n

-- Peers[n], which panics out of range
unfoldable pub peer_at : ℤ → M IndexerState PeerStatus
peer_at (negsuc n) = panic
peer_at (pos n) = do peers ← gets (λ s. s.peers); on_option (get_elem? peers n) panic pure

unfoldable pub known_peer : String → PeerInfo → PeerStatus
known_peer name info = record {
  id = info.id;
  name = name;
  status = info.status;
  active_bundle_id = info.active_bundle_id;
  bucket_count = info.bucket_count;
  searchable = info.searchable;
}

unfoldable pub unknown_peer : String → PeerStatus
unknown_peer name = record {
  id = "";
  name = name;
  status = "";
  active_bundle_id = "";
  bucket_count = pos 0;
  searchable = false;
}

-- The loop over the peers `n, …, n + k - 1`, on the list of peers.
unfoldable pub note_peers : IndexerCr → Dict PeerInfo → ℕ → ℕ → List PeerStatus → List PeerStatus
unfolding peer_name known_peer unknown_peer put_at lookup
note_peers cr infos n zero peers = peers
note_peers cr infos n (suc k) peers =
    let name = peer_name cr (pos n) in
    note_peers cr infos (suc n) k
      (put_at n (on_option (lookup name infos) (unknown_peer name) (known_peer name)) peers)

-- The peers after updateStatus: those from `n` on are taken off.
unfoldable pub current_peers : IndexerCr → Dict PeerInfo → ℕ → List PeerStatus → List PeerStatus
unfolding note_peers
current_peers cr infos n peers =
    let noted = note_peers cr infos 0 n peers in
    if ltb n (length noted) then take n noted else noted

unfoldable pub note_master : MasterInfo → IndexerState → IndexerState
note_master info s = record s {
  initialized = info.initialized;
  indexing_ready = info.indexing_ready;
  service_ready = info.service_ready;
  maintenance_mode = info.maintenance_mode;
}

unfoldable pub no_master : IndexerState → IndexerState
no_master s = record s {
  initialized = false;
  indexing_ready = false;
  service_ready = false;
  maintenance_mode = false;
}

-- int32(n) of an int64
unfoldable pub to_int32 : ℤ → ℤ
to_int32 (pos n) = let m = n % 2 ^ 32 in if ltb m (2 ^ 31) then pos m else negsuc (2 ^ 32 - 1 - m)
to_int32 (negsuc n) =
    let m = n % 2 ^ 32 in if ltb m (2 ^ 31) then negsuc m else pos (2 ^ 32 - 1 - m)

before_last_comma : String → Option String
before_last_comma String.[] = none
before_last_comma (String.◌∷◌ c s) =
    on_option (before_last_comma s)
      (on_option (strip_prefix "," (String.◌∷◌ c s)) none (λ _. some ""))
      (λ t. some (String.◌∷◌ c t))

-- The group of the regular expression ".*origin:(?P<rf>.*),.*", on a text of one line.
unfoldable pub origin_group : String → Option String
unfolding before_last_comma
origin_group String.[] = none
origin_group (String.◌∷◌ c s) =
    on_option (origin_group s)
      (on_option (strip_prefix "origin:" (String.◌∷◌ c s)) none before_last_comma) (λ t. some t)

-- match[1] panics where there is no match, which is `none`; a syntax error of Atoi leaves 0. A number
-- outside int64 is 0 as well, where the source has -1 if it is positive: both are below a count.
unfoldable pub get_site_rep_factor_origin_count : String → Option ℤ
unfolding origin_group to_int32
get_site_rep_factor_origin_count factor =
    on_option (origin_group factor) none (λ t. some (on_option (atoi t) (pos 0) to_int32))

module _ (env : Env) (cr : IndexerCr) where
  client_of : String → String → M IndexerState SplunkClient
  client_of pod host = do
    password ← get_specific_secret_token_from_pod env pod cr.meta.namespace "password"
    pure (record {
      uri = "https://" <> get_service_fqdn env.cluster_domain cr.meta.namespace host <> ":8089";
      password = on_result password (λ _. "") (λ p. p);
    })

  unfoldable pub get_client : ℤ → M IndexerState SplunkClient
  unfolding client_of peer_name
  get_client n =
      client_of (peer_name cr n)
        (peer_name cr n <> "." <> get_splunk_service_name indexer cr.meta.name true)

  unfoldable pub get_cluster_master_client : M IndexerState SplunkClient
  unfolding client_of
  get_cluster_master_client =
      client_of ("splunk-" <> cr.master_ref <> "-cluster-master-0")
        (get_splunk_service_name cluster_master cr.master_ref false)

  unfoldable pub decommission : ℤ → Bool → M IndexerState (Bool × Option Err)
  unfolding peer_at get_client
  decommission n enforce_counts = do
    p ← peer_at n
    if str_eq p.status "Up"
        then (do
          c ← get_client n
          e ←
              ask (decommission_peer c enforce_counts)
                (λ h. env.peer_decommissioned h c enforce_counts)
          pure (false, e))
        else if str_eq p.status "Decommissioning"
        then pure (false, none)
        else if str_eq p.status "ReassigningPrimaries"
        then pure (false, none)
        else if str_eq p.status "GracefulShutdown"
        then pure (true, none)
        else if str_eq p.status "Down"
        then pure (true, none)
        else if str_eq p.status ""
        then pure (false, none)
        else pure (false, some (message ("Status=" <> p.status)))

  unfoldable pub prepare_scale_down : ℤ → M IndexerState (Bool × Option Err)
  unfolding decommission get_cluster_master_client peer_at
  prepare_scale_down n = do
    (complete, e) ← decommission n true
    on_error e (λ e. pure (false, some e))
        (if not complete then pure (false, none) else do
          c ← get_cluster_master_client
          p ← peer_at n
          e ← ask (remove_peer c p.id) (λ h. env.peer_removed h c p.id)
          pure (true, e))

  unfoldable pub prepare_recycle : ℤ → M IndexerState (Bool × Option Err)
  unfolding decommission
  prepare_recycle n = decommission n false

  unfoldable pub finish_recycle : ℤ → M IndexerState (Bool × Option Err)
  unfolding peer_at
  finish_recycle n = do
    peers ← gets (λ s. s.peers)
    if not (ltb_ℤ n (pos (length peers)))
        then pure (false, some (message "Incorrect Peer"))
        else do p ← peer_at n; pure (str_eq p.status "Up", none)

  -- indexerClusterPodManager
  unfoldable pub indexer_manager : PodManager IndexerState
  unfolding prepare_scale_down prepare_recycle finish_recycle
  indexer_manager = record {
    prepare_scale_down = prepare_scale_down;
    prepare_recycle = prepare_recycle;
    finish_recycle = finish_recycle;
  }

  unfoldable pub raise_replicas : ℤ → IndexerState → IndexerState
  raise_replicas factor s = record s {
    replicas = if ltb_ℤ s.replicas factor then factor else s.replicas;
  }

  unfoldable pub verify_rf_peers : M IndexerState (Option Err)
  unfolding get_cluster_master_client get_site_rep_factor_origin_count raise_replicas
  verify_rf_peers = do
    c ← get_cluster_master_client
    r ← ask (cluster_info c) (λ h. env.cluster h c)
    on_result r (λ _. pure (some (message "Could not get cluster info from cluster master")))
        λ info. do
          factor ←
              if str_eq info.multi_site "true"
              then on_option (get_site_rep_factor_origin_count info.site_replication_factor) panic
                  pure
              else pure info.replication_factor
          modify (raise_replicas factor) >> pure none

  unfoldable pub update_status : StatefulSet → M IndexerState (Option Err)
  unfolding get_cluster_master_client note_master no_master current_peers
  update_status ss = do
    modify (λ s. record s { ready_replicas = ss.ready_replicas })
    phase ← gets (λ s. s.cluster_master_phase)
    if not (ready_phase phase)
        then modify no_master >> pure (some (message "Waiting for cluster master to become ready"))
        else do
          c ← get_cluster_master_client
          r ← ask (master_info c) (λ h. env.master h c)
          on_result r (λ e. pure (some e))
              λ info. do
                modify (note_master info)
                r ← ask (master_peers c) (λ h. env.peers h c)
                on_result r (λ e. pure (some e))
                    (λ infos.
                      modify (λ s. record s {
                        peers = current_peers cr infos (to_ℕ ss.status_replicas) s.peers;
                      })
                      >> pure none)
