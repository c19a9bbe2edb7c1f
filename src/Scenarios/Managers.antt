-- ===== src/Scenarios/Managers.antt =====
-- Runs of the pod managers of search head clusters and indexer clusters.
use infra_devops.Base.{
  ◌+◌, ◌≤◌, String, Bool, true, false, Option, none, [], ◌∷◌, Err, length, ◌≡◌, ◌≢◌, refl,
}
use infra_devops.Base.Int.{pos, dec32, to_ℕ}
use infra_devops.Base.Dict.{Dict, lookup}
use infra_devops.Common.Names.{ready}
use infra_devops.Common.Meta.{MetaObject}
use infra_devops.Cluster.{PeerInfo, State, pure, ask, gets, modify, ◌>>=◌}
use infra_devops.Cluster.Costs.{total}
use infra_devops.Util.Resource.{fetch_pod, fetch_secret, remove_pod}
use infra_devops.Util.Tokens.{find_secret_name, get_specific_secret_token_from_pod}
use infra_devops.Control.Pods.{Outcome, done, update_stateful_set_pods}
use infra_devops.Control.Pods.Deletions.{pod_deletion, may_delete}
use infra_devops.Enterprise.SearchHeads.{
  SearchHeadStatus, MemberStatus, known_member, unknown_member, search_head_manager, put_at,
}
use infra_devops.Enterprise.SearchHeads
use infra_devops.Enterprise.SearchHeads.Removal.{
  IsQuarantined, prepare_recycle-IsQuarantined, prepare_scale_down-IsQuarantined,
}
use infra_devops.Enterprise.SearchHeads.Deletions.{search_heads-deletes}
use infra_devops.Enterprise.SearchHeads.Members.{update_status-members}
use infra_devops.Enterprise.Indexers.{
  PeerStatus, IndexerState, IndexerCr, peer_name, known_peer, unknown_peer, current_peers,
  indexer_manager,
}
use infra_devops.Enterprise.Indexers
use infra_devops.Enterprise.Indexers.Decommission.{
  IsDecommissioned, prepare_recycle-IsDecommissioned, prepare_scale_down-IsDecommissioned,
  indexers-deletes,
}
use infra_devops.Enterprise.Indexers.Status.{Answered, Reported, update_status-peers}
use infra_devops.Cluster.Runs.{Runs}
use infra_devops.Scenarios.World.{world, indexers, begin, result_of}

abbrev cluster_cr : MetaObject
cluster_cr = record {
  api_version = "v1";
  kind = "SearchHeadCluster";
  name = "c";
  namespace = "ns";
  uid = "u";
}

abbrev member : String → MemberStatus
member status = record {
  name = "m";
  status = status;
  adhoc = false;
  registered = true;
  active_historical_search_count = pos 0;
  active_realtime_search_count = pos 0;
}

abbrev heads : String → SearchHeadStatus
heads status = record {
  ready_replicas = pos 2;
  captain = "";
  captain_ready = true;
  initialized = true;
  min_peers_joined = true;
  maintenance_mode = false;
  shc_secret_changed = [];
  admin_secret_changed = [];
  admin_password_changed_secrets = [];
  namespace_secret_resource_version = "1";
  members = member status ∷ member status ∷ member status ∷ [];
}

abbrev recycle_run : (Bool × Option Err) × State SearchHeadStatus
recycle_run =
    result_of ((true, none), begin (heads ""))
      (SearchHeads.prepare_recycle (world "b") cluster_cr (pos 1) (begin (heads "ManualDetention")))

prepare_recycle-IsQuarantined_example : IsQuarantined (heads "ManualDetention") 1
unfolding SearchHeads.prepare_recycle pure gets ◌>>=◌
prepare_recycle-IsQuarantined_example =
    prepare_recycle-IsQuarantined (world "b") cluster_cr 1 (begin (heads "ManualDetention"))
      recycle_run.1 none refl

abbrev removal_run : (Bool × Option Err) × State SearchHeadStatus
removal_run =
    result_of ((true, none), begin (heads ""))
      (SearchHeads.prepare_scale_down (world "b") cluster_cr (pos 1)
        (begin (heads "ManualDetention")))

prepare_scale_down-IsQuarantined_example : IsQuarantined (heads "ManualDetention") 1
unfolding SearchHeads.prepare_scale_down pure gets ◌>>=◌ get_specific_secret_token_from_pod
    fetch_pod ask find_secret_name fetch_secret
prepare_scale_down-IsQuarantined_example =
    prepare_scale_down-IsQuarantined (world "b") cluster_cr 1 (begin (heads "ManualDetention"))
      removal_run.1 none refl

-- The outdated pods of a cluster whose members are detained: the last pod is deleted.
abbrev heads_run : Outcome × State SearchHeadStatus
heads_run =
    result_of (done ready (indexers (pos 2)), begin (heads ""))
      (update_stateful_set_pods (world "a") (search_head_manager (world "a") cluster_cr)
        (indexers (pos 2)) (pos 2) (begin (heads "ManualDetention")))

search_heads-deletes_example :
    total pod_deletion heads_run.1.calls ≤ 0 + may_delete heads_run.0.phase
unfolding update_stateful_set_pods search_head_manager pure gets ◌>>=◌ dec32 fetch_pod lookup
    remove_pod ask
search_heads-deletes_example =
    search_heads-deletes (world "a") cluster_cr (indexers (pos 2)) (pos 2)
      (begin (heads "ManualDetention")) heads_run.1 heads_run.0 refl

-- Three members are left of a larger cluster.
abbrev status_run : Unit {0} × State SearchHeadStatus
status_run =
    result_of (tt, begin (heads ""))
      (SearchHeads.update_status (world "b") cluster_cr (indexers (pos 2)) (begin (heads "Up")))

update_status-members_example : length status_run.1.own.members ≡ 2
unfolding SearchHeads.update_status pure gets modify ◌>>=◌ to_ℕ SearchHeads.get_client
    get_specific_secret_token_from_pod fetch_pod ask find_secret_name fetch_secret
update_status-members_example =
    update_status-members (world "b") cluster_cr (indexers (pos 2)) (begin (heads "Up"))
      status_run.1 tt refl refl

abbrev indexer_cr : IndexerCr
indexer_cr = record { meta = cluster_cr; master_ref = "cm" }

abbrev peer : String → PeerStatus
peer status = record {
  id = "id";
  name = "p";
  status = status;
  active_bundle_id = "";
  bucket_count = pos 0;
  searchable = true;
}

abbrev peers_of : String → IndexerState
peers_of status = record {
  replicas = pos 2;
  cluster_master_phase = ready;
  ready_replicas = pos 2;
  initialized = true;
  indexing_ready = true;
  service_ready = true;
  maintenance_mode = false;
  indexer_secret_changed = [];
  namespace_secret_resource_version = "1";
  idxc_password_changed_secrets = [];
  peers = peer status ∷ peer status ∷ [];
}

abbrev peer_run : (Bool × Option Err) × State IndexerState
peer_run =
    result_of ((true, none), begin (peers_of ""))
      (Indexers.prepare_recycle (world "b") indexer_cr (pos 1) (begin (peers_of "Down")))

prepare_recycle-IsDecommissioned_example : IsDecommissioned (peers_of "Down") 1
unfolding Indexers.prepare_recycle pure gets ◌>>=◌
prepare_recycle-IsDecommissioned_example =
    prepare_recycle-IsDecommissioned (world "b") indexer_cr 1 (begin (peers_of "Down")) peer_run.1
      none refl

abbrev peer_removal_run : (Bool × Option Err) × State IndexerState
peer_removal_run =
    result_of ((true, none), begin (peers_of ""))
      (Indexers.prepare_scale_down (world "b") indexer_cr (pos 1) (begin (peers_of "Down")))

prepare_scale_down-IsDecommissioned_example : IsDecommissioned (peers_of "Down") 1
unfolding Indexers.prepare_scale_down pure gets ◌>>=◌ get_specific_secret_token_from_pod fetch_pod
    ask find_secret_name fetch_secret
prepare_scale_down-IsDecommissioned_example =
    prepare_scale_down-IsDecommissioned (world "b") indexer_cr 1 (begin (peers_of "Down"))
      peer_removal_run.1 none refl

abbrev indexers_run : Outcome × State IndexerState
indexers_run =
    result_of (done ready (indexers (pos 2)), begin (peers_of ""))
      (update_stateful_set_pods (world "a") (indexer_manager (world "a") indexer_cr)
        (indexers (pos 2)) (pos 2) (begin (peers_of "Down")))

indexers-deletes_example :
    total pod_deletion indexers_run.1.calls ≤ 0 + may_delete indexers_run.0.phase
unfolding update_stateful_set_pods indexer_manager pure gets ◌>>=◌ dec32 fetch_pod lookup remove_pod
    ask
indexers-deletes_example =
    indexers-deletes (world "a") indexer_cr (indexers (pos 2)) (pos 2) (begin (peers_of "Down"))
      indexers_run.1 indexers_run.0 refl

-- The cluster master knows no peer; three were known before.
abbrev three_peers : IndexerState
three_peers = record (peers_of "Down") {
  cluster_master_phase = ready;
  peers = peer "a" ∷ peer "b" ∷ peer "c" ∷ [];
}

update_status-peers_example :
    Runs
      (Indexers.update_status (world "b") indexer_cr (indexers (pos 2)))
      (begin three_peers)
      (λ e s'.
        (e ≡ none
          → (infos : Dict PeerInfo) × Answered (world "b") indexer_cr infos s'.calls
            × Reported (world "b") indexer_cr 2 infos s'.own)
        × (e ≢ none → s'.own.peers ≡ peer "a" ∷ peer "b" ∷ peer "c" ∷ [])
        × (s'.own.ready_replicas ≡ (indexers (pos 2)).ready_replicas))
unfolding to_ℕ
update_status-peers_example =
    update_status-peers (world "b") indexer_cr (indexers (pos 2)) (begin three_peers)
