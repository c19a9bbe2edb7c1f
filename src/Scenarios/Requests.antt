-- ===== src/Scenarios/Requests.antt =====
-- Concrete inputs of the theorems on the client of the REST API.
use infra_devops.Base.{
  ◌++◌, true, String, none, List, [], ◌∷◌, message, ok, err, ◌≡◌, ◌≢◌, ◌↔◌, refl,
}
use infra_devops.Base.Int.{pos}
use infra_devops.Base.Dict.{lookup}
use infra_devops.Cluster.{SplunkClient}
use infra_devops.Cluster.Runs.{Runs}
use infra_devops.Client.{Http, Response, Named, MasterPeer, DistributedPeer}
use infra_devops.Client.Calls.{index_peers, remove_search_head_cluster_member}
use infra_devops.Client.Answers.{reported_peer, index_peers_lem}
use infra_devops.Client.Removal.{
  Confirms, removal_request, remove_search_head_cluster_member-Confirms,
}
use infra_devops.Client.Console.{add_peers, add_own_roles, update_dmc_clustering_label_group}
use infra_devops.Client.Members.{text_of, once_for_each, with_role, localhost, member_lists_lem}
use infra_devops.Client.Refusals.{label_url, update_dmc_clustering_label_group-panics}
use infra_devops.Scenarios.World.{begin}

abbrev splunk : SplunkClient
splunk = record { uri = "https://s:8089"; password = "pw" }

-- A transport that answers each request with a 503, and URLs that are all accepted.
abbrev unavailable : Http
unavailable = record {
  refuses = λ method url. none;
  send = λ sent request. ok (record { status_code = 503; body = "{}" });
  captains = λ s. err (message "");
  captain_members = λ s. err (message "");
  members = λ s. err (message "");
  masters = λ s. err (message "");
  slaves = λ s. err (message "");
  master_peers = λ s. err (message "");
  cluster_infos = λ s. err (message "");
  messages = λ s. ok ("This node is not part of any cluster configuration" ∷ []);
  server_roles = λ s. err (message "");
  distributed_peers = λ s. err (message "");
  asset_tables = λ s. err (message "");
  ui_settings = λ s. err (message "");
}

remove_search_head_cluster_member-Confirms_example :
    Runs (remove_search_head_cluster_member unavailable splunk) (begin []) (λ e s'.
      (s'.own ≡ removal_request unavailable splunk ∷ [])
      × ((e ≡ none) ↔ (
          (response : Response) × (unavailable.send [] (removal_request unavailable splunk)
            ≡ ok response)
          × Confirms unavailable response)))
remove_search_head_cluster_member-Confirms_example =
    remove_search_head_cluster_member-Confirms unavailable splunk (begin []) refl

abbrev peer_entry : String → String → Named MasterPeer
peer_entry guid label = record {
  name = guid;
  content = record {
    label = label;
    info = record {
      id = "";
      status = "Up";
      active_bundle_id = "";
      bucket_count = pos 0;
      searchable = true;
    };
  };
}

index_peers_lem_example :
    lookup "idx-0" (index_peers [] (peer_entry "a" "idx-0" ∷ peer_entry "b" "idx-0" ∷ []))
    ≡ reported_peer "idx-0" (peer_entry "a" "idx-0" ∷ peer_entry "b" "idx-0" ∷ [])
index_peers_lem_example =
    index_peers_lem "idx-0" (peer_entry "a" "idx-0" ∷ peer_entry "b" "idx-0" ∷ [])

abbrev console_peer : String → List String → Named DistributedPeer
console_peer name roles = record {
  name = name;
  content = record { cluster_label = []; server_roles = roles };
}

member_lists_lem_example :
    let lists = add_own_roles ("license_master" ∷ []) (
      add_peers
        (console_peer "p:8089" ("indexer" ∷ "license_master" ∷ []) ∷ [])
        (record { configured = ""; indexers = ""; license_masters = "" })) in
    (lists.indexers
      ≡ text_of (
          once_for_each "indexer" localhost ("license_master" ∷ [])
          ++ with_role "indexer" (console_peer "p:8089" ("indexer" ∷ "license_master" ∷ []) ∷ [])))
    × (lists.license_masters
        ≡ text_of (
            with_role "license_master"
              (console_peer "p:8089" ("indexer" ∷ "license_master" ∷ []) ∷ [])
            ++ once_for_each "license_master" localhost ("license_master" ∷ [])))
member_lists_lem_example =
    member_lists_lem ("license_master" ∷ [])
      (console_peer "p:8089" ("indexer" ∷ "license_master" ∷ []) ∷ [])

update_dmc_clustering_label_group-panics_example :
    (update_dmc_clustering_label_group unavailable splunk "site%" "" (begin []) ≡ none)
    ↔ (unavailable.refuses "POST" (label_url unavailable splunk "site%") ≢ none)
update_dmc_clustering_label_group-panics_example =
    update_dmc_clustering_label_group-panics unavailable splunk "site%" "" (begin [])
