-- ===== src/Client/Calls.antt =====
-- The operations on search heads, indexers and their cluster master: pkg/splunk/client/enterprise.go.
use infra_devops.Base.{
  String, Bool, true, if◌then◌else◌, str_eq, Option, none, some, List, [], ◌∷◌, message, error_text,
  Err, Result, ok, err, on_error, on_result, ◌==◌,
}
use infra_devops.Base.Text.{◌<>◌}
use infra_devops.Base.Dict.{Dict, insert}
use infra_devops.Cluster.{
  SplunkClient, MemberInfo, CaptainInfo, MasterInfo, PeerInfo, ClusterInfo, pure, ◌>>=◌,
}
use infra_devops.Client.{
  Http, Response, Named, CaptainMember, MasterPeer, SlaveInfo, Rest, transmit, do_plain, get,
  get_first, post, new_request, wrong_code,
}
use infra_devops.Client.Patterns.{already_removed}

-- members[e.Content.Label] = e.Content, for each entry
unfoldable pub index_members : Dict CaptainMember → List CaptainMember → Dict CaptainMember
index_members acc [] = acc
index_members acc (m ∷ ms) = index_members (insert m.label m acc) ms

-- The same for peers, whose ID is the entry's name.
unfoldable pub index_peers : Dict PeerInfo → List (Named MasterPeer) → Dict PeerInfo
index_peers acc [] = acc
index_peers acc (e ∷ es) =
    index_peers (insert e.content.label (record (e.content.info) { id = e.name }) acc) es

-- The messages of a 503 response to the removal of a member.
unfoldable pub judge_messages : String → List String → Option Err
judge_messages url [] = some (message ("Received 503 response with empty Messages from " <> url))
judge_messages url (text ∷ texts) =
    if already_removed text
    then none
    else some (message ("Received unrecognized 503 response from " <> url))

module _ (http : Http) (c : SplunkClient) where
  unfoldable pub get_search_head_captain_info : Rest (Result CaptainInfo)
  get_search_head_captain_info = get_first http c http.captains "/services/shcluster/captain/info"

  unfoldable pub get_search_head_captain_members : Rest (Result (Dict CaptainMember))
  unfolding index_members
  get_search_head_captain_members = do
    r ← get http c http.captain_members "/services/shcluster/captain/members"
    pure (on_result r (λ e. err e) (λ ms. ok (index_members [] ms)))

  unfoldable pub get_search_head_cluster_member_info : Rest (Result MemberInfo)
  get_search_head_cluster_member_info =
      get_first http c http.members "/services/shcluster/member/info"

  unfoldable pub set_search_head_detention : Bool → Rest (Option Err)
  set_search_head_detention detain = post http c (
      c.uri
      <> "/services/shcluster/member/control/control/set_manual_detention?manual_detention="
      <> (if detain then "on" else "off"))

  -- A 503 response.
  unfoldable pub judge_unavailable : String → String → Option Err
  unfolding judge_messages
  judge_unavailable url body =
      if str_eq body ""
      then some (message ("Received 503 response with empty body from " <> url))
      else on_result (http.messages body)
          (λ e.
            some (message ("Failed to unmarshal response from " <> url <> ": " <> error_text e)))
          (judge_messages url)

  -- The response to the removal of a member.
  unfoldable pub judge_removal : String → Response → Option Err
  unfolding judge_unavailable wrong_code
  judge_removal url response =
      if response.status_code == 200
      then none
      else if response.status_code == 503
      then judge_unavailable url response.body
      else some (wrong_code response.status_code url "200")

  unfoldable pub remove_search_head_cluster_member : Rest (Option Err)
  unfolding judge_removal
  remove_search_head_cluster_member = do
    let endpoint =
        c.uri <> "/services/shcluster/member/consensus/default/remove_server?output_mode=json"
    on_error (http.refuses "POST" endpoint) (λ e. pure (some e))
        (do
          r ← transmit http c (new_request http c "POST" endpoint "")
          pure (on_result r (λ e. some e) (judge_removal endpoint)))

  unfoldable pub get_cluster_master_info : Rest (Result MasterInfo)
  get_cluster_master_info = get_first http c http.masters "/services/cluster/master/info"

  unfoldable pub get_indexer_cluster_peer_info : Rest (Result SlaveInfo)
  get_indexer_cluster_peer_info = get_first http c http.slaves "/services/cluster/slave/info"

  unfoldable pub get_cluster_master_peers : Rest (Result (Dict PeerInfo))
  unfolding index_peers
  get_cluster_master_peers = do
    r ← get http c http.master_peers "/services/cluster/master/peers"
    pure (on_result r (λ e. err e) (λ es. ok (index_peers [] es)))

  unfoldable pub remove_indexer_cluster_peer : String → Rest (Option Err)
  remove_indexer_cluster_peer id =
      post http c (c.uri <> "/services/cluster/master/control/control/remove_peers?peers=" <> id)

  unfoldable pub decommission_indexer_cluster_peer : Bool → Rest (Option Err)
  decommission_indexer_cluster_peer enforce_counts = post http c (
      c.uri
      <> "/services/cluster/slave/control/control/decommission?enforce_counts="
      <> (if enforce_counts then "1" else "0"))

  unfoldable pub bundle_push : Bool → Rest (Option Err)
  bundle_push ignore_identical_bundle = do
    let endpoint = c.uri <> "/services/cluster/master/control/default/apply"
    let body = "&ignore_identical_bundle=" <> (if ignore_identical_bundle then "true" else "false")
    on_error (http.refuses "POST" endpoint) (λ e. pure (some e))
        (do_plain http c (new_request http c "POST" endpoint body) (200 ∷ []))

  -- `none` is the nil answer of a mocked call.
  unfoldable pub get_cluster_info : Bool → Rest (Result (Option ClusterInfo))
  get_cluster_info mock_call = if mock_call then pure (ok none) else do
    r ← get_first http c http.cluster_infos "/services/cluster/config"
    pure (on_result r (λ e. err e) (λ info. ok (some info)))

  unfoldable pub set_idxc_secret : String → Rest (Option Err)
  set_idxc_secret idxc_secret = do
    let endpoint = c.uri <> "/services/cluster/config/config?secret=" <> idxc_secret
    on_error (http.refuses "POST" endpoint) (λ e. pure (some e))
        (do_plain http c (record (new_request http c "POST" endpoint "") { form = true })
          (200 ∷ []))

  unfoldable pub restart_splunk : Rest (Option Err)
  restart_splunk = post http c (c.uri <> "/services/server/control/restart")
