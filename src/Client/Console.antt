-- ===== src/Client/Console.antt =====
-- The operations on the monitoring console of pkg/splunk/client/enterprise.go. Where the code goes on
-- with the nil request that http.NewRequest returns with an error, it panics.
use infra_devops.Base.{
  ℕ, String, Bool, true, if◌then◌else◌, str_eq, Option, none, some, List, [], ◌∷◌, ◌++◌, Err,
  Result, on_error, on_result, on_option,
}
use infra_devops.Base.Text.{◌<>◌, itoa}
use infra_devops.Base.Dict.{Dict, lookup, insert}
use infra_devops.Cluster.{SplunkClient, pure, panic, ◌>>=◌}
use infra_devops.Client.{
  Http, Request, Named, DistributedPeer, AssetTable, UiSettings, Rest, do_plain, get, get_first,
  new_request,
}

-- "&member=" + name
abbrev pub member_text : String → String
member_text name = "&member=" <> name

-- The loop over the roles of a peer: the two member lists.
unfoldable pub add_roles : String → List String → String → String → String × String
add_roles name [] indexers masters = (indexers, masters)
add_roles name (role ∷ roles) indexers masters =
    add_roles name roles (if str_eq role "indexer" then indexers <> member_text name else indexers)
      (if str_eq role "license_master" then masters <> member_text name else masters)

-- The three texts that the loop over the peers fills.
pub record Lists : Type 0 where
  pub configured : String
  pub indexers : String
  pub license_masters : String

unfoldable pub add_peers : List (Named DistributedPeer) → Lists → Lists
unfolding add_roles
add_peers [] l = l
add_peers (e ∷ es) l =
    let (indexers, masters) =
      add_roles e.name e.content.server_roles l.indexers l.license_masters in
    add_peers es (record {
      configured = if str_eq l.configured "" then e.name else l.configured <> "," <> e.name;
      indexers = indexers;
      license_masters = masters;
    })

-- The loop over the roles of the console itself.
unfoldable pub add_own_roles : List String → Lists → Lists
add_own_roles [] l = l
add_own_roles (role ∷ roles) l = add_own_roles roles (record l {
  indexers =
      if str_eq role "indexer" then "&member=localhost:localhost" <> l.indexers else l.indexers;
  license_masters =
      if str_eq role "license_master"
      then l.license_masters <> "&member=localhost:localhost"
      else l.license_masters;
})

-- m[key] = append(m[key], value)
append_at : String → String → Dict (List String) → Dict (List String)
append_at key value m = insert key (on_option (lookup key m) [] (λ l. l) ++ value ∷ []) m

labels_of : String → List String → Dict (List String) → Dict (List String)
unfolding append_at
labels_of name [] m = m
labels_of name (label ∷ labels) m = labels_of name labels (append_at name label m)

-- The labels of each peer.
unfoldable pub cluster_labels :
    List (Named DistributedPeer) → Dict (List String) → Dict (List String)
unfolding labels_of
cluster_labels [] m = m
cluster_labels (e ∷ es) m = cluster_labels es (labels_of e.name e.content.cluster_label m)

peers_under : String → List String → Dict (List String) → Dict (List String)
unfolding append_at
peers_under name [] m = m
peers_under name (label ∷ labels) m = peers_under name labels (append_at label name m)

-- The peers of each label; a Go map is ranged over in the order of the association list.
unfoldable pub peers_by_label : Dict (List String) → Dict (List String) → Dict (List String)
unfolding peers_under
peers_by_label [] m = m
peers_by_label ((name, labels) ∷ rest) m = peers_by_label rest (peers_under name labels m)

unfoldable pub members_text : List String → String → String
members_text [] acc = acc
members_text (name ∷ names) acc = members_text names (acc <> member_text name)

module _ (http : Http) (c : SplunkClient) where
  -- A request whose refusal is not looked at.
  unfoldable pub post_unchecked : Request → List ℕ → Rest (Option Err)
  post_unchecked request expected =
      on_error (http.refuses "POST" request.url) (λ e. panic) (do_plain http c request expected)

  abbrev edited : List ℕ
  edited = 200 ∷ 201 ∷ 409 ∷ []

  unfoldable pub get_monitoringconsole_server_roles : Rest (Result (List String))
  get_monitoringconsole_server_roles =
      get_first http c http.server_roles "/services/server/info/server-info"

  unfoldable pub update_dmc_groups : String → String → Rest (Option Err)
  unfolding post_unchecked
  update_dmc_groups group members =
      post_unchecked
        (new_request http c "POST"
          (c.uri <> "/services/search/distributed/groups/" <> group <> "/edit") members)
        edited

  unfoldable pub update_dmc_clustering_label_group : String → String → Rest (Option Err)
  unfolding post_unchecked
  update_dmc_clustering_label_group group members =
      post_unchecked
        (new_request http c "POST"
          (c.uri <> "/services/search/distributed/groups/dmc_indexerclustergroup_" <> group
            <> "/edit")
          (members <> "&default=false"))
        edited

  -- The loop over the labels, which ends at an empty one.
  unfoldable pub update_labels : Dict (List String) → Rest (Option Err)
  unfolding update_dmc_clustering_label_group members_text
  update_labels [] = pure none
  update_labels ((label, names) ∷ rest) = if str_eq label "" then pure none else do
    e ← update_dmc_clustering_label_group label (members_text names "")
    on_error e (λ e. pure (some e)) (update_labels rest)

  unfoldable pub get_monitoringconsole_asset_table : Rest (Result AssetTable)
  get_monitoringconsole_asset_table =
      get_first http c http.asset_tables
        "/servicesNS/nobody/splunk_monitoring_console/saved/searches/DMC%20Asset%20-%20Build%20Full"

  unfoldable pub post_monitoring_console_asset_table : AssetTable → Rest (Option Err)
  unfolding post_unchecked
  post_monitoring_console_asset_table table =
      post_unchecked
        (record (new_request http c "POST"
          (c.uri
            <> "/servicesNS/nobody/splunk_monitoring_console/saved/searches/DMC%20Asset%20-%20Build%20Full/dispatch")
          ("&trigger_actions=true&dispatch.auto_cancel="
            <> table.dispatch_auto_cancel
            <> "&dispatch.buckets="
            <> itoa table.dispatch_buckets
            <> "&dispatch.enablePreview=true")) { form = true })
        edited

  unfoldable pub get_monitoring_console_ui_settings : Rest (Result UiSettings)
  get_monitoring_console_ui_settings =
      get_first http c http.ui_settings
        "/servicesNS/nobody/splunk_monitoring_console/data/ui/nav/default.distributed"

  unfoldable pub update_lookup_ui_settings : String → UiSettings → Rest (Option Err)
  unfolding post_unchecked
  update_lookup_ui_settings configured settings =
      post_unchecked
        (record (new_request http c "POST"
          (c.uri
            <> "/servicesNS/nobody/splunk_monitoring_console/configs/conf-splunk_monitoring_console_assets/settings")
          ("configuredPeers="
            <> configured
            <> "&eai:appName="
            <> settings.eai_app_name
            <> "&eai:acl="
            <> settings.eai_acl
            <> "&eai:userName="
            <> settings.eai_user_name
            <> "&disabled="
            <> (if settings.disabled then "true" else "false"))) { form = true })
        edited

  unfoldable pub update_monitoring_console_app : Rest (Option Err)
  update_monitoring_console_app = do
    let endpoint = c.uri <> "/servicesNS/nobody/system/apps/local/splunk_monitoring_console"
    on_error (http.refuses "POST" endpoint) (λ e. pure (some e))
        (do_plain http c (new_request http c "POST" endpoint "") (200 ∷ 201 ∷ []))

  -- A step that ends the function with its error.
  and_then : Rest (Option Err) → Rest (Option Err) → Rest (Option Err)
  and_then first rest = do e ← first; on_error e (λ e. pure (some e)) rest

  -- From the asset table on.
  unfoldable pub rebuild_assets : String → Rest (Option Err)
  unfolding and_then
  rebuild_assets configured = do
    table ← get_monitoringconsole_asset_table
    on_result table (λ e. pure (some e))
        λ table. and_then (post_monitoring_console_asset_table table) (do
          settings ← get_monitoring_console_ui_settings
          on_result settings (λ e. pure (some e))
              λ settings.
                and_then (update_lookup_ui_settings configured settings)
                  update_monitoring_console_app)

  unfoldable pub automate_mc_apply_changes : Bool → Rest (Option Err)
  unfolding and_then rebuild_assets add_peers add_own_roles cluster_labels peers_by_label
      update_labels update_dmc_groups
  automate_mc_apply_changes mock = if mock then pure none else do
    roles ← get_monitoringconsole_server_roles
    on_result roles (λ e. pure (some e))
        λ roles. do
          peers ← get http c http.distributed_peers "/services/search/distributed/peers"
          on_result peers (λ e. pure (some e))
              λ peers.
                let none_yet : Lists = record {
                  configured = "";
                  indexers = "";
                  license_masters = "";
                } in
                let lists = add_own_roles roles (add_peers peers none_yet) in
                and_then (update_dmc_groups "dmc_group_indexer" (lists.indexers <> "&default=true"))
                  (and_then
                    (update_dmc_groups "dmc_group_license_master"
                      (lists.license_masters <> "&default=false"))
                    (and_then (update_labels (peers_by_label (cluster_labels peers []) []))
                      (rebuild_assets lists.configured)))
