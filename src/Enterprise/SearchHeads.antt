-- ===== src/Enterprise/SearchHeads.antt =====
-- The pod manager of search head clusters: pkg/splunk/enterprise/searchheadcluster.go, without the
-- reconciler. The own state of an action is the status of the custom resource.
pub mod Removal
pub mod Deletions
pub mod Members
use infra_devops.Base.{
  ℕ, zero, suc, ◌+◌, ◌-◌, ◌^◌, ◌==◌, String, Bool, true, false, not, ◌&&◌, ◌||◌, if◌then◌else◌,
  str_eq, Option, none, some, List, [], ◌∷◌, ◌++◌, message, Err, Result, ok, err, on_error,
  on_result, on_option, ltb, length, get_elem?, set, take,
}
use infra_devops.Base.Int.{ℤ, pos, negsuc, eqb_ℤ, ltb_ℤ, to_ℕ}
use infra_devops.Base.Text.{◌<>◌}
use infra_devops.Base.Dict.{Dict, lookup, insert, or_empty}
use infra_devops.Common.Names.{Phase, pending, error, get_service_fqdn}
use infra_devops.Common.Meta.{MetaObject}
use infra_devops.Cluster.{
  StatefulSet, Secret, Env, SplunkClient, MemberInfo, CaptainInfo, M, ask, gets, modify, pure,
  panic, ◌>>=◌, ◌>>◌, exec, set_detention, remove_member, member_info, captain_info, restart,
}
use infra_devops.Util.Tokens.{
  get_specific_secret_token_from_pod, get_secret_from_pod, apply_namespace_scoped_secret_object,
}
use infra_devops.Util.Owners.{get_secret_by_name}
use infra_devops.Control.Pods.{PodManager, Outcome, done, failed, update_stateful_set_pods}
use infra_devops.Control.Statefulset.{apply_stateful_set}
use infra_devops.Control.Apply.{apply_secret}
use infra_devops.Enterprise.Names.{
  search_head, get_splunk_statefulset_pod_name, get_splunk_service_name,
}

-- enterprisev1.SearchHeadClusterMemberStatus
pub record MemberStatus : Type 0 where
  pub name : String
  pub status : String
  pub adhoc : Bool
  pub registered : Bool
  pub active_historical_search_count : ℤ
  pub active_realtime_search_count : ℤ

-- enterprisev1.SearchHeadClusterStatus, without the fields that only the reconciler uses
pub record SearchHeadStatus : Type 0 where
  pub ready_replicas : ℤ
  pub captain : String
  pub captain_ready : Bool
  pub initialized : Bool
  pub min_peers_joined : Bool
  pub maintenance_mode : Bool
  pub shc_secret_changed : List Bool
  pub admin_secret_changed : List Bool
  pub admin_password_changed_secrets : Dict Bool
  pub namespace_secret_resource_version : String
  pub members : List MemberStatus

-- Members[n], which panics out of range
unfoldable pub member_at : ℤ → M SearchHeadStatus MemberStatus
member_at (negsuc n) = panic
member_at (pos n) = do members ← gets (λ s. s.members); on_option (get_elem? members n) panic pure

-- if i < len(list) { list[i] = v } else { list = append(list, v) }
unfoldable pub put_at : {A : Type 0} → ℕ → A → List A → List A
put_at i v xs = if ltb i (length xs) then set xs i v else xs ++ v ∷ []

-- i < len(flags) && flags[i]
unfoldable pub flag_at : ℕ → List Bool → Bool
flag_at i flags = on_option (get_elem? flags i) false (λ b. b)

-- ActiveHistoricalSearchCount + ActiveRealtimeSearchCount == 0, of two int64
unfoldable pub sums_to_zero : ℤ → ℤ → Bool
sums_to_zero (pos a) (pos b) = (a == 0) && (b == 0)
sums_to_zero (pos a) (negsuc b) = a == b + 1
sums_to_zero (negsuc a) (pos b) = b == a + 1
sums_to_zero (negsuc a) (negsuc b) = a + b + 2 == 2 ^ 64

unfoldable pub member_name : MetaObject → ℤ → String
member_name cr n = get_splunk_statefulset_pod_name search_head cr.name n

-- The status of a member that the REST API has answered for, or of one that it has not.
unfoldable pub known_member : String → MemberInfo → MemberStatus
known_member name info = record {
  name = name;
  status = info.status;
  adhoc = info.adhoc;
  registered = info.registered;
  active_historical_search_count = info.active_historical_search_count;
  active_realtime_search_count = info.active_realtime_search_count;
}

unfoldable pub unknown_member : String → MemberStatus
unknown_member name = record {
  name = name;
  status = "";
  adhoc = false;
  registered = false;
  active_historical_search_count = pos 0;
  active_realtime_search_count = pos 0;
}

unfoldable pub note_captain : CaptainInfo → SearchHeadStatus → SearchHeadStatus
note_captain info s = record s {
  captain = info.label;
  captain_ready = info.service_ready;
  initialized = info.initialized;
  min_peers_joined = info.min_peers_joined;
  maintenance_mode = info.maintenance_mode;
}

unfoldable pub put_member : ℕ → MemberStatus → SearchHeadStatus → SearchHeadStatus
unfolding put_at
put_member n m s = record s { members = put_at n m s.members }

-- The members from `n` on are taken off.
unfoldable pub drop_members : ℕ → SearchHeadStatus → SearchHeadStatus
drop_members n s = record s {
  members = if ltb n (length s.members) then take n s.members else s.members;
}

module _ (env : Env) (cr : MetaObject) where
  -- A password that cannot be read is empty.
  unfoldable pub get_client : ℤ → M SearchHeadStatus SplunkClient
  unfolding member_name
  get_client n = do
    let name : String = member_name cr n
    let host : String =
        get_service_fqdn env.cluster_domain cr.namespace
          (name <> "." <> get_splunk_service_name search_head cr.name true)
    password ← get_specific_secret_token_from_pod env name cr.namespace "password"
    pure (record {
      uri = "https://" <> host <> ":8089";
      password = on_result password (λ _. "") (λ p. p);
    })

  detain : ℤ → Bool → M SearchHeadStatus (Bool × Option Err)
  unfolding get_client
  detain n on = do
    c ← get_client n
    e ← ask (set_detention c on) (λ h. env.detention_set h c on)
    pure (false, e)

  unfoldable pub prepare_recycle : ℤ → M SearchHeadStatus (Bool × Option Err)
  unfolding member_at detain sums_to_zero
  prepare_recycle n = do
    m ← member_at n
    if str_eq m.status "Up"
        then detain n true
        else if str_eq m.status "ManualDetention"
        then pure
            (sums_to_zero m.active_historical_search_count m.active_realtime_search_count, none)
        else if str_eq m.status ""
        then pure (false, none)
        else pure (false, some (message ("Status=" <> m.status)))

  unfoldable pub prepare_scale_down : ℤ → M SearchHeadStatus (Bool × Option Err)
  unfolding prepare_recycle
  prepare_scale_down n = do
    (quarantined, e) ← prepare_recycle n
    on_error e (λ e. pure (quarantined, some e))
        (if not quarantined then pure (false, none) else do
          c ← get_client n
          e ← ask (remove_member c) (λ h. env.member_removed h c)
          pure (on_error e (λ e. (false, some e)) (true, none)))

  unfoldable pub finish_recycle : ℤ → M SearchHeadStatus (Bool × Option Err)
  unfolding member_at detain
  finish_recycle n = do
    m ← member_at n
    if str_eq m.status "Up"
        then pure (true, none)
        else if str_eq m.status "ManualDetention"
        then detain n false
        else pure (false, some (message ("Status=" <> m.status)))

  -- searchHeadClusterPodManager
  unfoldable pub search_head_manager : PodManager SearchHeadStatus
  unfolding prepare_scale_down prepare_recycle finish_recycle
  search_head_manager = record {
    prepare_scale_down = prepare_scale_down;
    prepare_recycle = prepare_recycle;
    finish_recycle = finish_recycle;
  }

  -- The captain, asked of a member that has answered, until one answers: gotCaptainInfo.
  find_captain : SplunkClient → M SearchHeadStatus Bool
  unfolding note_captain
  find_captain c = do
    r ← ask (captain_info c) (λ h. env.captain h c)
    on_result r (λ _. pure false) (λ info. modify (note_captain info) >> pure true)

  -- The loop over the members `n, …, n + k - 1`.
  unfoldable pub read_members : ℕ → ℕ → Bool → M SearchHeadStatus (Unit {0})
  unfolding find_captain known_member unknown_member put_member
  read_members n zero got = pure tt
  read_members n (suc k) got = do
    c ← get_client (pos n)
    r ← ask (member_info c) (λ h. env.member h c)
    got' ← on_result r (λ _. pure got) (λ _. if got then pure true else find_captain c)
    let name : String = member_name cr (pos n)
    modify (put_member n (on_result r (λ _. unknown_member name) (λ info. known_member name info)))
    read_members (suc n) k got'

  unfoldable pub update_status : StatefulSet → M SearchHeadStatus (Unit {0})
  unfolding read_members drop_members
  update_status ss = do
    modify
        (λ s. record s { captain = ""; captain_ready = false; ready_replicas = ss.ready_replicas })
    if eqb_ℤ ss.ready_replicas (pos 0) then pure tt else do
      read_members 0 (to_ℕ ss.status_replicas) false
      modify (drop_members (to_ℕ ss.status_replicas))
