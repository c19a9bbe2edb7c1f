-- ===== src/Enterprise/ClusterMaster/Calls.antt =====
-- The calls of an attempt at a push.
use infra_devops.Base.{◌<◌, ◌≤◌, some, length, ◌∷◌, ◌≡◌, arith}
use infra_devops.Common.Meta.{MetaObject}
use infra_devops.Cluster.{Env, State, M, ask, ◌>>=◌, Call, History}
use infra_devops.Cluster.Emits.{Emits, Extends, here, more, >>=-some, emits_rules}
use infra_devops.Util.Owners.{get_secret_by_name}
use infra_devops.Util.Resource.{fetch_secret, fetch_config_map}
use infra_devops.Enterprise.Names.{cluster_master}
use infra_devops.Enterprise.SmartStore.Maps.{get_smartstore_config_map}
use infra_devops.Enterprise.ClusterMaster.{
  ClusterMasterState, check_if_smartstore_config_map_updated_to_pod, push_master_apps_bundle,
  attempt_push,
}

-- Any call.
AnyCall : Call → Type 0
AnyCall c = Unit

length-Extends :
    {P : Call → Type 0} {old new : History} → Extends P old new → length old ≤ length new
length-Extends here = omega arith
length-Extends (more p e) = omega (arith, length-Extends e)

-- An action that starts with a call makes at least that one.
ask-grows :
    {S A B : Type 0} (c : Call) (f : History → A) (k : A → M S B) (s s' : State S) (b : B)
    → ((a : A) → Emits AnyCall (k a))
    → (ask c f >>= k) s ≡ some (b, s')
    → length s.calls < length s'.calls
unfolding ask ◌>>=◌
ask-grows c f k s s' b hk h =
    let e = (hk (f s.calls)).emitted (record s { calls = c ∷ s.calls }) s' b h in
    omega (arith, length-Extends e)

bind-grows :
    {S A B : Type 0} (m : M S A) (k : A → M S B) (s s' : State S) (b : B)
    → ((s1 : State S) (a : A) → m s ≡ some (a, s1) → length s.calls < length s1.calls)
    → ((a : A) → Emits AnyCall (k a))
    → (m >>= k) s ≡ some (b, s')
    → length s.calls < length s'.calls
bind-grows m k s s' b hm hk h =
    let (a, s1, p, q) = >>=-some m k s s' b h in
    omega (arith, hm s1 a p, length-Extends ((hk a).emitted s1 s' b q))

module _ (env : Env) (cr : MetaObject) where
  check-Emits :
      Emits {S = ClusterMasterState} AnyCall (get_smartstore_config_map env cr cluster_master)
  unfolding get_smartstore_config_map fetch_config_map AnyCall
  check-Emits = search emits_rules

  push-Emits : Emits AnyCall (push_master_apps_bundle env cr)
  unfolding push_master_apps_bundle get_secret_by_name fetch_secret AnyCall
  push-Emits = search emits_rules

  check-grows :
      (s s' : State ClusterMasterState) (e : _)
      → check_if_smartstore_config_map_updated_to_pod env cr s ≡ some (e, s')
      → length s.calls < length s'.calls
  unfolding check_if_smartstore_config_map_updated_to_pod
  check-grows s s' e h = ask-grows _ _ _ s s' e (λ out. search (emits_rules, check-Emits)) h

  -- An attempt makes a call.
  pub attempt_push-grows :
      (s s' : State ClusterMasterState) (e : _)
      → attempt_push env cr s ≡ some (e, s')
      → length s.calls < length s'.calls
  unfolding attempt_push
  attempt_push-grows s s' e h =
      bind-grows (check_if_smartstore_config_map_updated_to_pod env cr) _ s s' e
        (λ s1 x. check-grows s s1 x) (λ x. search (emits_rules, push-Emits)) h
