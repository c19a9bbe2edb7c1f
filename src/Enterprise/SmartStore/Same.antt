-- ===== src/Enterprise/SmartStore/Same.antt =====
-- reflect.DeepEqual on specifications of SmartStore.
use infra_devops.Base.{
  Bool, true, ◌&&◌, str_eq, ◌==◌, none, some, List, [], ◌∷◌, ◌≡◌, refl, ap, arith, eq_iff,
}
use infra_devops.Cluster.{Slice}
use infra_devops.Common.Slices.{list_eq, slice_eq}
use infra_devops.Enterprise.SmartStore.{
  VolumeSpec, IndexConfDefaultsSpec, Hotlist, IndexSpec, CacheManagerSpec, SmartStoreSpec,
}

unfoldable pub volume_eq : VolumeSpec → VolumeSpec → Bool
volume_eq a b =
    str_eq a.name b.name
    && str_eq a.endpoint b.endpoint
    && str_eq a.path b.path
    && str_eq a.secret_ref b.secret_ref

unfoldable pub common_eq : IndexConfDefaultsSpec → IndexConfDefaultsSpec → Bool
common_eq a b =
    str_eq a.vol_name b.vol_name
    && a.max_global_data_size_mb == b.max_global_data_size_mb
    && a.max_global_raw_data_size_mb == b.max_global_raw_data_size_mb

unfoldable pub hotlist_eq : Hotlist → Hotlist → Bool
hotlist_eq a b =
    a.recency_secs == b.recency_secs && a.bloom_filter_recency_hours == b.bloom_filter_recency_hours

unfoldable pub index_eq : IndexSpec → IndexSpec → Bool
index_eq a b =
    str_eq a.name b.name
    && str_eq a.remote_path b.remote_path
    && hotlist_eq a.hotlist b.hotlist
    && common_eq a.common b.common

unfoldable pub manager_eq : CacheManagerSpec → CacheManagerSpec → Bool
manager_eq a b =
    hotlist_eq a.hotlist b.hotlist
    && str_eq a.eviction_policy b.eviction_policy
    && a.max_cache_size_mb == b.max_cache_size_mb
    && a.eviction_padding_size_mb == b.eviction_padding_size_mb
    && a.max_concurrent_downloads == b.max_concurrent_downloads
    && a.max_concurrent_uploads == b.max_concurrent_uploads

unfoldable pub smart_store_eq : SmartStoreSpec → SmartStoreSpec → Bool
smart_store_eq a b =
    slice_eq volume_eq a.vol_list b.vol_list
    && slice_eq index_eq a.index_list b.index_list
    && common_eq a.defaults b.defaults
    && manager_eq a.cache_manager_conf b.cache_manager_conf

list_eq-eq :
    {A : Type 0} (same : A → A → Bool)
    → ((a b : A) → same a b ≡ true → a ≡ b)
    → (l m : List A) → list_eq same l m ≡ true
    → l ≡ m
unfolding list_eq
list_eq-eq same sound [] [] h = refl
list_eq-eq same sound [] (y ∷ m) h = absurd (cc h)
list_eq-eq same sound (x ∷ l) [] h = absurd (cc h)
list_eq-eq same sound (x ∷ l) (y ∷ m) h =
    let head = sound x y (ground (arith, h)) in
    let tail = list_eq-eq same sound l m (ground (arith, h)) in cc (head, tail)

slice_eq-eq :
    {A : Type 0} (same : A → A → Bool)
    → ((a b : A) → same a b ≡ true → a ≡ b)
    → (l m : Slice A) → slice_eq same l m ≡ true
    → l ≡ m
unfolding slice_eq
slice_eq-eq same sound none none h = refl
slice_eq-eq same sound none (some m) h = absurd (cc h)
slice_eq-eq same sound (some l) none h = absurd (cc h)
slice_eq-eq same sound (some l) (some m) h = ap some (list_eq-eq same sound l m h)

volume_eq-eq : (a b : VolumeSpec) → volume_eq a b ≡ true → a ≡ b
unfolding volume_eq
volume_eq-eq a b h = ground (
  arith,
  h,
  eq_iff a.name b.name,
  eq_iff a.endpoint b.endpoint,
  eq_iff a.path b.path,
  eq_iff a.secret_ref b.secret_ref,
)

common_eq-eq : (a b : IndexConfDefaultsSpec) → common_eq a b ≡ true → a ≡ b
unfolding common_eq
common_eq-eq a b h = ground (arith, h, eq_iff a.vol_name b.vol_name)

hotlist_eq-eq : (a b : Hotlist) → hotlist_eq a b ≡ true → a ≡ b
unfolding hotlist_eq
hotlist_eq-eq a b h = ground (arith, h)

index_eq-eq : (a b : IndexSpec) → index_eq a b ≡ true → a ≡ b
unfolding index_eq
index_eq-eq a b h = ground (
  arith,
  h,
  eq_iff a.name b.name,
  eq_iff a.remote_path b.remote_path,
  hotlist_eq-eq a.hotlist b.hotlist,
  common_eq-eq a.common b.common,
)

manager_eq-eq : (a b : CacheManagerSpec) → manager_eq a b ≡ true → a ≡ b
unfolding manager_eq
manager_eq-eq a b h =
    ground (arith, h, eq_iff a.eviction_policy b.eviction_policy, hotlist_eq-eq a.hotlist b.hotlist)

-- Specifications that compare as equal are equal.
pub smart_store_eq-eq : (a b : SmartStoreSpec) → smart_store_eq a b ≡ true → a ≡ b
unfolding smart_store_eq
smart_store_eq-eq a b h =
    let vols = slice_eq-eq volume_eq volume_eq-eq a.vol_list b.vol_list (ground (arith, h)) in
    let indexes = slice_eq-eq index_eq index_eq-eq a.index_list b.index_list (ground (arith, h)) in
    let defaults = common_eq-eq a.defaults b.defaults (ground (arith, h)) in
    let manager = manager_eq-eq a.cache_manager_conf b.cache_manager_conf (ground (arith, h)) in
    ground (arith, vols, indexes, defaults, manager)
