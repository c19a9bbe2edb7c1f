-- ===== src/Enterprise/SmartStore/Texts.antt =====
-- What the loops and the ladders of the configuration texts write.
use infra_devops.Base.{
  ℕ, String, Bool-cases, str_eq, List, [], ◌∷◌, ◌++◌, ◌==◌, some, ◌≡◌, ◌≢◌, ◌↔◌, ◌∙◌, sym, ap, inl,
  inr, refl, arith, eq_iff,
}
use infra_devops.Base.Text.{◌<>◌}
use infra_devops.Enterprise.SmartStore.{IndexSpec, CacheManagerSpec}
use infra_devops.Enterprise.SmartStore.Config.{
  with_number, with_text, with_remote_path, add_index, add_indexes, get_smartstore_indexes_config,
  cache_entries, empty_stanza, get_server_config_entries,
}
use text.Mathlib.TextLemmas.{append_assoc, append-nil, append-eq-nil_iff, append_cancel_left}

-- An entry is written behind the text so far, whatever that is.
with_number-append :
    (key : String) (n : ℕ) (a b : String) → with_number key n (a <> b) ≡ a <> with_number key n b
unfolding with_number
with_number-append key n a b = elim (Bool-cases (n == 0)) [
  | inl e ↦ rw e refl
  | inr e ↦ rw e (append_assoc a b _)
]

with_text-append : (key s a b : String) → with_text key s (a <> b) ≡ a <> with_text key s b
unfolding with_text
with_text-append key s a b = elim (Bool-cases (str_eq s "")) [
  | inl e ↦ rw e refl
  | inr e ↦ rw e (append_assoc a b _)
]

with_remote_path-append :
    (index : IndexSpec) (a b : String)
    → with_remote_path index (a <> b) ≡ a <> with_remote_path index b
unfolding with_remote_path
with_remote_path-append index a b = elim (Bool-cases (str_eq index.common.vol_name "")) [
  | inl e ↦ ground (arith, e)
  | inr e ↦ elim (Bool-cases (str_eq index.remote_path "")) [
    | inl f ↦ rw (e, f) (append_assoc a b _)
    | inr f ↦ rw (e, f) (append_assoc a b _)
  ]
]

ruleset entries = (with_number-append, with_text-append, with_remote_path-append, append_assoc)

add_index-append :
    (a b : String) (index : IndexSpec) → add_index (a <> b) index ≡ a <> add_index b index
unfolding add_index
add_index-append a b index = simp entries

add_indexes-append :
    (a b : String) (indexes : List IndexSpec)
    → add_indexes (a <> b) indexes ≡ a <> add_indexes b indexes
unfolding add_indexes
add_indexes-append a b [] = refl
add_indexes-append a b (index ∷ indexes) =
    rw (add_index-append a b index) (add_indexes-append a (add_index b index) indexes)

add_indexes-concat :
    (conf : String) (xs ys : List IndexSpec)
    → add_indexes conf (xs ++ ys) ≡ add_indexes (add_indexes conf xs) ys
unfolding add_indexes
add_indexes-concat conf [] ys = refl
add_indexes-concat conf (x ∷ xs) ys = add_indexes-concat (add_index conf x) xs ys

-- The stanzas of a list of indexes stand one after the other: each depends on its own index only.
pub get_smartstore_indexes_config-append :
    (xs ys : List IndexSpec)
    → get_smartstore_indexes_config (xs ++ ys)
      ≡ get_smartstore_indexes_config xs <> get_smartstore_indexes_config ys
unfolding get_smartstore_indexes_config
get_smartstore_indexes_config-append xs ys =
    add_indexes-concat "" xs ys
    ∙ ap (λ t. add_indexes t ys) (sym (append-nil (add_indexes "" xs)))
    ∙ add_indexes-append (add_indexes "" xs) "" ys

cache_entries-append :
    (c : CacheManagerSpec) (a b : String) → cache_entries c (a <> b) ≡ a <> cache_entries c b
unfolding cache_entries
cache_entries-append c a b = simp entries

-- A line is there just where its setting is.
newline : (s : String) → "\n" <> s ≢ ""
newline s h = cc ((eq_iff "\n" "").1 (append-eq-nil_iff.0 h).0)

with_number_iff :
    (key : String) (n : ℕ) (conf : String) → (with_number key n conf ≡ "") ↔ ((conf ≡ "") × (n ≡ 0))
unfolding with_number
with_number_iff key n conf = elim (Bool-cases (n == 0)) [
  | inl e ↦ rw e (λ h. (h, ground (arith, e)), λ h. h.0)
  | inr e ↦ rw e (
    λ h. absurd (newline _ (append-eq-nil_iff.0 h).1),
    λ h. absurd (let z = h.1 in ground (arith, e, z)),
  )
]

with_text_iff : (key s conf : String) → (with_text key s conf ≡ "") ↔ ((conf ≡ "") × (s ≡ ""))
unfolding with_text
with_text_iff key s conf = elim (Bool-cases (str_eq s "")) [
  | inl e ↦ rw e (λ h. (h, (eq_iff s "").0 e), λ h. h.0)
  | inr e ↦
      rw e (
        λ h. absurd (newline _ (append-eq-nil_iff.0 h).1),
        λ h. absurd (cc (e, (eq_iff s "").1 h.1)),
      )
]

-- No setting of the cache manager is given.
pub record IsUnset (c : CacheManagerSpec) : Type 0 where
  pub padding : c.eviction_padding_size_mb ≡ 0
  pub policy : c.eviction_policy ≡ ""
  pub bloom : c.hotlist.bloom_filter_recency_hours ≡ 0
  pub recency : c.hotlist.recency_secs ≡ 0
  pub size : c.max_cache_size_mb ≡ 0
  pub downloads : c.max_concurrent_downloads ≡ 0
  pub uploads : c.max_concurrent_uploads ≡ 0

cache_entries_iff : (c : CacheManagerSpec) → (cache_entries c "" ≡ "") ↔ IsUnset c
unfolding cache_entries
cache_entries_iff c = (
  λ h.
      let (up, uploads) = (with_number_iff _ _ _).0 h in
      let (down, downloads) = (with_number_iff _ _ _).0 up in
      let (big, size) = (with_number_iff _ _ _).0 down in
      let (hot, recency) = (with_number_iff _ _ _).0 big in
      let (filter, bloom) = (with_number_iff _ _ _).0 hot in
      let (text, policy) = (with_text_iff _ _ _).0 filter in
      let (start, padding) = (with_number_iff _ _ _).0 text in
      record {
        padding = padding;
        policy = policy;
        bloom = bloom;
        recency = recency;
        size = size;
        downloads = downloads;
        uploads = uploads;
      },
  λ u.
      let start =
        (with_number_iff "eviction_padding" c.eviction_padding_size_mb "").1 (refl, u.padding) in
      let text = (with_text_iff "eviction_policy" c.eviction_policy _).1 (start, u.policy) in
      let filter =
        (with_number_iff "hotlist_bloom_filter_recency_hours" c.hotlist.bloom_filter_recency_hours
            _).1
          (text, u.bloom) in
      let hot =
        (with_number_iff "hotlist_recency_secs" c.hotlist.recency_secs _).1 (filter, u.recency) in
      let big = (with_number_iff "max_cache_size" c.max_cache_size_mb _).1 (hot, u.size) in
      let down =
        (with_number_iff "max_concurrent_downloads" c.max_concurrent_downloads _).1
          (big, u.downloads) in
      (with_number_iff "max_concurrent_uploads" c.max_concurrent_uploads _).1 (down, u.uploads),
)

entries-behind :
    (c : CacheManagerSpec) → cache_entries c empty_stanza ≡ empty_stanza <> cache_entries c ""
entries-behind c =
    ap (cache_entries c) (sym (append-nil empty_stanza)) ∙ cache_entries-append c empty_stanza ""

kept_stanza : (c : CacheManagerSpec) → (empty_stanza ≡ cache_entries c empty_stanza) ↔ IsUnset c
kept_stanza c = (
  λ h. (cache_entries_iff c).0 (
      append_cancel_left empty_stanza (cache_entries c "") ""
        (sym (entries-behind c) ∙ sym h ∙ sym (append-nil empty_stanza))),
  λ u. sym (
      entries-behind c
      ∙ ap (λ t. empty_stanza <> t) ((cache_entries_iff c).1 u)
      ∙ append-nil empty_stanza),
)

-- server.conf is empty just where no setting of the cache manager is given.
pub get_server_config_entries_iff :
    (c : CacheManagerSpec) → (get_server_config_entries (some c) ≡ "") ↔ IsUnset c
unfolding get_server_config_entries
get_server_config_entries_iff c =
    elim (Bool-cases (str_eq empty_stanza (cache_entries c empty_stanza))) [
      | inl e ↦ rw e (
        λ h. (kept_stanza c).0 ((eq_iff empty_stanza (cache_entries c empty_stanza)).0 e),
        λ u. refl,
      )
      | inr e ↦ rw e (
        λ h. absurd (cc ((eq_iff "\n" "").1 (append-eq-nil_iff.0 h).1)),
        λ u.
            absurd (
              cc (e, (eq_iff empty_stanza (cache_entries c empty_stanza)).1 ((kept_stanza c).1 u))),
      )
    ]
