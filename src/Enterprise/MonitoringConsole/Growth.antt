-- ===== src/Enterprise/MonitoringConsole/Growth.antt =====
-- The scaling up of AddURLsConfigMap of pkg/splunk/enterprise/monitoringconsole.go.
use infra_devops.Base.{
  ◌<◌, String, Bool, if◌then◌else◌, true, ltb, ◌==◌, none, some, Option, str_eq, eq_iff, ◌⊎◌, inl,
  inr, ◌∙◌, List, [], ◌∷◌, All, ◌≡◌, refl, arith, false,
}
use infra_devops.Base.Text.{◌<>◌, contains_str}
use infra_devops.Base.Strings.{
  byte_length, split_commas, starts_with, starts_with-itself, starts_with-longer,
  contains_str-append, contains_str-prepend, contains_str-itself,
}
use infra_devops.Base.Dict.{Dict, lookup, insert, lookup-insert}
use infra_devops.Enterprise.MonitoringConsole.Frame.{Elsewhere}
use infra_devops.Enterprise.MonitoringConsole.{
  EnvVar, Data, write, ◌then◌, urls_of, with_entry, extend, add_each, add_urls_config_map,
}

-- What holds of both branches holds of the choice.
either :
    {v w : String} (P : String → Type 0) (b : Bool)
    → (b ≡ true → P v)
    → (b ≡ false → P w)
    → P (if b then v else w)
either P true h k = h refl
either P false h k = k refl

-- No variable is named twice.
abbrev pub Distinct : List EnvVar → Type 0
Distinct [] = Unit
Distinct (url ∷ urls) = All (Elsewhere url.name) urls × Distinct urls

All-map :
    {P Q R : EnvVar → Type 0} (urls : List EnvVar)
    → ((url : EnvVar) → P url → Q url → R url)
    → All P urls
    → All Q urls
    → All R urls
All-map [] f p q = tt
All-map (url ∷ urls) f (p, ps) (q, qs) = (f url p q, All-map urls f ps qs)

lookup-away :
    (name v : String) (d : Dict String) (url : EnvVar)
    → Elsewhere name url
    → lookup url.name (insert name v d) ≡ lookup url.name d
lookup-away name v d url h =
    let there = eq_iff url.name name in
    let back = eq_iff name url.name in
    let other : str_eq name url.name ≡ false = ground (arith, h, there, back) in
    lookup-insert name url.name v d ∙ rw other refl

module _ (cr_name : String) where
  module _ (v entry : String) where
    with_entry-starts :
        (p : String) → starts_with v p ≡ true → starts_with (with_entry cr_name v entry) p ≡ true
    unfolding with_entry
    with_entry-starts p h =
        let longer = starts_with-longer v ("," <> entry) p h in
        either (λ w. starts_with w p ≡ true) (contains_str v entry) (λ _. h) (λ _. longer)

    with_entry-contains :
        (p : String) → contains_str v p ≡ true → contains_str (with_entry cr_name v entry) p ≡ true
    unfolding with_entry
    with_entry-contains p h =
        let longer = contains_str-append v ("," <> entry) p h in
        either (λ w. contains_str w p ≡ true) (contains_str v entry) (λ _. h) (λ _. longer)

    with_entry-has : contains_str (with_entry cr_name v entry) entry ≡ true
    unfolding with_entry
    with_entry-has =
        let behind = contains_str-prepend "," entry entry (contains_str-itself entry) in
        either (λ w. contains_str w entry ≡ true) (contains_str v entry) (λ h. h)
          (λ _. contains_str-prepend v ("," <> entry) entry behind)

  -- What the value starts with, and what it contains, it still does when it is extended.
  extend-starts :
      (p v : String) (entries : List String)
      → starts_with v p ≡ true
      → starts_with (extend cr_name v entries) p ≡ true
  unfolding extend
  extend-starts p v [] h = h
  extend-starts p v (entry ∷ entries) h =
      extend-starts p (with_entry cr_name v entry) entries (with_entry-starts v entry p h)

  extend-contains :
      (p v : String) (entries : List String)
      → contains_str v p ≡ true
      → contains_str (extend cr_name v entries) p ≡ true
  unfolding extend
  extend-contains p v [] h = h
  extend-contains p v (entry ∷ entries) h =
      extend-contains p (with_entry cr_name v entry) entries (with_entry-contains v entry p h)

  -- All entries are there in the end.
  extend-All :
      (v : String) (entries : List String)
      → All (λ entry. contains_str (extend cr_name v entries) entry ≡ true) entries
  unfolding extend
  extend-All v [] = tt
  extend-All v (entry ∷ entries) = (
    extend-contains entry (with_entry cr_name v entry) entries (with_entry-has v entry),
    extend-All (with_entry cr_name v entry) entries,
  )

  -- The value that a variable has after a scaling up, against the one before it.
  pub record Grown (old new : String) (url : EnvVar) : Type 0 where
    pub keeps_old : starts_with new old ≡ true
    pub has_all : All (λ entry. contains_str new entry ≡ true) (split_commas url.value)

  -- The variable is not there, or the URLs that the custom resource has in it are shorter than the
  -- wanted ones.
  abbrev pub Due : Dict String → EnvVar → Type 0
  Due d url =
      (lookup url.name d ≡ none)
      ⊎ ((old : String) × (lookup url.name d ≡ some old)
          × (byte_length (urls_of cr_name "" (split_commas old)) < byte_length url.value))

  abbrev pub Reached : Option String → String → EnvVar → Type 0
  Reached none new url = new ≡ url.value
  Reached (some old) new url = Grown old new url

  pub record Updated (d d' : Dict String) (url : EnvVar) : Type 0 where
    pub new : String
    pub stored : lookup url.name d' ≡ some new
    pub reached : Reached (lookup url.name d) new url

  pub record Added (d : Dict String) (urls : List EnvVar) (o : Option Data) : Type 0 where
    pub changed : Dict String
    pub returns : o ≡ some (some changed)
    pub updated : All (Updated d changed) urls
    pub others : (key : String) → All (Elsewhere key) urls → lookup key changed ≡ lookup key d

  -- A write to one variable leaves the condition of another one alone, both ways.
  Due-insert :
      (name v : String) (d : Dict String) (url : EnvVar)
      → Elsewhere name url
      → Due d url
      → Due (insert name v d) url
  Due-insert name v d url h due = rw (lookup-away name v d url h) due

  Updated-insert :
      (name v : String) (d d' : Dict String) (url : EnvVar)
      → Elsewhere name url
      → Updated (insert name v d) d' url
      → Updated d d' url
  Updated-insert name v d d' url h u = record {
    new = u.new;
    stored = u.stored;
    reached = rw (← lookup-away name v d url h) u.reached;
  }

  -- One round that writes `v`, and the rounds behind it.
  Added-cons :
      (url : EnvVar) (urls : List EnvVar) (d : Dict String) (v : String) (o : Option Data)
      → All (Elsewhere url.name) urls
      → Reached (lookup url.name d) v url
      → Added (insert url.name v d) urls o
      → Added d (url ∷ urls) o
  Added-cons url urls d v o apart reached rest =
      let own : lookup url.name (insert url.name v d) ≡ some v =
        lookup-insert url.name url.name v d ∙ rw ((eq_iff url.name url.name).1 refl) refl in
      record {
        changed = rest.changed;
        returns = rest.returns;
        updated = (
          record { new = v; stored = rest.others url.name apart ∙ own; reached = reached },
          All-map urls (Updated-insert url.name v d rest.changed) apart rest.updated,
        );
        others = λ key h. rest.others key h.1 ∙ lookup-insert url.name key v d ∙ rw h.0 refl;
      }

  add_each-Added :
      (new_urls urls : List EnvVar) (d : Dict String)
      → Distinct urls
      → All (Due d) urls
      → Added d urls (add_each cr_name new_urls urls (some d))
  unfolding add_each write
  add_each-Added new_urls [] d distinct due = record {
    changed = d;
    returns = refl;
    updated = tt;
    others = λ key h. refl;
  }
  add_each-Added new_urls (url ∷ urls) d (apart, distinct) (due, dues) =
      let behind : (v : String)
          → Added (insert url.name v d) urls
              (add_each cr_name new_urls urls (some (insert url.name v d))) =
        λ v.
          add_each-Added new_urls urls (insert url.name v d) distinct
            (All-map urls (Due-insert url.name v d) apart dues) in
      elim due [
        | inl absent ↦
            Added-cons url urls d url.value _ apart (rw absent refl) (rw absent (behind url.value))
        | inr (old, found, shorter) ↦
            let own = byte_length (urls_of cr_name "" (split_commas old)) in
            let differ : (own == byte_length url.value) ≡ false = ground arith in
            let less : ltb own (byte_length url.value) ≡ true = ground arith in
            let v = extend cr_name old (split_commas url.value) in
            Added-cons url urls d v _ apart
              (rw found (record {
                keeps_old = extend-starts old old (split_commas url.value) (starts_with-itself old);
                has_all = extend-All old (split_commas url.value);
              }))
              (rw found (rw (differ, less) (behind v)))
      ]

  -- Where the URLs are of different variables, each of which is missing or has shorter URLs of the custom
  -- resource than the wanted ones, AddURLsConfigMap returns with a map in which a variable that was
  -- missing has its URLs, every other one of theirs starts with its old value and contains every wanted
  -- URL, and the variables of no URL are as they were.
  pub add_urls_config_map-grows :
      (urls : List EnvVar) (d : Dict String)
      → Distinct urls
      → All (Due d) urls
      → Added d urls (add_urls_config_map cr_name urls (some d))
  unfolding add_urls_config_map
  add_urls_config_map-grows urls d distinct due = add_each-Added urls urls d distinct due
