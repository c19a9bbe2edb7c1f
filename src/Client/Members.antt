-- ===== src/Client/Members.antt =====
-- The member lists of the monitoring console's groups.
use infra_devops.Base.{
  String, Bool, true, false, if◌then◌else◌, str_eq, List, [], ◌∷◌, ◌++◌, ◌≡◌, ◌∙◌, refl, ap, sym,
}
use infra_devops.Base.Text.{◌<>◌}
use infra_devops.Client.{Named, DistributedPeer}
use infra_devops.Client.Console.{Lists, member_text, add_roles, add_peers, add_own_roles}
use text.Mathlib.TextLemmas.{append_assoc, append-nil, nil-append}

-- The text of a list of members.
abbrev pub text_of : List String → String
text_of [] = ""
text_of (name ∷ names) = member_text name <> text_of names

-- `name`, as often as a role stands in a list.
abbrev pub once_for_each : String → String → List String → List String
once_for_each role name [] = []
once_for_each role name (r ∷ roles) =
    if str_eq r role then name ∷ once_for_each role name roles else once_for_each role name roles

-- The peers with a role.
abbrev pub with_role : String → List (Named DistributedPeer) → List String
with_role role [] = []
with_role role (e ∷ es) = once_for_each role e.name e.content.server_roles ++ with_role role es

text_of-append : (xs ys : List String) → text_of (xs ++ ys) ≡ text_of xs <> text_of ys
text_of-append [] ys = sym (nil-append (text_of ys))
text_of-append (x ∷ xs) ys =
    ap (λ t. member_text x <> t) (text_of-append xs ys)
    ∙ sym (append_assoc (member_text x) (text_of xs) (text_of ys))

-- A member more, if a test holds, before the text of further ones.
add_one :
    (b : Bool) (name acc : String) (names : List String)
    → (if b then acc <> member_text name else acc) <> text_of names
      ≡ acc <> text_of (if b then name ∷ names else names)
add_one true name acc names = append_assoc acc (member_text name) (text_of names)
add_one false name acc names = refl

add_roles_lem :
    (name : String) (roles : List String) (indexers masters : String)
    → ((add_roles name roles indexers masters).0
        ≡ indexers <> text_of (once_for_each "indexer" name roles))
      × ((add_roles name roles indexers masters).1
          ≡ masters <> text_of (once_for_each "license_master" name roles))
unfolding add_roles
add_roles_lem name [] indexers masters = (sym (append-nil indexers), sym (append-nil masters))
add_roles_lem name (r ∷ roles) indexers masters =
    let ih = add_roles_lem name roles _ _ in
    (
      ih.0 ∙ add_one (str_eq r "indexer") name indexers (once_for_each "indexer" name roles),
      ih.1
          ∙ add_one (str_eq r "license_master") name masters
              (once_for_each "license_master" name roles),
    )

-- The texts of a peer and of the peers behind it.
join_peer :
    (before : String) (names more : List String) {middle after : String}
    → after ≡ middle <> text_of more
    → middle ≡ before <> text_of names
    → after ≡ before <> text_of (names ++ more)
join_peer before names more e f =
    e
    ∙ ap (λ t. t <> text_of more) f
    ∙ append_assoc before (text_of names) (text_of more)
    ∙ ap (λ t. before <> t) (sym (text_of-append names more))

add_peers_lem :
    (es : List (Named DistributedPeer)) (l : Lists)
    → ((add_peers es l).indexers ≡ l.indexers <> text_of (with_role "indexer" es))
      × ((add_peers es l).license_masters
          ≡ l.license_masters <> text_of (with_role "license_master" es))
unfolding add_peers
add_peers_lem [] l = (sym (append-nil l.indexers), sym (append-nil l.license_masters))
add_peers_lem (e ∷ es) l =
    let roles = add_roles_lem e.name e.content.server_roles l.indexers l.license_masters in
    let ih = add_peers_lem es _ in
    (
      join_peer l.indexers _ (with_role "indexer" es) ih.0 roles.0,
      join_peer l.license_masters _ (with_role "license_master" es) ih.1 roles.1,
    )

abbrev pub localhost : String
localhost = "localhost:localhost"

one_more :
    (b : Bool) (names : List String)
    → text_of names <> member_text localhost ≡ member_text localhost <> text_of names
    → text_of (if b then localhost ∷ names else names) <> member_text localhost
      ≡ member_text localhost <> text_of (if b then localhost ∷ names else names)
one_more false names h = h
one_more true names h =
    append_assoc (member_text localhost) (text_of names) (member_text localhost)
    ∙ ap (λ t. member_text localhost <> t) h

-- Copies of one text may be put in front as well as behind.
front_back :
    (role : String) (roles : List String)
    → text_of (once_for_each role localhost roles) <> member_text localhost
      ≡ member_text localhost <> text_of (once_for_each role localhost roles)
front_back role [] = nil-append (member_text localhost) ∙ sym (append-nil (member_text localhost))
front_back role (r ∷ roles) =
    one_more (str_eq r role) (once_for_each role localhost roles) (front_back role roles)

-- One more in front of the text so far.
in_front :
    (b : Bool) (acc : String) (role : String) (roles : List String)
    → text_of (once_for_each role localhost roles)
        <> (if b then member_text localhost <> acc else acc)
      ≡ text_of (
          if b
          then localhost ∷ once_for_each role localhost roles
          else once_for_each role localhost roles)
        <> acc
in_front false acc role roles = refl
in_front true acc role roles =
    sym (append_assoc (text_of (once_for_each role localhost roles)) (member_text localhost) acc)
    ∙ ap (λ t. t <> acc) (front_back role roles)

add_own_roles_lem :
    (roles : List String) (l : Lists)
    → ((add_own_roles roles l).indexers
        ≡ text_of (once_for_each "indexer" localhost roles) <> l.indexers)
      × ((add_own_roles roles l).license_masters
          ≡ l.license_masters <> text_of (once_for_each "license_master" localhost roles))
unfolding add_own_roles
add_own_roles_lem [] l = (sym (nil-append l.indexers), sym (append-nil l.license_masters))
add_own_roles_lem (r ∷ roles) l =
    let ih = add_own_roles_lem roles _ in
    (
      ih.0 ∙ in_front (str_eq r "indexer") l.indexers "indexer" roles,
      ih.1
          ∙ add_one (str_eq r "license_master") localhost l.license_masters
              (once_for_each "license_master" localhost roles),
    )

-- The member lists that AutomateMCApplyChanges sends: the indexers are the console itself, if it has the
-- role, and then the peers with the role; of the license masters the console comes last.
pub member_lists_lem :
    (roles : List String) (peers : List (Named DistributedPeer))
    → let lists =
        add_own_roles roles
          (add_peers peers (record { configured = ""; indexers = ""; license_masters = "" })) in
      (lists.indexers
        ≡ text_of (once_for_each "indexer" localhost roles ++ with_role "indexer" peers))
      × (lists.license_masters
          ≡ text_of
              (with_role "license_master" peers ++ once_for_each "license_master" localhost roles))
member_lists_lem roles peers =
    let start : Lists = record { configured = ""; indexers = ""; license_masters = "" } in
    let found = add_peers_lem peers start in
    let own = add_own_roles_lem roles (add_peers peers start) in
    (
      own.0
          ∙ ap (λ t. text_of (once_for_each "indexer" localhost roles) <> t)
              (found.0 ∙ nil-append (text_of (with_role "indexer" peers)))
          ∙ sym (
              text_of-append (once_for_each "indexer" localhost roles) (with_role "indexer" peers)),
      own.1
          ∙ ap (λ t. t <> text_of (once_for_each "license_master" localhost roles))
              (found.1 ∙ nil-append (text_of (with_role "license_master" peers)))
          ∙ sym (
              text_of-append (with_role "license_master" peers)
                (once_for_each "license_master" localhost roles)),
    )
