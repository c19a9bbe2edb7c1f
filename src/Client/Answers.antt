-- ===== src/Client/Answers.antt =====
-- The maps that the client builds from the entries of an answer.
use infra_devops.Base.{
  String, Bool, true, false, if◌then◌else◌, str_eq, Option, none, some, List, [], ◌∷◌, ◌≡◌, ◌∙◌,
  refl, ap,
}
use infra_devops.Base.Dict.{Dict, lookup, insert, lookup-insert}
use infra_devops.Cluster.{PeerInfo}
use infra_devops.Client.{Named, MasterPeer}
use infra_devops.Client.Calls.{index_peers}

-- The first answer, or else the second.
abbrev pub or_else : {A : Type 0} → Option A → Option A → Option A
or_else none b = b
or_else (some a) b = some a

or_else_assoc : {A : Type 0} (a b c : Option A) → or_else a (or_else b c) ≡ or_else (or_else a b) c
or_else_assoc none b c = refl
or_else_assoc (some a) b c = refl

-- The info of the last entry with a label, with the entry's name as its ID.
abbrev pub reported_peer : String → List (Named MasterPeer) → Option PeerInfo
reported_peer label [] = none
reported_peer label (e ∷ es) =
    or_else (reported_peer label es) (
      if str_eq e.content.label label then some (record (e.content.info) { id = e.name }) else none)

hit_or_else :
    {A : Type 0} (b : Bool) (a : A) (o : Option A)
    → (if b then some a else o) ≡ or_else (if b then some a else none) o
hit_or_else true a o = refl
hit_or_else false a o = refl

index_peers-lookup :
    (label : String) (es : List (Named MasterPeer)) (acc : Dict PeerInfo)
    → lookup label (index_peers acc es) ≡ or_else (reported_peer label es) (lookup label acc)
unfolding index_peers
index_peers-lookup label [] acc = refl
index_peers-lookup label (e ∷ es) acc =
    let info : PeerInfo = record (e.content.info) { id = e.name } in
    index_peers-lookup label es (insert e.content.label info acc)
    ∙ ap (or_else (reported_peer label es)) (
        lookup-insert e.content.label label info acc
        ∙ hit_or_else (str_eq e.content.label label) info (lookup label acc))
    ∙ or_else_assoc (reported_peer label es) _ (lookup label acc)

-- The peers of a cluster master are found by their labels: under a label stands the last entry with it.
pub index_peers_lem :
    (label : String) (es : List (Named MasterPeer))
    → lookup label (index_peers [] es) ≡ reported_peer label es
unfolding lookup
index_peers_lem label es = index_peers-lookup label es [] ∙ or_none (reported_peer label es)
  where
    or_none : (o : Option PeerInfo) → or_else o none ≡ o
    or_none none = refl
    or_none (some p) = refl
