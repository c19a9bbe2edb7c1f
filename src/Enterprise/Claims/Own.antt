-- ===== src/Enterprise/Claims/Own.antt =====
-- Which claims DeleteSplunkPvc deletes.
use infra_devops.Base.{
  String, none, some, List, [], ◌∷◌, Result, ok, err, ◌≡◌, refl, length, ◌==◌, if◌then◌else◌,
  on_result, on_error,
}
use infra_devops.Base.Text.{◌<>◌}
use infra_devops.Common.Meta.{MetaObject}
use infra_devops.Cluster.{
  NamespacedName, Env, Call, History, list_claims, delete_claim, pure, ◌>>=◌,
}
use infra_devops.Cluster.Emits.{Emits, Emits-pure, Emits-if, Emits-bind, Emits-ask, Emits-on_error}
use infra_devops.Cluster.Yields.{Yields-ask, Emits-then}
use mathlib.Core.List.{Memᴰ}
use infra_devops.Util.Resource.{remove_claim}
use infra_devops.Enterprise.Claims.{
  claim_components, remove_claims, delete_component_claims, delete_splunk_pvc,
}

module _ (env : Env) (cr : MetaObject) where
  -- A claim that a listing of the component answers.
  abbrev Answered : String → NamespacedName → Type 0
  Answered component id =
      (h : History) × (claims : List NamespacedName) × (env.claims_of h cr.namespace
          ("splunk-" <> cr.name <> "-" <> component)
        ≡ ok claims)
      × Memᴰ id claims

  -- What the calls may be, for a resource with the given components.
  pub TouchesOwn : List String → Call → Type 0
  TouchesOwn components (list_claims namespace label) =
      (component : String) × Memᴰ component components
      × (namespace ≡ cr.namespace)
      × (label ≡ "splunk-" <> cr.name <> "-" <> component)
  TouchesOwn components (delete_claim id) =
      (component : String) × Memᴰ component components × Answered component id
  TouchesOwn components _ = ⊥

  module _ {S : Type 0} (components : List String) where
    remove_claims-TouchesOwn :
        (component : String) (claims : List NamespacedName)
        → Memᴰ component components
        → ((id : NamespacedName) → Memᴰ id claims → Answered component id)
        → Emits {S = S} (TouchesOwn components) (remove_claims env claims)
    unfolding remove_claims remove_claim TouchesOwn
    remove_claims-TouchesOwn component [] there own = Emits-pure _
    remove_claims-TouchesOwn component (c ∷ cs) there own =
        Emits-bind _ _ (Emits-ask _ _ (component, there, own c (Memᴰ.head refl))) (λ e.
          Emits-on_error e _ _ (λ x. Emits-pure _)
            (remove_claims-TouchesOwn component cs there (λ id m. own id (Memᴰ.tail m))))

    delete_component_claims-TouchesOwn :
        (left : List String)
        → ((component : String) → Memᴰ component left → Memᴰ component components)
        → Emits {S = S} (TouchesOwn components) (delete_component_claims env cr left)
    unfolding delete_component_claims TouchesOwn
    delete_component_claims-TouchesOwn [] within = Emits-pure _
    delete_component_claims-TouchesOwn (c ∷ cs) within =
        let label = "splunk-" <> cr.name <> "-" <> c in
        Emits-then
          (λ (r : Result (List NamespacedName)).
            (h : History) × (env.claims_of h cr.namespace label ≡ r))
          (TouchesOwn components) _ _ (Yields-ask _ _ _ (λ h. (h, refl)))
          (Emits-ask _ _ (c, within c (Memᴰ.head refl), refl, refl))
          (λ r answered.
            of_answer c cs r answered (within c (Memᴰ.head refl))
              (delete_component_claims-TouchesOwn cs (λ x m. within x (Memᴰ.tail m))))
      where
        of_answer :
            (c : String) (cs : List String) (r : Result (List NamespacedName))
            → (h : History) × (env.claims_of h cr.namespace ("splunk-" <> cr.name <> "-" <> c) ≡ r)
            → Memᴰ c components
            → Emits {S = S} (TouchesOwn components) (delete_component_claims env cr cs)
            → Emits {S = S} (TouchesOwn components) (
                on_result r
                  (λ e. pure (some e))
                  λ claims. if length claims == 0 then pure none else do
                    e ← remove_claims env claims
                    on_error e (λ e. pure (some e)) (delete_component_claims env cr cs))
        of_answer c cs (err x) answered there behind = Emits-pure _
        of_answer c cs (ok claims) (h, answer) there behind =
            Emits-if (length claims == 0) _ _ (Emits-pure _) (
              Emits-bind _ _
                (remove_claims-TouchesOwn c claims there (λ id m. (h, claims, answer, m)))
                (λ e. Emits-on_error e _ _ (λ x. Emits-pure _) behind))

  -- DeleteSplunkPvc lists the claims of the resource's own namespace by the labels of the components of
  -- its kind, and makes no other call than to delete claims that such a listing answers.
  pub delete_splunk_pvc-TouchesOwn :
      {S : Type 0}
      → Emits {S = S} (TouchesOwn (claim_components cr.kind)) (delete_splunk_pvc env cr)
  unfolding delete_splunk_pvc
  delete_splunk_pvc-TouchesOwn =
      delete_component_claims-TouchesOwn (claim_components cr.kind) (claim_components cr.kind)
        (λ x m. m)
