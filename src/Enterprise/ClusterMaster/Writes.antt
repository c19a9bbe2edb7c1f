-- ===== src/Enterprise/ClusterMaster/Writes.antt =====
-- What ApplySmartstoreConfigMap writes, as far as its result tells it.
use infra_devops.Base.{
  String, Bool, true, false, not, Option, none, some, [], ◌∷◌, Err, Result, ok, err, on_result, ◌≡◌,
  ◌∙◌, refl, str_eq, ◌&&◌,
}
use infra_devops.Base.Dict.{Dict}
use infra_devops.Common.Meta.{MetaObject}
use infra_devops.Cluster.{ConfigMap, Env, State, History, create_config_map, update_config_map}
use infra_devops.Cluster.Runs.{
  Runs, Runs-pure, Runs-ask, Runs-bind, Runs-weaken, Runs-if, Runs-on_error, Runs-on_result,
  Runs-still,
}
use infra_devops.Util.Resource.{
  fetch_config_map, new_config_map, save_config_map, create_resource, update_resource,
}
use infra_devops.Control.Apply.{apply_config_map}
use infra_devops.Control.Merge.{map_eq}
use infra_devops.Enterprise.SmartStore.{SmartStoreSpec, elements}
use infra_devops.Enterprise.SmartStore.Quiet.{get_smartstore_volumes_config-Still}
use infra_devops.Enterprise.SmartStore.Config.{get_smartstore_indexes_config}
use infra_devops.Enterprise.SmartStore.Maps.{apply_entries, apply_smartstore_config_map}

-- The latest call writes a config map.
abbrev pub Written : History → Type 0
Written [] = ⊥
Written (create_config_map m ∷ h) = Unit
Written (update_config_map m ∷ h) = Unit
Written (_ ∷ h) = ⊥

-- What a success that reports whether something changed means for the calls made.
unfoldable pub Tells : Bool → Option Err → History → Type 0
Tells changed failure h =
    failure ≡ none → (changed ≡ true → Written h) × (changed ≡ false → Written h → ⊥)

failed : (changed : Bool) (e : Err) (h : History) → Tells changed (some e) h
unfolding Tells
failed changed e h q = absurd (cc q)

quiet : (e : Option Err) (h : History) → (Written h → ⊥) → Tells false e h
unfolding Tells
quiet e h n q = (λ t. absurd (cc t), λ f. n)

written_lem :
    (r : Result ConfigMap) (h : History)
    → Written h
    → Tells
        (on_result {B = Bool × Option Err} r (λ e. (false, some e)) (λ _. (true, none))).0
        (on_result {B = Bool × Option Err} r (λ e. (false, some e)) (λ _. (true, none))).1
        h
unfolding Tells
written_lem (ok m) h w q = (λ t. w, λ f. absurd (cc f))
written_lem (err e) h w q = absurd (cc q)

module _ (env : Env) where
  module _ {S : Type 0} where
    apply_config_map-Tells :
        (m : ConfigMap) (s : State S)
        → Runs (apply_config_map env m) s (λ r s'. (s'.own ≡ s.own) × Tells r.0 r.1 s'.calls)
    unfolding apply_config_map fetch_config_map new_config_map save_config_map create_resource
        update_resource
    apply_config_map-Tells m s = Runs-bind _ s _ _ (
        Runs-ask _ s _ _ (
          Runs-on_result _ _ (env.config_map_at s.calls m.id) _ _
            (λ e k. Runs-bind _ _ _ _ (
              Runs-bind _ _ _ _
                (Runs-ask _ _ _ _ (Runs-pure _ _ _ (Runs-pure _ _ _ (refl, written_lem _ _ tt))))))
            (λ current k.
              Runs-if _ _ (map_eq m.data_map current.data_map) _ _
                (λ same. Runs-pure _ _ _ (refl, quiet none _ (λ w. w)))
                (λ differ. Runs-bind _ _ _ _ (
                  Runs-bind _ _ _ _ (
                    Runs-ask _ _ _ _
                      (Runs-pure _ _ _ (Runs-pure _ _ _ (refl, written_lem _ _ tt)))))))))

    module _ (cr : MetaObject) where
      apply_entries-Tells :
          (entries : Dict String) (s : State S)
          → Runs
              (apply_entries env cr entries)
              s
              (λ r s'. (s'.own ≡ s.own) × Tells r.changed r.failure s'.calls)
      unfolding apply_entries Tells
      apply_entries-Tells entries s = Runs-bind _ s _ _ (
          Runs-weaken _ _ _ _ (apply_config_map-Tells _ s) (λ r s' p.
            Runs-on_error _ s' r.1 _ _ (λ e k. Runs-pure _ _ _ (p.0, failed _ e _))
              (λ k.
                Runs-if _ s' r.0 _ _
                  (λ c. Runs-bind _ s' _ _ (
                    Runs-ask _ s' _ _ (
                      Runs-bind _ _ _ _ (
                        Runs-weaken _ _ _ _ (apply_config_map-Tells _ _) (λ q t' w.
                          Runs-on_error _ t' q.1 _ _
                            (λ e j. Runs-pure _ _ _ (w.0 ∙ p.0, failed _ e _))
                            (λ j. Runs-pure _ _ _ (w.0 ∙ p.0, λ o. w.1 j)))))))
                  (λ c. Runs-pure _ s' _ (p.0, quiet none _ ((p.1 k).1 c))))))

      pub apply_smartstore-Tells :
          (wanted : SmartStoreSpec) (s : State S)
          → Runs
              (apply_smartstore_config_map env cr wanted)
              s
              (λ r s'. (s'.own ≡ s.own) × Tells r.changed r.failure s'.calls)
      unfolding apply_smartstore_config_map
      apply_smartstore-Tells wanted s =
          Runs-still _ s _ _ (get_smartstore_volumes_config-Still env cr wanted) (λ r h.
            Runs-on_result _ _ r _ _ (λ e k. Runs-pure _ _ _ (refl, failed _ e _))
              (λ volumes k.
                Runs-if _ _
                  (not (str_eq (get_smartstore_indexes_config (elements wanted.index_list)) "")
                    && str_eq volumes "")
                  _ _ (λ n. Runs-pure _ _ _ (refl, failed _ _ _)) (λ n. apply_entries-Tells _ _)))
