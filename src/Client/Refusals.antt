-- ===== src/Client/Refusals.antt =====
-- What the monitoring console's operations do with a URL that http.NewRequest refuses.
use infra_devops.Base.{ℕ, String, Option, none, some, List, Err, on_error, ◌≡◌, ◌≢◌, ◌↔◌, refl}
use infra_devops.Base.Text.{◌<>◌}
use infra_devops.Cluster.{SplunkClient, State, panic}
use infra_devops.Cluster.Runs.{
  Runs, Runs-pure, Runs-gets, Runs-modify, Runs-bind, Runs-if, Runs-on_result, Runs-ne_none,
}
use infra_devops.Client.{Http, Request, Response, Rest, is_expected, do_plain, do_checked, transmit}
use infra_devops.Client.Console.{post_unchecked, update_dmc_clustering_label_group}

module _ (http : Http) (c : SplunkClient) where
  abbrev pub label_url : String → String
  label_url group =
      c.uri <> "/services/search/distributed/groups/dmc_indexerclustergroup_" <> group <> "/edit"

  by_refusal :
      (refusal : Option Err) (m n : Rest (Option Err)) (s : State (List Request))
      → m s ≡ none
      → n s ≢ none
      → (on_error refusal (λ e. m) n s ≡ none) ↔ (refusal ≢ none)
  by_refusal none m n s h k = (λ q. absurd (k q), λ q. absurd (q refl))
  by_refusal (some e) m n s h k = (λ q p. cc p, λ q. h)

  do_plain-Runs :
      (request : Request) (expected : List ℕ) (s : State (List Request))
      → Runs (do_plain http c request expected) s (λ e s'. Unit {0})
  unfolding do_plain do_checked transmit
  do_plain-Runs request expected s =
      let signed : Request = record request { username = "admin"; password = c.password } in
      Runs-bind _ s _ _ (
        Runs-bind _ s _ _ (
          Runs-bind _ s _ _ (
            Runs-gets _ s _ (
              Runs-bind _ s _ _ (
                Runs-modify _ s _ (
                  Runs-pure _ _ _ (
                    Runs-on_result {A = Response} _ _ (http.send s.own signed) _ _
                      (λ e h. Runs-pure _ _ _ (Runs-pure _ _ _ tt))
                      (λ response h.
                        Runs-if _ _ (is_expected expected response.status_code) _ _
                          (λ b. Runs-pure _ _ _ (Runs-pure _ _ _ tt))
                          (λ b. Runs-pure _ _ _ (Runs-pure _ _ _ tt))))))))))

  -- The update of a label's group panics just where http.NewRequest refuses its URL, which has the label
  -- in it as it is.
  pub update_dmc_clustering_label_group-panics :
      (group members : String) (s : State (List Request))
      → (update_dmc_clustering_label_group http c group members s ≡ none)
        ↔ (http.refuses "POST" (label_url group) ≢ none)
  unfolding update_dmc_clustering_label_group post_unchecked panic
  update_dmc_clustering_label_group-panics group members s =
      by_refusal (http.refuses "POST" (label_url group)) _ _ s refl
        (Runs-ne_none _ s (do_plain-Runs _ _ s))
