-- ===== src/Client/Removal.antt =====
-- When RemoveSearchHeadClusterMember takes a member for removed.
use infra_devops.Base.{
  String, true, Bool-cases, str_eq, none, some, List, [], ◌∷◌, Result, ok, err, on_result, ◌==◌,
  ◌≡◌, ◌≢◌, ◌↔◌, ◌⊎◌, inl, inr, refl, ap, arith, eq_iff, message, error_text,
}
use mathlib.Core.Path.{subst}
use infra_devops.Base.Text.{◌<>◌, contains_str}
use infra_devops.Cluster.{SplunkClient, State}
use infra_devops.Cluster.Runs.{Runs, Runs-pure, Runs-gets, Runs-modify, Runs-bind}
use infra_devops.Client.{Http, Request, Response, transmit, new_request}
use infra_devops.Client.Patterns.{already_removed, Around, matches_around}
use infra_devops.Client.Matching.{matches_around_iff}
use infra_devops.Client.Calls.{
  judge_messages, judge_unavailable, judge_removal, remove_search_head_cluster_member,
}

-- The message of a member that is no longer there.
abbrev pub Gone : String → Type 0
Gone text =
    Around "Server " " is not part of configuration, hence cannot be removed" text
    ⊎ (contains_str text "This node is not part of any cluster configuration" ≡ true)

already_removed_iff : (text : String) → (already_removed text ≡ true) ↔ Gone text
unfolding already_removed
already_removed_iff text =
    let first =
      matches_around_iff "Server " " is not part of configuration, hence cannot be removed" text in
    (
      λ h.
          elim (Bool-cases (
            matches_around "Server " " is not part of configuration, hence cannot be removed"
              text)) [ inl e ↦ inl (first.0 e) | inr e ↦ inr (rw e at h) ],
      λ g. elim g [ inl a ↦ rw (first.1 a) refl | inr b ↦ ground (arith, b) ],
    )

-- The response confirms that the member is removed: it succeeds, or its status is 503 and the first of
-- its messages says that the member is not there.
abbrev pub Confirms : Http → Response → Type 0
Confirms http response =
    (response.status_code ≡ 200)
    ⊎ ((response.status_code ≡ 503)
        × (response.body ≢ "")
        × ((text : String) × (texts : List String) × (http.messages response.body
              ≡ ok (text ∷ texts))
            × Gone text))

messages_iff :
    (url : String) (texts : List String)
    → (judge_messages url texts ≡ none)
      ↔ ((text : String) × (more : List String) × (texts ≡ text ∷ more) × Gone text)
unfolding judge_messages
messages_iff url [] = (λ h. absurd (cc h), λ (text, more, e, g). absurd (cc e))
messages_iff url (text ∷ texts) = (
  λ h. elim (Bool-cases (already_removed text)) [
    | inl e ↦ (text, texts, refl, (already_removed_iff text).0 e)
    | inr e ↦ absurd (let k = rw e at h in cc k)
  ],
  λ (first, more, e, g).
      let same : first ≡ text = cc e in rw ((already_removed_iff text).1 (subst Gone same g)) refl,
)

module _ (http : Http) (c : SplunkClient) where
  unavailable_iff :
      (url body : String)
      → (judge_unavailable http c url body ≡ none) ↔ (
          (body ≢ "")
          × ((text : String) × (texts : List String) × (http.messages body ≡ ok (text ∷ texts))
              × Gone text))
  unfolding judge_unavailable
  unavailable_iff url body = elim (Bool-cases (str_eq body "")) [
    | inl e ↦ rw e (λ h. absurd (cc h), λ p. absurd (p.0 ((eq_iff body "").0 e)))
    | inr e ↦ rw e (by_messages (http.messages body) (λ q. absurd (cc (e, (eq_iff body "").1 q))))
  ]
    where
      by_messages :
          (r : Result (List String))
          → body ≢ ""
          → (on_result r
                (λ x.
                  some
                    (message ("Failed to unmarshal response from " <> url <> ": " <> error_text x)))
                (judge_messages url)
              ≡ none)
            ↔ ((body ≢ "")
                × ((text : String) × (texts : List String) × (r ≡ ok (text ∷ texts)) × Gone text))
      by_messages (err x) n =
          (λ h. absurd (cc h), λ p. let (text, texts, q, g) = p.1 in absurd (cc q))
      by_messages (ok texts) n = (
        λ h. let (text, more, q, g) = (messages_iff url texts).0 h in (n, (text, more, ap ok q, g)),
        λ p. let (text, more, q, g) = p.1 in (messages_iff url texts).1 (text, more, cc q, g),
      )

  judge_removal_iff :
      (url : String) (response : Response)
      → (judge_removal http c url response ≡ none) ↔ Confirms http response
  unfolding judge_removal
  judge_removal_iff url response = elim (Bool-cases (response.status_code == 200)) [
    | inl e ↦ rw e (λ h. inl (ground (arith, e)), λ p. refl)
    | inr e ↦ rw e (elim (Bool-cases (response.status_code == 503)) [
      | inl f ↦ rw f (
        λ h. let p = (unavailable_iff url response.body).0 h in inr (ground (arith, f), p.0, p.1),
        λ p. elim p [
          | inl q ↦ absurd (ground (arith, e, q))
          | inr (q, n, rest) ↦ (unavailable_iff url response.body).1 (n, rest)
        ],
      )
      | inr f ↦ rw f (
        λ h. absurd (cc h),
        λ p. elim p [
          | inl q ↦ absurd (ground (arith, e, q))
          | inr (q, n, rest) ↦ absurd (ground (arith, f, q))
        ],
      )
    ])
  ]

  abbrev pub removal_url : String
  removal_url =
      c.uri <> "/services/shcluster/member/consensus/default/remove_server?output_mode=json"

  -- The request for the removal, with the credentials of the client.
  abbrev pub removal_request : Request
  removal_request = record (new_request http c "POST" removal_url "") {
    username = "admin";
    password = c.password;
  }

  -- Where its URL is accepted, the removal of a search head sends one request and returns; it reports no
  -- error just where the response confirms that the member is removed.
  pub remove_search_head_cluster_member-Confirms :
      (s : State (List Request))
      → http.refuses "POST" removal_url ≡ none
      → Runs (remove_search_head_cluster_member http c) s (λ e s'.
        (s'.own ≡ removal_request ∷ s.own)
        × ((e ≡ none) ↔ (
            (response : Response) × (http.send s.own removal_request ≡ ok response)
            × Confirms http response)))
  unfolding remove_search_head_cluster_member transmit
  remove_search_head_cluster_member-Confirms s h = rw h (
      Runs-bind _ s _ _ (
        Runs-bind _ s _ _ (
          Runs-gets _ s _ (
            Runs-bind _ s _ _ (
              Runs-modify _ s _ (
                Runs-pure _ _ _
                  (Runs-pure _ _ _ (refl, by_response (http.send s.own removal_request)))))))))
    where
      by_response :
          (r : Result Response)
          → (on_result r (λ e. some e) (judge_removal http c removal_url) ≡ none)
            ↔ ((response : Response) × (r ≡ ok response) × Confirms http response)
      by_response (err e) = (λ k. absurd (cc k), λ (response, q, p). absurd (cc q))
      by_response (ok response) = (
        λ k. (response, refl, (judge_removal_iff removal_url response).0 k),
        λ (other, q, p).
            let same : other ≡ response = cc q in
            (judge_removal_iff removal_url response).1 (subst (Confirms http) same p),
      )
