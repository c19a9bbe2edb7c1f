-- ===== src/Client.antt =====
-- The client of Splunk's REST API: Do and Get of pkg/splunk/client/enterprise.go over an HTTP transport.
-- net/http and encoding/json are parameters; the own state of an action is the list of the requests
-- sent, the latest first.
pub mod Patterns
pub mod Calls
pub mod Console
pub mod Matching
pub mod Answers
pub mod Removal
pub mod Members
pub mod Refusals
use infra_devops.Base.{
  ℕ, String, Bool, true, false, ◌||◌, if◌then◌else◌, str_eq, Option, none, some, List, [], ◌∷◌,
  message, Err, Result, ok, err, on_error, on_result, ◌==◌,
}
use infra_devops.Base.Int.{ℤ, pos}
use infra_devops.Base.Text.{◌<>◌, itoa}
use infra_devops.Cluster.{
  SplunkClient, MemberInfo, CaptainInfo, MasterInfo, PeerInfo, ClusterInfo, M, gets, modify, pure,
  panic, ◌>>=◌, ◌>>◌,
}

-- http.Request, with its basic authentication and whether its content type is set to that of a form.
pub record Request : Type 0 where
  pub method : String
  pub url : String
  pub body : String
  pub form : Bool
  pub username : String
  pub password : String

-- http.Response, with what can be read of its body.
pub record Response : Type 0 where
  pub status_code : ℕ
  pub body : String

-- An entry of a list in an answer.
pub record Named (A : Type 0) : Type 0 where
  pub name : String
  pub content : A

-- SearchHeadCaptainMemberInfo: its label, and the text of the other fields.
pub record CaptainMember : Type 0 where
  pub label : String
  pub rest : String

-- ClusterMasterPeerInfo with its label.
pub record MasterPeer : Type 0 where
  pub label : String
  pub info : PeerInfo

-- MCDistributedPeers
pub record DistributedPeer : Type 0 where
  pub cluster_label : List String
  pub server_roles : List String

-- MCAssetBuildTable
pub record AssetTable : Type 0 where
  pub dispatch_auto_cancel : String
  pub dispatch_buckets : ℤ

-- UISettings
pub record UiSettings : Type 0 where
  pub disabled : Bool
  pub eai_acl : String
  pub eai_app_name : String
  pub eai_user_name : String

-- IndexerClusterPeerInfo, as a text.
pub record SlaveInfo : Type 0 where
  pub text : String

-- http.NewRequest, the transport, and json.Unmarshal at each type that the code decodes. The transport
-- answers with a knowledge of the requests sent before.
pub record Http : Type 0 where
  pub refuses : String → String → Option Err
  pub send : List Request → Request → Result Response
  pub captains : String → Result (List CaptainInfo)
  pub captain_members : String → Result (List CaptainMember)
  pub members : String → Result (List MemberInfo)
  pub masters : String → Result (List MasterInfo)
  pub slaves : String → Result (List SlaveInfo)
  pub master_peers : String → Result (List (Named MasterPeer))
  pub cluster_infos : String → Result (List ClusterInfo)
  pub messages : String → Result (List String)
  pub server_roles : String → Result (List (List String))
  pub distributed_peers : String → Result (List (Named DistributedPeer))
  pub asset_tables : String → Result (List AssetTable)
  pub ui_settings : String → Result (List UiSettings)

abbrev pub Rest : Type 0 → Type 0
Rest A = M (List Request) A

-- The loop over the expected status codes.
unfoldable pub is_expected : List ℕ → ℕ → Bool
is_expected [] code = false
is_expected (e ∷ expected) code = e == code || is_expected expected code

-- A slice of numbers as %d prints it.
print_rest : List ℕ → String
print_rest [] = "]"
print_rest (n ∷ ns) = " " <> itoa (pos n) <> print_rest ns

unfoldable pub print_codes : List ℕ → String
unfolding print_rest
print_codes [] = "[]"
print_codes (n ∷ ns) = "[" <> itoa (pos n) <> print_rest ns

unfoldable pub wrong_code : ℕ → String → String → Err
wrong_code code url want =
    message ("Response code=" <> itoa (pos code) <> " from " <> url <> "; want " <> want)

module _ (http : Http) (c : SplunkClient) where
  -- SetBasicAuth and the transport.
  unfoldable pub transmit : Request → Rest (Result Response)
  transmit request = do
    let signed : Request = record request { username = "admin"; password = c.password }
    sent ← gets (λ s. s)
    modify (λ s. signed ∷ s)
    pure (http.send sent signed)

  -- The first part of Do: the response, if its status is expected.
  unfoldable pub do_checked : Request → List ℕ → Rest (Result Response)
  unfolding is_expected wrong_code print_codes
  do_checked request expected = do
    r ← transmit request
    on_result r (λ e. pure (err e))
        λ response.
          if is_expected expected response.status_code
          then pure (ok response)
          else pure (err (wrong_code response.status_code request.url (print_codes expected)))

  -- Do with a nil object.
  unfoldable pub do_plain : Request → List ℕ → Rest (Option Err)
  do_plain request expected = do
    r ← do_checked request expected
    pure (on_result r (λ e. some e) (λ response. none))

  -- Do with an object that `decode` fills.
  unfoldable pub do_decoding :
      {A : Type 0} → (String → Result A) → Request → List ℕ → Rest (Result A)
  do_decoding decode request expected = do
    r ← do_checked request expected
    pure (
        on_result r (λ e. err e)
          (λ response.
            if str_eq response.body ""
            then err (message ("Received empty response body from " <> request.url))
            else decode response.body))

  abbrev pub new_request : String → String → String → Request
  new_request method url body = record {
    method = method;
    url = url;
    body = body;
    form = false;
    username = "";
    password = "";
  }

  unfoldable pub get : {A : Type 0} → (String → Result A) → String → Rest (Result A)
  get decode path = do
    let endpoint = c.uri <> path <> "?count=0&output_mode=json"
    on_error (http.refuses "GET" endpoint) (λ e. pure (err e))
        (do_decoding decode (new_request "GET" endpoint "") (200 ∷ []))

  -- An answer with no entry is invalid.
  abbrev pub first_of : {A : Type 0} → String → List A → Result A
  first_of path [] = err (message ("Invalid response from " <> c.uri <> path))
  first_of path (a ∷ more) = ok a

  -- The first entry of an answer, as five operations take it.
  unfoldable pub get_first : {A : Type 0} → (String → Result (List A)) → String → Rest (Result A)
  get_first decode path = do r ← get decode path; pure (on_result r (λ e. err e) (first_of path))

  -- A request with no body, whose refusal is returned.
  unfoldable pub post : String → Rest (Option Err)
  post endpoint =
      on_error (http.refuses "POST" endpoint) (λ e. pure (some e))
        (do_plain (new_request "POST" endpoint "") (200 ∷ []))
