-- ===== src/Util/Tokens.antt =====
-- The tokens of secrets: GetSecretFromPod, GetSpecificSecretTokenFromPod, the generation of tokens
-- and ApplyNamespaceScopedSecretObject of pkg/splunk/util/secrets.go, with GenerateSecret of
-- pkg/splunk/common/util.go and generateHECToken of pkg/splunk/util/util.go.
pub mod Emits
pub mod Fixes
pub mod Filled
use infra_devops.Base.{
  ℕ, zero, suc, ◌%◌, String, Bool, true, false, ◌&&◌, if◌then◌else◌, str_eq, some, List, [], ◌∷◌,
  message, Result, ok, err, on_result, on_option, ltb, ◌==◌, length,
}
use infra_devops.Base.Text.{◌<>◌}
use infra_devops.Base.Dict.{Dict, lookup, insert, is_some}
use infra_devops.Common.Names.{get_namespace_scoped_secret_name, get_splunk_secret_token_types}
use infra_devops.Cluster.{
  NamespacedName, PodVolume, Secret, Env, random, M, ask, pure, panic, ◌>>=◌,
}
use infra_devops.Util.Resource.{fetch_pod, fetch_secret, new_secret, save_secret}

-- The loop over the pod's volumes: the first one of the right name with a source ends it.
unfoldable pub find_secret_name : List PodVolume → String
find_secret_name [] = ""
find_secret_name (v ∷ vs) =
    if str_eq v.name "mnt-splunk-secrets" && ltb 0 v.source_size
    then v.secret_name
    else find_secret_name vs

unfoldable pub token_of : Secret → String → Result String
token_of secret token = on_option secret.data_map (err (message "invalid secret data")) λ m.
    if str_eq token ""
    then err (message "empty secret token")
    else on_option (lookup token m) (err (message "invalid secret data")) (λ v. ok v)

pick : String → ℕ → String
pick String.[] n = ""
pick (String.◌∷◌ c s) zero = String.◌∷◌ c String.[]
pick (String.◌∷◌ c s) (suc n) = pick s n

abbrev alphabet_size : String → ℕ
alphabet_size String.[] = 0
alphabet_size (String.◌∷◌ c s) = suc (alphabet_size s)

abbrev secret_bytes : String
secret_bytes = "abcdefghijklmnopqrstuvwxyzABCDEFGHIJKLMNOPQRSTUVWXYZ0123456789"

abbrev hex_bytes : String
hex_bytes = "ABCDEF01234567890"

set_char : ℕ → String → String → String
set_char n c String.[] = ""
set_char zero c (String.◌∷◌ d s) = c <> s
set_char (suc n) c (String.◌∷◌ d s) = String.◌∷◌ d (set_char n c s)

module _ {S : Type 0} (env : Env) where
  unfoldable pub get_secret_from_pod : String → String → M S (Result Secret)
  get_secret_from_pod pod_name namespace = do
    r ← fetch_pod env (record { namespace = namespace; name = pod_name })
    on_result r (λ _. pure (err (message "pod not found")))
        λ pod.
          if length pod.volumes == 0
          then pure (err (message "Empty pod spec volumes"))
          else (let secret_name = find_secret_name pod.volumes in
              if str_eq secret_name ""
              then pure (err (message "Didn't find secret volume source in any pod volume"))
              else do
                s ← fetch_secret env (record { namespace = namespace; name = secret_name })
                pure (on_result s (λ _. err (message "secret not found")) (λ secret. ok secret)))

  unfoldable pub get_specific_secret_token_from_pod : String → String → String → M S (Result String)
  unfolding get_secret_from_pod token_of
  get_specific_secret_token_from_pod pod_name namespace token = do
    r ← get_secret_from_pod pod_name namespace
    pure (on_result r (λ e. err e) (λ secret. token_of secret token))

  -- GenerateSecret(alphabet, n)
  unfoldable pub generate_secret : String → ℕ → M S String
  unfolding pick
  generate_secret alphabet zero = pure ""
  generate_secret alphabet (suc n) = do
    r ← ask random (λ h. env.random_number h)
    rest ← generate_secret alphabet n
    pure (pick alphabet (r % alphabet_size alphabet) <> rest)

  -- generateHECToken
  unfoldable pub generate_hec_token : M S String
  unfolding generate_secret set_char
  generate_hec_token = do
    t ← generate_secret hex_bytes 36
    pure (set_char 23 "-" (set_char 18 "-" (set_char 13 "-" (set_char 8 "-" t))))

  unfoldable pub generate_token : String → M S String
  unfolding generate_hec_token generate_secret
  generate_token token_type =
      if str_eq token_type "hec_token" then generate_hec_token else generate_secret secret_bytes 24

  -- The loop that generates the missing tokens, and whether there was one.
  unfoldable pub fill_tokens : List String → Bool → Dict String → M S (Dict String × Bool)
  unfolding generate_token
  fill_tokens [] updated m = pure (m, updated)
  fill_tokens (t ∷ types) updated m =
      if is_some (lookup t m)
      then fill_tokens types updated m
      else do v ← generate_token t; fill_tokens types true (insert t v m)

  -- The loop that generates all tokens.
  unfoldable pub new_tokens : List String → Dict String → M S (Dict String)
  unfolding generate_token
  new_tokens [] m = pure m
  new_tokens (t ∷ types) m = do v ← generate_token t; new_tokens types (insert t v m)

  -- A write into a nil Data panics.
  unfoldable pub fill_secret : Secret → M S (Result Secret)
  unfolding fill_tokens
  fill_secret current = on_option current.data_map panic λ m. do
    (m', updated) ← fill_tokens get_splunk_secret_token_types false m
    let current' : Secret = record current { data_map = some m' }
    if updated then save_secret env current' else pure (ok current')

  unfoldable pub apply_namespace_scoped_secret_object : String → M S (Result Secret)
  unfolding fill_secret new_tokens
  apply_namespace_scoped_secret_object namespace = do
    let id : NamespacedName = record {
      namespace = namespace;
      name = get_namespace_scoped_secret_name namespace;
    }
    r ← fetch_secret env id
    on_result r
        (λ _. do
          m ← new_tokens get_splunk_secret_token_types []
          new_secret env (record {
            id = id;
            resource_version = "";
            owner_references = [];
            data_map = some m;
            rest = "";
          }))
        fill_secret
