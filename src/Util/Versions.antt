-- ===== src/Util/Versions.antt =====
-- The versions of versioned secrets: GetVersionedSecretVersion, and the loops over the secrets of a
-- namespace, of pkg/splunk/util/secrets.go.
pub mod Names
pub mod Scan
use infra_devops.Base.{
  ◌+◌, String, Bool, false, if◌then◌else◌, str_eq, Option, none, some, List, [], ◌∷◌, message,
  Result, ok, err, on_result, on_option, leb,
}
use infra_devops.Base.Int.{ℤ, pos, negsuc, ltb_ℤ, eqb_ℤ}
use infra_devops.Base.Text.{◌<>◌, strip_prefix, atoi}
use infra_devops.Common.Names.{get_versioned_secret_name}
use infra_devops.Cluster.{Secret}

-- strings.TrimPrefix
unfoldable pub trim_prefix : String → String → String
trim_prefix p s = on_option (strip_prefix p s) s (λ rest. rest)

valid_version : Option ℤ → Result ℤ
valid_version none = err (message "non integer version")
valid_version (some v) =
    if ltb_ℤ (pos 0) v then ok v else err (message "version less than or equal to zero")

unfoldable pub get_versioned_secret_version : String → String → Result ℤ
unfolding trim_prefix valid_version
get_versioned_secret_version secret_name identifier =
    let version = trim_prefix (get_versioned_secret_name identifier "") secret_name in
    if str_eq version secret_name
    then err (message ("secret name " <> secret_name <> " not matching " <> identifier))
    else valid_version (atoi version)

-- existingLatestVersion, existingLatestVersionedSecret, secretListRetr; the secret is `none` while
-- it is the zero value
pub record Latest : Type 0 where
  pub version : ℤ
  pub secret : Option Secret
  pub found : List (ℤ × Secret)

-- m[version] = secret
unfoldable pub put_version : ℤ → Secret → List (ℤ × Secret) → List (ℤ × Secret)
put_version v s [] = (v, s) ∷ []
put_version v s ((w, t) ∷ m) = if eqb_ℤ v w then (w, s) ∷ m else (w, t) ∷ put_version v s m

note_version : Bool → Latest → ℤ → Secret → Latest
unfolding put_version
note_version list acc version secret =
    let found = if list then put_version version secret acc.found else acc.found in
    if ltb_ℤ acc.version version
    then record { version = version; secret = some secret; found = found }
    else record acc { found = found }

-- The loop over the secrets; one whose name does not match is passed over.
unfoldable pub scan_secrets : String → Bool → Latest → List Secret → Latest
unfolding note_version
scan_secrets identifier list acc [] = acc
scan_secrets identifier list acc (s ∷ rest) =
    scan_secrets identifier list
      (on_result (get_versioned_secret_version s.id.name identifier) (λ _. acc)
        (λ version. note_version list acc version s))
      rest

abbrev pub no_version : Latest
no_version = record { version = negsuc 0; secret = none; found = [] }

-- (latestVersion - version) >= MinimumVersionedSecrets, of two positive versions
unfoldable pub is_unwanted : ℤ → ℤ → Bool
is_unwanted (pos latest) (pos version) = leb (version + 3) latest
is_unwanted _ _ = false
