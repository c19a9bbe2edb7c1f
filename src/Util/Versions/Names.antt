-- ===== src/Util/Versions/Names.antt =====
-- A versioned secret's name is read back as its version.
use infra_devops.Base.{
  ℕ, ◌<◌, ◌≤◌, String, false, Bool-cases, str_eq, eq_iff, some, ok, ◌≡◌, ◌≢◌, sym, ◌∙◌, arith, inl,
  inr,
}
use infra_devops.Base.Int.{pos}
use infra_devops.Base.Text.{◌<>◌, strip_prefix-append, itoa, atoi-itoa}
use text.Mathlib.TextLemmas.{
  nil-append, append-nil, append_cancel_right, append-ne-nil_of_right_ne-nil,
}
use infra_devops.Common.Names.{get_versioned_secret_name}
use infra_devops.Util.Versions.{trim_prefix, valid_version, get_versioned_secret_version}

valid_version-pos : (n : ℕ) → 0 < n → valid_version (some (pos n)) ≡ ok (pos n)
unfolding valid_version
valid_version-pos n h = ground arith

-- A name with a prefix that is not empty is not what follows the prefix.
longer : (p s : String) → p ≢ "" → str_eq s (p <> s) ≡ false
longer p s h = elim (Bool-cases (str_eq s (p <> s))) [
  | inl e ↦ absurd (h (sym (append_cancel_right "" p s (nil-append s ∙ (eq_iff s (p <> s)).0 e))))
  | inr e ↦ e
]

-- A versioned secret's name, of a version from 1 to the largest int64, is read back as that version.
pub get_versioned_secret_version-name :
    (identifier : String) (n : ℕ)
    → 0 < n
    → n ≤ 9223372036854775807
    → get_versioned_secret_version (get_versioned_secret_name identifier (itoa (pos n))) identifier
      ≡ ok (pos n)
unfolding get_versioned_secret_version get_versioned_secret_name trim_prefix
get_versioned_secret_version-name identifier n h k =
    let p = identifier <> "-secret-v" in
    let differs = longer p (itoa (pos n)) (append-ne-nil_of_right_ne-nil identifier (λ e. cc)) in
    rw (append-nil p, strip_prefix-append p (itoa (pos n)), differs, atoi-itoa n k)
      (valid_version-pos n h)
