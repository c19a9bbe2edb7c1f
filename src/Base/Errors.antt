-- ===== src/Base/Errors.antt =====
-- Go's `(value, error)` results, and how the code branches on them.
use Prim.Native.String.{String}
use mathlib.Core.Bool.{Bool, false}
use mathlib.Core.Option.{Option, none, some}

-- An error that the code makes, by its text, or one that comes from outside: its text, and what
-- errors.IsAlreadyExists and errors.IsNotFound say of it.
pub data Err : Type 0 where
  message : String → Err
  external : String → Bool → Bool → Err

abbrev pub error_text : Err → String
error_text (message s) = s
error_text (external s exists missing) = s

abbrev pub is_already_exists : Err → Bool
is_already_exists (message s) = false
is_already_exists (external s exists missing) = exists

abbrev pub is_not_found : Err → Bool
is_not_found (message s) = false
is_not_found (external s exists missing) = missing

pub data Result {ℓ} (A : Type ℓ) : Type ℓ where
  ok : A → Result A
  err : Err → Result A

-- if err != nil { … }
abbrev pub on_error {ℓ} : {B : Type ℓ} → Option Err → (Err → B) → B → B
on_error none f b = b
on_error (some e) f b = f e

abbrev pub on_result {ℓ κ} : {A : Type ℓ} {B : Type κ} → Result A → (Err → B) → (A → B) → B
on_result (ok a) f g = g a
on_result (err e) f g = f e

abbrev pub on_option {ℓ κ} : {A : Type ℓ} {B : Type κ} → Option A → B → (A → B) → B
on_option none b g = b
on_option (some a) b g = g a
