-- ===== src/Base/Dict.antt =====
-- Go maps with string keys, as association lists: an insert replaces the value of its key in place.

use Prim.Native.String.{String}
use mathlib.Core.Path.{◌≡◌, refl}
use mathlib.Core.Bool.{Bool, true, false, ◌&&◌}
use mathlib.Core.Option.{Option, none, some}
use mathlib.Core.List.{List, [], ◌∷◌}
use native.Mathlib.Omega.{arith}
use text.Mathlib.Text.{◌==◌ as str_eq}
use text.Mathlib.TextEquality.{eq_iff}
use infra_devops.Base.Tests.{◌==◌, if◌then◌else◌}
use infra_devops.Base.Lists.{length}

abbrev pub Dict {ℓ} : Type ℓ → Type ℓ
Dict V = List (String × V)

-- An entry that is tried before the answer `o` of the entries behind it.
abbrev hit {ℓ} : {V : Type ℓ} → String → String → V → Option V → Option V
hit wanted key v o = if str_eq key wanted then some v else o

module _ {ℓ} {V : Type ℓ} where
  unfoldable pub lookup : String → Dict V → Option V
  lookup wanted [] = none
  lookup wanted ((key, v) ∷ entries) = hit wanted key v (lookup wanted entries)

  unfoldable pub insert : String → V → Dict V → Dict V
  insert key new [] = (key, new) ∷ []
  insert key new ((other, old) ∷ entries) =
      let rest = insert key new entries in
      if str_eq other key then (other, new) ∷ entries else (other, old) ∷ rest

  -- A write is seen at its own key and at no other.
  pub lookup-insert :
      (key wanted : String) (new : V) (entries : Dict V)
      → lookup wanted (insert key new entries) ≡ hit wanted key new (lookup wanted entries)
  unfolding lookup insert
  lookup-insert key wanted new [] = refl
  lookup-insert key wanted new ((other, old) ∷ entries) =
      let behind = lookup-insert key wanted new entries in
      let same = eq_iff other key in
      let here = eq_iff other wanted in
      let there = eq_iff key wanted in ground (arith, behind, same, here, there)

-- The value of a missing key is the zero value.
abbrev pub or_empty : Option String → String
or_empty none = ""
or_empty (some s) = s

abbrev pub is_some {ℓ} : {A : Type ℓ} → Option A → Bool
is_some none = false
is_some (some a) = true

same_value : String → Option String → Bool
same_value v none = false
same_value v (some w) = str_eq v w

agrees : Dict String → Dict String → Bool
agrees [] m = true
agrees ((k, v) ∷ l) m = same_value v (lookup k m) && agrees l m

-- reflect.DeepEqual on two maps, whose keys are distinct.
unfoldable pub dict_eq : Dict String → Dict String → Bool
unfolding agrees same_value lookup
dict_eq a b = (length a == length b) && agrees a b

module _ {ℓ} {V : Type ℓ} where
  -- delete(entries, key)
  unfoldable pub erase : String → Dict V → Dict V
  erase key [] = []
  erase key ((other, v) ∷ entries) =
      let rest = erase key entries in if str_eq other key then rest else (other, v) ∷ rest

  -- A deletion leaves every other key alone.
  pub lookup-erase :
      (key wanted : String) (entries : Dict V)
      → str_eq key wanted ≡ false
      → lookup wanted (erase key entries) ≡ lookup wanted entries
  unfolding lookup erase
  lookup-erase key wanted [] h = refl
  lookup-erase key wanted ((other, v) ∷ entries) h =
      let behind = lookup-erase key wanted entries h in
      let same = eq_iff other key in
      let here = eq_iff other wanted in
      let there = eq_iff key wanted in ground (arith, behind, same, here, there)
