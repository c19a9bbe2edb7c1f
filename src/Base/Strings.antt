-- ===== src/Base/Strings.antt =====
-- Functions of Go's package strings: Split at commas, ReplaceAll, HasSuffix, TrimPrefix and TrimSuffix.
use Prim.Native.Nat.{ℕ, zero, suc, ◌+◌, ◌-◌}
use Prim.Native.Char.{Char, code}
use Prim.Native.String.{String}
use mathlib.Core.Path.{◌≡◌, refl, ap, ◌∙◌, sym}
use mathlib.Core.Bool.{Bool, true, false, ◌||◌}
use mathlib.Core.Option.{Option, none, some}
use mathlib.Core.List.{List, [], ◌∷◌}
pub use text.Mathlib.Text.{starts_with}
use text.Mathlib.Text.{◌==◌ as str_eq}
use text.Mathlib.TextLemmas.{append-nil, append_assoc, nil-append, cons-append}
use mathlib.Core.Logic.{◌⊎◌, inl, inr}
use text.Mathlib.TextEquality.{starts_with_iff}
use infra_devops.Base.Tests.{ltb, ◌==◌, if◌then◌else◌}
use infra_devops.Base.Text.{◌<>◌, contains_str, strip_prefix}

or_cases : (a b : Bool) → (a || b) ≡ true → (a ≡ true) ⊎ (b ≡ true)
or_cases true b h = inl refl
or_cases false b h = inr h

or_true : (a : Bool) → (a || true) ≡ true
or_true true = refl
or_true false = refl

-- The bytes of a character in UTF-8.
unfoldable pub char_size : Char → ℕ
char_size c =
    if ltb (code c) 128
    then 1
    else if ltb (code c) 2048
    then 2
    else if ltb (code c) 65536
    then 3
    else 4

-- len(s)
unfoldable pub byte_length : String → ℕ
unfolding char_size
byte_length String.[] = 0
byte_length (String.◌∷◌ c s) = char_size c + byte_length s

char_count : String → ℕ
char_count String.[] = 0
char_count (String.◌∷◌ c s) = suc (char_count s)

-- A character in front of the first part.
push_char : Char → List String → List String
push_char c [] = String.◌∷◌ c String.[] ∷ []
push_char c (w ∷ ws) = String.◌∷◌ c w ∷ ws

-- strings.Split(s, ",")
unfoldable pub split_commas : String → List String
unfolding push_char
split_commas String.[] = String.[] ∷ []
split_commas (String.◌∷◌ c s) =
    let rest = split_commas s in if code c == 44 then String.[] ∷ rest else push_char c rest

-- The text `new` around every character.
weave : String → String → String
weave new String.[] = new
weave new (String.◌∷◌ c s) = new <> String.◌∷◌ c (weave new s)

-- Past `skip` characters, `new` for every occurrence of `old`.
replace_after : ℕ → String → String → String → String
replace_after skip old new String.[] = String.[]
replace_after (suc skip) old new (String.◌∷◌ c s) = replace_after skip old new s
replace_after zero old new (String.◌∷◌ c s) =
    let kept = replace_after zero old new s in
    let replaced = replace_after (char_count old - 1) old new s in
    if starts_with (String.◌∷◌ c s) old then new <> replaced else String.◌∷◌ c kept

-- strings.ReplaceAll(s, old, new)
unfoldable pub replace_all : String → String → String → String
unfolding weave replace_after char_count
replace_all old new s = if str_eq old "" then weave new s else replace_after 0 old new s

-- strings.HasSuffix(s, p)
unfoldable pub ends_with : String → String → Bool
ends_with String.[] p = str_eq String.[] p
ends_with (String.◌∷◌ c s) p = str_eq (String.◌∷◌ c s) p || ends_with s p

-- strings.TrimSuffix(s, p)
unfoldable pub trim_suffix : String → String → String
trim_suffix p String.[] = String.[]
trim_suffix p (String.◌∷◌ c s) =
    let rest = trim_suffix p s in if str_eq (String.◌∷◌ c s) p then String.[] else String.◌∷◌ c rest

-- strings.TrimPrefix(s, p)
unfoldable pub trim_prefix : String → String → String
unfolding strip_prefix
trim_prefix p s = or_all (strip_prefix p s)
  where
    or_all : Option String → String
    or_all none = s
    or_all (some t) = t

-- What stands at the start of a text stands at the start of a longer one.
pub starts_with-longer : (s t p : String) → starts_with s p ≡ true → starts_with (s <> t) p ≡ true
starts_with-longer s t p h =
    let (u, e) = (starts_with_iff s p).0 h in
    (starts_with_iff (s <> t) p).1 (u <> t, sym (append_assoc p u t) ∙ ap (λ v. v <> t) e)

pub starts_with-itself : (s : String) → starts_with s s ≡ true
starts_with-itself s = (starts_with_iff s s).1 ("", append-nil s)

contains_str-start : (s p : String) → starts_with s p ≡ true → contains_str s p ≡ true
unfolding contains_str
contains_str-start String.[] p h = h
contains_str-start (String.◌∷◌ c s) p h = rw h refl

contains_str-tail :
    (c : Char) (s p : String) → contains_str s p ≡ true → contains_str (String.◌∷◌ c s) p ≡ true
unfolding contains_str
contains_str-tail c s p h = rw h (or_true (starts_with (String.◌∷◌ c s) p))

-- A text that goes on contains what it contained.
pub contains_str-append :
    (s t p : String) → contains_str s p ≡ true → contains_str (s <> t) p ≡ true
unfolding contains_str
contains_str-append String.[] t p h = contains_str-start ("" <> t) p (starts_with-longer "" t p h)
contains_str-append (String.◌∷◌ c s) t p h =
    let behind = contains_str-append s t p in
    let longer = starts_with-longer (String.◌∷◌ c s) t p in
    elim (or_cases (starts_with (String.◌∷◌ c s) p) (contains_str s p) h) [
      | inl first ↦ contains_str-start _ p (longer first)
      | inr later ↦ rw cons-append (contains_str-tail c (s <> t) p (behind later))
    ]

-- A text contains what its end contains.
pub contains_str-prepend :
    (s t p : String) → contains_str t p ≡ true → contains_str (s <> t) p ≡ true
contains_str-prepend String.[] t p h = rw nil-append h
contains_str-prepend (String.◌∷◌ c s) t p h =
    rw cons-append (contains_str-tail c (s <> t) p (contains_str-prepend s t p h))

pub contains_str-itself : (s : String) → contains_str s s ≡ true
contains_str-itself s = contains_str-start s s (starts_with-itself s)
