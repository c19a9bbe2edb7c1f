-- ===== src/Base/Text.antt =====
-- Go strings as native strings: concatenation, prefixes, order, decimal numbers.
use Prim.Native.Nat.{ℕ, zero, suc, ◌+◌, ◌-◌, ◌*◌, ◌/◌, ◌%◌, ◌≤◌, ◌<◌, compare, Ordering}
use Prim.Native.Char.{Char, code, char, IsScalar}
use Prim.Native.String.{String}
use Prim.Native.String
use mathlib.Core.Path.{◌≡◌, refl, ap, ◌∙◌}
use mathlib.Core.Bool.{Bool, true, false, ◌&&◌, ◌||◌}
use mathlib.Core.Logic.{dite, dif_pos, dif_neg}
use mathlib.Core.Option.{Option, none, some}
use mathlib.Core.WellFounded.{Acc}
use native.Mathlib.Decide.{dec_lt}
use native.Mathlib.Bridge.{le_prop}
use native.Mathlib.Omega.{arith}
use text.Mathlib.Text.{starts_with}
use text.Mathlib.TextLemmas.{nil-append, cons-append}
use infra_devops.Base.Tests.{ltb, leb, ◌==◌, if◌then◌else◌}
use infra_devops.Base.Int.{ℤ, pos, negsuc}

-- s + t
infixr 66 ◌<>◌
abbrev pub ◌<>◌ : String → String → String
s <> t = String.◌++◌ s t

-- s < t, by the bytes; those of UTF-8 have the order of the code points.
unfoldable pub str_lt : String → String → Bool
str_lt String.[] String.[] = false
str_lt String.[] (String.◌∷◌ c t) = true
str_lt (String.◌∷◌ c s) String.[] = false
str_lt (String.◌∷◌ c s) (String.◌∷◌ d t) =
    if ltb (code c) (code d) then true else if code c == code d then str_lt s t else false

pub str_lt_asymm : (s t : String) → str_lt s t ≡ true → str_lt t s ≡ false
unfolding str_lt
str_lt_asymm String.[] String.[] h = refl
str_lt_asymm String.[] (String.◌∷◌ c t) h = refl
str_lt_asymm (String.◌∷◌ c s) String.[] h = ground arith
str_lt_asymm (String.◌∷◌ c s) (String.◌∷◌ d t) h = ground (arith, str_lt_asymm s t)

-- strings.TrimPrefix(s, p), as `none` where `s` has not the prefix.
unfoldable pub strip_prefix : String → String → Option String
strip_prefix String.[] s = some s
strip_prefix (String.◌∷◌ c p) String.[] = none
strip_prefix (String.◌∷◌ c p) (String.◌∷◌ d s) = if code c == code d then strip_prefix p s else none

pub strip_prefix-append : (p s : String) → strip_prefix p (p <> s) ≡ some s
unfolding strip_prefix
strip_prefix-append String.[] s = rw nil-append
strip_prefix-append (String.◌∷◌ c p) s = rw cons-append (ground (arith, strip_prefix-append p s))

-- strings.Contains(s, p)
unfoldable pub contains_str : String → String → Bool
contains_str String.[] p = starts_with String.[] p
contains_str (String.◌∷◌ c s) p = starts_with (String.◌∷◌ c s) p || contains_str s p

-- Below the surrogates every number is a character's.
low_scalar : (n : ℕ) → n < 55296 → IsScalar n
low_scalar n h = let e : compare n 55296 ≡ Ordering.lt = ground arith in rw e tt

lower_char : Char → Char
lower_char c =
    dite (dec_lt (code c) 91)
      (λ h.
        if ltb (code c) 65 then c else char (code c + 32) (low_scalar (code c + 32) (omega arith)))
      (λ _. c)

-- strings.ToLower, on the letters of ASCII.
unfoldable pub to_lower : String → String
unfolding lower_char dec_lt low_scalar
to_lower String.[] = String.[]
to_lower (String.◌∷◌ c s) = String.◌∷◌ (lower_char c) (to_lower s)

-- The digits of decimal numbers.
abbrev digit : ℕ → Char
digit zero = "0"
digit (suc zero) = "1"
digit (suc (suc zero)) = "2"
digit (suc (suc (suc zero))) = "3"
digit (suc (suc (suc (suc zero)))) = "4"
digit (suc (suc (suc (suc (suc zero))))) = "5"
digit (suc (suc (suc (suc (suc (suc zero)))))) = "6"
digit (suc (suc (suc (suc (suc (suc (suc zero))))))) = "7"
digit (suc (suc (suc (suc (suc (suc (suc (suc zero)))))))) = "8"
digit (suc (suc (suc (suc (suc (suc (suc (suc (suc n))))))))) = "9"

code-digit : (n : ℕ) → n < 10 → code (digit n) ≡ 48 + n
code-digit zero h = refl
code-digit (suc zero) h = refl
code-digit (suc (suc zero)) h = refl
code-digit (suc (suc (suc zero))) h = refl
code-digit (suc (suc (suc (suc zero)))) h = refl
code-digit (suc (suc (suc (suc (suc zero))))) h = refl
code-digit (suc (suc (suc (suc (suc (suc zero)))))) h = refl
code-digit (suc (suc (suc (suc (suc (suc (suc zero))))))) h = refl
code-digit (suc (suc (suc (suc (suc (suc (suc (suc zero)))))))) h = refl
code-digit (suc (suc (suc (suc (suc (suc (suc (suc (suc zero))))))))) h = refl
code-digit (suc (suc (suc (suc (suc (suc (suc (suc (suc (suc n)))))))))) h = absurd (omega arith)

Acc-below : (k n : ℕ) → n < k → Acc ◌<◌ n
Acc-below zero n h = elim h [ ]
Acc-below (suc k) n h = Acc.intro n (λ m hm. Acc-below k m (omega arith))

tenth_lt : (n : ℕ) → 9 < n → n / 10 < n
tenth_lt n h = omega arith

-- The digits of `n`, the last one always there, before `out`.
emit : (n : ℕ) → Acc ◌<◌ n → String → String
emit n (Acc.intro _ smaller) out =
    dite (dec_lt 9 n)
      (λ h. emit (n / 10) (smaller (n / 10) (tenth_lt n h)) (String.◌∷◌ (digit (n % 10)) out))
      (λ _. String.◌∷◌ (digit n) out)

unfoldable pub print_ℕ : ℕ → String
unfolding emit Acc-below dec_lt tenth_lt
print_ℕ n = emit n (Acc-below (suc n) n (omega arith)) ""

-- strconv.Itoa, and fmt's %d.
unfoldable pub itoa : ℤ → String
unfolding print_ℕ
itoa (pos n) = print_ℕ n
itoa (negsuc n) = "-" <> print_ℕ (suc n)

-- The digits of strconv.Atoi: `none` at another character, or where the value leaves the 64 bits.
unfoldable pub scan : ℕ → String → ℕ → Option ℕ
scan limit String.[] n = some n
scan limit (String.◌∷◌ c s) n =
    let d = code c - 48 in
    if leb 48 (code c) && leb (code c) 57 && leb (n * 10 + d) limit
    then scan limit s (n * 10 + d)
    else none

abbrev some_digits : ℕ → String → Option ℕ
some_digits limit String.[] = none
some_digits limit (String.◌∷◌ c s) = scan limit (String.◌∷◌ c s) 0

neg_ℤ : ℕ → ℤ
neg_ℤ zero = pos 0
neg_ℤ (suc n) = negsuc n

map_ℤ : (ℕ → ℤ) → Option ℕ → Option ℤ
map_ℤ f none = none
map_ℤ f (some n) = some (f n)

-- strconv.Atoi on a 64-bit machine: an optional sign and at least one digit.
unfoldable pub atoi : String → Option ℤ
unfolding scan map_ℤ neg_ℤ
atoi String.[] = none
atoi (String.◌∷◌ c s) =
    if code c == 45
    then map_ℤ neg_ℤ (some_digits 9223372036854775808 s)
    else if code c == 43
    then map_ℤ pos (some_digits 9223372036854775807 s)
    else map_ℤ pos (some_digits 9223372036854775807 (String.◌∷◌ c s))

scan-digit :
    (limit d m : ℕ) (out : String)
    → d < 10
    → m * 10 + d ≤ limit
    → scan limit (String.◌∷◌ (digit d) out) m ≡ scan limit out (m * 10 + d)
unfolding scan
scan-digit limit d m out h k =
    let e : 48 + d - 48 ≡ d = omega arith in
    let low : leb 48 (48 + d) ≡ true = ground arith in
    let high : leb (48 + d) 57 ≡ true = ground arith in
    let fits : leb (m * 10 + d) limit ≡ true = ground arith in
    rw (code-digit d h) (rw e (rw (low, high, fits)))

-- Scanning what `emit` puts before `out` arrives at `out` with the number.
scan-emit :
    (limit n : ℕ) (w : Acc ◌<◌ n) (out : String)
    → n ≤ limit
    → scan limit (emit n w out) 0 ≡ scan limit out n
unfolding emit
scan-emit limit n (Acc.intro _ smaller) out h = elim (dec_lt 9 n) [
  | yes p ↦ rw (dif_pos _ le_prop p) (
      scan-emit limit (n / 10) (smaller (n / 10) (tenth_lt n p)) (String.◌∷◌ (digit (n % 10)) out)
        (omega arith)
      ∙ scan-digit limit (n % 10) (n / 10) out (omega arith) (omega arith)
      ∙ ap (scan limit out) (omega arith))
  | no p ↦
      rw (dif_neg _ p)
        (scan-digit limit n 0 out (omega arith) (omega arith) ∙ ap (scan limit out) (omega arith))
]

-- `emit` puts a digit in front.
emit-cons :
    (n : ℕ) (w : Acc ◌<◌ n) (out : String)
    → (d : ℕ) × (rest : String) × (d < 10) × (emit n w out ≡ String.◌∷◌ (digit d) rest)
unfolding emit
emit-cons n (Acc.intro _ smaller) out = elim (dec_lt 9 n) [
  | yes p ↦
      rw (dif_pos _ le_prop p)
        (emit-cons (n / 10) (smaller (n / 10) (tenth_lt n p)) (String.◌∷◌ (digit (n % 10)) out))
  | no p ↦ (n, out, omega arith, rw (dif_neg _ p) refl)
]

-- No digit is a sign, so the digits are read as they are.
atoi-digit :
    (d : ℕ) (s : String)
    → d < 10
    → atoi (String.◌∷◌ (digit d) s)
      ≡ map_ℤ pos (scan 9223372036854775807 (String.◌∷◌ (digit d) s) 0)
unfolding atoi
atoi-digit d s h =
    let minus : ((48 + d) == 45) ≡ false = ground arith in
    let plus : ((48 + d) == 43) ≡ false = ground arith in rw (code-digit d h) (rw (minus, plus))

atoi-print_ℕ :
    (s : String) (n d : ℕ) (rest : String)
    → s ≡ String.◌∷◌ (digit d) rest
    → d < 10
    → scan 9223372036854775807 s 0 ≡ some n
    → atoi s ≡ some (pos n)
atoi-print_ℕ s n d rest e h k =
    rw e (atoi-digit d rest h ∙ ap (map_ℤ pos) (rw e at k) ∙ unfold map_ℤ in refl)

-- What Itoa writes of a natural number in range, Atoi reads.
pub atoi-itoa : (n : ℕ) → n ≤ 9223372036854775807 → atoi (itoa (pos n)) ≡ some (pos n)
atoi-itoa n h =
    unfold itoa in
    let w : Acc ◌<◌ n = Acc-below (suc n) n (omega arith) in
    let (d, rest, small, e) = emit-cons n w "" in
    atoi-print_ℕ _ n d rest e small (scan-emit 9223372036854775807 n w "" h ∙ unfold scan in refl)
