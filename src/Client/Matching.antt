-- ===== src/Client/Matching.antt =====
-- The matchers find what the regular expressions describe.
use infra_devops.Base.{String, true, Bool-cases, ◌≡◌, ◌↔◌, inl, inr, refl, ap, sym, ◌∙◌, arith}
use infra_devops.Base.Text.{◌<>◌}
use infra_devops.Client.Patterns.{
  is_newline, dots_then, after_head, matches_around, OneLine, Around,
}
use Prim.Native.Char.{code}
use text.Mathlib.Text.{starts_with}
use text.Mathlib.TextEquality.{starts_with_iff, Char-path}
use text.Mathlib.TextPositions.{starts_with-append}
use text.Mathlib.TextLemmas.{nil-append, cons-append}

-- The text is one line, then `tail`, then anything.
abbrev LineThen : String → String → Type 0
LineThen tail s = (line : String) × (after : String) × OneLine line × (s ≡ line <> tail <> after)

starts-LineThen : (tail s : String) → starts_with s tail ≡ true → LineThen tail s
starts-LineThen tail s h =
    let (after, e) = (starts_with_iff s tail).0 h in
    (String.[], after, tt, sym e ∙ sym (nil-append (tail <> after)))

dots_then-found : (tail s : String) → dots_then tail s ≡ true → LineThen tail s
unfolding dots_then is_newline
dots_then-found tail String.[] h = starts-LineThen tail String.[] h
dots_then-found tail (String.◌∷◌ c s) h = elim (Bool-cases (starts_with (String.◌∷◌ c s) tail)) [
  | inl e ↦ starts-LineThen tail (String.◌∷◌ c s) e
  | inr e ↦
      let (line, after, one, q) = dots_then-found tail s (ground (arith, h, e)) in
      (
        String.◌∷◌ c line,
        after,
        (ground (arith, h, e), one),
        ap (String.◌∷◌ c) q ∙ sym (cons-append c line (tail <> after)),
      )
]

dots_then-starts : (tail s : String) → starts_with s tail ≡ true → dots_then tail s ≡ true
unfolding dots_then
dots_then-starts tail String.[] h = h
dots_then-starts tail (String.◌∷◌ c s) h = rw h refl

dots_then-finds :
    (tail line after : String) → OneLine line → dots_then tail (line <> tail <> after) ≡ true
unfolding dots_then is_newline
dots_then-finds tail String.[] after one =
    rw (nil-append (tail <> after)) (dots_then-starts tail _ (starts_with-append tail after))
dots_then-finds tail (String.◌∷◌ c line) after (this, one) =
    rw (cons-append c line (tail <> after))
      (let rest = dots_then-finds tail line after one in ground (arith, rest, this))

-- A head, then a line and the tail.
abbrev HeadThen : String → String → String → Type 0
HeadThen head tail s =
    (line : String) × (after : String) × OneLine line × (s ≡ head <> line <> tail <> after)

after_head-found : (head tail s : String) → after_head head tail s ≡ true → HeadThen head tail s
unfolding after_head
after_head-found String.[] tail s h =
    let (line, after, one, q) = dots_then-found tail s h in
    (line, after, one, q ∙ sym (nil-append _))
after_head-found (String.◌∷◌ x head) tail String.[] h = absurd (cc h)
after_head-found (String.◌∷◌ x head) tail (String.◌∷◌ c s) h =
    let (line, after, one, q) = after_head-found head tail s (ground (arith, h)) in
    let same : code c ≡ code x = ground (arith, h) in
    (
      line,
      after,
      one,
      ap (λ t. String.◌∷◌ c t) q
          ∙ ap (λ d. String.◌∷◌ d (head <> line <> tail <> after)) (Char-path c x same)
          ∙ sym (cons-append x head (line <> tail <> after)),
    )

after_head-finds :
    (head tail line after : String)
    → OneLine line
    → after_head head tail (head <> line <> tail <> after) ≡ true
unfolding after_head
after_head-finds String.[] tail line after one =
    rw (nil-append (line <> tail <> after)) (dots_then-finds tail line after one)
after_head-finds (String.◌∷◌ x head) tail line after one =
    rw (cons-append x head (line <> tail <> after))
      (let rest = after_head-finds head tail line after one in ground (arith, rest))

matches_around-found :
    (head tail text : String) → matches_around head tail text ≡ true → Around head tail text
unfolding matches_around
matches_around-found head tail String.[] h =
    let (line, after, one, q) = after_head-found head tail String.[] h in
    (String.[], line, after, one, q ∙ sym (nil-append _))
matches_around-found head tail (String.◌∷◌ c s) h =
    elim (Bool-cases (after_head head tail (String.◌∷◌ c s))) [
      | inl e ↦
          let (line, after, one, q) = after_head-found head tail (String.◌∷◌ c s) e in
          (String.[], line, after, one, q ∙ sym (nil-append _))
      | inr e ↦
          let (before, line, after, one, q) =
            matches_around-found head tail s (ground (arith, h, e)) in
          (
            String.◌∷◌ c before,
            line,
            after,
            one,
            ap (String.◌∷◌ c) q ∙ sym (cons-append c before (head <> line <> tail <> after)),
          )
    ]

matches_around-starts :
    (head tail s : String) → after_head head tail s ≡ true → matches_around head tail s ≡ true
unfolding matches_around
matches_around-starts head tail String.[] h = h
matches_around-starts head tail (String.◌∷◌ c s) h = rw h refl

matches_around-finds :
    (head tail before line after : String)
    → OneLine line
    → matches_around head tail (before <> head <> line <> tail <> after) ≡ true
unfolding matches_around
matches_around-finds head tail String.[] line after one =
    rw (nil-append (head <> line <> tail <> after))
      (matches_around-starts head tail _ (after_head-finds head tail line after one))
matches_around-finds head tail (String.◌∷◌ c before) line after one =
    rw (cons-append c before (head <> line <> tail <> after))
      (let rest = matches_around-finds head tail before line after one in ground (arith, rest))

-- The matcher of `head.*tail` accepts a text just where the head stands in it, followed by characters
-- of one line and the tail.
pub matches_around_iff :
    (head tail text : String) → (matches_around head tail text ≡ true) ↔ Around head tail text
matches_around_iff head tail text = (
  λ h. matches_around-found head tail text h,
  λ (before, line, after, one, q). rw q (matches_around-finds head tail before line after one),
)
