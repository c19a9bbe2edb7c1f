-- ===== src/Client/Patterns.antt =====
-- The regular expressions of RemoveSearchHeadClusterMember, as matchers and as what they match.
use infra_devops.Base.{String, Bool, false, ◌||◌, ◌&&◌, not, ◌==◌, ◌≡◌}
use infra_devops.Base.Text.{◌<>◌, contains_str}
use Prim.Native.Char.{Char, code}
use text.Mathlib.Text.{starts_with}

unfoldable pub is_newline : Char → Bool
is_newline c = code c == 10

-- `.*tail` at the start of the text: the dot takes any character but a newline.
unfoldable pub dots_then : String → String → Bool
unfolding is_newline
dots_then tail String.[] = starts_with String.[] tail
dots_then tail (String.◌∷◌ c s) =
    let rest = dots_then tail s in starts_with (String.◌∷◌ c s) tail || (not (is_newline c) && rest)

-- What follows `head` at the start of the text has the form `.*tail`.
unfoldable pub after_head : String → String → String → Bool
after_head String.[] tail s = dots_then tail s
after_head (String.◌∷◌ h head) tail String.[] = false
after_head (String.◌∷◌ h head) tail (String.◌∷◌ c s) = code h == code c && after_head head tail s

-- `head.*tail` somewhere in the text.
unfoldable pub matches_around : String → String → String → Bool
unfolding after_head dots_then
matches_around head tail String.[] = after_head head tail String.[]
matches_around head tail (String.◌∷◌ c s) =
    after_head head tail (String.◌∷◌ c s) || matches_around head tail s

unfoldable pub already_removed : String → Bool
unfolding matches_around
already_removed text =
    matches_around "Server " " is not part of configuration, hence cannot be removed" text
    || contains_str text "This node is not part of any cluster configuration"

-- No character of the text is a newline.
abbrev pub OneLine : String → Type 0
OneLine String.[] = Unit
OneLine (String.◌∷◌ c s) = (code c == 10 ≡ false) × OneLine s

-- The text has `head`, then characters of one line, then `tail`.
abbrev pub Around : String → String → String → Type 0
Around head tail text =
    (before : String) × (line : String) × (after : String) × OneLine line
    × (text ≡ before <> head <> line <> tail <> after)
