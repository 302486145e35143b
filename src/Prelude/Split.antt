-- ===== src/Prelude/Split.antt =====
-- strings.Split and strings.SplitN at one character, and strings.TrimSpace.
pub mod Laws
use Prim.Native.Nat.{ℕ}
use mathlib.Core.Bool.{Bool, true, false, ◌&&◌, ◌||◌}
use mathlib.Core.List.{List, [], ◌∷◌}
use cryo_lab_telemetry.Prelude.Tests.{leb, ◌==◌, if◌then◌else◌}
use mathlib.Core.Option.{Option, none, some}
use cryo_lab_telemetry.Prelude.Texts.{Text, is_empty}

-- a character put before the first piece
abbrev pub extend_first : ℕ → List Text → List Text
extend_first c [] = (c ∷ []) ∷ []
extend_first c (x ∷ xs) = (c ∷ x) ∷ xs

-- strings.Split(s, sep)
unfoldable pub split_on : ℕ → Text → List Text
split_on sep [] = [] ∷ []
split_on sep (c ∷ s) =
    let rest = split_on sep s in if c == sep then [] ∷ rest else extend_first c rest

-- unicode.IsSpace
abbrev pub is_space : ℕ → Bool
is_space c =
    (leb 9 c && leb c 13)
    || c == 32
    || c == 0x85
    || c == 0xa0
    || c == 0x1680
    || (leb 0x2000 c && leb c 0x200a)
    || c == 0x2028
    || c == 0x2029
    || c == 0x202f
    || c == 0x205f
    || c == 0x3000

unfoldable pub trim_left : Text → Text
trim_left [] = []
trim_left (c ∷ s) = let rest = trim_left s in if is_space c then rest else c ∷ s

unfoldable pub trim_right : Text → Text
trim_right [] = []
trim_right (c ∷ s) = let rest = trim_right s in if is_empty rest && is_space c then [] else c ∷ rest

-- strings.TrimSpace
unfoldable pub trim_space : Text → Text
trim_space s = trim_right (trim_left s)

-- strings.SplitN(s, sep, 2): the text before the first separator and the text behind it, or `none`
-- where there is one piece only
abbrev pub behind_first : ℕ → Option (Text × Text) → Option (Text × Text)
behind_first c none = none
behind_first c (some (a, b)) = some (c ∷ a, b)

unfoldable pub split_two : ℕ → Text → Option (Text × Text)
split_two sep [] = none
split_two sep (c ∷ s) =
    let rest = split_two sep s in if c == sep then some ([], s) else behind_first c rest

-- The pieces of a text between commas, trimmed, less the empty ones.
abbrev pub keep_trimmed : List Text → List Text
keep_trimmed [] = []
keep_trimmed (m ∷ ms) =
    let rest = keep_trimmed ms in let t = trim_space m in if is_empty t then rest else t ∷ rest

-- strings.HasPrefix
abbrev pub has_prefix : Text → Text → Bool
has_prefix s [] = true
has_prefix [] (d ∷ t) = false
has_prefix (c ∷ s) (d ∷ t) = let rest = has_prefix s t in c == d && rest
