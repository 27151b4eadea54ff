-- ===== src/Text/Bytes.antt =====
-- The bytes of a text, and strings.TrimSpace, ToUpper, ReplaceAll and ==.
use Prim.Native.Char.{code}
use Prim.Native.String.{String}
use dex_backend.Base.{
  ℕ, ◌+◌, ◌-◌, Bool, true, false, ◌&&◌, ◌||◌, List, [], ◌∷◌, map, leb, ◌==◌, if◌then◌else◌,
}
use mathlib.Core.List.{reverse}

abbrev pub Str : Type 0
Str = List ℕ

-- A literal of the source.
abbrev pub bytes : String → Str
bytes String.[] = []
bytes (String.◌∷◌ c s) = code c ∷ bytes s

abbrev pub str_eq : Str → Str → Bool
str_eq [] [] = true
str_eq (c ∷ s) (d ∷ t) = c == d && str_eq s t
str_eq _ _ = false

-- '\t', '\n', '\v', '\f', '\r' and ' '
abbrev pub is_space : ℕ → Bool
is_space c = (leb 9 c && leb c 13) || c == 32

unfoldable pub trim_left : Str → Str
trim_left [] = []
trim_left (c ∷ s) = if is_space c then trim_left s else c ∷ s

unfoldable pub trim_space : Str → Str
unfolding trim_left
trim_space s = reverse (trim_left (reverse (trim_left s)))

abbrev pub upper : ℕ → ℕ
upper c = if leb b'a' c && leb c b'z' then c - 32 else c

abbrev pub lower : ℕ → ℕ
lower c = if leb b'A' c && leb c b'Z' then c + 32 else c

abbrev pub to_upper : Str → Str
to_upper = map upper

abbrev pub to_lower : Str → Str
to_lower = map lower

-- strings.ReplaceAll(s, "-", "_")
abbrev pub dash_to_underscore : Str → Str
dash_to_underscore = map λ c. if c == b'-' then b'_' else c
