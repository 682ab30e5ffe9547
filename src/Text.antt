-- ===== src/Text.antt =====
-- The functions of Go's package strings that the panel's client uses. A text is a sequence of
-- characters. `ToLower` is on ASCII letters; other letters stay as they are.
pub mod Laws
use Prim.Native.Char.{Char, code}
use Prim.Native.String.{◌++◌}
use v2b_x_patched_by_haman.Prelude.{
  ℕ, zero, suc, ◌-◌, leb, ◌==◌, nat_eq, string_eq, String, Bool, true, false, ◌&&◌, ◌||◌, Option,
  none, some, List, [], ◌∷◌, if◌then◌else◌,
}
use v2b_x_patched_by_haman.Format.{after_prefix, trim_prefix}

abbrev within : ℕ → ℕ → ℕ → Bool
within lo hi c = leb lo c && leb c hi

-- `unicode.IsSpace`.
unfoldable pub is_space : Char → Bool
is_space c =
    within 9 13 (code c)
    || code c == 32
    || code c == 0x85
    || code c == 0xA0
    || code c == 0x1680
    || within 0x2000 0x200A (code c)
    || within 0x2028 0x2029 (code c)
    || code c == 0x202F
    || code c == 0x205F
    || code c == 0x3000

unfoldable pub trim_left : String → String
unfolding is_space
trim_left String.[] = ""
trim_left (String.◌∷◌ c s) = let rest = trim_left s in if is_space c then rest else String.◌∷◌ c s

-- A space before a text is kept, unless nothing is left of the text.
abbrev pub cons_trimmed : Char → String → String
cons_trimmed c String.[] = if is_space c then "" else String.◌∷◌ c String.[]
cons_trimmed c (String.◌∷◌ d t) = String.◌∷◌ c (String.◌∷◌ d t)

unfoldable pub trim_right : String → String
unfolding is_space
trim_right String.[] = ""
trim_right (String.◌∷◌ c s) = cons_trimmed c (trim_right s)

unfoldable pub trim_space : String → String
unfolding trim_left trim_right
trim_space s = trim_right (trim_left s)

abbrev char_at : String → ℕ → Char → Char
char_at String.[] i d = d
char_at (String.◌∷◌ c s) zero d = c
char_at (String.◌∷◌ c s) (suc i) d = char_at s i d

abbrev pub lower_char : Char → Char
lower_char c =
    if within 65 90 (code c) then char_at "abcdefghijklmnopqrstuvwxyz" (code c - 65) c else c

unfoldable pub to_lower : String → String
to_lower String.[] = ""
to_lower (String.◌∷◌ c s) = String.◌∷◌ (lower_char c) (to_lower s)

abbrev cons_head : Char → List String → List String
cons_head c [] = String.◌∷◌ c String.[] ∷ []
cons_head c (s ∷ ss) = String.◌∷◌ c s ∷ ss

-- `strings.Split(s, ",")`.
unfoldable pub split_comma : String → List String
split_comma String.[] = "" ∷ []
split_comma (String.◌∷◌ c s) =
    let rest = split_comma s in if code c == 44 then "" ∷ rest else cons_head c rest

-- `strings.HasPrefix`.
unfoldable pub has_prefix : String → String → Bool
unfolding after_prefix
has_prefix s p = elim (after_prefix p s) [ none ↦ false | some _ ↦ true ]

-- `strings.Join(ss, "")`.
unfoldable pub join : List String → String
join [] = ""
join (s ∷ ss) = s ++ join ss

-- `strings.Contains`.
unfoldable pub contains : String → String → Bool
unfolding has_prefix
contains String.[] p = has_prefix String.[] p
contains (String.◌∷◌ c s) p = has_prefix (String.◌∷◌ c s) p || contains s p

abbrev cons_text : Char → Option String → Option String
cons_text c none = none
cons_text c (some s) = some (String.◌∷◌ c s)

-- The first n characters, when there are as many: `s[:n]` of a text of ASCII, a panic otherwise.
unfoldable pub first : ℕ → String → Option String
first zero s = some ""
first (suc n) String.[] = none
first (suc n) (String.◌∷◌ c s) = cons_text c (first n s)
