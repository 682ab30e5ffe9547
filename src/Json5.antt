-- ===== src/Json5.antt =====
-- common/json5/json5.go: the reader that overwrites the comments and the trailing commas of a JSON
-- text with spaces. A text is a list of bytes; a loop runs on fuel, and `none` is out of fuel.
pub mod Blanks
pub mod Total
pub mod Lines
pub mod Reading
use v2b_x_patched_by_haman.Prelude.{
  ℕ, zero, suc, ◌-◌, Bool, true, false, ◌||◌, not, Option, none, some, List, length, get_elem?, set,
  ◌==◌, nat_eq, if◌then◌else◌,
}

abbrev pub space : ℕ
space = 32

abbrev pub is_nl : ℕ → Bool
is_nl c = c == 10 || c == 13

abbrev pub is_ws : ℕ → Bool
is_ws c = c == 32 || c == 9 || is_nl c

-- `i < len(s) && s[i] == c`.
unfoldable pub is_at : List ℕ → ℕ → ℕ → Bool
is_at s i c = elim (get_elem? s i) [ none ↦ false | some d ↦ d == c ]

-- The text and the position after a loop.
abbrev pub Cursor : Type 0
Cursor = List ℕ × ℕ

abbrev pub and_then : Option Cursor → (Cursor → Option Cursor) → Option Cursor
and_then none f = none
and_then (some r) f = f r

-- The loop of `//`: up to the end of the line.
unfoldable pub line_comment : ℕ → List ℕ → ℕ → Option Cursor
line_comment zero s i = none
line_comment (suc k) s i = elim (get_elem? s i) [
  | none ↦ some (s, i)
  | some c ↦
      let rest = line_comment k (set s i space) (suc i) in if is_nl c then some (s, i) else rest
]

-- The loop of `/*`. It steps over the byte that follows a `*`.
unfoldable pub block_comment : ℕ → List ℕ → ℕ → Option Cursor
block_comment zero s i = none
block_comment (suc k) s i = elim (get_elem? s i) [
  | none ↦ some (s, i)
  | some c ↦
      let s' = set s i space in
      let rest = block_comment k s' (suc i) in
      let skipped = block_comment k s' (suc (suc i)) in
      if not (c == 42)
      then rest
      else if is_at s' (suc i) 47
      then some (set s' (suc i) space, suc i)
      else skipped
]

-- The two blocks of consumeComment, at the byte after the slash.
unfoldable pub on_slash : ℕ → List ℕ → ℕ → Option Cursor
on_slash k s i = if is_at s i 47 then line_comment k (set s (i - 1) space) i else some (s, i)

unfoldable pub on_star : ℕ → Cursor → Option Cursor
on_star k (s, i) =
    if is_at s i 42 then block_comment k (set (set s (i - 1) space) i space) i else some (s, i)

unfoldable pub consume_comment : ℕ → List ℕ → ℕ → Option Cursor
unfolding on_slash on_star
consume_comment k s i = and_then (on_slash k s i) (on_star k)

-- The loop over a string, after its opening quote.
unfoldable pub skip_string : ℕ → List ℕ → ℕ → Option Cursor
skip_string zero s i = none
skip_string (suc k) s i = elim (get_elem? s i) [
  | none ↦ some (s, i)
  | some c ↦
      let rest = skip_string k s (suc i) in
      let escaped = skip_string k s (suc (suc i)) in
      if c == 34 then some (s, suc i) else if c == 92 then escaped else rest
]

-- The loop after a comma at `j`.
unfoldable pub after_comma : ℕ → List ℕ → ℕ → ℕ → Option Cursor
after_comma zero s j i = none
after_comma (suc k) s j i = elim (get_elem? s (suc i)) [
  | none ↦ some (s, suc i)
  | some c ↦
      let rest = after_comma k s j (suc i) in
      let commented =
        and_then (consume_comment k s (suc (suc i))) (λ (s', i'). after_comma k s' j i') in
      if c == 125 || c == 93
      then some (set s j space, suc i)
      else if c == 47
      then commented
      else if not (is_ws c)
      then some (s, suc i)
      else rest
]

-- One round of the loop of prep, at a byte of the text.
unfoldable pub prep_round : ℕ → List ℕ → ℕ → ℕ → Option Cursor
prep_round k s i c =
    if c == 34
    then skip_string k s (suc i)
    else if c == 47
    then consume_comment k s (suc i)
    else if c == 44
    then after_comma k s i i
    else some (s, suc i)

unfoldable pub prep_from : ℕ → List ℕ → ℕ → Option Cursor
prep_from zero s i = none
prep_from (suc k) s i = elim (get_elem? s i) [
  | none ↦ some (s, i)
  | some c ↦ and_then (prep_round k s i c) (λ (s', i'). prep_from k s' i')
]

unfoldable pub prep : List ℕ → Option (List ℕ)
prep s = elim (prep_from (suc (length s)) s 0) [ none ↦ none | some (s', i) ↦ some s' ]
