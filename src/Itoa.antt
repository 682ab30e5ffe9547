-- ===== src/Itoa.antt =====
-- `strconv.Itoa`: the decimal text of a number.
use Prim.Native.String.{◌++◌}
use v2b_x_patched_by_haman.Prelude.{
  ℕ, zero, suc, ◌/◌, ◌%◌, ℤ, pos, negsuc, String, List, [], ◌∷◌, get_elem?, Option, none, some, ltb,
  if◌then◌else◌,
}

abbrev digits : List String
digits = "0" ∷ "1" ∷ "2" ∷ "3" ∷ "4" ∷ "5" ∷ "6" ∷ "7" ∷ "8" ∷ "9" ∷ []

abbrev text_of : Option String → String
text_of none = ""
text_of (some s) = s

-- `n` rounds are enough for a number up to `n`, since each divides by 10.
unfoldable pub decimal : ℕ → ℕ → String
decimal zero n = text_of (get_elem? digits n)
decimal (suc fuel) n =
    let rest = decimal fuel (n / 10) ++ text_of (get_elem? digits (n % 10)) in
    if ltb n 10 then text_of (get_elem? digits n) else rest

unfoldable pub itoa : ℤ → String
unfolding decimal
itoa (pos n) = decimal n n
itoa (negsuc n) = "-" ++ decimal (suc n) (suc n)
