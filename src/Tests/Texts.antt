-- ===== src/Tests/Texts.antt =====
-- common/json5 on small texts.
use v2b_x_patched_by_haman.Prelude.{ℕ, ◌≡◌, refl, some, List, [], ◌∷◌, arith}
use v2b_x_patched_by_haman.Json5.{
  is_at, line_comment, block_comment, on_slash, on_star, consume_comment, skip_string, after_comma,
  prep_round, prep_from, prep,
}
use v2b_x_patched_by_haman.Json5.Blanks.{IsBlanked}
use v2b_x_patched_by_haman.Json5.Total.{prep-IsBlanked}
use v2b_x_patched_by_haman.Json5.Reading.{prep-without_comments}

-- [1,]//x
abbrev listing : List ℕ
listing = 91 ∷ 49 ∷ 44 ∷ 93 ∷ 47 ∷ 47 ∷ 120 ∷ []

listing_run : prep listing ≡ some (91 ∷ 49 ∷ 32 ∷ 93 ∷ 32 ∷ 32 ∷ 32 ∷ [])
unfolding prep prep_from prep_round after_comma skip_string consume_comment on_slash on_star
    line_comment block_comment is_at
listing_run = refl

-- A comment that ends in two stars is not closed: of /***/1 the 1 is overwritten as well.
two_stars_run : prep (47 ∷ 42 ∷ 42 ∷ 42 ∷ 47 ∷ 49 ∷ []) ≡ some (32 ∷ 32 ∷ 32 ∷ 42 ∷ 32 ∷ 32 ∷ [])
unfolding prep prep_from prep_round after_comma skip_string consume_comment on_slash on_star
    line_comment block_comment is_at
two_stars_run = refl

prep-IsBlanked_example : (s' : List ℕ) × (prep listing ≡ some s') × IsBlanked listing s'
prep-IsBlanked_example = prep-IsBlanked listing

-- "//"//x, and a number in the next line
abbrev commented : List ℕ
commented = 34 ∷ 47 ∷ 47 ∷ 34 ∷ 47 ∷ 47 ∷ 120 ∷ 10 ∷ 49 ∷ []

prep-without_comments_example :
    prep commented ≡ some (34 ∷ 47 ∷ 47 ∷ 34 ∷ 32 ∷ 32 ∷ 32 ∷ 10 ∷ 49 ∷ [])
prep-without_comments_example = prep-without_comments commented (omega arith)
