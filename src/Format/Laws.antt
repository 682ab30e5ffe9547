-- ===== src/Format/Laws.antt =====
-- Two users of one node have the same key only if they have the same uuid.
use text.Mathlib.TextLemmas.{append_cancel_left}
use v2b_x_patched_by_haman.Prelude.{String, ◌≡◌, ap, ◌==◌, string_eq, eq_iff, arith}
use v2b_x_patched_by_haman.Format.{user_tag}

pub user_tag-injective : (tag u v : String) → user_tag tag u ≡ user_tag tag v → u ≡ v
unfolding user_tag
user_tag-injective tag u v h = append_cancel_left "|" u v (append_cancel_left tag _ _ h)

-- The test on two keys of one node is the test on the uuids.
pub user_tag-beq : (tag u v : String) → (user_tag tag u == user_tag tag v) ≡ (u == v)
user_tag-beq tag u v = ground (
  arith,
  eq_iff (user_tag tag u) (user_tag tag v),
  eq_iff u v,
  user_tag-injective tag u v,
  ap (user_tag tag) {x = u} {y = v},
)
