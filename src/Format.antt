-- ===== src/Format.antt =====
-- common/format/user.go: the key of a user at a node; and `strings.TrimPrefix`.
pub mod Laws
use Prim.Native.Char.{code}
use Prim.Native.String.{◌++◌}
use v2b_x_patched_by_haman.Prelude.{String, Option, none, some, ◌==◌, nat_eq, if◌then◌else◌}

unfoldable pub user_tag : String → String → String
user_tag tag uuid = tag ++ ("|" ++ uuid)

-- What follows the prefix, if the text begins with it.
unfoldable pub after_prefix : String → String → Option String
after_prefix String.[] s = some s
after_prefix (String.◌∷◌ c p) String.[] = none
after_prefix (String.◌∷◌ c p) (String.◌∷◌ d s) =
    let rest = after_prefix p s in if code c == code d then rest else none

abbrev or_self : Option String → String → String
or_self none s = s
or_self (some rest) s = rest

unfoldable pub trim_prefix : String → String → String
unfolding after_prefix
trim_prefix s p = or_self (after_prefix p s) s
