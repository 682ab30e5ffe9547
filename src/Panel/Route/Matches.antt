-- ===== src/Panel/Route/Matches.antt =====
-- api/panel/node.go: the texts that parseRouteMatch returns.
use v2b_x_patched_by_haman.Prelude.{
  String, ◌≡◌, ◌≢◌, subst, List, [], ◌∷◌, All, Bool-cases, inl, inr, ◌==◌, string_eq, ok, >>=-eq-ok,
  ok_inj, eq_iff, arith,
}
use v2b_x_patched_by_haman.Text.{trim_space, split_comma}
use v2b_x_patched_by_haman.Text.Laws.{trim_space_idem}
use v2b_x_patched_by_haman.Panel.Types.{Any, nil, text, integer, floating, texts, items, other}
use v2b_x_patched_by_haman.Panel.Route.{non_blank, strings_of, parse_route_match}

abbrev pub IsClean : String → Type 0
IsClean s = (s ≢ "") × (trim_space s ≡ s)

non_blank-IsClean : (ss : List String) → All IsClean (non_blank ss)
unfolding non_blank
non_blank-IsClean [] = tt
non_blank-IsClean (s ∷ ss) = elim (Bool-cases (trim_space s == "")) [
  | inl blank ↦ rw blank (non_blank-IsClean ss)
  | inr kept ↦ rw kept (
    (λ e. absurd (ground (arith, kept, eq_iff (trim_space s) "", e)), trim_space_idem s),
    non_blank-IsClean ss,
  )
]

-- Every match of a route is a text that is not empty and has no white space around it.
pub parse_route_match-IsClean :
    {Float : Type 0} (v : Any Float) (ms : List String)
    → parse_route_match v ≡ ok ms
    → All IsClean ms
unfolding parse_route_match
parse_route_match-IsClean nil ms e = subst (All IsClean) (ok_inj e) tt
parse_route_match-IsClean (text s) ms e =
    subst (All IsClean) (ok_inj e) (non_blank-IsClean (split_comma s))
parse_route_match-IsClean (texts ss) ms e = subst (All IsClean) (ok_inj e) (non_blank-IsClean ss)
parse_route_match-IsClean (items vs) ms e =
    let (ss, _, e') = >>=-eq-ok (strings_of 0 vs) (λ ss. ok (non_blank ss)) e in
    subst (All IsClean) (ok_inj e') (non_blank-IsClean ss)
parse_route_match-IsClean (integer n) ms e = absurd (cc)
parse_route_match-IsClean (floating x) ms e = absurd (cc)
parse_route_match-IsClean other ms e = absurd (cc)
