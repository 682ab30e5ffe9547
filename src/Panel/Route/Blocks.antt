-- ===== src/Panel/Route/Blocks.antt =====
-- The rules that the routes of a node make.
use v2b_x_patched_by_haman.Prelude.{
  String, ◌≡◌, refl, sym, ap, ◌∙◌, Bool, true, not, Bool-cases, inl, inr, List, [], ◌∷◌, ◌++◌, ◌==◌,
  string_eq, Result, ok, err, arith, if◌then◌else◌, In, In-cons, here, there, ◌↔◌,
}
use mathlib.Core.List.{append-nil, append_assoc}
use v2b_x_patched_by_haman.Format.{trim_prefix}
use v2b_x_patched_by_haman.Text.{has_prefix}
use v2b_x_patched_by_haman.Panel.{Rules}
use v2b_x_patched_by_haman.Panel.Types.{Route}
use v2b_x_patched_by_haman.Panel.Route.{MatchError, parse_route_match, block, block_all}

-- The matches that are refused: those of the routes with the action "block", in order.
abbrev pub or_nil : Result MatchError (List String) → List String
or_nil (ok ms) = ms
or_nil (err e) = []

abbrev pub blocked : {Float : Type 0} → Route Float → List String
blocked r = if r.action == "block" then or_nil (parse_route_match r.match) else []

pub block_all-append :
    (r : Rules) (xs ys : List String) → block_all (block_all r xs) ys ≡ block_all r (xs ++ ys)
unfolding block_all
block_all-append r [] ys = refl
block_all-append r (x ∷ xs) ys = block_all-append (block r x) xs ys

-- The texts that `f` makes of the elements that pass a test.
abbrev pub pick : (String → Bool) → (String → String) → List String → List String
pick test f [] = []
pick test f (v ∷ vs) = if test v then f v ∷ pick test f vs else pick test f vs

pub In-pick :
    (test : String → Bool) (f : String → String) (vs : List String) (p : String)
    → In p (pick test f vs) ↔ ((v : String) × In v vs × (test v ≡ true) × (f v ≡ p))
In-pick test f [] p = ((λ i. elim i [ ]), (λ (v, i, h, e). elim i [ ]))
In-pick test f (v ∷ vs) p =
    let ih = In-pick test f vs p in
    elim (Bool-cases (test v)) [
      | inl passes ↦ rw passes (
        (λ i. elim (In-cons i) [
          | inl same ↦ (v, here refl, passes, sym same)
          | inr later ↦ let (w, j, h, e) = ih.0 later in (w, there j, h, e)
        ]),
        (λ (w, j, h, e). elim (In-cons j) [
          | inl same ↦ here (sym e ∙ ap f same)
          | inr later ↦ there (ih.1 (w, later, h, e))
        ]),
      )
      | inr fails ↦ rw fails (
        (λ i. let (w, j, h, e) = ih.0 i in (w, there j, h, e)),
        (λ (w, j, h, e). elim (In-cons j) [
          | inl same ↦ absurd (ground (arith, h, fails, same))
          | inr later ↦ ih.1 (w, later, h, e)
        ]),
      )
    ]

-- A match names a protocol if it has the prefix, and is a pattern otherwise.
abbrev pub names_protocol : String → Bool
names_protocol v = has_prefix v "protocol:"

abbrev pub protocol_of : String → String
protocol_of v = trim_prefix v "protocol:"

abbrev pub pattern_of : String → String
pattern_of v = trim_prefix v "regexp:"

abbrev pub extended : Rules → List String → Rules
extended r vs = record {
  regexp = r.regexp ++ pick (λ v. not (names_protocol v)) pattern_of vs;
  protocol = r.protocol ++ pick names_protocol protocol_of vs;
}

pub block_all-extended : (r : Rules) (vs : List String) → block_all r vs ≡ extended r vs
unfolding block_all block
block_all-extended r [] = rw (append-nil, append-nil)
block_all-extended r (v ∷ vs) = elim (Bool-cases (has_prefix v "protocol:")) [
  | inl named ↦ rw named (
      block_all-extended (record r { protocol = r.protocol ++ protocol_of v ∷ [] }) vs
      ∙ rw append_assoc)
  | inr unnamed ↦ rw unnamed (
      block_all-extended (record r { regexp = r.regexp ++ pattern_of v ∷ [] }) vs ∙ rw append_assoc)
]
