-- ===== src/Json5/Reading.antt =====
-- What the reader of common/json5/json5.go makes of a text without stars, commas and backslashes.
use v2b_x_patched_by_haman.Prelude.{
  ℕ, zero, suc, ◌-◌, ◌<◌, ◌≡◌, refl, sym, ap, subst, ◌∙◌, true, false, Bool-cases, Option, some,
  inl, inr, List, [], ◌∷◌, ◌++◌, length, All, arith, ◌==◌, nat_eq,
}
use v2b_x_patched_by_haman.Json5.{
  space, is_at, Cursor, and_then, line_comment, on_slash, on_star, consume_comment, skip_string,
  prep_round, prep_from, prep,
}
use v2b_x_patched_by_haman.Json5.Lines.{
  outside, in_string, in_comment, Place, starts_with, without_comments, IsSimple, get_elem?-at,
  get_elem?-end, set-at, snoc, cursor, cursor-snoc, Ends, skip_string-Ends, line_comment-Ends,
}

is_at-cursor : (p r : List ℕ) (c : ℕ) → is_at (p ++ r) (length p) c ≡ starts_with c r
unfolding is_at
is_at-cursor p [] c = rw (get_elem?-end p, is_at) refl
is_at-cursor p (d ∷ r) c = rw (get_elem?-at p d r, is_at) refl

on_star-simple :
    (k : ℕ) (p r : List ℕ) → All IsSimple r → on_star k (cursor p r) ≡ some (cursor p r)
unfolding on_star
on_star-simple k p [] simple = rw (is_at-cursor p [] 42) refl
on_star-simple k p (c ∷ r) simple =
    let no_star : (c == 42) ≡ false = ground (arith, simple.0.0) in
    rw (is_at-cursor p (c ∷ r) 42, no_star) refl

is_at-next : (p r : List ℕ) (c d : ℕ) → is_at (p ++ c ∷ r) (suc (length p)) d ≡ starts_with d r
is_at-next p r c d =
    ap (λ (x : Cursor). is_at x.0 x.1 d) (cursor-snoc p c r) ∙ is_at-cursor (p ++ c ∷ []) r d

on_slash-two :
    (k : ℕ) (p r : List ℕ) (c : ℕ)
    → starts_with 47 r ≡ true
    → on_slash k (p ++ c ∷ r) (suc (length p))
      ≡ line_comment k ((p ++ space ∷ []) ++ r) (length (p ++ space ∷ []))
unfolding on_slash
on_slash-two k p r c two =
    let back : suc (length p) - 1 ≡ length p = omega arith in
    rw (is_at-next p r c 47, two, back, set-at p c space r)
      (ap (λ (x : Cursor). line_comment k x.0 x.1) (cursor-snoc p space r))

on_slash-one :
    (k : ℕ) (p r : List ℕ) (c : ℕ)
    → starts_with 47 r ≡ false
    → on_slash k (p ++ c ∷ r) (suc (length p)) ≡ some (cursor (p ++ c ∷ []) r)
unfolding on_slash
on_slash-one k p r c one = rw (is_at-next p r c 47, one) (ap some (cursor-snoc p c r))

-- The second block of consumeComment leaves what the first one made.
Ends-on_star :
    (k : ℕ) (q : Place) (p r : List ℕ) (o : Option Cursor)
    → Ends q p r o
    → Ends q p r (and_then o (on_star k))
Ends-on_star k q p r o (p', r', at, same, le, simple) =
    (p', r', ap (λ x. and_then x (on_star k)) at ∙ on_star-simple k p' r' simple, same, le, simple)

Ends-here : (p r : List ℕ) → All IsSimple r → Ends outside p r (some (cursor p r))
Ends-here p r simple = (p, r, refl, refl, omega arith, simple)

-- One byte is read, and the loop that it begins ends.
abbrev Reads : List ℕ → List ℕ → ℕ → Option Cursor → Type 0
Reads p r c o =
    (q : Place) × (d : ℕ) × (without_comments outside (c ∷ r) ≡ d ∷ without_comments q r)
    × Ends q (p ++ d ∷ []) r o

module _ (k : ℕ) (p r : List ℕ) (enough : length r < k) (simple : All IsSimple r) where
  consume_comment-Reads :
      (c : ℕ)
      → (c == 34) ≡ false
      → (c == 47) ≡ true
      → Reads p r c (consume_comment k (p ++ c ∷ r) (suc (length p)))
  unfolding consume_comment
  consume_comment-Reads c no_quote slash = elim (Bool-cases (starts_with 47 r)) [
    | inl two ↦ (
      in_comment,
      space,
      rw (no_quote, slash, two) refl,
      subst (λ o. Ends in_comment (p ++ space ∷ []) r (and_then o (on_star k)))
          (sym (on_slash-two k p r c two))
          (Ends-on_star k in_comment (p ++ space ∷ []) r _
            (line_comment-Ends k (p ++ space ∷ []) r enough simple)),
    )
    | inr one ↦ (
      outside,
      c,
      rw (no_quote, slash, one) refl,
      subst (λ o. Ends outside (p ++ c ∷ []) r (and_then o (on_star k)))
          (sym (on_slash-one k p r c one))
          (Ends-on_star k outside (p ++ c ∷ []) r _ (Ends-here (p ++ c ∷ []) r simple)),
    )
  ]

  prep_round-Reads : (c : ℕ) → IsSimple c → Reads p r c (prep_round k (p ++ c ∷ r) (length p) c)
  unfolding prep_round
  prep_round-Reads c plain =
      let no_comma : (c == 44) ≡ false = ground (arith, plain.1) in
      elim (Bool-cases (c == 34)) [
        | inl quote ↦ rw quote (
          in_string,
          c,
          refl,
          subst (λ (x : Cursor). Ends in_string (p ++ c ∷ []) r (skip_string k x.0 x.1))
              (sym (cursor-snoc p c r)) (skip_string-Ends k (p ++ c ∷ []) r enough simple),
        )
        | inr no_quote ↦ elim (Bool-cases (c == 47)) [
          | inl slash ↦
              subst (Reads p r c) (rw (no_quote, slash) refl)
                (consume_comment-Reads c no_quote slash)
          | inr no_slash ↦
              rw (no_quote, no_slash, no_comma)
                (
                  outside,
                  c,
                  refl,
                  subst (λ x. Ends outside (p ++ c ∷ []) r (some x)) (sym (cursor-snoc p c r))
                      (Ends-here (p ++ c ∷ []) r simple),
                )
        ]
      ]

prep_from-reads :
    (k : ℕ) (p r : List ℕ)
    → length r < k
    → All IsSimple r
    → (j : ℕ) × (prep_from k (p ++ r) (length p) ≡ some (p ++ without_comments outside r, j))
unfolding prep_from
prep_from-reads zero p r h simple = absurd (omega arith)
prep_from-reads (suc k) p [] h simple = (length p, rw (get_elem?-end p, prep_from) refl)
prep_from-reads (suc k) p (c ∷ r) h simple =
    let (q, d, out, (p', r', at, same, le, simple')) =
      prep_round-Reads k p r (omega arith) simple.1 c simple.0 in
    let (j, e) = prep_from-reads k p' r' (omega arith) simple' in
    (
      j,
      rw (get_elem?-at p c r, prep_from, at)
          (e
            ∙ ap (λ t. some (t, j))
                (same ∙ sym (snoc p d (without_comments q r)) ∙ ap (λ t. p ++ t) (sym out))),
    )

-- A text without a star, a comma and a backslash is read as the text with the comments of lines, the
-- slashes included, overwritten with spaces up to the end of their line; two slashes in a string, which
-- a quote begins and the next one ends, are no comment.
pub prep-without_comments :
    (s : List ℕ) → All IsSimple s → prep s ≡ some (without_comments outside s)
unfolding prep
prep-without_comments s simple =
    let (j, e) = prep_from-reads (suc (length s)) [] s (omega arith) simple in rw (e, prep) refl
