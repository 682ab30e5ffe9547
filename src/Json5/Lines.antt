-- ===== src/Json5/Lines.antt =====
-- The loops of common/json5/json5.go over strings and comments of lines, against a machine that reads
-- a text byte by byte.
use v2b_x_patched_by_haman.Prelude.{
  ℕ, zero, suc, ◌≤◌, ◌<◌, ◌≡◌, ◌≢◌, refl, sym, ap, subst, ◌∙◌, Bool, true, false, ◌&&◌, Bool-cases,
  Option, none, some, inl, inr, List, [], ◌∷◌, ◌++◌, length, All, get_elem?, set, arith, ◌==◌,
  nat_eq, if◌then◌else◌,
}
use v2b_x_patched_by_haman.Json5.{space, is_nl, Cursor, line_comment, skip_string}

-- Where a byte stands: outside of strings and comments, in a string, or in a comment of a line.
pub data Place : Type 0 where
  outside in_string in_comment : Place

abbrev pub starts_with : ℕ → List ℕ → Bool
starts_with c [] = false
starts_with c (d ∷ ds) = d == c

-- The place after a byte, for the bytes that follow it.
abbrev pub next_place : Place → ℕ → List ℕ → Place
next_place outside c r =
    if c == 34 then in_string else if c == 47 && starts_with 47 r then in_comment else outside
next_place in_string c r = if c == 34 then outside else in_string
next_place in_comment c r = if is_nl c then outside else in_comment

abbrev pub shown : Place → ℕ → ℕ
shown in_comment c = space
shown outside c = c
shown in_string c = c

-- The text with the comments of lines, up to the end of their line, overwritten with spaces.
abbrev pub without_comments : Place → List ℕ → List ℕ
without_comments q [] = []
without_comments q (c ∷ r) = shown (next_place q c r) c ∷ without_comments (next_place q c r) r

-- Neither a star, nor a comma, nor a backslash.
abbrev pub IsSimple : ℕ → Type 0
IsSimple c = (c ≢ 42) × (c ≢ 44) × (c ≢ 92)

pub get_elem?-at : (p : List ℕ) (c : ℕ) (r : List ℕ) → get_elem? (p ++ c ∷ r) (length p) ≡ some c
get_elem?-at [] c r = refl
get_elem?-at (x ∷ p) c r = get_elem?-at p c r

pub get_elem?-end : (p : List ℕ) → get_elem? (p ++ []) (length p) ≡ none
get_elem?-end [] = refl
get_elem?-end (x ∷ p) = get_elem?-end p

pub set-at : (p : List ℕ) (c d : ℕ) (r : List ℕ) → set (p ++ c ∷ r) (length p) d ≡ p ++ d ∷ r
set-at [] c d r = refl
set-at (x ∷ p) c d r = ap (λ s. x ∷ s) (set-at p c d r)

pub snoc : (p : List ℕ) (c : ℕ) (r : List ℕ) → p ++ c ∷ r ≡ (p ++ c ∷ []) ++ r
snoc [] c r = refl
snoc (x ∷ p) c r = ap (λ s. x ∷ s) (snoc p c r)

length-snoc : (p : List ℕ) (c : ℕ) → length (p ++ c ∷ []) ≡ suc (length p)
length-snoc [] c = refl
length-snoc (x ∷ p) c = ap suc (length-snoc p c)

-- A cursor before `r`.
abbrev pub cursor : List ℕ → List ℕ → Cursor
cursor p r = (p ++ r, length p)

pub cursor-snoc :
    (p : List ℕ) (c : ℕ) (r : List ℕ) → (p ++ c ∷ r, suc (length p)) ≡ cursor (p ++ c ∷ []) r
cursor-snoc p c r =
    ap (λ s. (s, suc (length p))) (snoc p c r)
    ∙ ap (λ n. ((p ++ c ∷ []) ++ r, n)) (sym (length-snoc p c))

-- A loop that began in a place ends outside of strings and comments, or at the end.
abbrev pub Ends : Place → List ℕ → List ℕ → Option Cursor → Type 0
Ends q p r o =
    (p' : List ℕ) × (r' : List ℕ) × (o ≡ some (cursor p' r'))
    × (p' ++ without_comments outside r' ≡ p ++ without_comments q r)
    × (length r' ≤ length r)
    × All IsSimple r'

Ends-step :
    (q q' : Place) (p r : List ℕ) (c d : ℕ) (o : Option Cursor)
    → without_comments q (c ∷ r) ≡ d ∷ without_comments q' r
    → Ends q' (p ++ d ∷ []) r o
    → Ends q p (c ∷ r) o
Ends-step q q' p r c d o e (p', r', at, same, le, simple) = (
  p',
  r',
  at,
  same ∙ sym (snoc p d (without_comments q' r)) ∙ ap (λ s. p ++ s) (sym e),
  omega arith,
  simple,
)

reads_string :
    (c : ℕ) (r : List ℕ)
    → (c == 34) ≡ false
    → without_comments in_string (c ∷ r) ≡ c ∷ without_comments in_string r
reads_string c r h = rw h refl

skip_string-other :
    (k : ℕ) (p r : List ℕ) (c : ℕ)
    → (c == 34) ≡ false
    → (c == 92) ≡ false
    → skip_string (suc k) (p ++ c ∷ r) (length p)
      ≡ skip_string k ((p ++ c ∷ []) ++ r) (length (p ++ c ∷ []))
unfolding skip_string
skip_string-other k p r c h b =
    rw (get_elem?-at p c r, h, b, skip_string)
      (ap (λ (x : Cursor). skip_string k x.0 x.1) (cursor-snoc p c r))

pub skip_string-Ends :
    (k : ℕ) (p r : List ℕ)
    → length r < k
    → All IsSimple r
    → Ends in_string p r (skip_string k (p ++ r) (length p))
unfolding skip_string
skip_string-Ends zero p r h simple = absurd (omega arith)
skip_string-Ends (suc k) p [] h simple =
    rw (get_elem?-end p, skip_string) (p, [], refl, refl, omega arith, tt)
skip_string-Ends (suc k) p (c ∷ r) h simple = elim (Bool-cases (c == 34)) [
  | inl quote ↦
      rw (get_elem?-at p c r, quote, skip_string)
        (
          p ++ c ∷ [],
          r,
          ap some (cursor-snoc p c r),
          sym (snoc p c (without_comments outside r)),
          omega arith,
          simple.1,
        )
  | inr other ↦
      subst (Ends in_string p (c ∷ r))
        (sym (skip_string-other k p r c other (ground (arith, simple.0.2))))
        (Ends-step in_string in_string p r c c _ (reads_string c r other)
          (skip_string-Ends k (p ++ c ∷ []) r (omega arith) simple.1))
]

-- The end of a line is read outside of the comment.
reads_line_end :
    (c : ℕ) (r : List ℕ)
    → is_nl c ≡ true
    → without_comments outside (c ∷ r) ≡ without_comments in_comment (c ∷ r)
reads_line_end c r nl =
    let no_quote : (c == 34) ≡ false = ground (arith, nl) in
    let no_slash : (c == 47) ≡ false = ground (arith, nl) in rw (nl, no_quote, no_slash) refl

reads_comment :
    (c : ℕ) (r : List ℕ)
    → is_nl c ≡ false
    → without_comments in_comment (c ∷ r) ≡ space ∷ without_comments in_comment r
reads_comment c r h = rw h refl

line_comment-stops :
    (k : ℕ) (p r : List ℕ) (c : ℕ)
    → is_nl c ≡ true
    → line_comment (suc k) (p ++ c ∷ r) (length p) ≡ some (cursor p (c ∷ r))
unfolding line_comment
line_comment-stops k p r c h = rw (get_elem?-at p c r, h, line_comment) refl

line_comment-other :
    (k : ℕ) (p r : List ℕ) (c : ℕ)
    → is_nl c ≡ false
    → line_comment (suc k) (p ++ c ∷ r) (length p)
      ≡ line_comment k ((p ++ space ∷ []) ++ r) (length (p ++ space ∷ []))
unfolding line_comment
line_comment-other k p r c h =
    rw (get_elem?-at p c r, h, line_comment, set-at p c space r)
      (ap (λ (x : Cursor). line_comment k x.0 x.1) (cursor-snoc p space r))

pub line_comment-Ends :
    (k : ℕ) (p r : List ℕ)
    → length r < k
    → All IsSimple r
    → Ends in_comment p r (line_comment k (p ++ r) (length p))
unfolding line_comment
line_comment-Ends zero p r h simple = absurd (omega arith)
line_comment-Ends (suc k) p [] h simple =
    rw (get_elem?-end p, line_comment) (p, [], refl, refl, omega arith, tt)
line_comment-Ends (suc k) p (c ∷ r) h simple = elim (Bool-cases (is_nl c)) [
  | inl nl ↦
      subst (Ends in_comment p (c ∷ r)) (sym (line_comment-stops k p r c nl))
        (p, c ∷ r, refl, ap (λ s. p ++ s) (reads_line_end c r nl), omega arith, simple)
  | inr other ↦ subst (Ends in_comment p (c ∷ r)) (sym (line_comment-other k p r c other)) (
      Ends-step in_comment in_comment p r c space _ (reads_comment c r other)
        (line_comment-Ends k (p ++ space ∷ []) r (omega arith) simple.1))
]
