-- ===== src/Json5/Total.antt =====
-- The loops of the reader end within their fuel, move forward, and write spaces only.
use v2b_x_patched_by_haman.Prelude.{
  ℕ, zero, suc, ◌-◌, ◌≤◌, ◌<◌, ◌≡◌, refl, sym, subst, Bool, true, false, not, ◌||◌, Option,
  Option-cases, none, some, inl, inr, List, length, get_elem?, get_elem?-lt, set, length-set, arith,
  ◌==◌, nat_eq, if◌then◌else◌,
}
use v2b_x_patched_by_haman.Json5.{
  space, is_nl, is_ws, is_at, Cursor, and_then, line_comment, block_comment, on_slash, on_star,
  consume_comment, skip_string, after_comma, prep_round, prep_from, prep,
}
use v2b_x_patched_by_haman.Json5.Blanks.{IsBlanked, IsBlanked-refl, IsBlanked-trans, set-IsBlanked}

-- A result with a position from `i` on, and a text that has only more spaces than `s`.
abbrev pub Settles : List ℕ → ℕ → Option Cursor → Type 0
Settles s i o = (s' : List ℕ) × (i' : ℕ) × (o ≡ some (s', i')) × (i ≤ i') × IsBlanked s s'

-- From a text with more spaces, and a position further on.
Settles-trans :
    (s t : List ℕ) (i j : ℕ) (o : Option Cursor)
    → IsBlanked s t
    → i ≤ j
    → Settles t j o
    → Settles s i o
Settles-trans s t i j o b le (u, k, e, le', b') = (u, k, e, omega arith, IsBlanked-trans s t u b b')

Settles-stay : (s : List ℕ) (i j : ℕ) → i ≤ j → Settles s i (some (s, j))
Settles-stay s i j le = (s, j, refl, le, IsBlanked-refl s)

Settles-if :
    (s : List ℕ) (i : ℕ) (b : Bool) (o p : Option Cursor)
    → Settles s i o
    → Settles s i p
    → Settles s i (if b then o else p)
Settles-if s i true o p x y = x
Settles-if s i false o p x y = y

Settles-and_then :
    (s : List ℕ) (i : ℕ) (o : Option Cursor) (f : Cursor → Option Cursor)
    → Settles s i o
    → ((t : List ℕ) (j : ℕ) → IsBlanked s t → i ≤ j → Settles t j (f (t, j)))
    → Settles s i (and_then o f)
Settles-and_then s i o f (t, j, e, le, b) next =
    subst (λ r. Settles s i (and_then r f)) (sym e)
      (Settles-trans s t i j (f (t, j)) b le (next t j b le))

-- A write of a space, and a step.
Settles-write :
    (s : List ℕ) (i j k : ℕ) (o : Option Cursor)
    → i ≤ k
    → Settles (set s j space) k o
    → Settles s i o
Settles-write s i j k o le x = Settles-trans s (set s j space) i k o (set-IsBlanked s j) le x

-- A read of the text that is there or not.
abbrev pub on_byte : Option ℕ → (ℕ → Option Cursor) → Option Cursor → Option Cursor
on_byte o f g = elim o [ none ↦ g | some c ↦ f c ]

Settles-read :
    (s : List ℕ) (i j : ℕ) (f : ℕ → Option Cursor) (g : Option Cursor)
    → Settles s i g
    → ((c : ℕ) → get_elem? s j ≡ some c → Settles s i (f c))
    → Settles s i (on_byte (get_elem? s j) f g)
Settles-read s i j f g x y = elim (Option-cases (get_elem? s j)) [
  | inl e ↦ subst (λ o. Settles s i (on_byte o f g)) (sym e) x
  | inr (c, e) ↦ subst (λ o. Settles s i (on_byte o f g)) (sym e) (y c e)
]

line_comment-Settles :
    (k : ℕ) (s : List ℕ) (i : ℕ) → length s - i < k → Settles s i (line_comment k s i)
unfolding line_comment
line_comment-Settles zero s i h = absurd (omega arith)
line_comment-Settles (suc k) s i h =
    Settles-read s i i _ _ (Settles-stay s i i (omega arith)) (λ c e.
      Settles-if s i (is_nl c) _ _ (Settles-stay s i i (omega arith)) (
        Settles-write s i i (suc i) _ (omega arith) (
          line_comment-Settles k (set s i space) (suc i)
            (omega (arith, length-set s i space, get_elem?-lt s i e)))))

block_comment-Settles :
    (k : ℕ) (s : List ℕ) (i : ℕ) → length s - i < k → Settles s i (block_comment k s i)
unfolding block_comment
block_comment-Settles zero s i h = absurd (omega arith)
block_comment-Settles (suc k) s i h =
    Settles-read s i i _ _ (Settles-stay s i i (omega arith)) (λ c e.
      Settles-if s i (not (c == 42)) _ _
        (Settles-write s i i (suc i) _ (omega arith) (
          block_comment-Settles k (set s i space) (suc i)
            (omega (arith, length-set s i space, get_elem?-lt s i e))))
        (Settles-write s i i i _ (omega arith) (
          Settles-if (set s i space) i (is_at (set s i space) (suc i) 47) _ _
            (Settles-write (set s i space) i (suc i) (suc i) _ (omega arith)
              (Settles-stay _ (suc i) (suc i) (omega arith)))
            (Settles-trans _ _ i (suc (suc i)) _ (IsBlanked-refl _) (omega arith) (
              block_comment-Settles k (set s i space) (suc (suc i))
                (omega (arith, length-set s i space, get_elem?-lt s i e)))))))

consume_comment-Settles :
    (k : ℕ) (s : List ℕ) (i : ℕ) → length s - i < k → Settles s i (consume_comment k s i)
unfolding consume_comment on_slash on_star
consume_comment-Settles k s i h =
    Settles-and_then s i _ _
      (Settles-if s i (is_at s i 47) _ _
        (Settles-write s i (i - 1) i _ (omega arith) (
          line_comment-Settles k (set s (i - 1) space) i
            (omega (arith, length-set s (i - 1) space))))
        (Settles-stay s i i (omega arith)))
      (λ t j b le.
        Settles-if t j (is_at t j 42) _ _
          (Settles-write t j (j - 1) j _ (omega arith) (
            Settles-write _ j j j _ (omega arith) (
              block_comment-Settles k _ j (
                omega (
                  arith,
                  length-set t (j - 1) space,
                  length-set (set t (j - 1) space) j space,
                  b.same_length,
                )))))
          (Settles-stay t j j (omega arith)))

skip_string-Settles :
    (k : ℕ) (s : List ℕ) (i : ℕ) → length s - i < k → Settles s i (skip_string k s i)
unfolding skip_string
skip_string-Settles zero s i h = absurd (omega arith)
skip_string-Settles (suc k) s i h =
    Settles-read s i i _ _ (Settles-stay s i i (omega arith)) (λ c e.
      Settles-if s i (c == 34) _ _ (Settles-stay s i (suc i) (omega arith)) (
        Settles-if s i (c == 92) _ _
          (Settles-trans s s i (suc (suc i)) _ (IsBlanked-refl s) (omega arith)
            (skip_string-Settles k s (suc (suc i)) (omega (arith, get_elem?-lt s i e))))
          (Settles-trans s s i (suc i) _ (IsBlanked-refl s) (omega arith)
            (skip_string-Settles k s (suc i) (omega (arith, get_elem?-lt s i e))))))

after_comma-Settles :
    (k : ℕ) (s : List ℕ) (j i : ℕ) → length s - suc i < k → Settles s (suc i) (after_comma k s j i)
unfolding after_comma
after_comma-Settles zero s j i h = absurd (omega arith)
after_comma-Settles (suc k) s j i h =
    Settles-read s (suc i) (suc i) _ _ (Settles-stay s (suc i) (suc i) (omega arith)) (λ c e.
      Settles-if s (suc i) (c == 125 || c == 93) _ _
        (Settles-write s (suc i) j (suc i) _ (omega arith)
          (Settles-stay _ (suc i) (suc i) (omega arith)))
        (Settles-if s (suc i) (c == 47) _ _
          (Settles-and_then s (suc i) _ _
            (Settles-trans s s (suc i) (suc (suc i)) _ (IsBlanked-refl s) (omega arith)
              (consume_comment-Settles k s (suc (suc i)) (omega (arith, get_elem?-lt s (suc i) e))))
            (λ t l b le. Settles-trans t t l (suc l) _ (IsBlanked-refl t) (omega arith) (
              after_comma-Settles k t j l
                (omega (arith, b.same_length, get_elem?-lt s (suc i) e)))))
          (Settles-if s (suc i) (not (is_ws c)) _ _ (Settles-stay s (suc i) (suc i) (omega arith)) (
            Settles-trans s s (suc i) (suc (suc i)) _ (IsBlanked-refl s) (omega arith)
              (after_comma-Settles k s j (suc i) (omega (arith, get_elem?-lt s (suc i) e)))))))

prep_round-Settles :
    (k : ℕ) (s : List ℕ) (i c : ℕ) → length s - suc i < k → Settles s (suc i) (prep_round k s i c)
unfolding prep_round
prep_round-Settles k s i c h =
    Settles-if s (suc i) (c == 34) _ _ (skip_string-Settles k s (suc i) h) (
      Settles-if s (suc i) (c == 47) _ _ (consume_comment-Settles k s (suc i) h) (
        Settles-if s (suc i) (c == 44) _ _ (after_comma-Settles k s i i h)
          (Settles-stay s (suc i) (suc i) (omega arith))))

prep_from-Settles : (k : ℕ) (s : List ℕ) (i : ℕ) → length s - i < k → Settles s i (prep_from k s i)
unfolding prep_from
prep_from-Settles zero s i h = absurd (omega arith)
prep_from-Settles (suc k) s i h = Settles-read s i i _ _ (Settles-stay s i i (omega arith)) (λ c e.
    Settles-trans s s i (suc i) _ (IsBlanked-refl s) (omega arith) (
      Settles-and_then s (suc i) _ _
        (prep_round-Settles k s i c (omega (arith, get_elem?-lt s i e)))
        (λ t j b le. prep_from-Settles k t j (omega (arith, b.same_length, get_elem?-lt s i e)))))

-- The reader ends on every text. Its result has the length of the text, and each byte of it is the
-- byte of the text at the same place or a space.
pub prep-IsBlanked : (s : List ℕ) → (s' : List ℕ) × (prep s ≡ some s') × IsBlanked s s'
unfolding prep
prep-IsBlanked s =
    let (s', i, e, le, b) = prep_from-Settles (suc (length s)) s 0 (omega arith) in
    (s', rw (e, prep), b)
