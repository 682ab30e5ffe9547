-- ===== src/Text/Laws.antt =====
-- Lemmas on strings.TrimSpace.
use Prim.Native.Char.{Char}
use v2b_x_patched_by_haman.Prelude.{String, ◌≡◌, refl, ap, ◌∙◌, false, Bool-cases, inl, inr}
use v2b_x_patched_by_haman.Text.{is_space, trim_left, trim_right, trim_space, cons_trimmed}

-- What does not begin with a space.
abbrev Starts : String → Type 0
Starts String.[] = Unit {0}
Starts (String.◌∷◌ c s) = is_space c ≡ false

trim_left-Starts : (s : String) → Starts (trim_left s)
unfolding trim_left
trim_left-Starts String.[] = tt
trim_left-Starts (String.◌∷◌ c s) = elim (Bool-cases (is_space c)) [
  | inl space ↦ rw space (trim_left-Starts s)
  | inr other ↦ rw other other
]

trim_left_of_Starts : (s : String) → Starts s → trim_left s ≡ s
unfolding trim_left
trim_left_of_Starts String.[] h = refl
trim_left_of_Starts (String.◌∷◌ c s) h = rw h

cons_trimmed-Starts : (c : Char) (s : String) → is_space c ≡ false → Starts (cons_trimmed c s)
cons_trimmed-Starts c String.[] h = rw h h
cons_trimmed-Starts c (String.◌∷◌ d t) h = h

trim_right-Starts : (s : String) → Starts s → Starts (trim_right s)
unfolding trim_right
trim_right-Starts String.[] h = tt
trim_right-Starts (String.◌∷◌ c s) h = cons_trimmed-Starts c (trim_right s) h

trim_right-cons_trimmed :
    (c : Char) (t : String) → trim_right t ≡ t → trim_right (cons_trimmed c t) ≡ cons_trimmed c t
unfolding trim_right
trim_right-cons_trimmed c String.[] h = elim (Bool-cases (is_space c)) [
  | inl space ↦ rw space refl
  | inr other ↦ rw (other, other) refl
]
trim_right-cons_trimmed c (String.◌∷◌ d t) h = ap (cons_trimmed c) h

trim_right_idem : (s : String) → trim_right (trim_right s) ≡ trim_right s
unfolding trim_right
trim_right_idem String.[] = refl
trim_right_idem (String.◌∷◌ c s) = trim_right-cons_trimmed c (trim_right s) (trim_right_idem s)

pub trim_space_idem : (s : String) → trim_space (trim_space s) ≡ trim_space s
unfolding trim_space
trim_space_idem s =
    ap trim_right (trim_left_of_Starts _ (trim_right-Starts _ (trim_left-Starts s)))
    ∙ trim_right_idem (trim_left s)
