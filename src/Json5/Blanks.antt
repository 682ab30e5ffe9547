-- ===== src/Json5/Blanks.antt =====
-- Texts that differ in bytes that became spaces.
use v2b_x_patched_by_haman.Prelude.{
  ℕ, ◌≡◌, ◌⊎◌, refl, ap, subst, ◌∙◌, Option-cases, some, inl, inr, List, length, length-set,
  set-out_of_range, get_elem?, set, get_elem?-set_self, get_elem?-set_ne, arith, Bool-cases, ◌==◌,
  nat_eq,
}
use v2b_x_patched_by_haman.Json5.{space}

pub record IsBlanked (s s' : List ℕ) : Type 0 where
  pub same_length : length s' ≡ length s
  pub kept : (i : ℕ) → (get_elem? s' i ≡ get_elem? s i) ⊎ (get_elem? s' i ≡ some space)

pub IsBlanked-refl : (s : List ℕ) → IsBlanked s s
IsBlanked-refl s = record { same_length = refl; kept = λ i. inl refl }

pub IsBlanked-trans : (s t u : List ℕ) → IsBlanked s t → IsBlanked t u → IsBlanked s u
IsBlanked-trans s t u a b = record {
  same_length = b.same_length ∙ a.same_length;
  kept = λ i. elim (b.kept i) [
    | inr blank ↦ inr blank
    | inl same ↦ elim (a.kept i) [
      | inl before ↦ inl (same ∙ before)
      | inr blank ↦ inr (same ∙ blank)
    ]
  ];
}

pub set-IsBlanked : (s : List ℕ) (i : ℕ) → IsBlanked s (set s i space)
set-IsBlanked s i = record {
  same_length = length-set s i space;
  kept = λ j. elim (Bool-cases (i == j)) [
    | inr other ↦ inl (get_elem?-set_ne s i j space (λ e. absurd (ground (arith, other, e))))
    | inl same ↦ elim (Option-cases (get_elem? s i)) [
      | inr (c, e) ↦ inr (
          subst (λ n. get_elem? (set s i space) n ≡ some space) (ground (arith, same))
            (get_elem?-set_self s i space e))
      | inl e ↦ inl (ap (λ t. get_elem? t j) (set-out_of_range s i space e))
    ]
  ];
}
