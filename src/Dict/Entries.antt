-- ===== src/Dict/Entries.antt =====
-- The entries of a map that was built by its operations: one for each key.
use v2b_x_patched_by_haman.Prelude.{
  ◌≡◌, some_inj, sym, ◌∙◌, ap, inl, inr, Option, none, some, [], ◌∷◌, MapKey, ◌==◌, arith, In, here,
  there, Bool-cases,
}
use v2b_x_patched_by_haman.Dict.{Dict, get, put, remove}
use v2b_x_patched_by_haman.Dict.Laws.{get-remove, get-cons, get-nil, get-put}

pub missing {ℓ} : {A : Type ℓ} {o : Option A} {a : A} → o ≡ some a → o ≡ none → ⊥
missing p q = cc

pair_eq {ℓ κ} :
    {A : Type ℓ} {B : Type κ} {a c : A} {b d : B} → a ≡ c → b ≡ d → ◌≡◌ {A = A × B} (a, b) (c, d)
pair_eq p q = λ i. (p i, q i)

module _ {ℓ κ} {K : Type ℓ} {V : Type κ} ⦃e : MapKey K⦄ where
  -- No key stands in two entries.
  abbrev pub IsUnique : Dict K V → Type κ
  IsUnique [] = Unit
  IsUnique ((k, v) ∷ m) = (get m k ≡ none) × IsUnique m

  pub put-IsUnique : (m : Dict K V) (k : K) (v : V) → IsUnique m → IsUnique (put m k v)
  unfolding put
  put-IsUnique [] k v u = (get-nil k, tt)
  put-IsUnique ((j, w) ∷ m) k v u = elim (Bool-cases (j == k)) [
    | inl same ↦ rw same u
    | inr other ↦ rw other (
      get-put m k j v ∙ ground (arith, e.is_key_iff j k, e.is_key_iff k j),
      put-IsUnique m k v u.1,
    )
  ]

  pub remove-IsUnique : (m : Dict K V) (k : K) → IsUnique m → IsUnique (remove m k)
  unfolding remove
  remove-IsUnique [] k u = tt
  remove-IsUnique ((j, w) ∷ m) k u = elim (Bool-cases (j == k)) [
    | inl same ↦ rw same (remove-IsUnique m k u.1)
    | inr other ↦ rw other (get-remove m k j ∙ ground arith, remove-IsUnique m k u.1)
  ]

  pub get_of_In : (m : Dict K V) (k : K) (v : V) → IsUnique m → In (k, v) m → get m k ≡ some v
  get_of_In [] k v u i = elim i [ ]
  get_of_In ((j, w) ∷ m) k v u (here same) =
      get-cons m j k w
      ∙ rw ((e.is_key_iff j k).1 (sym (ap (λ p. p.0) same))) (ap (λ p. some p.1) (sym same))
  get_of_In ((j, w) ∷ m) k v u (there i) = elim (Bool-cases (j == k)) [
    | inl same ↦ absurd (missing (get_of_In m k v u.1 i) (rw (sym ((e.is_key_iff j k).0 same)) u.0))
    | inr other ↦ get-cons m j k w ∙ rw other (get_of_In m k v u.1 i)
  ]

  pub In-of_get : (m : Dict K V) (k : K) (v : V) → get m k ≡ some v → In (k, v) m
  In-of_get [] k v h = absurd (missing h (get-nil k))
  In-of_get ((j, w) ∷ m) k v h = elim (Bool-cases (j == k)) [
    | inl same ↦
        here (
          pair_eq (sym ((e.is_key_iff j k).0 same)) (some_inj (sym h ∙ get-cons m j k w ∙ rw same)))
    | inr other ↦ there (In-of_get m k v (sym (get-cons m j k w ∙ rw other) ∙ h))
  ]
