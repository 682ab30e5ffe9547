-- ===== src/Dict/Laws.antt =====
-- How reads see the writes of a map.
use v2b_x_patched_by_haman.Prelude.{
  ◌≡◌, refl, ◌∙◌, true, false, none, some, [], ◌∷◌, MapKey, ◌==◌, if◌then◌else◌, arith,
}
use v2b_x_patched_by_haman.Dict.{Dict, get, put, remove}

module _ {ℓ κ} {K : Type ℓ} {V : Type κ} ⦃e : MapKey K⦄ where
  pub get-put :
      (m : Dict K V) (k j : K) (v : V) → get (put m k v) j ≡ (if k == j then some v else get m j)
  unfolding get put
  get-put [] k j v = refl
  get-put ((i, w) ∷ m) k j v =
      ground (arith, get-put m k j v, e.is_key_iff i k, e.is_key_iff i j, e.is_key_iff k j)

  pub get-remove :
      (m : Dict K V) (k j : K) → get (remove m k) j ≡ (if k == j then none else get m j)
  unfolding get remove
  get-remove [] k j = ground arith
  get-remove ((i, w) ∷ m) k j =
      ground (arith, get-remove m k j, e.is_key_iff i k, e.is_key_iff i j, e.is_key_iff k j)

  pub get-nil : (k : K) → get (let m : Dict K V = [] in m) k ≡ none
  unfolding get
  get-nil k = refl

  pub get-cons :
      (m : Dict K V) (k j : K) (v : V) → get ((k, v) ∷ m) j ≡ (if k == j then some v else get m j)
  unfolding get
  get-cons m k j v = refl

  -- The same laws by cases, with the test as a premise.
  module _ (m : Dict K V) (k j : K) where
    pub get-put_same : (v : V) → (k == j) ≡ true → get (put m k v) j ≡ some v
    get-put_same v h = get-put m k j v ∙ rw h

    pub get-put_other : (v : V) → (k == j) ≡ false → get (put m k v) j ≡ get m j
    get-put_other v h = get-put m k j v ∙ rw h

    pub get-remove_same : (k == j) ≡ true → get (remove m k) j ≡ none
    get-remove_same h = get-remove m k j ∙ rw h

    pub get-remove_other : (k == j) ≡ false → get (remove m k) j ≡ get m j
    get-remove_other h = get-remove m k j ∙ rw h

    pub get_same : (k == j) ≡ true → get m j ≡ get m k
    get_same h = rw ((e.is_key_iff k j).0 h)

  -- A write to a missing key, and its removal, change no read.
  pub get-remove-put :
      (m : Dict K V) (k j : K) (v : V) → get m k ≡ none → get (remove (put m k v) k) j ≡ get m j
  get-remove-put m k j v h =
      ground (arith, get-remove (put m k v) k j, get-put m k j v, e.is_key_iff k j)

module _ {ℓ} {K : Type ℓ} ⦃e : MapKey K⦄ where
  pub beq_refl : (k : K) → (k == k) ≡ true
  beq_refl k = (e.is_key_iff k k).1 refl
