-- ===== src/Prelude/Lists.antt =====
-- Lists measured and indexed by native numbers, and predicates on every element.
use Prim.Native.Nat.{ℕ, zero, suc, ◌<◌}
use mathlib.Core.Path.{◌≡◌, refl, ap, subst}
use mathlib.Core.Logic.{◌⊎◌, ◌≢◌, inl, inr}
use mathlib.Core.Bool.{Bool, true, false, ◌||◌}
use mathlib.Core.List.{List, [], ◌∷◌, ◌++◌}
use mathlib.Core.Option.{Option, none, some}
use native.Mathlib.Omega.{arith}
use v2b_x_patched_by_haman.Prelude.Tests.{Bool-cases, some_inj}

module _ {ℓ} {A : Type ℓ} where
  abbrev pub length : List A → ℕ
  length [] = 0
  length (x ∷ xs) = suc (length xs)

  abbrev pub get_elem? : List A → ℕ → Option A
  get_elem? [] i = none
  get_elem? (x ∷ xs) zero = some x
  get_elem? (x ∷ xs) (suc i) = get_elem? xs i

  -- A write out of bounds changes nothing.
  abbrev pub set : List A → ℕ → A → List A
  set [] i v = []
  set (x ∷ xs) zero v = v ∷ xs
  set (x ∷ xs) (suc i) v = x ∷ set xs i v

  abbrev pub any : (A → Bool) → List A → Bool
  any p [] = false
  any p (x ∷ xs) = p x || any p xs

-- Every element has the property.
abbrev pub All {ℓ κ} : {A : Type ℓ} → (A → Type κ) → List A → Type κ
All P (y ∷ ys) = P y × All P ys
All P [] = Unit

-- `x` stands in the list.
pub data In {ℓ} {A : Type ℓ} (x : A) : List A → Type ℓ where
  here : {y : A} {ys : List A} → x ≡ y → In x (y ∷ ys)
  there : {y : A} {ys : List A} → In x ys → In x (y ∷ ys)

pub In-cons {ℓ} : {A : Type ℓ} {x y : A} {ys : List A} → In x (y ∷ ys) → (x ≡ y) ⊎ In x ys
In-cons (here e) = inl e
In-cons (there i) = inr i

pub In-append {ℓ} :
    {A : Type ℓ} {x : A} (xs : List A) {ys : List A} → In x (xs ++ ys) → In x xs ⊎ In x ys
In-append [] i = inr i
In-append (y ∷ xs) (here e) = inl (here e)
In-append (y ∷ xs) (there i) = elim (In-append xs i) [ inl j ↦ inl (there j) | inr j ↦ inr j ]

pub In-append_left {ℓ} :
    {A : Type ℓ} {x : A} {xs : List A} (ys : List A) → In x xs → In x (xs ++ ys)
In-append_left ys (here e) = here e
In-append_left ys (there i) = there (In-append_left ys i)

pub In-append_right {ℓ} :
    {A : Type ℓ} {x : A} (xs : List A) {ys : List A} → In x ys → In x (xs ++ ys)
In-append_right [] i = i
In-append_right (y ∷ xs) i = there (In-append_right xs i)

module _ {ℓ} {A : Type ℓ} (p : A → Bool) where
  pub any-In : (xs : List A) → any p xs ≡ true → (x : A) × In x xs × (p x ≡ true)
  any-In [] h = absurd (cc)
  any-In (x ∷ xs) h = elim (Bool-cases (p x)) [
    | inl fits ↦ (x, here refl, fits)
    | inr not_this ↦ let (y, i, fits) = any-In xs (ground arith) in (y, there i, fits)
  ]

  pub any_of_In : (xs : List A) (x : A) → In x xs → p x ≡ true → any p xs ≡ true
  any_of_In [] x i h = elim i [ ]
  any_of_In (y ∷ xs) x (here e) h = rw (← e, h)
  any_of_In (y ∷ xs) x (there i) h = ground (arith, any_of_In xs x i h)

module _ {ℓ} {A : Type ℓ} where
  pub get_elem?-append :
      (xs ys : List A) (i : ℕ) {x : A} → get_elem? xs i ≡ some x → get_elem? (xs ++ ys) i ≡ some x
  get_elem?-append [] ys i h = absurd (cc)
  get_elem?-append (y ∷ xs) ys zero h = h
  get_elem?-append (y ∷ xs) ys (suc i) h = get_elem?-append xs ys i h

  pub get_elem?-snoc : (xs : List A) (x : A) → get_elem? (xs ++ x ∷ []) (length xs) ≡ some x
  get_elem?-snoc [] x = refl
  get_elem?-snoc (y ∷ xs) x = get_elem?-snoc xs x

  pub get_elem?-lt : (xs : List A) (i : ℕ) {x : A} → get_elem? xs i ≡ some x → i < length xs
  get_elem?-lt [] i h = absurd (cc)
  get_elem?-lt (y ∷ xs) zero h = omega arith
  get_elem?-lt (y ∷ xs) (suc i) h = omega (arith, get_elem?-lt xs i h)

  pub get_elem?_of_lt : (xs : List A) (i : ℕ) → i < length xs → (x : A) × (get_elem? xs i ≡ some x)
  get_elem?_of_lt [] i h = absurd (omega arith)
  get_elem?_of_lt (y ∷ xs) zero h = (y, refl)
  get_elem?_of_lt (y ∷ xs) (suc i) h = get_elem?_of_lt xs i (omega arith)

  pub set-out_of_range : (xs : List A) (i : ℕ) (v : A) → get_elem? xs i ≡ none → set xs i v ≡ xs
  set-out_of_range [] i v h = refl
  set-out_of_range (y ∷ xs) zero v h = absurd (cc)
  set-out_of_range (y ∷ xs) (suc i) v h = ap (λ ys. y ∷ ys) (set-out_of_range xs i v h)

  pub length-set : (xs : List A) (i : ℕ) (v : A) → length (set xs i v) ≡ length xs
  length-set [] i v = refl
  length-set (y ∷ xs) zero v = refl
  length-set (y ∷ xs) (suc i) v = ap suc (length-set xs i v)

  pub length-snoc : (xs : List A) (x : A) → length (xs ++ x ∷ []) ≡ suc (length xs)
  length-snoc [] x = refl
  length-snoc (y ∷ xs) x = ap suc (length-snoc xs x)

  pub get_elem?-set_self :
      (xs : List A) (i : ℕ) (v : A) {x : A}
      → get_elem? xs i ≡ some x
      → get_elem? (set xs i v) i ≡ some v
  get_elem?-set_self [] i v h = absurd (cc)
  get_elem?-set_self (y ∷ xs) zero v h = refl
  get_elem?-set_self (y ∷ xs) (suc i) v h = get_elem?-set_self xs i v h

  pub get_elem?-set_ne :
      (xs : List A) (i j : ℕ) (v : A) → i ≢ j → get_elem? (set xs i v) j ≡ get_elem? xs j
  get_elem?-set_ne [] i j v h = refl
  get_elem?-set_ne (x ∷ xs) zero zero v h = absurd (h refl)
  get_elem?-set_ne (x ∷ xs) zero (suc j) v h = refl
  get_elem?-set_ne (x ∷ xs) (suc i) zero v h = refl
  get_elem?-set_ne (x ∷ xs) (suc i) (suc j) v h = get_elem?-set_ne xs i j v (λ e. h (ap suc e))

module _ {ℓ κ} {A : Type ℓ} (P : A → Type κ) where
  pub All-snoc : (xs : List A) (x : A) → All P xs → P x → All P (xs ++ x ∷ [])
  All-snoc [] x h p = (p, tt)
  All-snoc (y ∷ xs) x h p = (h.0, All-snoc xs x h.1 p)

  pub All-set : (xs : List A) (i : ℕ) (x : A) → All P xs → P x → All P (set xs i x)
  All-set [] i x h p = tt
  All-set (y ∷ xs) zero x h p = (p, h.1)
  All-set (y ∷ xs) (suc i) x h p = (h.0, All-set xs i x h.1 p)

  pub All-get_elem? : (xs : List A) (i : ℕ) (x : A) → All P xs → get_elem? xs i ≡ some x → P x
  All-get_elem? [] i x h e = absurd (cc)
  All-get_elem? (y ∷ xs) zero x h e = subst P (some_inj e) h.0
  All-get_elem? (y ∷ xs) (suc i) x h e = All-get_elem? xs i x h.1 e

-- Facts about all elements pass to others.
pub All-map {ℓ κ μ} :
    {A : Type ℓ} {P : A → Type κ} {Q : A → Type μ}
    → ((a : A) → P a → Q a)
    → (xs : List A) → All P xs
    → All Q xs
All-map f [] h = tt
All-map f (x ∷ xs) h = (f x h.0, All-map f xs h.1)
