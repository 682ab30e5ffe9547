-- ===== src/Node/UserDiff/Indices.antt =====
-- The map of keys that `compareUserList` builds, and the users at its indices.
use v2b_x_patched_by_haman.Prelude.{
  ℕ, suc, ◌+◌, String, ◌≡◌, ◌≢◌, ◌⊎◌, refl, sym, ◌∙◌, ap, inl, inr, true, false, Option, none, some,
  List, [], ◌∷◌, get_elem?, ◌==◌, string_eq, In, here, there, In-cons, arith, Bool-cases,
  if◌then◌else◌, eq_iff,
}
use v2b_x_patched_by_haman.Dict.{Dict, get, put}
use v2b_x_patched_by_haman.Dict.Laws.{get-nil, get-put}
use v2b_x_patched_by_haman.Dict.Entries.{IsUnique, put-IsUnique, get_of_In}
use v2b_x_patched_by_haman.Panel.{UserInfo}
use v2b_x_patched_by_haman.Node.UserDiff.{key_of, index_keys, users_at, has_key}

-- The index of the last user with a key, counted from `i`; else what was there before.
abbrev pub last_index : String → ℕ → List UserInfo → Option ℕ → Option ℕ
last_index key i [] before = before
last_index key i (u ∷ us) before =
    last_index key (suc i) us (if key_of u == key then some i else before)

pub index_keys-get :
    (i : ℕ) (us : List UserInfo) (m : Dict String ℕ) (key : String)
    → get (index_keys i us m) key ≡ last_index key i us (get m key)
unfolding index_keys
index_keys-get i [] m key = refl
index_keys-get i (u ∷ us) m key =
    index_keys-get (suc i) us (put m (key_of u) i) key
    ∙ ap (last_index key (suc i) us) (get-put m (key_of u) key i)

pub index_keys-IsUnique :
    (i : ℕ) (us : List UserInfo) (m : Dict String ℕ) → IsUnique m → IsUnique (index_keys i us m)
unfolding index_keys
index_keys-IsUnique i [] m h = h
index_keys-IsUnique i (u ∷ us) m h =
    index_keys-IsUnique (suc i) us _ (put-IsUnique m (key_of u) i h)

-- Each entry of the map names a user of the old list by its index and its key.
abbrev pub Names : List UserInfo → Dict String ℕ → Type 0
Names old m =
    (key : String) (i : ℕ)
    → In (key, i) m
    → (u : UserInfo) × (get_elem? old i ≡ some u) × (key_of u ≡ key)

last_index-names :
    (key : String) (i : ℕ) (us : List UserInfo) (before : Option ℕ) (j : ℕ)
    → last_index key i us before ≡ some j
    → (before ≡ some j)
      ⊎ ((d : ℕ) × (u : UserInfo) × (j ≡ i + d) × (get_elem? us d ≡ some u) × (key_of u ≡ key))
last_index-names key i [] before j h = inl h
last_index-names key i (u ∷ us) before j h = elim (last_index-names key (suc i) us _ j h) [
  | inl here' ↦ elim (Bool-cases (key_of u == key)) [
    | inl same ↦ inr (0, u, ground arith, refl, (eq_iff (key_of u) key).0 same)
    | inr other ↦ inl (ground arith)
  ]
  | inr (d, w, e, at, same) ↦ inr (suc d, w, omega arith, at, same)
]

-- The users that the map names, and no others.
pub record Collects (old : List UserInfo) (m : Dict String ℕ) (us : List UserInfo) : Type 0 where
  pub named :
      (v : UserInfo)
      → In v us
      → (key : String) × (i : ℕ) × In (key, i) m × (get_elem? old i ≡ some v)
  pub covered :
      (key : String) (i : ℕ) → In (key, i) m → (v : UserInfo) × In v us × (get_elem? old i ≡ some v)

Collects-cons :
    (old : List UserInfo) (m : Dict String ℕ) (us : List UserInfo) (key : String) (i : ℕ)
    (u : UserInfo)
    → get_elem? old i ≡ some u
    → Collects old m us
    → Collects old ((key, i) ∷ m) (u ∷ us)
Collects-cons old m us key i u at c = record {
  named = λ v listed. elim (In-cons listed) [
    | inl same ↦ (key, i, here refl, rw same at)
    | inr later ↦ let (k, j, inside, at') = c.named v later in (k, j, there inside, at')
  ];
  covered = λ k j listed. elim (In-cons listed) [
    | inl same ↦ (u, here refl, rw (ap (λ p. p.1) same) at)
    | inr later ↦ let (v, inside, at') = c.covered k j later in (v, there inside, at')
  ];
}

-- No index is out of range, and the users that the map names are collected.
pub users_at_lem :
    (old : List UserInfo) (m : Dict String ℕ)
    → Names old m
    → (us : List UserInfo) × (users_at old m ≡ some us) × Collects old m us
unfolding users_at
users_at_lem old [] names =
    ([], refl, record { named = λ v i. elim i [ ]; covered = λ key i listed. elim listed [ ] })
users_at_lem old ((key, i) ∷ m) names =
    let (u, at, _) = names key i (here refl) in
    let (us, e, c) = users_at_lem old m (λ k j listed. names k j (there listed)) in
    (u ∷ us, rw (at, users_at) (rw (e, users_at)), Collects-cons old m us key i u at c)

pub index_keys-Names : (old : List UserInfo) → Names old (index_keys 0 old [])
index_keys-Names old key i listed =
    elim (last_index-names key 0 old (get [] key) i (
      sym (index_keys-get 0 old [] key)
      ∙ get_of_In _ key i (index_keys-IsUnique 0 old [] tt) listed)) [
        | inl nothing ↦ absurd (cc (get-nil {K = String} {V = ℕ} key))
        | inr (d, u, e, at, same) ↦
            let same_index : i ≡ d = omega arith in (u, rw same_index at, same)
      ]

-- Its last index is found for each key of the old list.
last_index_stays :
    (key : String) (i : ℕ) (us : List UserInfo) (before : Option ℕ)
    → before ≢ none
    → last_index key i us before ≢ none
last_index_stays key i [] before h = h
last_index_stays key i (u ∷ us) before h = last_index_stays key (suc i) us _ (ground arith)

pub last_index-found :
    (key : String) (i : ℕ) (us : List UserInfo) (before : Option ℕ) (v : UserInfo)
    → In v us
    → (key_of v == key) ≡ true
    → last_index key i us before ≢ none
last_index-found key i [] before v listed same = elim listed [ ]
last_index-found key i (u ∷ us) before v (here e) same =
    last_index_stays key (suc i) us _ (rw (sym (ap key_of e), same) (ground arith))
last_index-found key i (u ∷ us) before v (there later) same =
    last_index-found key (suc i) us _ v later same

-- A key that no user of the list has does not change what was there before.
pub last_index_missing :
    (key : String) (i : ℕ) (us : List UserInfo) (before : Option ℕ)
    → has_key key us ≡ false
    → last_index key i us before ≡ before
last_index_missing key i [] before h = refl
last_index_missing key i (u ∷ us) before h =
    last_index_missing key (suc i) us _ (ground arith) ∙ ground arith
