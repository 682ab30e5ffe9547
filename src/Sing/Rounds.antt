-- ===== src/Sing/Rounds.antt =====
-- The rounds of a report that resets, one entry at a time: storages and what is listed.
use v2b_x_patched_by_haman.Prelude.{
  ℕ, ◌<◌, ℤ, pos, String, ◌≡◌, ◌≢◌, ◌⊎◌, refl, sym, ap, subst, ◌∙◌, true, false, Bool-cases, inl,
  inr, List, [], ◌∷◌, ◌++◌, length, In, here, there, In-append_left, In-append_right, In-cons, ◌==◌,
  string_eq, int_eq, arith,
}
use v2b_x_patched_by_haman.Dict.{Dict, get}
use v2b_x_patched_by_haman.Dict.Entries.{IsUnique, get_of_In, missing}
use v2b_x_patched_by_haman.Panel.{UserTraffic}
use v2b_x_patched_by_haman.Counter.{
  TrafficStorage, TrafficCounter, zero_storage, storage_at, modify, clear, delete,
}
use v2b_x_patched_by_haman.Counter.Storages.{
  IsStored, IsWf, storage_at-modify, storage_at-modify_other, stored-modify,
}
use v2b_x_patched_by_haman.Sing.{or_zero, is_billed, bill, report_entry, report_entries}

-- No two entries have the same storage.
abbrev pub HasOwn : List (String × ℕ) → Type 0
HasOwn [] = Unit
HasOwn ((k, p) ∷ es) = ((u : String) → ¬ In (u, p) es) × HasOwn es

HasOwn-of_unique :
    (m : Dict String ℕ)
    → IsUnique m
    → ((j k : String) (p : ℕ) → In (j, p) m → In (k, p) m → j ≡ k)
    → HasOwn m
HasOwn-of_unique [] u own = tt
HasOwn-of_unique ((k, p) ∷ m) u own = (
  λ v i.
      missing (get_of_In m k p u.1 (subst (λ x. In (x, p) m) (own v k p (there i) (here refl)) i))
        u.0,
  HasOwn-of_unique m u.1 (λ i j q a b. own i j q (there a) (there b)),
)

pub IsWf-HasOwn : (c : TrafficCounter) → IsWf c → HasOwn c.counters
IsWf-HasOwn c wf = HasOwn-of_unique c.counters wf.unique (λ j k p a b.
    wf.own j k p (get_of_In c.counters j p wf.unique a) (get_of_In c.counters k p wf.unique b))

-- The two outcomes for a user: nothing happens, or the storage is reset and, unless the user is
-- unknown, its traffic is in the report.
abbrev pub IsSettled : ℤ → ℤ → TrafficStorage → TrafficStorage → List UserTraffic → Type 0
IsSettled least uid s s' out =
    ((is_billed least s ≡ false) × (s' ≡ s))
    ⊎ ((is_billed least s ≡ true)
        × (s' ≡ zero_storage)
        × ((uid ≡ pos 0) ⊎ ((uid ≢ pos 0) × In (bill uid s) out)))

module _ (uids : Dict String ℤ) (least : ℤ) where
  abbrev pub uid_of : String → ℤ
  uid_of u = or_zero (get uids u)

  module _ (u : String) (p : ℕ) (c : TrafficCounter) (out : List UserTraffic) where
    pub step_quiet :
        is_billed least (storage_at c p) ≡ false
        → report_entry uids least true (u, p) (c, out) ≡ (c, out)
    unfolding report_entry
    step_quiet h = rw (h, report_entry)

    pub step_unknown :
        is_billed least (storage_at c p) ≡ true
        → (uid_of u == pos 0) ≡ true
        → report_entry uids least true (u, p) (c, out) ≡ (delete u (modify p clear c), out)
    unfolding report_entry
    step_unknown h z = rw (h, z, report_entry)

    pub step_known :
        is_billed least (storage_at c p) ≡ true
        → (uid_of u == pos 0) ≡ false
        → report_entry uids least true (u, p) (c, out)
          ≡ (modify p clear c, out ++ bill (uid_of u) (storage_at c p) ∷ [])
    unfolding report_entry
    step_known h z = rw (h, z, report_entry)

  -- What one round leaves as it is.
  abbrev pub IsKept :
      ℕ → TrafficCounter × List UserTraffic → TrafficCounter × List UserTraffic → Type 0
  IsKept p (c, out) (c', out') =
      ((q : ℕ) → p ≢ q → storage_at c' q ≡ storage_at c q)
      × (length c'.storages ≡ length c.storages)
      × ((t : UserTraffic) → In t out → In t out')

  pub step-IsKept :
      (u : String) (p : ℕ) (c : TrafficCounter) (out : List UserTraffic)
      → IsKept p (c, out) (report_entry uids least true (u, p) (c, out))
  unfolding delete storage_at
  step-IsKept u p c out = elim (Bool-cases (is_billed least (storage_at c p))) [
    | inr quiet ↦
        subst (IsKept p (c, out)) (sym (step_quiet u p c out quiet)) (λ q ne. refl, refl, λ t i. i)
    | inl billed ↦ elim (Bool-cases (uid_of u == pos 0)) [
      | inl unknown ↦
          subst (IsKept p (c, out)) (sym (step_unknown u p c out billed unknown))
            (storage_at-modify_other p clear c, stored-modify p clear c, λ t i. i)
      | inr known ↦
          subst (IsKept p (c, out)) (sym (step_known u p c out billed known))
            (storage_at-modify_other p clear c, stored-modify p clear c, λ t i. In-append_left _ i)
    ]
  ]

  abbrev IsSettledAt : String → ℕ → TrafficCounter → TrafficCounter × List UserTraffic → Type 0
  IsSettledAt u p c (c', out) = IsSettled least (uid_of u) (storage_at c p) (storage_at c' p) out

  step-IsSettled :
      (u : String) (p : ℕ) (c : TrafficCounter) (out : List UserTraffic)
      → IsStored c p
      → let r = report_entry uids least true (u, p) (c, out) in
        IsSettled least (uid_of u) (storage_at c p) (storage_at r.0 p) r.1
  unfolding delete storage_at
  step-IsSettled u p c out stored = elim (Bool-cases (is_billed least (storage_at c p))) [
    | inr quiet ↦ subst (IsSettledAt u p c) (sym (step_quiet u p c out quiet)) (inl (quiet, refl))
    | inl billed ↦ elim (Bool-cases (uid_of u == pos 0)) [
      | inl unknown ↦ subst (IsSettledAt u p c) (sym (step_unknown u p c out billed unknown)) (
          inr (billed, storage_at-modify p clear c stored, inl ((int_eq.is_key_iff _ _).0 unknown)))
      | inr known ↦ subst (IsSettledAt u p c) (sym (step_known u p c out billed known)) (
          inr (
            billed,
            storage_at-modify p clear c stored,
            inr (
              λ z. absurd (ground (arith, known, (int_eq.is_key_iff (uid_of u) (pos 0)).1 z)),
              In-append_right out (here refl),
            ),
          ))
    ]
  ]

  IsSettled-keep :
      {uid : ℤ} {s s' s'' : TrafficStorage} {out out' : List UserTraffic}
      → s'' ≡ s'
      → ((t : UserTraffic) → In t out → In t out')
      → IsSettled least uid s s' out
      → IsSettled least uid s s'' out'
  IsSettled-keep e keep (inl (quiet, same)) = inl (quiet, e ∙ same)
  IsSettled-keep e keep (inr (billed, reset, inl unknown)) = inr (billed, e ∙ reset, inl unknown)
  IsSettled-keep e keep (inr (billed, reset, inr (known, i))) =
      inr (billed, e ∙ reset, inr (known, keep _ i))

  -- The rounds after the one of a storage leave it, and what is in the report stays there.
  run-keeps :
      (es : List (String × ℕ)) (p : ℕ) (r : TrafficCounter × List UserTraffic)
      → ((u : String) → ¬ In (u, p) es)
      → let r' = report_entries uids least true es r in
        (storage_at r'.0 p ≡ storage_at r.0 p) × ((t : UserTraffic) → In t r.1 → In t r'.1)
  unfolding report_entries
  run-keeps [] p r apart = (refl, λ t i. i)
  run-keeps ((u, q) ∷ es) p (c, out) apart =
      let kept = step-IsKept u q c out in
      let later =
        run-keeps es p (report_entry uids least true (u, q) (c, out)) (λ v i. apart v (there i)) in
      (
        later.0 ∙ kept.0 p (λ same. apart u (here (ap (λ n. (u, n)) (sym same)))),
        λ t i. later.1 t (kept.2 t i),
      )

  pub run-IsSettled :
      (es : List (String × ℕ)) (u : String) (p : ℕ) (c : TrafficCounter) (out : List UserTraffic)
      → HasOwn es
      → IsStored c p
      → In (u, p) es
      → let r = report_entries uids least true es (c, out) in
        IsSettled least (uid_of u) (storage_at c p) (storage_at r.0 p) r.1
  unfolding report_entries
  run-IsSettled [] u p c out own stored i = elim i [ ]
  run-IsSettled ((v, q) ∷ es) u p c out own stored i = elim (In-cons i) [
    | inl first ↦
        let later =
          run-keeps es p (report_entry uids least true (u, p) (c, out))
            (λ w j. own.0 w (subst (λ n. In (w, n) es) (ap (λ e. e.1) first) j)) in
        subst
          (λ e.
            let r = report_entries uids least true es (report_entry uids least true e (c, out)) in
            IsSettled least (uid_of u) (storage_at c p) (storage_at r.0 p) r.1)
          first (IsSettled-keep later.0 later.1 (step-IsSettled u p c out stored))
    | inr rest ↦
        let kept = step-IsKept v q c out in
        let r = report_entry uids least true (v, q) (c, out) in
        let here_same = kept.0 p (λ same. own.0 u (subst (λ n. In (u, n) es) (sym same) rest)) in
        subst
          (λ s.
            let r' = report_entries uids least true es r in
            IsSettled least (uid_of u) s (storage_at r'.0 p) r'.1)
          here_same
          (run-IsSettled es u p r.0 r.1 own.1 (subst (λ n. p < n) (sym kept.1) stored) rest)
  ]
