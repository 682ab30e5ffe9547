-- ===== src/Sing/Bills.antt =====
-- What the rounds of a report list.
use v2b_x_patched_by_haman.Prelude.{
  ℕ, ℤ, pos, String, ◌≡◌, ◌≢◌, ◌⊎◌, refl, sym, subst, true, Bool-cases, inl, inr, List, [], ◌∷◌, In,
  here, there, In-append, In-cons, ◌==◌, string_eq, int_eq, arith,
}
use v2b_x_patched_by_haman.Dict.{Dict}
use v2b_x_patched_by_haman.Panel.{UserTraffic}
use v2b_x_patched_by_haman.Counter.{TrafficCounter, storage_at}
use v2b_x_patched_by_haman.Sing.{is_billed, bill, report_entry, report_entries}
use v2b_x_patched_by_haman.Sing.Rounds.{
  HasOwn, uid_of, step_quiet, step_unknown, step_known, step-IsKept,
}

module _ (uids : Dict String ℤ) (least : ℤ) where
  -- An entry of the report is that of a known user over the threshold.
  abbrev pub IsBill : TrafficCounter → List (String × ℕ) → UserTraffic → Type 0
  IsBill c es t =
      (u : String) × (p : ℕ) × In (u, p) es
      × (is_billed least (storage_at c p) ≡ true)
      × (uid_of uids least u ≢ pos 0)
      × (t ≡ bill (uid_of uids least u) (storage_at c p))

  step-bills :
      (u : String) (p : ℕ) (c : TrafficCounter) (out : List UserTraffic) (t : UserTraffic)
      → In t (report_entry uids least true (u, p) (c, out)).1
      → In t out
        ⊎ ((is_billed least (storage_at c p) ≡ true)
            × (uid_of uids least u ≢ pos 0)
            × (t ≡ bill (uid_of uids least u) (storage_at c p)))
  step-bills u p c out t i = elim (Bool-cases (is_billed least (storage_at c p))) [
    | inr quiet ↦ inl (subst (λ r. In t r.1) (step_quiet uids least u p c out quiet) i)
    | inl billed ↦ elim (Bool-cases (uid_of uids least u == pos 0)) [
      | inl unknown ↦
          inl (subst (λ r. In t r.1) (step_unknown uids least u p c out billed unknown) i)
      | inr known ↦
          elim (In-append out
            (subst (λ r. In t r.1) (step_known uids least u p c out billed known) i)) [
              | inl old ↦ inl old
              | inr new ↦ elim (In-cons new) [
                | inl same ↦ inr (
                  billed,
                  λ z. absurd (
                      ground (arith, known, (int_eq.is_key_iff (uid_of uids least u) (pos 0)).1 z)),
                  same,
                )
                | inr nothing ↦ elim nothing [ ]
              ]
            ]
    ]
  ]

  pub run-bills :
      (es : List (String × ℕ)) (c : TrafficCounter) (out : List UserTraffic) (t : UserTraffic)
      → HasOwn es
      → In t (report_entries uids least true es (c, out)).1
      → In t out ⊎ IsBill c es t
  unfolding report_entries
  run-bills [] c out t own i = inl i
  run-bills ((u, p) ∷ es) c out t own i =
      let r = report_entry uids least true (u, p) (c, out) in
      elim (run-bills es r.0 r.1 t own.1 i) [
        | inl early ↦ elim (step-bills u p c out t early) [
          | inl old ↦ inl old
          | inr (billed, known, same) ↦ inr (u, p, here refl, billed, known, same)
        ]
        | inr (v, q, j, billed, known, same) ↦
            let kept =
              (step-IsKept uids least u p c out).0 q
                (λ e. own.0 v (subst (λ n. In (v, n) es) (sym e) j)) in
            inr (
              v,
              q,
              there j,
              subst (λ s. is_billed least s ≡ true) kept billed,
              known,
              subst (λ s. t ≡ bill (uid_of uids least v) s) kept same,
            )
      ]
