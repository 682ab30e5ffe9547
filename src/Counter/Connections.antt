-- ===== src/Counter/Connections.antt =====
-- What the methods of a connection do to the counts of the users.
use v2b_x_patched_by_haman.Prelude.{
  ℕ, ℤ, pos, ◌+ℤ◌, wrap64, ltb_ℤ, String, ◌≡◌, ◌≢◌, sym, ap, ◌∙◌, true, Bool-cases, Option-cases,
  length, none, some, inl, inr, ◌==◌, string_eq, if◌then◌else◌, arith,
}
use v2b_x_patched_by_haman.Dict.{get, remove}
use v2b_x_patched_by_haman.Dict.Laws.{get-put, get-remove}
use v2b_x_patched_by_haman.Counter.{
  TrafficStorage, TrafficCounter, storage_at, modify, get_counter, get_up_count, delete, add_up,
  store_up, read, read_buffer, read_packet, read_func,
}
use v2b_x_patched_by_haman.Counter.Storages.{
  IsWf, modify-IsWf, storage_at-modify, storage_at-modify_other, counters-modify, get_counter-new,
}

module _ (k : String) where
  pub up_count_known :
      (c : TrafficCounter) (p : ℕ)
      → get c.counters k ≡ some p
      → get_up_count k c ≡ (storage_at c p).up_counter
  unfolding get_up_count
  up_count_known c p e = rw (e, get_up_count)

  pub up_count_unknown : (c : TrafficCounter) → get c.counters k ≡ none → get_up_count k c ≡ pos 0
  unfolding get_up_count
  up_count_unknown c e = rw (e, get_up_count)

module _ (p : ℕ) (f : TrafficStorage → TrafficStorage) (c : TrafficCounter) where
  entry-modify : (k : String) → get (modify p f c).counters k ≡ get c.counters k
  entry-modify k = ap (λ m. get m k) (counters-modify p f c)

  pub up_count-modify :
      (k : String)
      → IsWf c
      → get c.counters k ≡ some p
      → get_up_count k (modify p f c) ≡ (f (storage_at c p)).up_counter
  up_count-modify k wf e =
      up_count_known k _ p (entry-modify k ∙ e)
      ∙ ap (λ s. s.up_counter) (storage_at-modify p f c (wf.stored k p e))

  pub up_count-modify_other :
      (k : String) → get c.counters k ≢ some p → get_up_count k (modify p f c) ≡ get_up_count k c
  up_count-modify_other k other = elim (Option-cases (get c.counters k)) [
    | inl e ↦ up_count_unknown k _ (entry-modify k ∙ e) ∙ sym (up_count_unknown k c e)
    | inr (q, e) ↦
        up_count_known k _ q (entry-modify k ∙ e)
        ∙ ap (λ s. s.up_counter)
            (storage_at-modify_other p f c q (λ same. other (e ∙ ap some (sym same))))
        ∙ sym (up_count_known k c q e)
  ]

module _ (c : TrafficCounter) (uuid : String) (p : ℕ) where
  -- Where no two users share a storage, a buffer of n > 0 bytes that a connection of a user reads
  -- adds n to the user's upload, as a 64-bit number, and changes the upload of no other user.
  pub read_buffer-up_count :
      (n : ℤ) (k : String)
      → IsWf c
      → get c.counters uuid ≡ some p
      → ltb_ℤ (pos 0) n ≡ true
      → get_up_count k (read_buffer p (some n) c)
        ≡ (if uuid == k then wrap64 (get_up_count uuid c +ℤ n) else get_up_count k c)
  unfolding read_buffer add_up
  read_buffer-up_count n k wf e positive = rw positive (elim (Bool-cases (uuid == k)) [
    | inl same ↦
        rw (same, ← (string_eq.is_key_iff uuid k).0 same)
          (up_count-modify p (add_up n) c uuid wf e
            ∙ ap (λ x. wrap64 (x +ℤ n)) (sym (up_count_known uuid c p e)))
    | inr other ↦ rw other (
        up_count-modify_other p (add_up n) c k
          (λ h. absurd (ground (arith, wf.own uuid k p e h, string_eq.is_key_iff uuid k))))
  ])

  -- Where no two users share a storage, two `Read` calls of a connection, of n > 0 and of m > 0
  -- bytes, leave the user's upload at m, whatever was counted before; two `ReadBuffer` calls of n and
  -- m bytes add both to it.
  pub read-read_overwrites :
      (n m : ℤ)
      → IsWf c
      → get c.counters uuid ≡ some p
      → ltb_ℤ (pos 0) n ≡ true
      → ltb_ℤ (pos 0) m ≡ true
      → (get_up_count uuid (read p m (read p n c)) ≡ m)
        × (get_up_count uuid (read_buffer p (some m) (read_buffer p (some n) c))
            ≡ wrap64 (wrap64 (get_up_count uuid c +ℤ n) +ℤ m))
  unfolding read read_buffer add_up
  read-read_overwrites n m wf e n_pos m_pos = (
    up_count-modify p (store_up m) (read p n c) uuid (modify-IsWf p (store_up n) c wf)
        (entry-modify p (store_up n) c uuid ∙ e),
    rw (n_pos, m_pos)
        (up_count-modify p (add_up m) _ uuid (modify-IsWf p (add_up n) c wf)
            (entry-modify p (add_up n) c uuid ∙ e)
          ∙ ap (λ s. wrap64 (s.up_counter +ℤ m))
              (storage_at-modify p (add_up n) c (wf.stored uuid p e))
          ∙ ap (λ x. wrap64 (wrap64 (x +ℤ n) +ℤ m)) (sym (up_count_known uuid c p e))),
  )

  orphan :
      (k : String)
      → IsWf c
      → get c.counters uuid ≡ some p
      → get (get_counter uuid (delete uuid c)).0.counters k ≢ some p
  unfolding delete
  orphan k wf e h =
      let gone : get (remove c.counters uuid) uuid ≡ none =
        ground (arith, get-remove c.counters uuid uuid, string_eq.is_key_iff uuid uuid) in
      let h' = sym (ap (λ r. get r.0.counters k) (get_counter-new uuid (delete uuid c) gone)) ∙ h in
      absurd (
        ground (
          arith,
          h',
          get-put (remove c.counters uuid) uuid k (length c.storages),
          get-remove c.counters uuid k,
          wf.own uuid k p e,
          wf.stored uuid p e,
          string_eq.is_key_iff uuid k,
        ))

  -- Where no two users share a storage, after a user's counter is deleted and made again, packets
  -- and bytes that a connection with the old storage reads change no user's upload.
  pub delete-orphans :
      (n : ℤ) (k : String)
      → IsWf c
      → get c.counters uuid ≡ some p
      → let d = (get_counter uuid (delete uuid c)).0 in
        (get_up_count k (read_packet p (some n) d) ≡ get_up_count k d)
        × (get_up_count k (read_func p n d) ≡ get_up_count k d)
  unfolding read_packet read_func
  delete-orphans n k wf e = (
    up_count-modify_other p (add_up n) _ k (orphan k wf e),
    up_count-modify_other p (add_up n) _ k (orphan k wf e),
  )
