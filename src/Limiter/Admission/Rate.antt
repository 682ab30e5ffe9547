-- ===== src/Limiter/Admission/Rate.antt =====
-- The rate of the buckets of `CheckLimit`, in bytes, against the limits of node and user, in megabits.
use Prim.Native.Nat.{min}
use v2b_x_patched_by_haman.Prelude.{
  ℕ, zero, suc, ◌*◌, ◌<◌, ◌^◌, ℤ, pos, leb_ℤ, ◌*ℤ◌, quot_ℤ, wrap64, wrap64_in_range, ◌≡◌, refl, ap,
  ◌∙◌, ◌||◌, Option, none, some, List, [], ◌∷◌, ◌==◌, int_eq, nat_eq, if◌then◌else◌, arith,
  Option-cases, inl, inr, ltb_ℤ,
}
use v2b_x_patched_by_haman.Limiter.State.{UserLimitInfo, determine_speed_limit, unix}
use v2b_x_patched_by_haman.Limiter.State.Speed.{determine_speed_limit_lem}
use v2b_x_patched_by_haman.Limiter.Admission.{is_expired, byte_rate, user_speed}

abbrev lower : ℕ → Option ℕ → ℕ
lower n none = n
lower n (some m) = min n m

-- The least of some limits, of which 0 is none.
abbrev pub least_limit : List ℕ → Option ℕ
least_limit [] = none
least_limit (zero ∷ ns) = least_limit ns
least_limit (suc n ∷ ns) = some (lower (suc n) (least_limit ns))

-- A dynamic limit is in force up to its time, and for ever if it has none.
abbrev pub still_on : ℤ → UserLimitInfo → ℕ → ℕ
still_on now u d = if u.expire_time == pos 0 || leb_ℤ (unix now) u.expire_time then d else 0

abbrev or_none : Option ℕ → ℕ
or_none none = 0
or_none (some n) = n

user_speed_lem :
    (now : ℤ) (u : UserLimitInfo) (s d : ℕ)
    → u.speed_limit ≡ pos s
    → u.dynamic_speed_limit ≡ pos d
    → user_speed now u ≡ determine_speed_limit (pos s) (pos (still_on now u d))
unfolding user_speed is_expired determine_speed_limit
user_speed_lem now u s d e f = ground arith

least_cases :
    (m s d : ℕ)
    → (let n = if s == 0 then d else if d == 0 then s else min s d in
        if m == 0 then n else if n == 0 then m else min m n)
      ≡ or_none (least_limit (m ∷ s ∷ d ∷ []))
least_cases zero zero zero = refl
least_cases zero zero (suc d) = refl
least_cases zero (suc s) zero = ground arith
least_cases zero (suc s) (suc d) = ground arith
least_cases (suc m) zero zero = ground arith
least_cases (suc m) zero (suc d) = ground arith
least_cases (suc m) (suc s) zero = ground arith
least_cases (suc m) (suc s) (suc d) = ground arith

least_limit_lem :
    (m s d : ℕ)
    → determine_speed_limit (pos m) (determine_speed_limit (pos s) (pos d))
      ≡ pos (or_none (least_limit (m ∷ s ∷ d ∷ [])))
least_limit_lem m s d =
    ap (determine_speed_limit (pos m)) (determine_speed_limit_lem s d)
    ∙ determine_speed_limit_lem m (if s == 0 then d else if d == 0 then s else min s d)
    ∙ ap pos (least_cases m s d)

million : (n : ℕ) → pos n *ℤ pos 1_000_000 ≡ pos (n * 1_000_000)
unfolding ◌*ℤ◌
million n = ground arith

eighth : (n : ℕ) → quot_ℤ (pos (n * 1_000_000)) 8 ≡ pos (n * 125_000)
eighth n = ground arith

byte_rate_lem :
    (a b : ℤ) (n : ℕ)
    → determine_speed_limit a b ≡ pos n
    → n * 1_000_000 < 2 ^ 63
    → byte_rate a b ≡ pos (n * 125_000)
unfolding byte_rate
byte_rate_lem a b n e small =
    ap (λ x. quot_ℤ (wrap64 (x *ℤ pos 1_000_000)) 8) e
    ∙ ap (λ x. quot_ℤ (wrap64 x) 8) (million n)
    ∙ ap (λ x. quot_ℤ x 8) (wrap64_in_range (n * 1_000_000) small)
    ∙ eighth n

-- A least limit is not 0, and is under each bound on all the limits.
least_limit-positive : (ns : List ℕ) (n : ℕ) → least_limit ns ≡ some n → 0 < n
least_limit-positive [] n e = cc
least_limit-positive (zero ∷ ns) n e = least_limit-positive ns n e
least_limit-positive (suc k ∷ ns) n e = elim (Option-cases (least_limit ns)) [
  | inl nothing ↦ ground arith
  | inr (j, found) ↦ ground (arith, least_limit-positive ns j found)
]

least_limit-bounded :
    (m s d bound : ℕ)
    → m < bound
    → s < bound
    → d < bound
    → or_none (least_limit (m ∷ s ∷ d ∷ [])) < bound
least_limit-bounded m s d bound hm hs hd = ground (arith, least_cases m s d)

still_on-bounded :
    (now : ℤ) (u : UserLimitInfo) (d bound : ℕ) → d < bound → still_on now u d < bound
still_on-bounded now u d bound h = ground arith

-- The rate that `CheckLimit` computes is 125,000 bytes for each megabit of the least limit in force.
pub byte_rate-least :
    (now : ℤ) (node_limit : ℤ) (u : UserLimitInfo) (m s d : ℕ)
    → node_limit ≡ pos m
    → u.speed_limit ≡ pos s
    → u.dynamic_speed_limit ≡ pos d
    → m < 2 ^ 43
    → s < 2 ^ 43
    → d < 2 ^ 43
    → byte_rate node_limit (user_speed now u)
      ≡ pos (or_none (least_limit (m ∷ s ∷ still_on now u d ∷ [])) * 125_000)
byte_rate-least now node_limit u m s d em es ed hm hs hd =
    let n = or_none (least_limit (m ∷ s ∷ still_on now u d ∷ [])) in
    let small : n < 2 ^ 43 =
      least_limit-bounded m s (still_on now u d) (2 ^ 43) hm hs
        (still_on-bounded now u d (2 ^ 43) hd) in
    byte_rate_lem node_limit (user_speed now u) n
      (rw (em, user_speed_lem now u s d es ed) (least_limit_lem m s (still_on now u d)))
      (omega (arith, small))

-- The bucket that a user has, or else a new one.
abbrev pub or_bucket {ℓ} : {Bucket : Type ℓ} → Option Bucket → Bucket → Bucket
or_bucket none new = new
or_bucket (some old) new = old

-- The bucket of a user for the least limit in force: the one that the user has, or a new one.
abbrev pub bucket_at :
    {Bucket : Type 0} → (ℤ → ℤ → Bucket) → Option Bucket → Option ℕ → Option Bucket
bucket_at new_bucket held none = none
bucket_at new_bucket none (some n) = some (new_bucket (pos (n * 125_000)) (pos (n * 125_000)))
bucket_at new_bucket (some old) (some n) = some old

pub bucket_at_lem :
    {Bucket : Type 0} (new_bucket : ℤ → ℤ → Bucket) (held : Option Bucket) (ns : List ℕ)
    → (let rate = pos (or_none (least_limit ns) * 125_000) in
        if ltb_ℤ (pos 0) rate then some (or_bucket held (new_bucket rate rate)) else none)
      ≡ bucket_at new_bucket held (least_limit ns)
bucket_at_lem new_bucket held ns = elim (Option-cases (least_limit ns)) [
  | inl nothing ↦ rw nothing refl
  | inr (n, found) ↦ ground (arith, least_limit-positive ns n found)
]
