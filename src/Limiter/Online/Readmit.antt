-- ===== src/Limiter/Online/Readmit.antt =====
-- A device that was online at the last report is admitted again.
use v2b_x_patched_by_haman.Prelude.{
  ℤ, String, ◌≡◌, some_unique, ◌≢◌, refl, sym, ◌∙◌, ap, inl, inr, Option, none, some, false, Bool,
  List, [], ◌∷◌, ◌==◌, string_eq, arith, Bool-cases, Option-cases,
}
use v2b_x_patched_by_haman.Dict.{Dict, get}
use v2b_x_patched_by_haman.Dict.Laws.{get-nil, get-cons}
use v2b_x_patched_by_haman.Format.{trim_prefix}
use v2b_x_patched_by_haman.Panel.{OnlineUser}
use v2b_x_patched_by_haman.Limiter.State.{UserLimitInfo, Limiter}
use v2b_x_patched_by_haman.Limiter.Online.{report_ips, report_users, get_online_device}
use v2b_x_patched_by_haman.Limiter.Online.Report.{
  entries, all_entries, last_uid, last_uid-append, get_online_device-recent,
  get_online_device-drains,
}
use v2b_x_patched_by_haman.Limiter.Admission.{check_limit}
use v2b_x_patched_by_haman.Limiter.Admission.Decide.{IsRefused, check_limit-IsRefused}
use v2b_x_patched_by_haman.Limiter.Admission.Reject.{online_at}

last_uid_stays :
    (ip : String) (os : List OnlineUser) (before : Option ℤ)
    → before ≢ none
    → last_uid ip os before ≢ none
last_uid_stays ip [] before h = h
last_uid_stays ip (o ∷ os) before h = last_uid_stays ip os _ (ground arith)

last_uid-entries :
    (ip : String) (ips : Dict String ℤ) (before : Option ℤ) {owner : ℤ}
    → get ips ip ≡ some owner
    → last_uid ip (entries ips) before ≢ none
last_uid-entries ip [] before h = ground (arith, get-nil {K = String} {V = ℤ} ip)
last_uid-entries ip ((at, uid) ∷ ips) before h = elim (Bool-cases (at == ip)) [
  | inl same ↦ last_uid_stays ip (entries ips) _ (rw same (ground arith))
  | inr other ↦ last_uid-entries ip ips _ (sym (get-cons ips at ip uid ∙ rw other) ∙ h)
]

last_uid-all_entries :
    (taguuid ip : String) (users : Dict String (Dict String ℤ)) (before : Option ℤ)
    {ips : Dict String ℤ} {owner : ℤ}
    → get users taguuid ≡ some ips
    → get ips ip ≡ some owner
    → last_uid ip (all_entries users) before ≢ none
last_uid-all_entries taguuid ip [] before h e =
    ground (arith, get-nil {K = String} {V = Dict String ℤ} taguuid)
last_uid-all_entries taguuid ip ((key, ips') ∷ users) before {ips} h e =
    rw (last_uid-append ip (entries ips') (all_entries users) before)
      (elim (Bool-cases (key == taguuid)) [
        | inl same ↦ last_uid_stays ip (all_entries users) _ (
            last_uid-entries ip ips' before
              (ap (λ m. get m ip) (some_unique (get-cons users key taguuid ips' ∙ rw same) h) ∙ e))
        | inr other ↦
            last_uid-all_entries taguuid ip users _
              (sym (get-cons users key taguuid ips' ∙ rw other) ∙ h) e
      ])

module _ {Regex Bucket : Type 0} where
  report_ips-info :
      (ips : Dict String ℤ) (l : Limiter Regex Bucket) (os : List OnlineUser)
      → (report_ips ips (l, os)).0.user_limit_info ≡ l.user_limit_info
  unfolding report_ips
  report_ips-info [] l os = refl
  report_ips-info ((ip, uid) ∷ ips) l os = report_ips-info ips _ _

  report_users-info :
      (users : Dict String (Dict String ℤ)) (l : Limiter Regex Bucket) (os : List OnlineUser)
      → (report_users users (l, os)).0.user_limit_info ≡ l.user_limit_info
  unfolding report_users
  report_users-info [] l os = refl
  report_users-info ((taguuid, ips) ∷ users) l os =
      report_users-info users _ _ ∙ report_ips-info ips l os

  info-get_online_device :
      (l : Limiter Regex Bucket) → (get_online_device l).0.user_limit_info ≡ l.user_limit_info
  unfolding get_online_device
  info-get_online_device l = report_users-info l.user_online_ip _ []

  recent-get_online_device :
      (l : Limiter Regex Bucket) (taguuid ip : String) (owner : ℤ)
      → online_at l taguuid ip ≡ some owner
      → get (get_online_device l).0.old_user_online ip ≢ none
  recent-get_online_device l taguuid ip owner online =
      elim (Option-cases (get l.user_online_ip taguuid)) [
        | inl away ↦ absurd (ground arith)
        | inr (ips, here) ↦
            rw (get_online_device-recent l ip, (get_online_device-drains l taguuid).0)
              (last_uid-all_entries taguuid ip l.user_online_ip none {owner = owner} here
                (ground arith))
      ]

  not-IsRefused :
      (l : Limiter Regex Bucket) (u : UserLimitInfo) (taguuid ip : String) (no_ssudp : Bool)
      (owner : ℤ)
      → get l.user_limit_info taguuid ≡ some u
      → online_at l taguuid ip ≡ some owner
      → ¬ IsRefused taguuid ip no_ssudp (get_online_device l).0
  not-IsRefused l u taguuid ip no_ssudp owner known online (inl unknown) =
      cc (info-get_online_device l)
  not-IsRefused l u taguuid ip no_ssudp owner known online (inr (v, _, _, blocked)) =
      recent-get_online_device l taguuid ip owner online blocked.not_recent

  -- A known user whose address was online when a report was made is admitted from that address
  -- afterwards, however many devices are in use.
  pub check_limit-readmits :
      (new_bucket : ℤ → ℤ → Bucket) (now : ℤ) (taguuid address : String) (no_ssudp : Bool)
      (l : Limiter Regex Bucket) (u : UserLimitInfo) (owner : ℤ)
      → get l.user_limit_info taguuid ≡ some u
      → online_at l taguuid (trim_prefix address "::ffff:") ≡ some owner
      → (check_limit new_bucket now taguuid address no_ssudp (get_online_device l).0).1.1 ≡ false
  check_limit-readmits new_bucket now taguuid address no_ssudp l u owner known online =
      let ip = trim_prefix address "::ffff:" in
      let l' = (get_online_device l).0 in
      elim (Bool-cases (check_limit new_bucket now taguuid address no_ssudp l').1.1) [
        | inl rejected ↦ absurd (
            not-IsRefused l u taguuid ip no_ssudp owner known online
              (check_limit-IsRefused new_bucket now taguuid address no_ssudp l' rejected))
        | inr admitted ↦ admitted
      ]
