-- ===== src/Limiter/Online/Report.antt =====
-- A report drains the online addresses: each one is in the report and in the table of recent ones.
use v2b_x_patched_by_haman.Prelude.{
  ℤ, String, ◌≡◌, refl, sym, ◌∙◌, ap, inl, inr, Option, none, some, List, [], ◌∷◌, ◌++◌, ◌==◌,
  string_eq, if◌then◌else◌, Bool-cases,
}
use mathlib.Core.List.{append-nil, append_assoc}
use v2b_x_patched_by_haman.Dict.{Dict, get}
use v2b_x_patched_by_haman.Dict.Laws.{get-nil, get-cons, get-put, get-remove_same, get-remove_other}
use v2b_x_patched_by_haman.Panel.{OnlineUser}
use v2b_x_patched_by_haman.Limiter.State.{Limiter}
use v2b_x_patched_by_haman.Limiter.Online.{report_ips, report_users, get_online_device}

-- The entries of the addresses of one user, and of all users.
abbrev pub entries : Dict String ℤ → List OnlineUser
entries [] = []
entries ((ip, uid) ∷ ips) = record { uid = uid; ip = ip } ∷ entries ips

abbrev pub all_entries : Dict String (Dict String ℤ) → List OnlineUser
all_entries [] = []
all_entries ((taguuid, ips) ∷ users) = entries ips ++ all_entries users

-- The user of the last entry with an address.
abbrev pub last_uid : String → List OnlineUser → Option ℤ → Option ℤ
last_uid ip [] before = before
last_uid ip (o ∷ os) before = last_uid ip os (if o.ip == ip then some o.uid else before)

pub last_uid-append :
    (ip : String) (xs ys : List OnlineUser) (before : Option ℤ)
    → last_uid ip (xs ++ ys) before ≡ last_uid ip ys (last_uid ip xs before)
last_uid-append ip [] ys before = refl
last_uid-append ip (x ∷ xs) ys before = last_uid-append ip xs ys _

module _ {Regex Bucket : Type 0} where
  report_ips-list :
      (ips : Dict String ℤ) (l : Limiter Regex Bucket) (os : List OnlineUser)
      → (report_ips ips (l, os)).1 ≡ os ++ entries ips
  unfolding report_ips
  report_ips-list [] l os = sym (append-nil os)
  report_ips-list ((ip, uid) ∷ ips) l os = report_ips-list ips _ _ ∙ append_assoc os _ (entries ips)

  report_ips-online :
      (ips : Dict String ℤ) (l : Limiter Regex Bucket) (os : List OnlineUser)
      → (report_ips ips (l, os)).0.user_online_ip ≡ l.user_online_ip
  unfolding report_ips
  report_ips-online [] l os = refl
  report_ips-online ((ip, uid) ∷ ips) l os = report_ips-online ips _ _

  report_ips-recent :
      (ips : Dict String ℤ) (l : Limiter Regex Bucket) (os : List OnlineUser) (at : String)
      → get (report_ips ips (l, os)).0.old_user_online at
        ≡ last_uid at (entries ips) (get l.old_user_online at)
  unfolding report_ips
  report_ips-recent [] l os at = refl
  report_ips-recent ((ip, uid) ∷ ips) l os at =
      report_ips-recent ips _ _ at
      ∙ ap (last_uid at (entries ips)) (get-put l.old_user_online ip at uid)

  report_users-list :
      (users : Dict String (Dict String ℤ)) (l : Limiter Regex Bucket) (os : List OnlineUser)
      → (report_users users (l, os)).1 ≡ os ++ all_entries users
  unfolding report_users
  report_users-list [] l os = sym (append-nil os)
  report_users-list ((taguuid, ips) ∷ users) l os =
      report_users-list users _ _
      ∙ (rw (report_ips-list ips l os) (append_assoc os (entries ips) (all_entries users)))

  report_users-recent :
      (users : Dict String (Dict String ℤ)) (l : Limiter Regex Bucket) (os : List OnlineUser)
      (at : String)
      → get (report_users users (l, os)).0.old_user_online at
        ≡ last_uid at (all_entries users) (get l.old_user_online at)
  unfolding report_users
  report_users-recent [] l os at = refl
  report_users-recent ((taguuid, ips) ∷ users) l os at =
      report_users-recent users _ _ at
      ∙ (rw (report_ips-recent ips l os at)
          (sym (last_uid-append at (entries ips) (all_entries users) _)))

  -- Each visited key goes, and a key that is gone stays gone.
  report_users-drains :
      (users : Dict String (Dict String ℤ)) (l : Limiter Regex Bucket) (os : List OnlineUser)
      (key : String)
      → (get users key ≡ none → get l.user_online_ip key ≡ none)
      → get (report_users users (l, os)).0.user_online_ip key ≡ none
  unfolding report_users
  report_users-drains [] l os key h = h (get-nil {K = String} {V = Dict String ℤ} key)
  report_users-drains ((taguuid, ips) ∷ users) l os key h =
      report_users-drains users _ _ key λ unlisted.
        rw (report_ips-online ips l os) (elim (Bool-cases (taguuid == key)) [
          | inl same ↦ get-remove_same l.user_online_ip taguuid key same
          | inr other ↦
              get-remove_other l.user_online_ip taguuid key other
              ∙ h (get-cons users taguuid key ips ∙ rw (other, unlisted))
        ])

  -- A report lists every online address with its user, and leaves no user online.
  pub get_online_device-drains :
      (l : Limiter Regex Bucket) (key : String)
      → ((get_online_device l).1 ≡ all_entries l.user_online_ip)
        × (get (get_online_device l).0.user_online_ip key ≡ none)
  unfolding get_online_device
  get_online_device-drains l key = (
    report_users-list l.user_online_ip _ [],
    report_users-drains l.user_online_ip _ [] key (λ unlisted. unlisted),
  )

  -- After a report the table of recent addresses holds exactly the addresses of the report, each
  -- with the user of its last entry there.
  pub get_online_device-recent :
      (l : Limiter Regex Bucket) (ip : String)
      → get (get_online_device l).0.old_user_online ip ≡ last_uid ip (get_online_device l).1 none
  unfolding get_online_device
  get_online_device-recent l ip =
      report_users-recent l.user_online_ip _ [] ip
      ∙ rw (
        report_users-list l.user_online_ip (record l { old_user_online = [] }) [],
        get-nil {K = String} {V = ℤ} ip,
      )
