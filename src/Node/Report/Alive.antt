-- ===== src/Node/Report/Alive.antt =====
-- Which online devices `reportUserTrafficTask` of node/user.go reports.
use v2b_x_patched_by_haman.Prelude.{
  ℤ, pos, ◌+ℤ◌, ◌*ℤ◌, wrap64, ltb_ℤ, ◌≡◌, ◌↔◌, ◌⊎◌, refl, sym, ap, subst, ◌∙◌, Bool, true, false,
  ◌&&◌, Bool-cases, Option, none, some, inl, inr, List, [], ◌∷◌, ◌++◌, any, In, here, there,
  In-cons, In-append, In-append_left, In-append_right, ◌==◌, int_eq, String, arith,
}
use v2b_x_patched_by_haman.Dict.{Dict, get, put}
use v2b_x_patched_by_haman.Dict.Laws.{get-nil, get-put}
use v2b_x_patched_by_haman.Panel.{OnlineUser, UserTraffic}
use v2b_x_patched_by_haman.Limiter.Online.{get_online_device}
use v2b_x_patched_by_haman.Core.{CoreApi}
use v2b_x_patched_by_haman.Node.Controller.{Controller}
use v2b_x_patched_by_haman.Node.Report.{
  is_light, nocount_uids, counted_online, or_no_ips, group_ips, least_traffic, alive_map,
  report_user_traffic_task,
}

In-nocount_uids :
    (least : ℤ) (ts : List UserTraffic) (uid : ℤ)
    → any (λ u. u == uid) (nocount_uids least ts) ≡ any (λ t. t.uid == uid && is_light least t) ts
unfolding nocount_uids
In-nocount_uids least [] uid = refl
In-nocount_uids least (t ∷ ts) uid = ground (arith, In-nocount_uids least ts uid)

In-counted_online :
    (nocount : List ℤ) (os : List OnlineUser) (o : OnlineUser)
    → In o (counted_online nocount os) ↔ (In o os × (any (λ uid. uid == o.uid) nocount ≡ false))
unfolding counted_online
In-counted_online nocount [] o = (λ i. elim i [ ], λ (i, h). elim i [ ])
In-counted_online nocount (p ∷ os) o =
    let (there_of, in_of) = In-counted_online nocount os o in
    elim (Bool-cases (any (λ uid. uid == p.uid) nocount)) [
      | inl light ↦ rw light (
        (λ i. let (j, h) = there_of i in (there j, h)),
        λ (i, h). elim (In-cons i) [
          | inl same ↦
              absurd
                (cc (h, light, ap (λ (q : OnlineUser). any (λ uid. uid == q.uid) nocount) same))
          | inr j ↦ in_of (j, h)
        ],
      )
      | inr counted ↦ rw counted (
        (λ i. elim (In-cons i) [
          | inl same ↦
              (here same, ap (λ (q : OnlineUser). any (λ uid. uid == q.uid) nocount) same ∙ counted)
          | inr j ↦ let (k, h) = there_of j in (there k, h)
        ]),
        λ (i, h). elim (In-cons i) [ inl same ↦ here same | inr j ↦ there (in_of (j, h)) ],
      )
    ]

-- The device of a user at an address.
abbrev pub device : ℤ → String → OnlineUser
device uid ip = record { uid = uid; ip = ip }

abbrev ips_at : Dict ℤ (List String) → ℤ → List String
ips_at m uid = or_no_ips (get m uid)

module _ (m : Dict ℤ (List String)) (o : OnlineUser) (uid : ℤ) (ip : String) where
  abbrev with_device : Dict ℤ (List String)
  with_device = put m o.uid (ips_at m o.uid ++ o.ip ∷ [])

  with_device-same : o.uid ≡ uid → ips_at with_device uid ≡ ips_at m uid ++ o.ip ∷ []
  with_device-same e =
      ap or_no_ips (get-put m o.uid uid (ips_at m o.uid ++ o.ip ∷ []))
      ∙ rw ((int_eq.is_key_iff o.uid uid).1 e, e) refl

  with_device-other : (o.uid == uid) ≡ false → ips_at with_device uid ≡ ips_at m uid
  with_device-other h = ap or_no_ips (get-put m o.uid uid (ips_at m o.uid ++ o.ip ∷ [])) ∙ rw h refl

  with_device-lists : In ip (ips_at with_device uid) → In ip (ips_at m uid) ⊎ (device uid ip ≡ o)
  with_device-lists i = elim (Bool-cases (o.uid == uid)) [
    | inl same ↦
        let e = (int_eq.is_key_iff o.uid uid).0 same in
        elim (In-append (ips_at m uid) (subst (In ip) (with_device-same e) i)) [
          | inl old ↦ inl old
          | inr new ↦ elim (In-cons new) [
            | inl at ↦ inr (ap (λ u. device u ip) (sym e) ∙ ap (device o.uid) at)
            | inr nothing ↦ elim nothing [ ]
          ]
        ]
    | inr other ↦ inl (subst (In ip) (with_device-other other) i)
  ]

  with_device-keeps : In ip (ips_at m uid) ⊎ (device uid ip ≡ o) → In ip (ips_at with_device uid)
  with_device-keeps (inl i) = elim (Bool-cases (o.uid == uid)) [
    | inl same ↦
        subst (In ip) (sym (with_device-same ((int_eq.is_key_iff o.uid uid).0 same)))
          (In-append_left (o.ip ∷ []) i)
    | inr other ↦ subst (In ip) (sym (with_device-other other)) i
  ]
  with_device-keeps (inr e) =
      subst (In ip) (sym (with_device-same (sym (ap (λ (p : OnlineUser). p.uid) e))))
        (In-append_right (ips_at m uid) (here (ap (λ (p : OnlineUser). p.ip) e)))

-- Grouping by user loses no device and makes up none.
group_ips-lists :
    (os : List OnlineUser) (m : Dict ℤ (List String)) (uid : ℤ) (ip : String)
    → In ip (ips_at (group_ips os m) uid)
    → In ip (ips_at m uid) ⊎ In (device uid ip) os
unfolding group_ips
group_ips-lists [] m uid ip i = inl i
group_ips-lists (o ∷ os) m uid ip i = elim (group_ips-lists os (with_device m o uid ip) uid ip i) [
  | inr later ↦ inr (there later)
  | inl now ↦ elim (with_device-lists m o uid ip now) [
    | inl before ↦ inl before
    | inr same ↦ inr (here same)
  ]
]

group_ips-keeps :
    (os : List OnlineUser) (m : Dict ℤ (List String)) (uid : ℤ) (ip : String)
    → In ip (ips_at m uid) ⊎ In (device uid ip) os
    → In ip (ips_at (group_ips os m) uid)
unfolding group_ips
group_ips-keeps [] m uid ip (inl i) = i
group_ips-keeps [] m uid ip (inr i) = elim i [ ]
group_ips-keeps (o ∷ os) m uid ip (inl i) =
    group_ips-keeps os (with_device m o uid ip) uid ip (inl (with_device-keeps m o uid ip (inl i)))
group_ips-keeps (o ∷ os) m uid ip (inr (here e)) =
    group_ips-keeps os (with_device m o uid ip) uid ip (inl (with_device-keeps m o uid ip (inr e)))
group_ips-keeps (o ∷ os) m uid ip (inr (there i)) =
    group_ips-keeps os (with_device m o uid ip) uid ip (inr i)

-- The addresses that are sent for a user.
abbrev pub ips_of : Option (Dict ℤ (List String)) → ℤ → List String
ips_of none uid = []
ips_of (some m) uid = or_no_ips (get m uid)

-- An entry of the traffic under a number of kilobytes has the user's id.
abbrev pub has_light_entry : ℤ → List UserTraffic → ℤ → Bool
has_light_entry kilobytes ts uid =
    any
      (λ t.
        t.uid == uid && ltb_ℤ (wrap64 (t.upload +ℤ t.download)) (wrap64 (kilobytes *ℤ pos 1000)))
      ts

alive_map-lists :
    (kilobytes : ℤ) (ts : List UserTraffic) (os : List OnlineUser) (uid : ℤ) (ip : String)
    → In ip (ips_of (alive_map (least_traffic kilobytes) ts os) uid)
    → In (device uid ip) os × (has_light_entry kilobytes ts uid ≡ false)
alive_map-lists kilobytes ts [] uid ip i = elim i [ ]
alive_map-lists kilobytes ts (o ∷ os) uid ip i =
    let nocount = nocount_uids (least_traffic kilobytes) ts in
    elim (group_ips-lists (counted_online nocount (o ∷ os)) [] uid ip i) [
      | inl nothing ↦ elim (subst (In ip) (ap or_no_ips (get-nil uid)) nothing) [ ]
      | inr listed ↦
          let (j, h) = (In-counted_online nocount (o ∷ os) (device uid ip)).0 listed in
          (j, sym (In-nocount_uids (least_traffic kilobytes) ts uid) ∙ h)
    ]

alive_map-keeps :
    (kilobytes : ℤ) (ts : List UserTraffic) (os : List OnlineUser) (uid : ℤ) (ip : String)
    → In (device uid ip) os × (has_light_entry kilobytes ts uid ≡ false)
    → In ip (ips_of (alive_map (least_traffic kilobytes) ts os) uid)
alive_map-keeps kilobytes ts [] uid ip (i, h) = elim i [ ]
alive_map-keeps kilobytes ts (o ∷ os) uid ip (i, h) =
    let nocount = nocount_uids (least_traffic kilobytes) ts in
    group_ips-keeps (counted_online nocount (o ∷ os)) [] uid ip (
      inr (
        (In-counted_online nocount (o ∷ os) (device uid ip)).1
          (i, In-nocount_uids (least_traffic kilobytes) ts uid ∙ h)))

-- The task sends the traffic that the core gives. It sends an address under a user id exactly if the
-- user's device at the address is among the online devices of the limiter and no entry of that traffic
-- with the user's id has fewer bytes, upload and download together in 64 bits, than a thousand for each
-- of the configured kilobytes; so an online device of a user without an entry is sent.
pub report_user_traffic_task-alive :
    {Float Regex Bucket Core Error : Type 0} (api : CoreApi Float Core Error)
    (c : Controller Float Regex Bucket Core) (uid : ℤ) (ip : String)
    → (let ts = (api.get_user_traffic_slice c.tag true c.world.core).1 in
        let sent = (report_user_traffic_task api c).1 in
        (sent.traffic ≡ ts)
        × (In ip (ips_of sent.alive uid) ↔ (
            In (device uid ip) (get_online_device c.limiter).1
            × (has_light_entry c.options.device_online_min_traffic ts uid ≡ false))))
unfolding report_user_traffic_task
report_user_traffic_task-alive api c uid ip =
    let ts = (api.get_user_traffic_slice c.tag true c.world.core).1 in
    let kilobytes = c.options.device_online_min_traffic in
    let online = (get_online_device c.limiter).1 in
    (refl, (alive_map-lists kilobytes ts online uid ip, alive_map-keeps kilobytes ts online uid ip))
