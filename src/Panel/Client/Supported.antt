-- ===== src/Panel/Client/Supported.antt =====
-- Which configurations make a client, and what it sends with every request.
use v2b_x_patched_by_haman.Prelude.{
  ℤ, pos, leb_ℤ, String, ◌≡◌, refl, ◌∙◌, ap, subst, true, false, Bool-cases, any, Option, none,
  some, some_inj, inl, inr, ◌==◌, string_eq, ok, >>=-eq-ok, ok_inj, if_ok, or_fail, [], arith,
  if◌then◌else◌, ltb_ℤ, eq_iff,
}
use v2b_x_patched_by_haman.Dict.{Dict, get, put}
use v2b_x_patched_by_haman.Dict.Laws.{get-put}
use v2b_x_patched_by_haman.Itoa.{itoa}
use v2b_x_patched_by_haman.Text.{trim_space, to_lower}
use v2b_x_patched_by_haman.Conf.{ApiConfig}
use v2b_x_patched_by_haman.Panel.Client.{
  Client, ClientError, with_node_id, set_query_params, supported_types, accepted_type, new_client,
  unsupported_node_type,
}

accepted_type-renames :
    (kind kind' : String)
    → accepted_type kind ≡ some kind'
    → kind' ≡ (if kind == "v2ray" then "vmess" else kind)
unfolding accepted_type
accepted_type-renames kind kind' e = ground arith

-- A supported type is not empty.
supported-named :
    (kind : String) → any (λ k. kind == k) supported_types ≡ true → (kind == "") ≡ false
supported-named kind h = elim (Bool-cases (kind == "")) [
  | inr named ↦ named
  | inl bare ↦
      absurd
        (cc (h, ap (λ (k : String). any (λ t. k == t) supported_types) ((eq_iff kind "").0 bare)))
]

accepted_type-supported :
    (kind kind' : String)
    → accepted_type kind ≡ some kind'
    → any (λ k. kind' == k) supported_types ≡ true
unfolding accepted_type
accepted_type-supported kind kind' e = elim (Bool-cases (kind == "v2ray")) [
  | inl old ↦ subst (λ k. any (λ t. k == t) supported_types ≡ true) (some_inj (rw old at e)) refl
  | inr new ↦ elim (Bool-cases (any (λ k. kind == k) supported_types)) [
    | inl supported ↦
        subst (λ k. any (λ t. k == t) supported_types ≡ true) (some_inj (rw (new, supported) at e))
          supported
    | inr unsupported ↦ absurd (ground (arith, new, unsupported, e))
  ]
]

-- What the id of a node, if it is positive, adds to query parameters without it.
module _ (id : ℤ) (kind key : String) (q : Dict String String) where
  with_node_id-other :
      ("node_id" == key) ≡ false
      → ("node_type" == key) ≡ false
      → get (with_node_id id kind q) key ≡ get q key
  with_node_id-other h1 h2 = ground (
    arith,
    get-put q "node_id" key (itoa id),
    get-put (put q "node_id" (itoa id)) "node_type" key kind,
  )

  with_node_id-id :
      ("node_id" == key) ≡ true
      → ("node_type" == key) ≡ false
      → get q key ≡ none
      → get (with_node_id id kind q) key ≡ (if ltb_ℤ (pos 0) id then some (itoa id) else none)
  with_node_id-id h1 h2 fresh = ground (
    arith,
    get-put q "node_id" key (itoa id),
    get-put (put q "node_id" (itoa id)) "node_type" key kind,
  )

  with_node_id-type :
      ("node_type" == key) ≡ true
      → (kind == "") ≡ false
      → get q key ≡ none
      → get (with_node_id id kind q) key ≡ (if ltb_ℤ (pos 0) id then some kind else none)
  with_node_id-type h named fresh =
      ground (arith, get-put (put q "node_id" (itoa id)) "node_type" key kind)

accepted_type_of_ok :
    (o : Option String) (x : ClientError) (kind : String) → or_fail o x ≡ ok kind → o ≡ some kind
accepted_type_of_ok none x kind h = absurd (cc)
accepted_type_of_ok (some k) x kind h = ap some (ok_inj h)

-- The type that a configuration asks for: "v2ray" is the old name of "vmess".
abbrev pub asked_type : ApiConfig → String
asked_type c =
    let kind = to_lower (trim_space c.node_type) in if kind == "v2ray" then "vmess" else kind

-- The value of a query parameter that is sent only for the id of a node, which is positive.
abbrev pub for_node : ApiConfig → String → Option String
for_node c value = if ltb_ℤ (pos 0) c.node_id then some value else none

abbrev pub IsReady : ApiConfig → Client → Type 0
IsReady c cli =
    (cli.node_type ≡ asked_type c)
    × (any (λ k. cli.node_type == k) supported_types ≡ true)
    × (cli.node_id ≡ c.node_id)
    × (cli.machine_id ≡ c.machine_id)
    × (leb_ℤ c.machine_id (pos 0) ≡ false)
    × (get cli.query_params "token" ≡ some c.key)
    × (get cli.query_params "machine_id" ≡ some (itoa c.machine_id))
    × (get cli.query_params "node_id" ≡ for_node c (itoa c.node_id))
    × (get cli.query_params "node_type" ≡ for_node c (asked_type c))

-- A client that `New` makes of a configuration without error has the type that the configuration asks
-- for, in lower case, without spaces around it and with "v2ray" read as "vmess", and this type is a
-- supported one; it has the configuration's node id and its machine id, which is positive. The query
-- parameters that its requests carry have the configuration's key and the machine id, and, exactly if
-- the node id is positive, the node id and the type.
pub new_client-IsReady : (c : ApiConfig) (cli : Client) → new_client c ≡ ok cli → IsReady c cli
unfolding new_client set_query_params get
new_client-IsReady c cli e =
    let asked = to_lower (trim_space c.node_type) in
    let (kind, accepted, e') =
      >>=-eq-ok (or_fail (accepted_type asked) (unsupported_node_type c.node_type)) _ e in
    let accepts = accepted_type_of_ok _ _ kind accepted in
    let renamed = accepted_type-renames asked kind accepts in
    let supported = accepted_type-supported asked kind accepts in
    let q : Dict String String = put [] "machine_id" (itoa c.machine_id) in
    if_ok (leb_ℤ c.machine_id (pos 0)) _ _ e' (λ _ x. absurd (cc))
      (λ positive x. subst (IsReady c) (ok_inj x) (
        renamed,
        supported,
        refl,
        refl,
        positive,
        with_node_id-other c.node_id kind "token" _ refl refl ∙ get-put q "token" "token" c.key,
        with_node_id-other c.node_id kind "machine_id" _ refl refl
            ∙ get-put q "token" "machine_id" c.key
            ∙ get-put [] "machine_id" "machine_id" (itoa c.machine_id),
        with_node_id-id c.node_id kind "node_id" _ refl refl (
            get-put q "token" "node_id" c.key
            ∙ get-put [] "machine_id" "node_id" (itoa c.machine_id)),
        with_node_id-type c.node_id kind "node_type" _ refl (supported-named kind supported) (
              get-put q "token" "node_type" c.key
              ∙ get-put [] "machine_id" "node_type" (itoa c.machine_id))
            ∙ ap (λ k. if ltb_ℤ (pos 0) c.node_id then some k else none) renamed,
      ))
