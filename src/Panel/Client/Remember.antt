-- ===== src/Panel/Client/Remember.antt =====
-- api/panel/node.go: the hash of the last body, over two calls of GetNodeInfo.
use v2b_x_patched_by_haman.Prelude.{
  ℤ, pos, leb_ℤ, String, ◌≡◌, refl, sym, ◌∙◌, ap, true, false, Bool-cases, Option, none, inl, inr,
  ◌==◌, string_eq, int_eq, Result, ok, err, eq_iff,
}
use v2b_x_patched_by_haman.Panel.Types.{NodeInfo}
use v2b_x_patched_by_haman.Panel.Decode.{Decoders, DecodeError, decode_node_info}
use v2b_x_patched_by_haman.Panel.Client.{
  Client, Response, answered, check_response, set_query_params, adopt_node, read_node_info,
  get_node_info,
}

module _ {Float Body : Type 0} (float_seconds : Float → ℤ) (parse_float : String → Option Float)
    (decoders : Decoders Float Body) (hash : Body → String) where
  adopt_node-hash :
      (c : Client) (x : Result DecodeError (NodeInfo Float))
      → (adopt_node float_seconds parse_float decoders hash c x).0.response_body_hash
        ≡ c.response_body_hash
  unfolding adopt_node set_query_params
  adopt_node-hash c (err e) = refl
  adopt_node-hash c (ok node) = elim (Bool-cases (c.node_type == node.kind)) [
    | inl same ↦ rw same
    | inr changed ↦ rw changed
  ]

  check_response-fine :
      (r : Response Body) → leb_ℤ (pos 400) r.status ≡ false → check_response (answered r) ≡ ok r
  unfolding check_response
  check_response-fine r fine = rw fine

  get_node_info-fine :
      (c : Client) (r : Response Body)
      → leb_ℤ (pos 400) r.status ≡ false
      → get_node_info float_seconds parse_float decoders hash c (answered r)
        ≡ read_node_info float_seconds parse_float decoders hash c r
  unfolding get_node_info
  get_node_info-fine c r fine = rw (check_response-fine r fine, get_node_info)

  read_node_info-seen :
      (c : Client) (r : Response Body)
      → (r.status == pos 304) ≡ false
      → (c.response_body_hash == hash r.body) ≡ true
      → read_node_info float_seconds parse_float decoders hash c r ≡ (c, ok none)
  unfolding read_node_info
  read_node_info-seen c r fresh seen = rw (fresh, seen)

  read_node_info-hash :
      (c : Client) (r : Response Body)
      → (r.status == pos 304) ≡ false
      → (read_node_info float_seconds parse_float decoders hash c r).0.response_body_hash
        ≡ hash r.body
  unfolding read_node_info
  read_node_info-hash c r fresh = elim (Bool-cases (c.response_body_hash == hash r.body)) [
    | inl seen ↦ rw (fresh, seen) ((eq_iff c.response_body_hash (hash r.body)).0 seen)
    | inr new ↦
        rw (fresh, new)
          (adopt_node-hash (record c { response_body_hash = hash r.body; node_etag = r.etag })
            (decode_node_info float_seconds parse_float decoders r.body c.node_id c.node_type))
  ]

  module _ (c : Client) (r : Response Body) (fine : leb_ℤ (pos 400) r.status ≡ false)
      (fresh : (r.status == pos 304) ≡ false) where
    abbrev pub after : Client
    after = (get_node_info float_seconds parse_float decoders hash c (answered r)).0

    after-hash : after.response_body_hash ≡ hash r.body
    after-hash =
        ap (λ p. p.0.response_body_hash) (get_node_info-fine c r fine)
        ∙ read_node_info-hash c r fresh

    -- After a first answer below 400 that is not 304, a second such answer with the same body is
    -- "no change", and changes nothing in the client, also if the first body could not be decoded.
    pub get_node_info-remembers :
        (r' : Response Body)
        → leb_ℤ (pos 400) r'.status ≡ false
        → (r'.status == pos 304) ≡ false
        → r'.body ≡ r.body
        → get_node_info float_seconds parse_float decoders hash after (answered r')
          ≡ (after, ok none)
    get_node_info-remembers r' fine' fresh' same =
        get_node_info-fine after r' fine'
        ∙ read_node_info-seen after r' fresh'
            ((eq_iff after.response_body_hash (hash r'.body)).1 (after-hash ∙ ap hash (sym same)))
