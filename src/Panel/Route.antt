-- ===== src/Panel/Route.antt =====
-- api/panel/node.go: the routes and the intervals of a node's answer, and `finalizeNodeInfo`.
pub mod Matches
pub mod Blocks
pub mod Refused
use v2b_x_patched_by_haman.Prelude.{
  ℕ, suc, ℤ, pos, ◌*ℤ◌, wrap64, String, Bool, true, false, Option, none, some, List, [], ◌∷◌, ◌++◌,
  ◌==◌, string_eq, Result, ok, err, ◌>>=◌, if◌then◌else◌,
}
use v2b_x_patched_by_haman.Dict.{put}
use v2b_x_patched_by_haman.Itoa.{itoa}
use v2b_x_patched_by_haman.Format.{trim_prefix}
use v2b_x_patched_by_haman.Text.{trim_space, split_comma, has_prefix, join}
use v2b_x_patched_by_haman.Panel.{Rules}
use v2b_x_patched_by_haman.Panel.Types.{
  Any, nil, text, integer, floating, texts, items, other, Anys, end, next, DnsServer, RawDns, Route,
  BaseConfig, CommonNode, NodeInfo,
}

pub data MatchError : Type 0 where
  not_string : ℕ → MatchError
  unsupported : MatchError

-- The error of a route, with the route's index.
pub data RouteError : Type 0 where
  bad_match : ℕ → MatchError → RouteError

-- The loop that drops the blank items.
unfoldable pub non_blank : List String → List String
non_blank [] = []
non_blank (s ∷ ss) =
    let rest = non_blank ss in if trim_space s == "" then rest else trim_space s ∷ rest

-- One item of a route with the action "block".
unfoldable pub block : Rules → String → Rules
block r v =
    if has_prefix v "protocol:"
    then record r { protocol = r.protocol ++ trim_prefix v "protocol:" ∷ [] }
    else record r { regexp = r.regexp ++ trim_prefix v "regexp:" ∷ [] }

unfoldable pub block_all : Rules → List String → Rules
block_all r [] = r
block_all r (v ∷ vs) = block_all (block r v) vs

-- A route with the action "dns", whose matches are `first ∷ rest`.
unfoldable pub add_dns : ℕ → String → String → List String → RawDns → RawDns
add_dns i address first rest d =
    if first == "main" then record d { dns_json = join rest } else record d {
      dns_map = put d.dns_map (itoa (pos i)) (record { address = address; domains = first ∷ rest });
    }

abbrev pub at_route {ℓ} : {A : Type ℓ} → ℕ → Result MatchError A → Result RouteError A
at_route i (ok a) = ok a
at_route i (err e) = err (bad_match i e)

module _ {Float : Type 0} where
  -- The loop over `[]interface{}`, from the item `i` on.
  unfoldable pub strings_of : ℕ → Anys Float → Result MatchError (List String)
  strings_of i end = ok []
  strings_of i (next (text s) rest) = do ss ← strings_of (suc i) rest; ok (s ∷ ss)
  strings_of i (next v rest) = err (not_string i)

  unfoldable pub parse_route_match : Any Float → Result MatchError (List String)
  parse_route_match nil = ok []
  parse_route_match (text s) = ok (non_blank (split_comma s))
  parse_route_match (texts ss) = ok (non_blank ss)
  parse_route_match (items vs) = do ss ← strings_of 0 vs; ok (non_blank ss)
  parse_route_match v = err unsupported

  -- The `switch` on the action, for matches that are not empty.
  unfoldable pub act : ℕ → Route Float → String → List String → NodeInfo Float → NodeInfo Float
  act i r first rest node =
      if r.action == "block"
      then record node { rules = block_all node.rules (first ∷ rest) }
      else if r.action == "dns"
      then record node { raw_dns = add_dns i r.action_value first rest node.raw_dns }
      else node

  abbrev pub act_on : ℕ → Route Float → List String → NodeInfo Float → NodeInfo Float
  act_on i r [] node = node
  act_on i r (first ∷ rest) node = act i r first rest node

  -- The loop over the routes, from the route `i` on.
  unfoldable pub add_routes :
      ℕ → List (Route Float) → NodeInfo Float → Result RouteError (NodeInfo Float)
  add_routes i [] node = ok node
  add_routes i (r ∷ rs) node = do
    matches ← at_route i (parse_route_match r.match)
    add_routes (suc i) rs (act_on i r matches node)

  abbrev pub cleared : CommonNode Float → CommonNode Float
  cleared cm = record cm { routes = []; base_config = none }

  -- `float_seconds` is `time.Duration(v * float64(time.Second))`, `parse_float` is
  -- `strconv.ParseFloat(_, 64)`.
  module _ (float_seconds : Float → ℤ) (parse_float : String → Option Float) where
    unfoldable pub interval_to_time : Any Float → ℤ
    interval_to_time (integer n) = wrap64 (n *ℤ pos 1_000_000_000)
    interval_to_time (floating v) = float_seconds v
    interval_to_time (text s) =
        if s == "" then pos 0 else elim (parse_float s) [ none ↦ pos 0 | some v ↦ float_seconds v ]
    interval_to_time _ = pos 0

    unfoldable pub set_intervals : Option (BaseConfig Float) → NodeInfo Float → NodeInfo Float
    unfolding interval_to_time
    set_intervals none node = node
    set_intervals (some b) node = record node {
      push_interval = interval_to_time b.push_interval;
      pull_interval = interval_to_time b.pull_interval;
    }

    unfoldable pub finalize_node_info :
        NodeInfo Float → CommonNode Float → Result RouteError (NodeInfo Float)
    finalize_node_info node cm = do
      node' ← add_routes 0 cm.routes node
      ok (record (set_intervals cm.base_config node') { common = some (cleared cm) })
