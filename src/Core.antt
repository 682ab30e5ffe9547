-- ===== src/Core.antt =====
-- core/interface.go: what a proxy core offers to the controllers of the nodes.
use v2b_x_patched_by_haman.Prelude.{ℕ, String, Bool, List, Result}
use v2b_x_patched_by_haman.Conf.{Options}
use v2b_x_patched_by_haman.Panel.{UserInfo, UserTraffic}
use v2b_x_patched_by_haman.Panel.Types.{NodeInfo}

-- The methods that a controller calls, on the state of the core. An error is one, or a panic.
pub record CoreApi (Float Core Error : Type 0) : Type 0 where
  pub add_node : String → NodeInfo Float → Options → Core → Core × Result {0, 0} Error Unit
  pub del_node : String → Core → Core × Result {0, 0} Error Unit
  pub add_users : String → NodeInfo Float → List UserInfo → Core → Core × Result {0, 0} Error ℕ
  pub del_users : List UserInfo → String → NodeInfo Float → Core → Core × Result {0, 0} Error Unit
  pub get_user_traffic_slice : String → Bool → Core → Core × List UserTraffic
  pub is_panic : Error → Bool
