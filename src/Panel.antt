-- ===== src/Panel.antt =====
-- The data that the panel's API exchanges with a node: api/panel/user.go and api/panel/node.go.
pub mod Types
pub mod Route
pub mod Parts
pub mod Decode
pub mod Client
use v2b_x_patched_by_haman.Prelude.{ℤ, String, List}

pub record UserInfo : Type 0 where
  pub id : ℤ
  pub uuid : String
  pub speed_limit : ℤ
  pub device_limit : ℤ

pub record OnlineUser : Type 0 where
  pub uid : ℤ
  pub ip : String

pub record UserTraffic : Type 0 where
  pub uid : ℤ
  pub upload : ℤ
  pub download : ℤ

pub record Rules : Type 0 where
  pub regexp : List String
  pub protocol : List String
