-- ===== src/Http.antt =====
-- What the packet path sees of HTTP parsing: http/codec.h (Header), http/utility.h (ParseState)
-- and http/connection.h (Connection) as an interface.
pub mod Inspector
pub mod Filters
pub mod Http1
pub mod Http2
pub mod Connection
pub mod Buffering
use net_policy.Common.{◌≡◌, Text}

pub data ParseState : Type 0 where
  continue done error : ParseState

pub record Header : Type 0 where
  pub method : Text
  pub path : Text
  pub host : Text
  pub parse_state : ParseState

-- A `Connection` made for a rule key, which it keeps, and fed with payloads.
pub record HttpConnection : Type 1 where
  pub Connection : Type 0
  pub connection : Text → Connection
  pub get_rule_key : Connection → Text
  pub on_data : Connection → Text → Connection × Header
  pub get_rule_key-connection : (key : Text) → get_rule_key (connection key) ≡ key
  pub get_rule_key-on_data :
      (c : Connection) (payload : Text) → get_rule_key (on_data c payload).0 ≡ get_rule_key c
