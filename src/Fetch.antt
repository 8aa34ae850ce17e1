-- ===== src/Fetch.antt =====
-- internal/fetch: what the program asks of an outbound request before it opens a connection.
pub mod Proxy
pub mod Addresses
pub mod Gate
pub mod Requests
use shadow_relay.Prelude.{String}

pub record Policy : Type 0 where
  pub network : String
  pub trust : String
  pub proxy_id : String
