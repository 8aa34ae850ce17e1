-- ===== src/Service/Platform.antt =====
-- What the service takes from packages outside the repository: crypto/sha256, the sealing of the
-- vault by crypto/aes, and the parsing of times and URLs.
use shadow_relay.Prelude.{ℕ, String, Option}

pub record Platform : Type 0 where
  -- `security.Hash([]byte(s))`: the SHA-256 digest in hexadecimal
  pub hash : String → String
  -- `time.Parse(time.RFC3339, s)`, in seconds
  pub parse_time : String → Option ℕ
  -- `Vault.Seal` of the JSON object with that token, for an owner
  pub seal : String → String → String
