-- ===== src/Fetch/Proxy.antt =====
-- ValidateProxy of internal/fetch/proxy.go, for the names of the profiles that NewWithProxies read.
use Prim.Native.Char.{code}
use shadow_relay.Prelude.{
  ℕ, String, Bool, true, false, not, ◌&&◌, ◌||◌, Option, none, some, List, ◌==◌, leb, eqb, contains,
  byte_len, if◌then◌else◌,
}
use shadow_relay.Fetch.{Policy}

unfoldable pub is_alphanumeric : ℕ → Bool
is_alphanumeric c = (leb 97 c && leb c 122) || (leb 65 c && leb c 90) || (leb 48 c && leb c 57)

-- `[a-zA-Z0-9_-]*`
unfoldable pub is_word : String → Bool
is_word String.[] = true
is_word (String.◌∷◌ c s) =
    (is_alphanumeric (code c) || eqb (code c) 95 || eqb (code c) 45) && is_word s

-- `^[a-zA-Z0-9][a-zA-Z0-9_-]{0,63}$`: what matches is ASCII, so that its bytes are its characters.
unfoldable pub is_proxy_name : String → Bool
is_proxy_name String.[] = false
is_proxy_name (String.◌∷◌ c s) = is_alphanumeric (code c) && is_word s && leb (byte_len s) 63

-- none is `nil`
unfoldable pub validate_proxy : List String → Policy → Option String
validate_proxy profiles p =
    if p.proxy_id == ""
    then none
    else if not (is_proxy_name p.proxy_id) || not (contains profiles p.proxy_id)
    then some "unknown proxy profile"
    else if not (p.network == "internet") && not (p.network == "")
    then some "proxy profiles are only available for internet sources"
    else none
