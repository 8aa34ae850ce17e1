-- ===== src/Security/Headers.antt =====
-- ValidateHeaders of internal/security/security.go. A Go map is a list of its pairs, in the order
-- in which the loop meets them.
use Prim.Native.Char.{code}
use shadow_relay.Prelude.{
  ℕ, String, Bool, true, not, ◌&&◌, ◌||◌, Option, none, some, List, [], ◌∷◌, ◌==◌, ltb, leb,
  contains, length, byte_len, contains_any, has_code, starts_with, if◌then◌else◌, ◌<>◌,
}
use shadow_relay.Security.{Urls}

abbrev pub Headers : Type 0
Headers = List (String × String)

-- The characters of a token of RFC 7230.
unfoldable pub is_token_char : ℕ → Bool
is_token_char c =
    (leb 97 c && leb c 122)
    || (leb 65 c && leb c 90)
    || (leb 48 c && leb c 57)
    || has_code c "!#$%&'*+-.^_`|~"

unfoldable pub is_token : String → Bool
is_token String.[] = true
is_token (String.◌∷◌ c s) = is_token_char (code c) && is_token s

-- The names that the transport sets itself.
abbrev pub transport_headers : List String
transport_headers =
    "host" ∷ "connection" ∷ "content-length" ∷ "transfer-encoding" ∷ "accept-encoding"
    ∷ "proxy-authorization" ∷ []

module _ (urls : Urls) where
  unfoldable pub is_bad_header : String → String → Bool
  is_bad_header k v =
      let l = urls.to_lower k in
      k == ""
      || ltb 8192 (byte_len v)
      || contains_any (k <> v) "\r\n\0"
      || contains transport_headers l
      || starts_with l "proxy-"

  unfoldable pub header_error : Headers → Option String
  header_error [] = none
  header_error ((k, v) ∷ h) =
      let rest = header_error h in
      if not (is_token k)
      then some "invalid credential header name"
      else if is_bad_header k v
      then some "invalid credential header"
      else rest

  -- `ValidateHeaders`: none is `nil`.
  unfoldable pub validate_headers : Headers → Option String
  validate_headers h = if ltb 16 (length h) then some "too many headers" else header_error h
