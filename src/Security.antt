-- ===== src/Security.antt =====
-- internal/security/security.go: sensitive names, and the checks of URLs.
pub mod Headers
pub mod Documents
use shadow_relay.Prelude.{
  String, Bool, false, not, ◌&&◌, ◌||◌, Option, none, some, List, [], ◌∷◌, ◌==◌, contains, any,
  contains_any, has_suffix, without,
}

-- A URL as net/url reads it.
pub record Url : Type 0 where
  pub scheme : String
  -- `Hostname()`
  pub host : String
  -- `User != nil`
  pub has_user : Bool
  pub fragment : String
  -- the keys of `url.ParseQuery`, none where it fails
  pub query : Option (List String)

-- `url.Parse`, and `strings.ToLower`.
pub record Urls : Type 0 where
  pub parse : String → Option Url
  pub to_lower : String → String

abbrev pub sensitive : List String
sensitive =
    "token" ∷ "accesstoken" ∷ "apikey" ∷ "password" ∷ "passwd" ∷ "secret" ∷ "authorization"
    ∷ "cookie" ∷ "cookies" ∷ "setcookie" ∷ "xembytoken" ∷ "xapikey" ∷ "username" ∷ []

abbrev secret_parameters : List String
secret_parameters = "auth" ∷ "key" ∷ "code" ∷ "session" ∷ "signature" ∷ "jwt" ∷ "credential" ∷ []

module _ (urls : Urls) where
  unfoldable pub is_sensitive_key : String → Bool
  is_sensitive_key key =
      let k = urls.to_lower (without "-_." key) in
      contains sensitive k
      || has_suffix k "password"
      || has_suffix k "secret"
      || has_suffix k "token"

  -- The checks that SafeURL and SafePlayURL share.
  unfoldable pub is_plain_url : String → Url → Bool
  is_plain_url raw u =
      not (u.host == "")
      && (u.scheme == "https" || u.scheme == "http")
      && not (u.has_user || not (u.fragment == "") || contains_any raw "\r\n\0")

  unfoldable pub is_secret_parameter : String → Bool
  is_secret_parameter k = is_sensitive_key k || contains secret_parameters (urls.to_lower k)

  -- `SafeURL(raw) == nil`
  unfoldable pub is_safe_url : String → Bool
  is_safe_url raw = elim (urls.parse raw) [
    | none ↦ false
    | some u ↦
        is_plain_url raw u
        && elim u.query [ none ↦ false | some keys ↦ not (any is_secret_parameter keys) ]
  ]

  -- `SafePlayURL(raw) == nil`: signed links may carry their signature.
  unfoldable pub is_safe_play_url : String → Bool
  is_safe_play_url raw = elim (urls.parse raw) [ none ↦ false | some u ↦ is_plain_url raw u ]
