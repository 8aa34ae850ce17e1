-- ===== src/Service/Preview.antt =====
-- Preview and Import of internal/service/service.go, around the network and the parsers.
pub mod Soundness
use shadow_relay.Prelude.{String, true, false, not, ◌&&◌, Option, none, some, List, [], ◌∷◌, ◌==◌}
use shadow_relay.Store.Op.{when◌run◌or◌, Op, message, pure, fail, guard, ◌>>=◌, ◌>>◌}
use shadow_relay.Security.Headers.{Headers}
use shadow_relay.Fetch.{Policy}
use shadow_relay.Fetch.Proxy.{validate_proxy}
use shadow_relay.Adapter.Difference.{Reader}
use shadow_relay.Model.Source.{Source, Normalized, empty_normalized}
use shadow_relay.Model.Database.{Database}
use shadow_relay.Service.Connectors.{Connector, connector}
use shadow_relay.Service.Draws.{Draws}
use shadow_relay.Service.Intake.{Site, SourceInput, defaults, refuse, value}
use shadow_relay.Service.Intake.Live.{import_source}

-- What the intake takes from outside: the body behind a URL, the parsers of internal/adapter for
-- a body, a protocol and a URL, the JSON of a service's protocol and URL, and the hash under which
-- the vault keeps a body. none stands for an error.
pub record World : Type 0 where
  pub fetch_body : String → Policy → Option Headers → Option String
  pub parse : String → String → String → Option Normalized
  pub service_text : String → String → String
  pub snapshot : String → Option String

-- The error of a call outside, or its result.
unfoldable pub require : {S A : Type 0} → Option A → Op S A
require none = fail (message "upstream")
require (some a) = pure a

abbrev policy : SourceInput → Policy
policy i = record { network = i.network; trust = i.trust; proxy_id = value i.proxy_id }

-- The empty document of a media service.
abbrev service_document : String → Connector → Normalized
service_document protocol c = record empty_normalized {
  protocol = protocol;
  media_types = c.media_types;
  capabilities = c.capabilities;
  warnings = "Service credentials stay client-local unless a runtime gateway is configured" ∷ [];
}

module _ {S : Type 0} (world : World) where
  -- `in.Content`, or what is fetched.
  unfoldable pub document_body : SourceInput → Op S String
  document_body i = when not (i.content == "") run pure i.content or do
    guard (not (i.url == "")) (message "provide URL or content")
    require (world.fetch_body i.url (policy i) i.headers)

  unfoldable pub parsed : SourceInput → Op S (Normalized × String)
  parsed i = do
    body ← document_body i
    n ← require (world.parse body i.protocol i.url)
    pure (n, body)

  unfoldable pub preview : Site → SourceInput → Op S (Normalized × String)
  preview site request = do
    i ← defaults site.urls request
    refuse (
        validate_proxy site.profiles
          (record { network = i.network; trust = ""; proxy_id = value i.proxy_id }))
    elim (connector i.protocol) [
      | none ↦ parsed i
      | some c ↦ do
        guard (not (i.url == "")) (message "service URL required")
        pure (service_document i.protocol c, world.service_text i.protocol i.url)
    ]

-- Import. The second transaction draws from `w'`.
unfoldable pub import : Site → World → Reader → Draws → Draws → SourceInput → Op Database Source
import site world rd w w' request = do
  i ← defaults site.urls request
  (n, body) ← preview world site i
  guard (not (n.protocol == "catalog"))
      (message "add catalogs through the catalog subscription endpoint")
  hash ← require (world.snapshot body)
  import_source site rd w w' i hash n
