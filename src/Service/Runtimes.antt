-- ===== src/Service/Runtimes.antt =====
-- SaveRuntime and TestRuntime of internal/service/runtime.go: the media services that sources run
-- on. The answers of a service are a parameter.
pub mod Drivers
use shadow_relay.Prelude.{
  String, Bool, true, false, not, ◌&&◌, ◌||◌, Option, none, some, List, [], ◌∷◌, ◌==◌,
  if◌then◌else◌,
}
use shadow_relay.Prelude.Int.{pos}
use shadow_relay.Store.Op.{
  Error, message, conflict, when◌run◌or◌, Op, pure, fail, guard, write, ◌>>=◌, ◌>>◌,
}
use shadow_relay.Store.Rows.{get_row, put_row}
use shadow_relay.Security.{is_safe_url}
use shadow_relay.Security.Headers.{Headers}
use shadow_relay.Model.Source.{Health, unknown, healthy, failing}
use shadow_relay.Model.Catalog.{Runtime}
use shadow_relay.Model.Database.{Database, runtimes}
use shadow_relay.Service.Bindings.{is_name}
use shadow_relay.Service.Connectors.{Connector, connector}
use shadow_relay.Service.Draws.{Draws, new_id, audit}
use shadow_relay.Service.Intake.{Site, SourceInput, defaults, save_secret}
use shadow_relay.Service.Catalogs.{plain_input}

-- The transaction of SaveRuntime; `id` is "" for a new one.
unfoldable pub save_runtime_tx :
    Site → Draws → String → Runtime → Option Headers → Op Database Runtime
save_runtime_tx site w id v h = do
  when id == "" run pure tt or (do
    old ← get_row runtimes id
    guard (old.driver == v.driver) (message "runtime driver is immutable"))
  put_row runtimes v.id v
  save_secret site w v.id h
  audit w (if id == "" then 1 else 0) "runtime.save" v.id
  pure v

-- The fields that a saved runtime takes from the request; all that was known of its state goes.
unfoldable pub saved_runtime : Draws → String → Connector → SourceInput → Runtime → Runtime
saved_runtime w id c i v = record {
  updated_at = w.now;
  id = if id == "" then new_id w "runtime" 0 else id;
  name = v.name;
  driver = v.driver;
  url = v.url;
  network = i.network;
  trust = i.trust;
  capabilities = c.capabilities;
  health = unknown;
  version = "";
  last_checked = "";
  last_sync = "";
  state = "";
}

unfoldable pub save_runtime : Site → Draws → String → Runtime → Option Headers → Op Database Runtime
save_runtime site w id v h = do
  guard (is_name v.name) (message "name must contain 1–160 characters")
  elim (connector v.driver) [
    | none ↦ fail (message "unsupported runtime driver")
    | some c ↦ do
      guard (is_safe_url site.urls v.url) (message "unsafe URL")
      i ← defaults site.urls (plain_input v.name "" v.network v.trust)
      write (save_runtime_tx site w id (saved_runtime w id c i v) h)
  ]

-- What the requests of TestRuntime came to: an error, or the version that the service names, where
-- it names a text of less than 100 bytes, and the summary of its state.
pub data Answer : Type 0 where
  refused : Error → Answer
  answered : Option String → String → Answer

unfoldable pub tested : Draws → Bool → Answer → Runtime → Runtime
tested w sync (refused e) v = record v { last_checked = w.now; health = failing }
tested w sync (answered version summary) v = record v {
  last_checked = w.now;
  health = healthy;
  version = elim version [ none ↦ v.version | some x ↦ x ];
  state = summary;
  last_sync = if sync then w.now else v.last_sync;
}

-- The transaction of TestRuntime, for the runtime `rt` that was tested.
unfoldable pub test_runtime_tx : Draws → String → Bool → Runtime → Answer → Op Database Unit
test_runtime_tx w id sync rt answer = do
  v ← get_row runtimes id
  guard (v.url == rt.url && v.driver == rt.driver && v.updated_at == rt.updated_at) conflict
  put_row runtimes id (tested w sync answer v)
  audit w 0 "runtime.test" id

abbrev pub outcome : Answer → Op Database Unit
outcome (refused e) = fail e
outcome (answered version summary) = pure tt

-- TestRuntime; `ask` is what opening the credentials and the requests to the service come to: none
-- where the credentials cannot be opened.
unfoldable pub test_runtime :
    Draws → (Connector → Runtime → Option Answer) → String → Bool → Op Database Unit
test_runtime w ask id sync = do
  rt ← get_row runtimes id
  elim (connector rt.driver) [
    | none ↦ fail (message "unsupported runtime")
    | some c ↦ elim (ask c rt) [
      | none ↦ fail (message "credential decryption failed")
      | some answer ↦ do write (test_runtime_tx w id sync rt answer); outcome answer
    ]
  ]
