-- ===== src/Service/Feedback.antt =====
-- Feedback of internal/service/publisher.go: what a client may report of a source.
pub mod Hints
use shadow_relay.Prelude.{
  String, Bool, Option, none, some, List, [], ◌∷◌, ◌==◌, if◌then◌else◌, contains, ◌<>◌, any,
}
use shadow_relay.Store.Op.{not_found, message, Op, pure, fail, guard, write, ◌>>=◌, ◌>>◌}
use shadow_relay.Store.Rows.{get_row, put_row}
use shadow_relay.Model.Publication.{Feedback}
use shadow_relay.Model.Database.{Database, bindings, publications, feedback}
use shadow_relay.Service.Draws.{Draws}
use shadow_relay.Service.Platform.{Platform}
use shadow_relay.Service.Bindings.{find_binding, resolve, wanted_publication}

abbrev pub feedback_codes : List String
feedback_codes = "timeout" ∷ "unavailable" ∷ "parse_error" ∷ "unauthorized" ∷ "unsupported" ∷ []

-- What a report is dated and named by: the part of an id before the first ":", where it has one
-- (`strings.Cut`), and the first 24 digits of the hash of a text with the minute.
pub record Reports : Type 0 where
  pub cut : String → Option String
  pub minute_hash : String → String

-- Is the source in the publication?
unfoldable pub is_published : String → List (String × String) → Bool
is_published id srcs = any (λ (k, r). k == id) srcs

-- The source that a report is about: one of the publication, or the parent of the id it names.
unfoldable pub reported_source : Reports → List (String × String) → String → Option String
reported_source rp srcs id = if is_published id srcs then some id else elim (rp.cut id) [
  | none ↦ none
  | some parent ↦ if is_published parent srcs then some parent else none
]

unfoldable pub require_source : Option String → Op Database String
require_source none = fail not_found
require_source (some s) = pure s

module _ (pf : Platform) (rp : Reports) (w : Draws) where
  unfoldable pub report_feedback : String → Feedback → Op Database Unit
  report_feedback token i = do
    guard (contains feedback_codes i.code) (message "unknown feedback error class")
    a ← resolve pf w token i.publication_id "shadow.json"
    id ← find_binding (pf.hash token)
    b ← get_row bindings id
    wanted ← wanted_publication pf w i.publication_id b
    p ← get_row publications wanted
    s ← require_source (reported_source rp p.source_revisions i.source_id)
    let key = "feedback_" <> rp.minute_hash (id <> s <> i.code)
    write (
        put_row feedback key (record {
          id = key;
          binding_id = id;
          publication_id = wanted;
          source_id = s;
          code = i.code;
          created_at = w.now;
        }))
