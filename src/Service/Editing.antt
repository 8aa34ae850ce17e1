-- ===== src/Service/Editing.antt =====
-- EditSource and SetHeaders of internal/service/service.go: what an operator may change of a source
-- without a new document.
pub mod Soundness
pub mod Kept
use shadow_relay.Prelude.{
  String, true, false, not, ◌&&◌, ◌||◌, Option, none, some, List, ◌==◌, if◌then◌else◌,
}
use shadow_relay.Store.Table.{get, has}
use shadow_relay.Store.Op.{when◌run◌or◌, Op, message, pure, guard, write, ◌>>=◌, ◌>>◌}
use shadow_relay.Store.Rows.{get_row, put_row}
use shadow_relay.Security.Headers.{Headers}
use shadow_relay.Model.Source.{Source, unknown, is_held}
use shadow_relay.Model.Database.{Database, sources, runtimes}
use shadow_relay.Service.Draws.{Draws, audit}
use shadow_relay.Service.Intake.{
  Site, SourceInput, defaults, validate_runtime, save_secret, is_nothing, or_else,
}

abbrev or_kept : Option String → String → String
or_kept none s = s
or_kept (some t) s = t

-- The fields that an edit takes from the request.
unfoldable pub edited : SourceInput → Source → Source
edited i v = record v {
  name = i.name;
  trust = i.trust;
  network = i.network;
  proxy_id = or_kept i.proxy_id v.proxy_id;
  hub_proxy_mode = or_kept i.hub_proxy_mode v.hub_proxy_mode;
  update_policy = i.update_policy;
  interval_minutes = i.interval_minutes;
  probe_interval_minutes = i.probe_interval_minutes;
  smoke_keyword = i.smoke_keyword;
  hub_plugin_id = i.hub_plugin_id;
  next_probe = "";
  runtime_id = i.runtime_id;
  mode = or_else i.mode v.mode;
  media_types = if is_nothing i.media_types then v.media_types else i.media_types;
}

-- What was known of the health of a source before a change says nothing after it.
unfoldable pub unproven : Draws → Source → Source
unproven w v =
    if is_held v.health
    then record v { updated_at = w.now }
    else record v { updated_at = w.now; health = unknown; score = 0 }

-- The transaction of EditSource, for a request that `defaults` has filled in.
unfoldable pub edit_source_tx : Site → Draws → String → SourceInput → Op Database Source
edit_source_tx site w id i = do
  v ← get_row sources id
  guard (not (not (i.protocol == "") && not (i.protocol == v.protocol)))
      (message "protocol changes require importing a new source")
  guard (i.url == v.url) (message "endpoint changes require importing and reviewing a new source")
  let u = edited i v
  validate_runtime site u
  save_secret site w id i.headers
  let out = unproven w u
  put_row sources id out
  audit w 0 "source.edit" id
  pure out

unfoldable pub edit_source : Site → Draws → String → SourceInput → Op Database Source
edit_source site w id request = do
  i ← defaults site.urls request
  write (edit_source_tx site w id i)

-- The branch of SetHeaders for the id of a runtime.
unfoldable pub touch_runtime : Draws → String → Op Database Unit
touch_runtime w id = do
  rt ← get_row runtimes id
  put_row runtimes id (record rt { updated_at = w.now; health = unknown })

unfoldable pub touch_source : Draws → String → Op Database Unit
touch_source w id = do v ← get_row sources id; put_row sources id (unproven w v)

unfoldable pub set_headers_tx : Site → Draws → String → Option Headers → Op Database Unit
set_headers_tx site w id h d =
    (do
      when has d.sources id run touch_source w id or touch_runtime w id
      save_secret site w id h
      audit w 0 "secret.replace" id)
      d

unfoldable pub set_headers : Site → Draws → String → Option Headers → Op Database Unit
set_headers site w id h = write (set_headers_tx site w id h)
