-- ===== src/Service/Schedule.antt =====
-- schedule of internal/service/jobs.go: the jobs that are due.
pub mod Conditions
pub mod Due
pub mod Jobs
use shadow_relay.Prelude.{
  ℕ, suc, String, Bool, true, not, ◌&&◌, ◌||◌, none, some, List, [], ◌∷◌, ◌==◌, ltb, if◌then◌else◌,
}
use shadow_relay.Prelude.Int.{pos, ltz}
use shadow_relay.Store.Op.{Op, pure, write, when◌run◌or◌, ◌>>=◌, ◌>>◌}
use shadow_relay.Store.Rows.{put_row, list_rows}
use shadow_relay.Model.Source.{Source, is_avoid}
use shadow_relay.Model.Publication.{SourceSet}
use shadow_relay.Model.Catalog.{Catalog}
use shadow_relay.Model.Database.{Database, sources, source_sets, catalogs}
use shadow_relay.Service.Draws.{Draws, new_id}
use shadow_relay.Service.Platform.{Platform}
use shadow_relay.Service.Jobs.{enqueue}

module _ (pf : Platform) (w : Draws) where
  -- `!due.After(time.Now())`; a time that cannot be read is long past.
  unfoldable pub is_due : String → Bool
  is_due text = elim (pf.parse_time text) [ none ↦ true | some t ↦ not (ltb w.clock t) ]

  unfoldable pub is_probe_due : Source → Bool
  is_probe_due src =
      src.enabled
      && not (src.active_revision == "")
      && (ltz (pos 0) src.probe_interval_minutes || is_avoid src.health)
      && is_due src.next_probe

  unfoldable pub is_sync_due : Source → Bool
  is_sync_due src =
      not (
        not src.enabled
        || src.url == ""
        || src.update_policy == "pinned"
        || src.update_policy == "manual")
      && is_due src.next_sync

  -- The probe of a source; `n` counts the jobs so far.
  unfoldable pub schedule_probe : ℕ → Source → Op Database (ℕ × Source)
  schedule_probe n src =
      when is_probe_due src
      run (do
        enqueue w (new_id w "job" n) "source.probe" src.id
        let minutes =
            if ltz (pos 0) src.probe_interval_minutes then src.probe_interval_minutes else pos 30
        let after : Source = record src { next_probe = w.later minutes }
        put_row sources src.id after
        pure (suc n, after))
      or pure (n, src)

  unfoldable pub schedule_sync : ℕ → Source → Op Database ℕ
  schedule_sync n src =
      when is_sync_due src
      run (do
        enqueue w (new_id w "job" n) "source.sync" src.id
        put_row sources src.id (record src { next_sync = w.later src.interval_minutes })
        pure (suc n))
      or pure n

  unfoldable pub schedule_sources : ℕ → List Source → Op Database ℕ
  schedule_sources n [] = pure n
  schedule_sources n (src ∷ rest) = do
    x ← schedule_probe n src
    m ← schedule_sync x.0 x.1
    schedule_sources m rest

  unfoldable pub schedule_sets : ℕ → List SourceSet → Op Database ℕ
  schedule_sets n [] = pure n
  schedule_sets n (s ∷ rest) = do
    m ←
        when s.auto_publish && is_due s.next_publish
        run (do
          enqueue w (new_id w "job" n) "set.publish" s.id
          put_row source_sets s.id (record s { next_publish = w.later (pos 15) })
          pure (suc n))
        or pure n
    schedule_sets m rest

  unfoldable pub schedule_catalogs : ℕ → List Catalog → Op Database ℕ
  schedule_catalogs n [] = pure n
  schedule_catalogs n (c ∷ rest) = do
    m ←
        when c.enabled && is_due c.next_sync
        run (do
          enqueue w (new_id w "job" n) "catalog.sync" c.id
          put_row catalogs c.id (record c { next_sync = w.later c.interval_minutes })
          pure (suc n))
        or pure n
    schedule_catalogs m rest

  unfoldable pub schedule_tx : Op Database ℕ
  schedule_tx = do
    all ← list_rows sources
    n ← schedule_sources 0 all
    sets ← list_rows source_sets
    m ← schedule_sets n sets
    cs ← list_rows catalogs
    schedule_catalogs m cs

  unfoldable pub schedule : Op Database ℕ
  schedule = write schedule_tx
