-- ===== src/Tests/Catalogs.antt =====
-- The theorems on catalogs and runtimes at concrete inputs.
use shadow_relay.Prelude.{String, ◌≡◌, ◌≢◌, refl, none, true, [], ◌∷◌, arith, eq_iff, ◌<>◌}
use shadow_relay.Prelude.Int.{pos}
use shadow_relay.Store.Op.{state, write}
use shadow_relay.Store.Table.{get, cons_cases, nil_cases}
use shadow_relay.Model.Source.{healthy}
use shadow_relay.Model.Catalog.{Catalog, Candidate, Runtime, accepted}
use shadow_relay.Model.Database.{Database}
use shadow_relay.Service.Catalogs.{CatalogReader, sync_catalog_tx}
use shadow_relay.Service.Catalogs.Unique.{Unique, sync_catalog_tx-Unique}
use shadow_relay.Service.Catalogs.Accepted.{
  Accepted, sync, action, candidate_steps, candidate_steps-Accepted,
}
use shadow_relay.Service.Draws.{new_id}
use shadow_relay.Service.Runtimes.{save_runtime}
use shadow_relay.Service.Runtimes.Drivers.{Driven, save_runtime-Driven}
use shadow_relay.Tests.Fixtures.{draws, reader, document, fetched, database}
use shadow_relay.Tests.Intake.{site, world}

abbrev catalog : Catalog
catalog = record {
  id = "cat";
  name = "a catalog";
  url = "https://host/catalog";
  network = "internet";
  trust = "reviewed";
  enabled = true;
  interval_minutes = pos 360;
  next_sync = "";
  last_sync = "";
  etag = "";
  last_modified = "";
}

abbrev candidate : Candidate
candidate = record {
  id = "cand";
  catalog_id = "cat";
  name = "one";
  url = "https://host/one";
  protocol = "";
  fingerprint = "#https://host/one";
  status = accepted;
  source_id = "src";
  discovered_at = "t0";
}

abbrev runtime : Runtime
runtime = record {
  updated_at = "t0";
  id = "rt";
  name = "a runtime";
  driver = "emby";
  url = "https://host/emby";
  network = "internet";
  trust = "reviewed";
  capabilities = [];
  health = healthy;
  version = "4";
  last_checked = "";
  last_sync = "";
  state = "";
}

abbrev catalog_database : Database
catalog_database = record database {
  catalogs = ("cat", catalog) ∷ [];
  candidates = ("cand", candidate) ∷ [];
  runtimes = ("rt", runtime) ∷ [];
}

abbrev entry_reader : CatalogReader
entry_reader = record { hash = λ s. "#" <> s; meta_protocol = λ s. "" }

one-Unique : Unique catalog_database.candidates
one-Unique = record {
  each = λ k j a b e f same.
      cons_cases (λ k a. k ≡ j) "cand" candidate []
        (cons_cases (λ j b. "cand" ≡ j) "cand" candidate [] refl (nil_cases _) j b f) (nil_cases _)
        k a e;
}

sync_catalog_tx-Unique_example :
    Unique
      (state (
        write
          (sync_catalog_tx entry_reader draws "cat" catalog fetched document)
          catalog_database)).candidates
sync_catalog_tx-Unique_example =
    sync_catalog_tx-Unique entry_reader draws "cat" catalog fetched document catalog_database
      one-Unique

candidate-Accepted : Accepted "cand" "src" catalog_database
unfolding get
candidate-Accepted = record { candidate = candidate; row = refl; status = refl; source = refl }

candidate_steps-Accepted_example : Accepted "cand" "src" (
    candidate_steps
      (sync entry_reader draws "cat" catalog fetched document
        ∷ action site world reader draws "cand" "reset"
        ∷ [])
      catalog_database)
candidate_steps-Accepted_example =
    candidate_steps-Accepted "cand" "src"
      (sync entry_reader draws "cat" catalog fetched document
        ∷ action site world reader draws "cand" "reset"
        ∷ [])
      catalog_database candidate-Accepted

runtime-Driven : Driven "rt" "emby" catalog_database
unfolding get
runtime-Driven = record { runtime = runtime; row = refl; driver_eq = refl }

named : ◌≡◌ {A = String} "rt" "" → new_id draws "runtime" 0 ≢ "rt"
named e = ground (arith, eq_iff "rt" "", e)

save_runtime-Driven_example : Driven "rt" "emby" (
    state
      (save_runtime site draws "rt" (record runtime { driver = "jellyfin" }) none catalog_database))
save_runtime-Driven_example =
    save_runtime-Driven "rt" "emby" site draws "rt" (record runtime { driver = "jellyfin" }) none
      catalog_database named runtime-Driven
