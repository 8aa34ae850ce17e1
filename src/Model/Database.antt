-- ===== src/Model/Database.antt =====
-- migrations/*.sql: the tables, with their foreign keys, unique indexes and cascades. A reference
-- column is NULL where the JSON field is "" (`NULLIF`), and then asks for nothing; `source_id`,
-- `catalog_id` and `set_id` of the other tables are NOT NULL.
use shadow_relay.Prelude.{String, Bool, true, not, ◌&&◌, ◌||◌, List, [], ◌∷◌, ◌==◌}
use shadow_relay.Store.Table.{Table, has, remove_where}
use shadow_relay.Store.Rows.{Slot}
use shadow_relay.Model.Source.{Source, Endpoint, Secret, Revision, Probe}
use shadow_relay.Model.Publication.{
  SourceSet, Publication, Binding, Feedback, DeletedSource, Preference,
}
use shadow_relay.Model.Queue.{Job, is_active}
use shadow_relay.Model.Catalog.{Catalog, Candidate, Runtime, Audit}

pub record Database : Type 0 where
  pub catalogs : Table Catalog
  pub runtimes : Table Runtime
  pub sources : Table Source
  pub endpoints : Table Endpoint
  pub secrets : Table Secret
  pub revisions : Table Revision
  pub candidates : Table Candidate
  pub probes : Table Probe
  pub source_sets : Table SourceSet
  pub publications : Table Publication
  pub bindings : Table Binding
  pub audits : Table Audit
  pub feedback : Table Feedback
  pub deleted_sources : Table DeletedSource
  pub jobs : Table Job
  pub preferences : Table Preference

abbrev pub empty_database : Database
empty_database = record {
  catalogs = [];
  runtimes = [];
  sources = [];
  endpoints = [];
  secrets = [];
  revisions = [];
  candidates = [];
  probes = [];
  source_sets = [];
  publications = [];
  bindings = [];
  audits = [];
  feedback = [];
  deleted_sources = [];
  jobs = [];
  preferences = [];
}

abbrev anything {ℓ} : {V : Type ℓ} → Database → String → V → Bool
anything d id v = true

abbrev nothing_else : String → Database → Database
nothing_else id d = d

-- `REFERENCES sources(id) ON DELETE CASCADE`, on endpoints, revisions and probes.
unfoldable pub cascade_source : String → Database → Database
cascade_source id d = record d {
  endpoints = remove_where (λ e. e.source_id == id) d.endpoints;
  revisions = remove_where (λ r. r.source_id == id) d.revisions;
  probes = remove_where (λ p. p.source_id == id) d.probes;
}

abbrev pub sources : Slot Database Source
sources = record {
  view = λ d. d.sources;
  update = λ t d. record d { sources = t };
  admits = λ d id v.
      (v.runtime_id == "" || has d.runtimes v.runtime_id)
      && (v.catalog_id == "" || has d.catalogs v.catalog_id);
  cascade = cascade_source;
}

abbrev pub revisions : Slot Database Revision
revisions = record {
  view = λ d. d.revisions;
  update = λ t d. record d { revisions = t };
  admits = λ d id v. has d.sources v.source_id;
  cascade = nothing_else;
}

abbrev pub endpoints : Slot Database Endpoint
endpoints = record {
  view = λ d. d.endpoints;
  update = λ t d. record d { endpoints = t };
  admits = λ d id v. has d.sources v.source_id;
  cascade = nothing_else;
}

abbrev pub probes : Slot Database Probe
probes = record {
  view = λ d. d.probes;
  update = λ t d. record d { probes = t };
  admits = λ d id v. has d.sources v.source_id;
  cascade = nothing_else;
}

abbrev pub candidates : Slot Database Candidate
candidates = record {
  view = λ d. d.candidates;
  update = λ t d. record d { candidates = t };
  admits = λ d id v. has d.catalogs v.catalog_id;
  cascade = nothing_else;
}

abbrev pub publications : Slot Database Publication
publications = record {
  view = λ d. d.publications;
  update = λ t d. record d { publications = t };
  admits = λ d id v. has d.source_sets v.set_id;
  cascade = nothing_else;
}

-- `token_hash … UNIQUE`: no other binding has the hash.
unfoldable pub is_hash_free : List (String × Binding) → String → String → Bool
is_hash_free [] id hash = true
is_hash_free ((j, b) ∷ t) id hash = (j == id || not (b.hash == hash)) && is_hash_free t id hash

abbrev pub bindings : Slot Database Binding
bindings = record {
  view = λ d. d.bindings;
  update = λ t d. record d { bindings = t };
  admits = λ d id v. has d.source_sets v.set_id && is_hash_free d.bindings id v.hash;
  cascade = nothing_else;
}

abbrev pub source_sets : Slot Database SourceSet
source_sets = record {
  view = λ d. d.source_sets;
  update = λ t d. record d { source_sets = t };
  admits = anything;
  cascade = nothing_else;
}

abbrev pub secrets : Slot Database Secret
secrets = record {
  view = λ d. d.secrets;
  update = λ t d. record d { secrets = t };
  admits = anything;
  cascade = nothing_else;
}

abbrev pub runtimes : Slot Database Runtime
runtimes = record {
  view = λ d. d.runtimes;
  update = λ t d. record d { runtimes = t };
  admits = anything;
  cascade = nothing_else;
}

abbrev pub catalogs : Slot Database Catalog
catalogs = record {
  view = λ d. d.catalogs;
  update = λ t d. record d { catalogs = t };
  admits = anything;
  cascade = nothing_else;
}

abbrev pub audits : Slot Database Audit
audits = record {
  view = λ d. d.audits;
  update = λ t d. record d { audits = t };
  admits = anything;
  cascade = nothing_else;
}

abbrev pub feedback : Slot Database Feedback
feedback = record {
  view = λ d. d.feedback;
  update = λ t d. record d { feedback = t };
  admits = anything;
  cascade = nothing_else;
}

abbrev pub deleted_sources : Slot Database DeletedSource
deleted_sources = record {
  view = λ d. d.deleted_sources;
  update = λ t d. record d { deleted_sources = t };
  admits = anything;
  cascade = nothing_else;
}

-- `jobs_active_target`: no other active job has the kind and the target.
unfoldable pub is_target_free : List (String × Job) → String → String → String → Bool
is_target_free [] id kind target = true
is_target_free ((j, a) ∷ t) id kind target =
    (j == id || not (is_active a.status && a.kind == kind && a.target_id == target))
    && is_target_free t id kind target

abbrev pub jobs : Slot Database Job
jobs = record {
  view = λ d. d.jobs;
  update = λ t d. record d { jobs = t };
  admits = λ d id v. not (is_active v.status) || is_target_free d.jobs id v.kind v.target_id;
  cascade = nothing_else;
}

abbrev pub preferences : Slot Database Preference
preferences = record {
  view = λ d. d.preferences;
  update = λ t d. record d { preferences = t };
  admits = anything;
  cascade = nothing_else;
}
