-- ===== src/Lib.antt =====
-- A model of the control plane of shadow-relay: the sources that an operator subscribes to, the
-- review of their documents, the publications that are made of them, and the tokens by which
-- clients read a publication.
--
-- The parts, and how they stand to one another:
--
-- - Store (internal/store/store.go, migrations/*.sql): a table is a list of rows by id, and the
--   database is a record of tables. Store/Rows has Get, List, Put, Insert and Delete with the
--   references, unique indexes and cascades of the migrations; Store/Op has the operations, which
--   end with a value or an error, and `write` (DB.Write), which rolls back what fails. DB.Write
--   serializes the transactions by an advisory lock, so that each is a function on the database.
-- - Model (internal/model): the records of the tables.
-- - Adapter/Difference (internal/adapter/adapter.go, Difference): how a new document of a source
--   differs from the active one, and whether it needs a review.
-- - Adapter/Jsonc (JSONC of adapter.go): how comments and trailing commas are taken out of a
--   document, byte by byte. The parsers that use it are parameters.
-- - Service/Lifecycle (internal/service/service.go, SourceAction): approval, rejection, rollback,
--   enabling, disabling, quarantine and release of a source.
-- - Service/Sync (SyncSource of service.go, StageContent of internal/service/content.go): the
--   transactions that take a new document in. They use Adapter/Difference.
-- - Service/Probing (saveProbe, recordFailure of service.go): the outcome of a probe.
-- - Service/Selection and Service/Publishing (internal/service/publisher.go: preparePublication,
--   RollbackPublication; publicationInputs of exports.go): which sources a publication is made
--   of, when it is withheld, and how the set moves to it.
-- - Service/Bindings (CreateBinding, BindingAction, Resolve of publisher.go): who may read what.
-- - Service/SourceSets (SaveSet of publisher.go, validateChannelRules of exports.go): the sets
--   that publications are made for. It uses Security (internal/security/security.go) for URLs.
-- - Service/Jobs and Service/Schedule (internal/service/jobs.go): the queue of jobs. Requests,
--   workers and retries are steps on the database, so that any interleaving of them is a list of
--   steps.
-- - Service/Buckets, Service/Aggregates and Service/Leaving (internal/service/aggregate.go): the
--   aggregates by type of content, how a source joins its own (upsertAggregateMember), how it
--   leaves (removeFromAggregates), and how an empty one is withdrawn
--   (withdrawAggregatePublication).
-- - Service/Intake and Service/Preview (defaults, Preview, Import, newSource, validateRuntime and
--   saveSecret of service.go): how a request becomes a source with a staged revision, which an
--   ordinary import approves and enables at once by Service/Lifecycle. They use Security/Headers,
--   Adapter/Registry (internal/adapter/adapter.go, registry and Base) and Service/Connectors
--   (internal/service/runtime.go, Connectors).
-- - Service/Editing (EditSource, SetHeaders) and Service/Removal (DeleteSource of service.go,
--   SoftDeleteSource and UndoDeleteSource of internal/service/steward.go).
-- - Service/Visibility (syncAggregateAfterVisibility and ensureAggregatePublished of aggregate.go):
--   how the aggregate of a source follows a change of it, and the whole of SourceAction,
--   DeleteSource and SoftDeleteSource.
-- - Service/Subscriptions (aggregateSubscribe of aggregate.go): the addresses of an aggregate for
--   its clients.
-- - Service/Catalogs (internal/service/catalog.go): catalogs, and the candidates that they offer.
-- - Service/Runtimes (internal/service/runtime.go): the media services that sources run on.
-- - Service/Preferences (steward.go, ApplyPreferences of exports.go), Service/Overrides
--   (channelOverrides of exports.go) and Service/Feedback (Feedback of publisher.go).
-- - Service/Play (internal/service/play.go, internal/fetch/play.go): where a client is sent to play
--   an item.
-- - Fetch (internal/fetch): the outbound policy. Addresses has Allowed, Proxy has ValidateProxy,
--   Gate has the budget and the circuit breaker of a host as steps of interleaved requests, and
--   Requests has the tests of requests, redirects and answers.
-- - Security/Headers and Security/Documents (ValidateHeaders, ValidateDocument of security.go).
-- - Service/Sound and Service/Steps: what every operation on sources and revisions keeps, and
--   their sequences.
-- - Tests: concrete inputs and the theorems at them.
--
-- What comes from outside the program is a parameter: the clock, the random source and the new
-- token (Draws), the hash, the times and the sealing (Platform), the proxies and the sealing of
-- headers (Service/Intake.Site), the network, the parsers and the snapshots (Service/Preview.World,
-- Service/Play.PlayWorld), the classes of addresses (Fetch/Addresses), the reading of URLs and the
-- lower case of texts (Security.Urls), the hosts of URLs and the text of an item
-- (Adapter/Difference.Reader), and the encoded documents (Service/Publishing.Encoding). No loop
-- needs fuel: all of them follow a list.
--
-- Simplifications. All readings of the clock within one operation are equal. The database always
-- answers and a commit does not fail. The separate reads of Resolve see one state of the
-- database. Ids are ASCII and are ordered by their bytes. `removed/len >= 0.2` on floats is `len
-- <= 5 * removed` on numbers. A space is one of the Unicode spaces below U+0100. The documents
-- that Compile renders are given by Encoding.render; the other fields of a publication are
-- computed.
--
-- Service.Fetch is set, as cmd/relay/main.go sets it, so that validatePlayTarget is ValidatePlayURL.
-- The messages of SafeURL are not told apart. The aggregates follow SourceAction,
-- DeleteSource and SoftDeleteSource, but not the approval in `import`, which ends with the
-- transaction of SourceAction.
--
-- Not modelled: what the jobs do in the network, reconciling the aggregates, the personal
-- credential, the parsers of documents, the book plugins, the plugin hub, the transfer archive and
-- the HTTP handlers.
mod Prelude
pub mod Store
pub mod Model
pub mod Security
pub mod Fetch
pub mod Adapter
pub mod Service
pub mod Tests
