-- ===== src/Lib.antt =====
-- miniGRC: the parts of the web application that keep compliance history and decide who may change
-- it.
--
-- The application keeps its history as events (app/events.py). A command of a domain module checks
-- its conditions, appends an event, and the event's projector writes the domain's tables in the same
-- transaction; the tables can be wiped and rebuilt from the events. A request (app/deps.py,
-- `get_db`) commits what it wrote, or rolls all of it back when it raises. There are eight such
-- domains: the versions of policies (app/policy_lifecycle.py) and of control definitions
-- (app/control_definition_lifecycle.py), the occurrences of controls (app/control_occurrences.py) and
-- their tests (app/control_tests.py), findings (app/finding_lifecycle.py), versions of evidence
-- artifacts (app/evidence_repository.py), the scope of the program (app/compliance_scope.py) and the
-- adopted frameworks (app/framework_adoption.py). Two of the rebuilds also write the occurrences'
-- tables, and app/backup.py runs all eight when it verifies a restored instance.
--
-- Connectors (app/connector_lifecycle.py) are installed by a manifest, configured, run by jobs and
-- upgraded; what they return is checked before it is ingested. Background work waits in a table of
-- jobs (app/jobs.py) from which workers claim. Users sign in with session cookies and have roles,
-- which an identity provider's groups may set (app/oidc_role_mapping.py); agents use tokens
-- (app/api_tokens.py); the personal data of those who left are redacted (app/pii_redaction.py).
--
-- The files:
--   Prelude            tests, lists, texts, Python's exceptions as `Error` and `Result`, and tables
--                      with a primary key (`session.get`, attribute writes, `session.add`)
--   Events             app/events.py: `append_event_with_created_flag` with its attempts,
--                      `append_and_project`, `rebuild_projection`, generic in the payloads `P` and
--                      the tables `S`; Events/Keyed is about appends with idempotency keys, and
--                      Events/Runs about requests that record at most one event each, and
--                      Events/Stamped about columns that the database fills (`created_at` of links)
--   ControlTest        app/control_tests.py: `freeze_population`, `draw_sample`, `record_test`,
--                      `link_test_evidence` and their projectors
--   Finding            app/finding_lifecycle.py, each function under its own name; `execute` is what
--                      the POST routes of app/routers/findings.py call
--   Policy             app/policy_lifecycle.py, likewise, with the partial unique index of
--                      app/models.py
--   ControlDefinition  app/control_definition_lifecycle.py: `submit_definition` is its
--                      `submit_for_review`, `review_definition` its `review_version`, and so on; the
--                      rest has its own name. ControlDefinition/Recovery is its rebuild with the
--                      occurrences' references
--   Occurrence         app/control_occurrences.py: Occurrence/Dates is the loop over due dates,
--                      Occurrence/Generate the generation, the rest under its own name
--   Evidence           app/evidence_repository.py and the keys and calls of app/object_storage.py;
--                      Evidence/Bucket is the interface of the object store, and Evidence/Storing
--                      `capture_evidence_version`
--   Scope              app/compliance_scope.py
--   Adoption           app/framework_adoption.py, with the upgrade of app/routers/frameworks.py
--   Backup             app/backup.py: `verify_restore` and what it calls; Backup/History composes it
--                      with runs of requests on all eight domains
--   Connector          app/connector_lifecycle.py, by parts: Manifest, Instances, Payload, Ingestion,
--                      Runs and Upgrade, with the versions of Connector/Version
--   Audit              app/audit.py
--   Jobs               app/jobs.py: `enqueue_job`, `claim_job`, `claim_specific_job`, `run_job`,
--                      `process_next_job`
--   Access             app/deps.py; Access/RoleMapping is app/oidc_role_mapping.py, Access/ApiTokens
--                      app/api_tokens.py and Access/Redaction app/pii_redaction.py
-- Children named Projection, Sampling, Enqueue, Rebuilds and Schema hold a file's types and first operations, which it
-- passes on. The other children hold its proofs, named for what they prove, and Examples its runs on
-- concrete data.
--
-- Conventions: an id is the number that its 32 hexadecimal digits spell, which keeps their order;
-- a time is a number of microseconds, and where a calendar day is needed a `Date` or a `Moment` of
-- Occurrence/Dates; a text is a `String`. The JSON text of a payload is its typed value. Columns that
-- only repeat a clock (`updated_at` where no code reads it) and descriptive columns that no operation
-- touches are left out. A command gets a `Context`: the clock, the fresh id of its event and the
-- actor; a command that appends more than once gets one for each event. Code of other packages is a
-- parameter: `hash` and `sha256` (digests), `spell` (the text of an id), `encrypt` and `decrypts`
-- (the cipher), `dumps` and `describe` (texts of JSON and of errors), `resolve` (secrets at run time),
-- the order of a query, and the object store.
--
-- A rebuild gets the time at which it runs, which fills `created_at` of the links that it inserts; the
-- clock is taken to stand still during one command and during one rebuild. The ids of link rows are
-- left out. Foreign keys are enforced: where an argument of a command is an id (of findings and tests),
-- the row must be there, by the predicates of `References` and `StoredRows`; every other reference is
-- to a row that the caller has loaded. Sessions do not flush by themselves, and what a command leaves
-- pending is flushed at its end; the rebuild of control definitions alone depends on the order of a
-- flush, after a withdrawal, so that Backup/History excludes withdrawn definitions. A handler of a job
-- is taken not to roll the session back, which the handler of imports does.
--
-- Concurrency: in Events an append is disturbed by lists of rows, one list for each attempt, that
-- other transactions commit between its reads and its insert; in Jobs a claim selects from one table
-- and updates another. The commands of the domains and of connectors run undisturbed.
--
-- Bounds: the attempts of an append recurse on `max_append_attempts`, which is 5 in the code too, and
-- running out is the code's own `ConcurrentAppendError`. The loop over due dates has fuel for each
-- month up to the last date, and is shown not to run out of it. All other functions recurse on their
-- lists, or on a count that the code states (2000 characters, 1000 values, the 4300 digits of `int`).
--
-- Not modelled: rendering, files and their staging, cryptography and calls of remote services
-- (providers' connectors, sign-in protocols, archives), which are calls of other packages; and of the
-- application's own code the readiness queues and vendor flags, the catalogs that the package ships,
-- imports, the trust center, the egress policy of AI tools, the connector registry's pages, the audit
-- package and the command line.
pub mod Prelude
pub mod Events
pub mod ControlTest
pub mod Finding
pub mod Policy
pub mod Audit
pub mod Jobs
pub mod Access
pub mod Adoption
pub mod Backup
pub mod Connector
pub mod ControlDefinition
pub mod Evidence
pub mod Occurrence
pub mod Scope
