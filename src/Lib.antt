-- ===== src/Lib.antt =====
-- VendorOps AI is a service that takes in vendor documents, extracts and validates their
-- records, and lets agents act on vendor data under a policy. This library models the parts
-- of it whose order of events or whose decisions matter.
--
-- The parts and the files that model them (paths from the repository's root):
--   * Db: the rows of the tables (app/db/models.py), and the audit log and error rows that
--     the other parts write (app/db/repositories.py). A database is a record of lists of rows.
--   * Jobs: the durable job table of app/workers/durable.py. Jobs/Status has the statuses,
--     Jobs/Lease claim_next_job, heartbeat_job and recover_expired_jobs, Jobs/Finish
--     request_job_run, complete_job and fail_job. Jobs/Interleaving makes each of them a step of
--     one relation, in which a claim and a request have no other step between their read and
--     their write. Jobs/Requests is about a request that has.
--   * Worker: run_once of app/workers/document_jobs.py, one round that recovers, claims,
--     runs the handler and settles the job through the operations of Jobs.
--   * VendorCase: the state machine of app/workflows/vendor_case.py.
--   * Agent: the tools that agents call. Agent/Tools and Agent/Registry are
--     app/agent/tool_registry.py, Agent/Catalog app/agent/tool_catalog.py, Agent/Authorization
--     app/agent/authorization.py, and Agent/Execution app/agent/execution.py, which calls the gate
--     of Agent/Authorization before the adapter.
--   * Extraction: the records that extractors give (app/extraction/schemas.py).
--   * Validation: the rules of app/validation/rules.py, and in Validation/Review the review decision
--     that app/pipeline/document_pipeline.py takes on their findings.
--   * Retry: the loop of app/observability/retry.py, over an operation with a world of its own.
--   * Repositories: app/db/repositories.py. Repositories/Tenant has the tenant's filter and match over
--     any table, Repositories/Reads the get_ and list_ functions, Repositories/Creates and
--     Repositories/Records the creations.
--   * Pipeline: run_document_pipeline of app/pipeline/document_pipeline.py, which calls Retry,
--     Validation and Repositories. Pipeline/Errors has what its stages raise, Pipeline/Stages its `try`,
--     Pipeline/Status update_processing_job_status of app/db/repositories.py, and Pipeline/Rounds the
--     worker's default handler, _run_document of app/workers/document_jobs.py.
--   * Auth: login and bearer tokens (app/auth/service.py), and the permissions of roles in Auth/Roles.
--   * Api: app/api. Api/Guard is app/api/dependencies.py, which admits a request by its token and its
--     role; Api/Jobs has the routes of app/api/routes/jobs.py and the extraction request of
--     files.py, Api/Files the upload and the parsing of files, Api/Reads the routes that only read,
--     Api/Sessions those of auth.py.
--   * Storage: app/storage. Storage/Keys is keying.py, Storage/Local the local store of backends.py over
--     the file system, which is a parameter with its laws (IsDisk).
--   * Ingestion: app/ingestion/storage.py, the way of an upload into the store. The chunks that the reads
--     of an upload return are a list.
--   * Intake: the classification of documents in app/intake/classification.py; Intake/Lead says what it
--     decides in terms of the matches of each class.
--   * Base: Boolean tests, list operations that follow SQL (update_if is UPDATE .. WHERE, and
--     count_if its row count), and text.
--
-- Conventions. Identifiers are strings, instants and durations numbers of ticks, a confidence
-- a number of millionths, and a JSON object an association list. What the code draws (a
-- new uuid, the time) is an argument. Exceptions are values of a sum or a result type. A
-- statement of SQL acts on all the rows at once, as the database commits it.
--
-- What is not under the modelled files is a parameter: the job handler, the operation that is
-- retried, the parser and the extractor of the pipeline, the file system, the search of a pattern
-- in a text, the connectors of tools, pydantic schemas and dumps, the digest of a request, the text of a number with two decimals, the check of a password
-- and the hash of a token. The loops of the code are bounded by a number in the state
-- (the attempts of a call or of a retry) or by a list. Only the text of a number uses fuel: the
-- number itself, which is more than the count of its digits.
--
-- Not modelled: HTTP itself and the rendering of pages, the connection to the database, its schema
-- migrations, threads and event loops as such (their effect on the job table is the step
-- relation of Jobs/Interleaving), logging, and the front end; and of the
-- program's other parts not yet the seeding of the
-- authentication, the creation and the download of reports, the store in S3, the parsers, the extractors, the dashboard and the reports.
pub mod Base
pub mod Db
pub mod Jobs
pub mod Worker
pub mod VendorCase
pub mod Agent
pub mod Api
pub mod Auth
pub mod Extraction
pub mod Ingestion
pub mod Intake
pub mod Pipeline
pub mod Repositories
pub mod Retry
pub mod Storage
pub mod Validation
