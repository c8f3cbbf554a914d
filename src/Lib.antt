-- ===== src/Lib.antt =====
-- LegalBridge server: models of its routes and services, and theorems about them.
--
-- The program is a FastAPI server (server/app). A request is authenticated by a token
-- (api/dependencies.py, core/security.py), a route reads and writes rows through a session that it
-- commits (api/routes, db/session.py), and every change of weight leaves an audit event
-- (services/audit.py). Uploaded documents are extracted into source pages (services/extraction.py,
-- services/document_processing.py); motions are drafted, checked, reviewed and exported
-- (api/routes/motions.py); an analysis reads the source pages of a case and writes findings and a
-- draft motion (services/analysis.py); a dashboard counts what is there (api/routes/dashboard.py).
--
-- Which file models which part, with paths from server/app:
--   Store           models, db/session.py, core/errors.py, services/audit.py: `Schema` has the rows
--                   of the tables, `Session` the session, `Tables` the lemmas on queries and updates
--   Config          the fields of core/config.py that the modelled code reads, and its validators
--   Auth.Tokens     core/security.py: encode_token, decode_token
--   Auth.Principal  api/dependencies.py: get_current_principal, require_roles
--   Auth.Routes     api/routes/auth.py: login, refresh (`refresh_route`), logout, change_password
--   Auth.Users      api/routes/users.py: create_user, update_user_status
--   Cases           api/routes/cases.py: create_case, get_case, update_case, archive_case
--   Motions         api/routes/motions.py: `Drafting` has create_motion and create_motion_version,
--                   `Checks` the citation check, the ethics check and the submission, `Review` the
--                   review and the export; `Effects` is a step relation on the rows, an
--                   abstract description of what the routes may do
--   Dashboard       api/routes/dashboard.py: dashboard_summary
--   Extraction      services/extraction.py: `Pages` has _apply_limits, `Sections` _split_section,
--                   `Texts` _normalise_text and _chunk_text, `Formats` the PDF files, `Documents`
--                   the DOCX and text files and extract_document
--   Processing      services/document_processing.py: process_document
--   Analysis        services/analysis.py: `Patterns` has the regular expressions, `Observations` the
--                   sources and what is observed in them, `Contradictions`, `Timeline`, `Procedure`,
--                   `Authorities`, `Drafts` and `Recommendations` the results, `Rows`, `Entries`
--                   and `Run` run_case_analysis, `Flagship` has_complete_flagship_data;
--                   `Routes` has create_analysis_run and update_contradiction of
--                   api/routes/analysis.py
--   Storage         services/storage.py: the files and keys of the local storage, `Validation` the
--                   checks of an upload's name and type, `Signatures` those of its content, `Staging`
--                   stage_upload
--   DocumentRoutes  api/routes/documents.py: create_document_metadata and what a deletion does to the rows;
--                   `Uploads` has upload_document, `Downloads` download_document,
--                   reprocess_document and delete_document, as a `Route` on the session and the files
--   Copilot         services/platform.py: the records and references of an answer; `Questions` what a
--                   question asks for and the pages selected, `Usable` and `Nim` the language model
--                   service, `Similar` _similar_cases, `Groups`, `Lines`, `Answers` and `Extractive` the
--                   answers by rules, `Answering` copilot_answer; `Routes` and `Reports` have
--                   api/routes/copilot.py
-- The other modules hold proofs, named for what they prove, and tests.
--
-- How the code is read:
--   A route is an `Action`: a function from a session, which has the committed rows and the working
--   rows, to a result and a session. `request` is `get_session` around a route: what was not
--   committed is lost. An `ApplicationError` is the error result; FileNotFoundError, which no
--   handler names, is the error 500 of `unexpected_error_response`.
--   A unique constraint that fails at a flush is the test that precedes the insertion, with the
--   rollback and the error that the code's handler of IntegrityError gives.
--   An identifier is a number that stands for its uuid4 string, since identifiers are only compared.
--   A point in time counts seconds. The clock, fresh identifiers and password salts are arguments.
--   Texts that the code takes apart are lists of code points, other strings are strings.
--   Numbers are Python's, which do not overflow; where it subtracts, the result is used only where
--   it is positive.
--   Requests are taken one after the other, as the database's transactions are; two that interleave
--   within a transaction are not modelled.
--
-- Bounds and fuel: the slices of a block run on its length, and at least 1, and the inner loop of
-- the chunks on the length of the paragraph. Each step takes at least one character where the limit is
-- positive, so that this is enough; the settings allow no limit below 1,000.
--
-- Parameters, with what the code relies on: PyJWT and the password library (`Libraries`: what was
-- encoded is decoded until it expires, a password verifies against its own hash); PyMuPDF and
-- python-docx as writers (`Layout`) and, with Tesseract, the file system, the text codecs and
-- the choice of an encoding by charset_normalizer, as readers (`Readers`); the storage service's
-- lookup of a key where a document is processed (`StorageService`); the zip reader, the UTF-16 codec
-- and the digest of an upload (`Decoders`, `Host`); Python's tables of characters and its reading of
-- a date (`Python`); which of two texts scores higher in a search (`Scores`, `Relevance`); how a
-- request to the language model service ends (`NimClient`), dates as texts, and the writers of the
-- copilot's reports (`ReportWriters`).
--
-- Not modelled: the summaries that services/platform.py makes for routes that only read, the
-- floating-point scores and search chunks of the analysis, the Supabase storage, which is an HTTP
-- service, request validation, routes that only read, application wiring, migrations and bootstrap
-- scripts, and the client. The lengths of columns are not: SQLite, the default database, takes a
-- string of any length, and PostgreSQL fails on one that is too long. Columns that the database fills and no modelled code reads are left out
-- of the rows.
pub mod Prelude
pub mod Store
pub mod Config
pub mod Auth
pub mod Cases
pub mod Motions
pub mod Dashboard
pub mod Extraction
pub mod Processing
pub mod Analysis
pub mod Storage
pub mod Copilot
pub mod DocumentRoutes
mod MotionTests
