-- ===== src/DocumentRoutes/Downloads.antt =====
-- server/app/api/routes/documents.py: download_document, reprocess_document and delete_document, on the
-- session and the files.
use Prim.Native.String.{String}
use legal_bridge.Prelude.{ℕ, Bool, Option, none, some, not}
use legal_bridge.Store.Schema.{Uuid, DateTime, Text, DocumentRecord}
use legal_bridge.Store.Session.{ApplicationError, commit, add_audit_event, raise_if}
use legal_bridge.DocumentRoutes.World.{Route, ◌>>=◌, ◌>>◌, lift, give, fail, on_files, read_files}
use legal_bridge.Config.{Settings}
use legal_bridge.Auth.Principal.{Principal}
use legal_bridge.Cases.{get_organization_case}
use legal_bridge.Processing.{document_audit_metadata, unexpected_error}
use legal_bridge.Storage.{path_for_key, given_key, binary_exists, quarantine, purge_quarantined}
use legal_bridge.DocumentRoutes.{document_editor, get_document, route_event, delete_rows}
use legal_bridge.DocumentRoutes.Records.{Host}
use legal_bridge.DocumentRoutes.Uploads.{process_stored}

module _ (host : Host) (settings : Settings) (now : DateTime) where
  abbrev pub document_binary_unavailable : ApplicationError
  document_binary_unavailable = record {
    status_code = 409;
    code = "document_binary_unavailable";
    message = "This document cannot be reprocessed because no stored binary exists.";
  }

  -- `binary_exists`, none where it raises.
  abbrev pub require_binary : Option Bool → Route (Unit {0})
  require_binary none = fail unexpected_error
  require_binary (some there) = lift (raise_if (not there) document_binary_unavailable)

  unfoldable pub reprocess_document : (ℕ → Uuid) → Uuid → Uuid → Principal → Route DocumentRecord
  unfolding process_stored binary_exists
  reprocess_document fresh case_id document_id sender = do
    principal ← lift (document_editor sender)
    lift (get_organization_case principal.organization.id case_id)
    row ← lift (get_document principal.organization.id case_id document_id)
    there ← read_files (binary_exists row.storage_key)
    require_binary there
    d ← process_stored host settings now fresh principal row
    lift (
        add_audit_event (
          route_event principal case_id d.id "document_reprocessed"
            "Stored document was reprocessed." (document_audit_metadata d)))
    lift commit
    give d

abbrev pub no_original : String → ApplicationError
no_original message = record {
  status_code = 404;
  code = "document_binary_not_found";
  message = message;
}

abbrev pub or_fail : {A : Type 0} → Option A → ApplicationError → Route A
or_fail none e = fail e
or_fail (some a) e = give a

-- The path of the file that is sent, with its content type and its name.
unfoldable pub download_document : Uuid → Uuid → Principal → Route (Text × String × String)
unfolding path_for_key
download_document case_id document_id principal = do
  lift (get_organization_case principal.organization.id case_id)
  row ← lift (get_document principal.organization.id case_id document_id)
  key ←
      or_fail (given_key row.storage_key)
        (no_original "This metadata-only record has no stored original file.")
  path ← read_files (λ files. path_for_key files key)
  source_path ← or_fail path (no_original "The stored original file could not be found.")
  lift (
      add_audit_event (
        route_event principal case_id row.id "document_downloaded"
          "Authenticated user downloaded the original document." (document_audit_metadata row)))
  lift commit
  give (source_path, row.content_type, row.original_filename)

-- `delete_document`; `root` is the name of the storage's root directory. The branch that restores the file is for a database that fails.
unfoldable pub delete_stored_document : Text → Text → Uuid → Uuid → Principal → Route (Unit {0})
unfolding quarantine purge_quarantined
delete_stored_document root other case_id document_id sender = do
  principal ← lift (document_editor sender)
  lift (get_organization_case principal.organization.id case_id)
  row ← lift (get_document principal.organization.id case_id document_id)
  moved ← read_files (quarantine root other row.storage_key)
  (quarantined, files) ← or_fail moved unexpected_error
  on_files (λ _. (tt, files))
  lift (delete_rows case_id document_id principal row)
  on_files (λ files'. (tt, purge_quarantined quarantined files'))
