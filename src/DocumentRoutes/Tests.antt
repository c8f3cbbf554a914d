-- ===== src/DocumentRoutes/Tests.antt =====
-- The document routes at a case with one stored document.
use legal_bridge.Prelude.{false, some, [], ◌∷◌, find, codes, ◌≡◌, ◌==◌, refl, any}
use legal_bridge.Store.Schema.{DocumentRecord, Db}
use legal_bridge.Store.Session.{ok}
use legal_bridge.Auth.Tests.{admin_alice}
use legal_bridge.Auth.Principal.{require_roles}
use legal_bridge.Cases.{get_organization_case}
use legal_bridge.Processing.{of_document}
use legal_bridge.Processing.Tests.{stored, statement}
use legal_bridge.DocumentRoutes.{
  DocumentMetadataCreate, is_document, refers, document_editor, get_document,
}
use legal_bridge.DocumentRoutes.World.{World}
use legal_bridge.DocumentRoutes.Downloads.{delete_stored_document}
use legal_bridge.DocumentRoutes.Deleted.{delete_stored_document_removes}
use legal_bridge.Storage.{read_file}
use legal_bridge.Storage.Quarantine.{stored_at, without_stored}
use legal_bridge.Storage.Tests.{files}

abbrev metadata : DocumentMetadataCreate
metadata = record {
  original_filename = "order.pdf";
  content_type = "application/pdf";
  size_bytes = 100;
  sha256 = "01";
  category = "order";
}

-- A document with a stored file, and another one.
abbrev order : DocumentRecord
order = record statement { storage_key = some "10/50/40/original.txt" }

abbrev two_documents : Db
two_documents = record stored { documents = order ∷ record order { id = 41 } ∷ [] }

abbrev before_deletion : World
before_deletion = record {
  session = record { committed = two_documents; working = two_documents };
  files = files;
}

abbrev after_deletion : World
after_deletion =
    (delete_stored_document (codes "documents") (codes ".quarantine/1.deleted") 50 40 admin_alice
      before_deletion).1

deletes :
    delete_stored_document
      (codes "documents")
      (codes ".quarantine/1.deleted")
      50
      40
      admin_alice
      before_deletion
    ≡ (ok tt, after_deletion)
unfolding delete_stored_document document_editor require_roles get_organization_case get_document
deletes = refl

delete_stored_document_removes_example :
    (row : DocumentRecord) × (find (is_document 10 50 40) two_documents.documents ≡ some row)
    × (any (λ d. d.id == 40) after_deletion.session.committed.documents ≡ false)
    × (any (of_document 40) after_deletion.session.committed.document_pages ≡ false)
    × (any (refers 40) after_deletion.session.committed.citation_checks ≡ false)
    × (find (λ d. d.id == 41) after_deletion.session.committed.documents
        ≡ find (λ d. d.id == 41) two_documents.documents)
    × (read_file (codes "10/50/40/original.txt") after_deletion.files
        ≡ without_stored (stored_at row.storage_key) (codes "10/50/40/original.txt") files)
delete_stored_document_removes_example =
    delete_stored_document_removes (codes "documents") (codes ".quarantine/1.deleted") 50 40
      admin_alice before_deletion after_deletion 41 (codes "10/50/40/original.txt") refl refl
      deletes
