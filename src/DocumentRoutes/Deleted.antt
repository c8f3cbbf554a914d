-- ===== src/DocumentRoutes/Deleted.antt =====
-- What a deletion of a document removes and what it keeps, in the rows and in the storage.
use legal_bridge.Prelude.{
  false, none, some, List, [], ◌∷◌, ◌≡◌, refl, ap, ◌∙◌, arith, any, filter, find, update_where, not,
  ◌==◌, Option-cases, inl, inr,
}
use legal_bridge.Store.Schema.{Uuid, Text, DocumentRecord, DocumentPage, CitationCheckRecord}
use legal_bridge.Store.Session.{ok}
use legal_bridge.Store.Tables.{find_holds}
use legal_bridge.Auth.Principal.{Principal, require_roles}
use legal_bridge.Cases.{get_organization_case}
use legal_bridge.Processing.{of_document, delete_pages}
use legal_bridge.Storage.{Files, Quarantined, read_file, quarantine, purge_quarantined}
use legal_bridge.Storage.Quarantine.{stored_at, without_stored, purged}
use legal_bridge.DocumentRoutes.{document_editor, get_document, is_document, refers, delete_record}
use legal_bridge.DocumentRoutes.World.{World}
use legal_bridge.DocumentRoutes.Downloads.{delete_stored_document}

no_page :
    (k : Uuid) (ps : List DocumentPage)
    → any (of_document k) (filter (λ p. not (of_document k p)) ps) ≡ false
no_page k [] = refl
no_page k (p ∷ ps) = ground (arith, no_page k ps)

no_document :
    (k : Uuid) (ds : List DocumentRecord)
    → any (λ d. d.id == k) (filter (λ d. not (d.id == k)) ds) ≡ false
no_document k [] = refl
no_document k (d ∷ ds) = ground (arith, no_document k ds)

no_check :
    (k : Uuid) (cs : List CitationCheckRecord)
    → any
        (refers k)
        (update_where (refers k) (λ check. record check { source_document_id = none }) cs)
      ≡ false
no_check k [] = refl
no_check k (c ∷ cs) = ground (arith, no_check k cs)

other_document :
    (k other : Uuid) (ds : List DocumentRecord)
    → (other == k) ≡ false
    → find (λ d. d.id == other) (filter (λ d. not (d.id == k)) ds) ≡ find (λ d. d.id == other) ds
other_document k other [] h = refl
other_document k other (d ∷ ds) h = ground (arith, other_document k other ds h)

module _ (root other : Text) (case_id document_id : Uuid) (sender : Principal) (w : World) where
  -- What a deletion that succeeds has found, and what it leaves.
  delete_inv :
      (w' : World)
      → delete_stored_document root other case_id document_id sender w ≡ (ok tt, w')
      → (row : DocumentRecord) × (q : Quarantined) × (files : Files) × (find
            (is_document sender.organization.id case_id document_id)
            w.session.working.documents
          ≡ some row)
        × (quarantine root other row.storage_key w.files ≡ some (q, files))
        × (w'.files ≡ purge_quarantined q files)
        × (w'.session.committed.documents ≡ (delete_record row.id w.session.working).documents)
        × (w'.session.committed.document_pages
            ≡ (delete_record row.id w.session.working).document_pages)
        × (w'.session.committed.citation_checks
            ≡ (delete_record row.id w.session.working).citation_checks)
  unfolding delete_stored_document document_editor require_roles get_organization_case get_document
  delete_inv w' h =
      elim (Option-cases (
        find (is_document sender.organization.id case_id document_id)
          w.session.working.documents)) [
            | inl e ↦ ground (arith, h, e)
            | inr (row, e) ↦ elim (Option-cases (quarantine root other row.storage_key w.files)) [
              | inl f ↦ ground (arith, h, e, f)
              | inr ((q, files), f) ↦ (
                row,
                q,
                files,
                e,
                f,
                ground (arith, h, e, f),
                ground (arith, h, e, f),
                ground (arith, h, e, f),
                ground (arith, h, e, f),
              )
            ]
          ]

  -- A deletion that succeeds was of a document of the case in the sender's organisation, and leaves
  -- in the committed rows no document with its identifier, no page of it and no citation check that
  -- refers to it, and every other document as it was; in the storage its file is gone, also from the
  -- quarantine, and every other path reads as before, where the path of the fresh quarantine name was
  -- free.
  pub delete_stored_document_removes :
      (w' : World) (other_id : Uuid) (path : Text)
      → read_file other w.files ≡ none
      → (other_id == document_id) ≡ false
      → delete_stored_document root other case_id document_id sender w ≡ (ok tt, w')
      → (row : DocumentRecord) × (find
            (is_document sender.organization.id case_id document_id)
            w.session.working.documents
          ≡ some row)
        × (any (λ d. d.id == document_id) w'.session.committed.documents ≡ false)
        × (any (of_document document_id) w'.session.committed.document_pages ≡ false)
        × (any (refers document_id) w'.session.committed.citation_checks ≡ false)
        × (find (λ d. d.id == other_id) w'.session.committed.documents
            ≡ find (λ d. d.id == other_id) w.session.working.documents)
        × (read_file path w'.files ≡ without_stored (stored_at row.storage_key) path w.files)
  delete_stored_document_removes w' other_id path free apart h =
      let (row, q, files, e, f, left, documents, pages, checks) = delete_inv w' h in
      let fits =
        find_holds (is_document sender.organization.id case_id document_id)
          w.session.working.documents row e in
      let same : row.id ≡ document_id = ground arith in
      (
        row,
        e,
        rw (documents, same) (no_document document_id w.session.working.documents),
        rw (pages, same) (no_page document_id w.session.working.document_pages),
        rw (checks, same)
            (no_check document_id (delete_pages document_id w.session.working).citation_checks),
        rw (documents, same)
            (other_document document_id other_id w.session.working.documents apart),
        ap (read_file path) left ∙ purged root other row.storage_key w.files files q path free f,
      )
