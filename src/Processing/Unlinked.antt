-- ===== src/Processing/Unlinked.antt =====
-- What processing a document does to the citation checks that refer to its pages.
use legal_bridge.Prelude.{
  ℕ, String, false, Option, none, some, List, [], ◌∷◌, ◌≡◌, refl, sym, ap, subst, ◌∙◌, map, arith,
  any, update_where, Option-cases, inl, inr,
}
use legal_bridge.Store.Schema.{
  Uuid, DateTime, Text, DocumentRecord, DocumentPage, CitationCheckRecord, CheckStatus, Db,
}
use legal_bridge.Store.Session.{ok, request}
use legal_bridge.Config.{Settings}
use legal_bridge.Extraction.Pages.{ExtractionResult}
use legal_bridge.Extraction.Formats.{Readers}
use legal_bridge.Processing.{cites, StorageService, stored_key, process_document}
use legal_bridge.Processing.Replaced.{processing_no_key, processing_no_path}

abbrev pub check_status : CitationCheckRecord → CheckStatus
check_status check = check.status

abbrev unlinked : Uuid → List DocumentPage → List CitationCheckRecord → List CitationCheckRecord
unlinked document_id pages =
    update_where (cites document_id pages) (λ check. record check { source_page_id = none })

unlinked-cites_none :
    (document_id : Uuid) (pages : List DocumentPage) (checks : List CitationCheckRecord)
    → any (cites document_id pages) (unlinked document_id pages checks) ≡ false
unlinked-cites_none document_id pages [] = refl
unlinked-cites_none document_id pages (check ∷ checks) =
    ground (arith, unlinked-cites_none document_id pages checks)

unlinked_statuses :
    (document_id : Uuid) (pages : List DocumentPage) (checks : List CitationCheckRecord)
    → map check_status (unlinked document_id pages checks) ≡ map check_status checks
unlinked_statuses document_id pages [] = refl
unlinked_statuses document_id pages (check ∷ checks) =
    ground (arith, unlinked_statuses document_id pages checks)

module _ (readers : Readers) (storage : StorageService) (settings : Settings) (now : DateTime)
    (fresh : ℕ → Uuid) (actor_user_id : Option Uuid) (row : DocumentRecord) (db : Db) where
  processing_checks :
      (key : String) (path : Text)
      → stored_key row.storage_key ≡ some key
      → storage.path_for_key key ≡ some path
      → (request
          (process_document readers storage settings now fresh actor_user_id row)
          db).1.citation_checks
        ≡ unlinked row.id db.document_pages db.citation_checks
  unfolding process_document
  processing_checks key path e f = ground (arith, e, f)

  -- Processing a document leaves no citation check that refers to a page that the document had, and
  -- yet every check keeps its status, also `verified_source`.
  pub processing_unlinks_citations :
      (db' : Db) (r : DocumentRecord × ExtractionResult)
      → request (process_document readers storage settings now fresh actor_user_id row) db
        ≡ (ok r, db')
      → (any (cites row.id db.document_pages) db'.citation_checks ≡ false)
        × (map check_status db'.citation_checks ≡ map check_status db.citation_checks)
  processing_unlinks_citations db' r h = elim (Option-cases (stored_key row.storage_key)) [
    | inl e ↦
        ground
          (arith, h, processing_no_key readers storage settings now fresh actor_user_id row db e)
    | inr (key, e) ↦ elim (Option-cases (storage.path_for_key key)) [
      | inl f ↦ ground (
        arith,
        h,
        processing_no_path readers storage settings now fresh actor_user_id row db key e f,
      )
      | inr (path, f) ↦
          subst
            (λ checks.
              (any (cites row.id db.document_pages) checks ≡ false)
              × (map check_status checks ≡ map check_status db.citation_checks))
            (sym (processing_checks key path e f) ∙ ap (λ q. q.1.citation_checks) h)
            (
              unlinked-cites_none row.id db.document_pages db.citation_checks,
              unlinked_statuses row.id db.document_pages db.citation_checks,
            )
    ]
  ]
