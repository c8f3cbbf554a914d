-- ===== src/Processing/Replaced.antt =====
-- What the rows of a processed document say.
use legal_bridge.Prelude.{
  ℕ, ◌+◌, ◌≤◌, String, Bool, Option, none, some, List, [], ◌∷◌, ◌++◌, ◌≡◌, refl, sym, ap, subst,
  ◌∙◌, ==_self, ◌==◌, All, update_where, not, map, arith, filter, length, Option-cases, inl, inr,
}
use legal_bridge.Store.Schema.{Uuid, DateTime, Text, DocumentRecord, DocumentPage, Db}
use legal_bridge.Processing.Saved.{Saved, process_document-Saved}
use legal_bridge.Store.Session.{Session, Result, ok, err, request}
use legal_bridge.Config.{Settings}
use legal_bridge.Extraction.Pages.{ExtractedPage, ExtractionResult}
use legal_bridge.Extraction.Limits.{characters}
use legal_bridge.Extraction.Formats.{Readers}
use legal_bridge.Extraction.Documents.{extract_document}
use legal_bridge.Extraction.Sound.{extract_document-Sound}
use legal_bridge.Processing.{
  of_document, page_rows, started, finished, StorageService, stored_key, process_document,
  unexpected_error,
}

abbrev pub row_characters : List DocumentPage → ℕ
row_characters [] = 0
row_characters (p ∷ ps) = p.character_count + row_characters ps

-- What the row of a page says: its number, label, text and method.
abbrev pub shown_page : DocumentPage → ExtractedPage
shown_page p = record {
  page_number = p.page_number;
  page_label = p.page_label;
  extracted_text = p.extracted_text;
  extraction_method = p.extraction_method;
}

-- The row is the document's, in its organisation and case, and counts the characters of its text.
abbrev pub BelongsTo : DocumentRecord → DocumentPage → Type 0
BelongsTo d p =
    (p.organization_id ≡ d.organization_id)
    × (p.case_id ≡ d.case_id)
    × (p.character_count ≡ length p.extracted_text)

filter-append :
    (p : DocumentPage → Bool) (xs ys : List DocumentPage)
    → filter p (xs ++ ys) ≡ filter p xs ++ filter p ys
filter-append p [] ys = refl
filter-append p (x ∷ xs) ys = ground (arith, filter-append p xs ys)

filter-deleted :
    (p : DocumentPage → Bool) (xs : List DocumentPage) → filter p (filter (λ x. not (p x)) xs) ≡ []
filter-deleted p [] = refl
filter-deleted p (x ∷ xs) = ground (arith, filter-deleted p xs)

module _ (now : DateTime) (fresh : ℕ → Uuid) (d : DocumentRecord) where
  filter-page_rows :
      (n : ℕ) (pages : List ExtractedPage)
      → filter (of_document d.id) (page_rows now fresh d n pages) ≡ page_rows now fresh d n pages
  unfolding page_rows
  filter-page_rows n [] = refl
  filter-page_rows n (page ∷ pages) = ground (arith, ==_self d.id, filter-page_rows (n + 1) pages)

  length-page_rows :
      (n : ℕ) (pages : List ExtractedPage) → length (page_rows now fresh d n pages) ≡ length pages
  unfolding page_rows
  length-page_rows n [] = refl
  length-page_rows n (page ∷ pages) = omega (arith, length-page_rows (n + 1) pages)

  characters-page_rows :
      (n : ℕ) (pages : List ExtractedPage)
      → row_characters (page_rows now fresh d n pages) ≡ characters pages
  unfolding page_rows
  characters-page_rows n [] = refl
  characters-page_rows n (page ∷ pages) = omega (arith, characters-page_rows (n + 1) pages)

  shown-page_rows :
      (n : ℕ) (pages : List ExtractedPage) → map shown_page (page_rows now fresh d n pages) ≡ pages
  unfolding page_rows
  shown-page_rows n [] = refl
  shown-page_rows n (page ∷ pages) = ap (λ r. page ∷ r) (shown-page_rows (n + 1) pages)

  page_rows-BelongsTo :
      (n : ℕ) (pages : List ExtractedPage) → All (BelongsTo d) (page_rows now fresh d n pages)
  unfolding page_rows
  page_rows-BelongsTo n [] = tt
  page_rows-BelongsTo n (page ∷ pages) = ((refl, refl, refl), page_rows-BelongsTo (n + 1) pages)

-- The value of a reply, or the given one.
abbrev value : {A : Type 0} → A → Result A → A
value a (ok b) = b
value a (err e) = a

-- The rows of the document after old ones have been deleted and new ones added.
replaced :
    (now : DateTime) (fresh : ℕ → Uuid) (d : DocumentRecord) (old : List DocumentPage)
    (pages : List ExtractedPage)
    → filter
        (of_document d.id)
        (filter (λ p. not (of_document d.id p)) old ++ page_rows now fresh d 0 pages)
      ≡ page_rows now fresh d 0 pages
replaced now fresh d old pages =
    filter-append (of_document d.id) (filter (λ p. not (of_document d.id p)) old)
      (page_rows now fresh d 0 pages)
    ∙ (ap (λ r. r ++ filter (of_document d.id) (page_rows now fresh d 0 pages))
          (filter-deleted (of_document d.id) old)
        ∙ filter-page_rows now fresh d 0 pages)

-- The rows of the pages agree with the record and the result.
abbrev pub Agrees : DocumentRecord → ExtractionResult → List DocumentPage → Type 0
Agrees d result rows =
    (d.page_count ≡ length rows)
    × (d.extracted_character_count ≡ row_characters rows)
    × (map shown_page rows ≡ result.pages)
    × All (BelongsTo d) rows

-- What a session says of the rows it has committed is said of the rows behind the request.
committed_rows :
    (row : DocumentRecord) (ds : List DocumentRecord) (d : DocumentRecord) (db' : Db)
    (result : ExtractionResult) (q : Result (DocumentRecord × ExtractionResult) × Session)
    → Saved row ds q
    → q.0 ≡ ok (d, result)
    → q.1.committed ≡ db'
    → db'.documents ≡ update_where (λ r. r.id == row.id) (λ _. d) ds
committed_rows row ds d db' result (err e, s) h k left = ground (arith, k)
committed_rows row ds d db' result (ok (a, b), s) (key, id, case_same, rows) k left =
    let made : DocumentRecord × ExtractionResult = (a, b) in
    let same : made ≡ (d, result) = ap (value made) k in
    ap (λ db. db.documents) (sym left)
    ∙ (rows ∙ ap (λ x. update_where (λ r. r.id == row.id) (λ _. x) ds) (ap (λ q. q.0) same))

module _ (readers : Readers) (storage : StorageService) (settings : Settings) (now : DateTime)
    (fresh : ℕ → Uuid) (actor_user_id : Option Uuid) (row : DocumentRecord) (db : Db) where
  abbrev reply : Result (DocumentRecord × ExtractionResult) × Db
  reply = request (process_document readers storage settings now fresh actor_user_id row) db

  abbrev extracted : Text → ExtractionResult
  extracted path = extract_document readers path row.content_type settings

  processing_reply :
      (key : String) (path : Text)
      → stored_key row.storage_key ≡ some key
      → storage.path_for_key key ≡ some path
      → reply.0 ≡ ok (finished now (extracted path) (started row), extracted path)
  unfolding process_document
  processing_reply key path e f = ground (arith, e, f)

  processing_rows :
      (key : String) (path : Text)
      → stored_key row.storage_key ≡ some key
      → storage.path_for_key key ≡ some path
      → reply.1.document_pages
        ≡ filter (λ p. not (of_document row.id p)) db.document_pages
          ++ page_rows now fresh (started row) 0 (extracted path).pages
  unfolding process_document
  processing_rows key path e f = ground (arith, e, f)

  pub processing_no_key : stored_key row.storage_key ≡ none → reply ≡ (err unexpected_error, db)
  unfolding process_document
  processing_no_key e = ground (arith, e)

  pub processing_no_path :
      (key : String)
      → stored_key row.storage_key ≡ some key
      → storage.path_for_key key ≡ none
      → reply ≡ (err unexpected_error, db)
  unfolding process_document
  processing_no_path key e f = ground (arith, e, f)

  rows-Agrees :
      (path : Text)
      → Agrees
          (finished now (extracted path) (started row))
          (extracted path)
          (page_rows now fresh (started row) 0 (extracted path).pages)
  rows-Agrees path =
      let result = extracted path in
      (
        sym (length-page_rows now fresh (started row) 0 result.pages),
        (extract_document-Sound readers settings path row.content_type).0
            ∙ sym (characters-page_rows now fresh (started row) 0 result.pages),
        shown-page_rows now fresh (started row) 0 result.pages,
        page_rows-BelongsTo now fresh (started row) 0 result.pages,
      )

  -- What the theorem says of a record, a result and the rows.
  abbrev pub Replaces : DocumentRecord × ExtractionResult → List DocumentPage → Type 0
  Replaces (d, result) rows =
      Agrees d result rows
      × (d.extracted_character_count ≤ settings.extraction_text_limit)
      × (d.extraction_status ≡ result.status)

  processed_Replaces :
      (key : String) (path : Text) (db' : Db) (r : DocumentRecord × ExtractionResult)
      → stored_key row.storage_key ≡ some key
      → storage.path_for_key key ≡ some path
      → reply ≡ (ok r, db')
      → Replaces r (filter (of_document row.id) db'.document_pages)
  processed_Replaces key path db' r e f h =
      let result = extracted path in
      let ended = finished now result (started row) in
      let same : (ended, result) ≡ r =
        ap (value (ended, result)) (sym (processing_reply key path e f) ∙ ap (λ q. q.0) h) in
      let pages = sym (ap (λ q. q.1.document_pages) h) ∙ processing_rows key path e f in
      let rows =
        ap (filter (of_document row.id)) pages
        ∙ replaced now fresh (started row) db.document_pages result.pages in
      subst (λ q. Replaces q (filter (of_document row.id) db'.document_pages)) same
        (subst (λ ps. Replaces (ended, result) ps) (sym rows)
          (
            rows-Agrees path,
            (extract_document-Sound readers settings path row.content_type).1,
            refl,
          ))

  -- The record of a document that is processed is written over the one with its key.
  record_saved :
      (db' : Db) (d : DocumentRecord) (result : ExtractionResult)
      → request (process_document readers storage settings now fresh actor_user_id row) db
        ≡ (ok (d, result), db')
      → db'.documents ≡ update_where (λ r. r.id == row.id) (λ _. d) db.documents
  record_saved db' d result h =
      let s : Session = record { committed = db; working = db } in
      let saved = process_document-Saved readers storage settings now fresh actor_user_id row s in
      let ended = process_document readers storage settings now fresh actor_user_id row s in
      committed_rows row db.documents d db' result ended saved (ap (λ q. q.0) h) (ap (λ q. q.1) h)

  rows_replaced :
      (db' : Db) (d : DocumentRecord) (result : ExtractionResult)
      → request (process_document readers storage settings now fresh actor_user_id row) db
        ≡ (ok (d, result), db')
      → Replaces (d, result) (filter (of_document row.id) db'.document_pages)
  rows_replaced db' d result h = elim (Option-cases (stored_key row.storage_key)) [
    | inl e ↦ ground (arith, h, processing_no_key e)
    | inr (key, e) ↦ elim (Option-cases (storage.path_for_key key)) [
      | inl f ↦ ground (arith, h, processing_no_path key e f)
      | inr (path, f) ↦ processed_Replaces key path db' (d, result) e f h
    ]
  ]

  -- Where a document is processed, its rows are exactly the pages of the result, in order and with
  -- their numbers, labels, texts and methods, in the document's organisation and case, whatever rows
  -- it had; the record's page count is their number, its character count is the sum of theirs and
  -- at most the limit on a document's text, the record has the result's status, and it is written
  -- over the record with its key and over no other.
  pub process_document_replaces :
      (db' : Db) (d : DocumentRecord) (result : ExtractionResult)
      → request (process_document readers storage settings now fresh actor_user_id row) db
        ≡ (ok (d, result), db')
      → Agrees d result (filter (of_document row.id) db'.document_pages)
        × (d.extracted_character_count ≤ settings.extraction_text_limit)
        × (d.extraction_status ≡ result.status)
        × (db'.documents ≡ update_where (λ r. r.id == row.id) (λ _. d) db.documents)
  process_document_replaces db' d result h =
      let saved = record_saved db' d result h in
      let (agrees, bounded, status) = rows_replaced db' d result h in
      (agrees, bounded, status, saved)
