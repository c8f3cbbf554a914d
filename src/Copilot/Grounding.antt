-- ===== src/Copilot/Grounding.antt =====
-- References that are grounded in the pages of a case, and lemmas on `_load_all_pages` and
-- `_dedup_refs`.
use legal_bridge.Prelude.{
  ℕ, ◌≤◌, true, false, Option, none, some, List, [], ◌∷◌, ◌≡◌, ◌&&◌, ◌==◌, refl, arith, Mem, All,
  All-sort_by, All-mono, All-passed, All-map, All-Mem, All-find, any, map, find, length, text_eq,
  ==_iff, if-both, if-cases,
}
use legal_bridge.Store.Schema.{
  Uuid, Text, ExtractionStatus, DocumentRecord, DocumentPage, Reference, Db,
}
use legal_bridge.Store.Session.{Result, ok, err}
use legal_bridge.Store.Tables.{find_holds}
use legal_bridge.Motions.Checks.{with_document}
use legal_bridge.Analysis.Observations.{Source, is_processed, source_le, load_sources}
use legal_bridge.Copilot.{Answer, reference, dedup_refs}
use legal_bridge.Copilot.Questions.{references_of}

-- A page of the case, stored for a processed document.
abbrev pub IsStored : Uuid → Uuid → Db → Source → Type 0
IsStored organization_id case_id db (page, document) =
    Mem page db.document_pages
    × (page.organization_id ≡ organization_id)
    × (page.case_id ≡ case_id)
    × Mem document db.documents
    × (document.id ≡ page.document_id)
    × (document.extraction_status ≡ ExtractionStatus.processed)

-- A reference to such a page.
abbrev pub IsGrounded : Uuid → Uuid → Db → Reference → Type 0
IsGrounded organization_id case_id db r =
    (s : Source) × (r ≡ reference s) × IsStored organization_id case_id db s

-- A statement of an answer that is given.
abbrev pub Gives : (Answer → Type 0) → Result Answer → Type 0
Gives P (ok a) = P a
Gives P (err e) = Unit

abbrev pub NotSeen : List Text → Text → Type 0
NotSeen seen label = any (text_eq label) seen ≡ false

-- No two references have the same label.
abbrev pub LabelsDiffer : List Reference → Type 0
LabelsDiffer [] = Unit
LabelsDiffer (r ∷ rs) =
    All (λ (q : Reference). text_eq q.label r.label ≡ false) rs × LabelsDiffer rs

processed_is :
    (status : ExtractionStatus) → is_processed status ≡ true → status ≡ ExtractionStatus.processed
processed_is status h = ground arith

both_ids : (a b c d : ℕ) → ((a == b) && (c == d)) ≡ true → (a ≡ b) × (c ≡ d)
both_ids a b c d h = ground arith

module _ (organization_id case_id : Uuid) (db : Db) where
  abbrev IsOfCase : DocumentPage → Type 0
  IsOfCase p =
      Mem p db.document_pages × (p.organization_id ≡ organization_id) × (p.case_id ≡ case_id)

  abbrev IsBeside : Source → Type 0
  IsBeside (page, document) =
      IsOfCase page × Mem document db.documents × (document.id ≡ page.document_id)

  beside :
      (page : DocumentPage)
      → IsOfCase page
      → (o : Option DocumentRecord)
      → find (λ (d : DocumentRecord). d.id == page.document_id) db.documents ≡ o
      → (rest : List Source) → All IsBeside rest
      → All IsBeside (elim o [ none ↦ rest | some d ↦ (page, d) ∷ rest ])
  beside page h none e rest k = k
  beside page h (some d) e rest k = (
    (
      h,
      All-find (λ d. Mem d db.documents) (λ (d : DocumentRecord). d.id == page.document_id)
          db.documents d (All-Mem db.documents) e,
      (==_iff d.id page.document_id).0
          (find_holds (λ (d : DocumentRecord). d.id == page.document_id) db.documents d e),
    ),
    k,
  )

  with_document-IsBeside :
      (pages : List DocumentPage)
      → All IsOfCase pages
      → All IsBeside (with_document db.documents pages)
  with_document-IsBeside [] h = tt
  with_document-IsBeside (p ∷ ps) h =
      beside p h.0 (find (λ (d : DocumentRecord). d.id == p.document_id) db.documents) refl
        (with_document db.documents ps) (with_document-IsBeside ps h.1)

  pub load_sources-IsStored :
      All (IsStored organization_id case_id db) (load_sources organization_id case_id db)
  unfolding load_sources
  load_sources-IsStored = All-sort_by (IsStored organization_id case_id db) source_le _ (
      All-passed IsBeside (IsStored organization_id case_id db)
        (λ (s : Source). is_processed s.1.extraction_status)
        (λ s b e. (b.0.0, b.0.1, b.0.2, b.1, b.2, processed_is s.1.extraction_status e))
        (with_document db.documents _)
        (with_document-IsBeside _ (
          All-passed (λ p. Mem p db.document_pages) IsOfCase
            (λ (p : DocumentPage). (p.organization_id == organization_id) && (p.case_id == case_id))
            (λ p m e.
              let (o, c) = both_ids p.organization_id organization_id p.case_id case_id e in
              (m, o, c))
            db.document_pages (All-Mem db.document_pages))))

dedup_refs-All :
    (P : Reference → Type 0) (seen : List Text) (refs : List Reference)
    → All P refs
    → All P (dedup_refs seen refs)
unfolding dedup_refs
dedup_refs-All P seen [] h = tt
dedup_refs-All P seen (r ∷ refs) h =
    if-both (All P) (any (text_eq r.label) seen) (dedup_refs-All P seen refs h.1)
      (h.0, dedup_refs-All P (r.label ∷ seen) refs h.1)

pub references_of-IsGrounded :
    (organization_id case_id : Uuid) (db : Db) (pages : List Source)
    → All (IsStored organization_id case_id db) pages
    → All (IsGrounded organization_id case_id db) (references_of pages)
references_of-IsGrounded organization_id case_id db pages h =
    dedup_refs-All (IsGrounded organization_id case_id db) [] (map reference pages) (
      All-map (IsGrounded organization_id case_id db) reference pages (
        All-mono (IsStored organization_id case_id db)
          (λ (s : Source). IsGrounded organization_id case_id db (reference s))
          (λ s k. (s, refl, k)) pages h))

-- None of the labels that were seen comes again.
dedup_refs-NotSeen :
    (seen : List Text) (refs : List Reference)
    → All (λ (r : Reference). NotSeen seen r.label) (dedup_refs seen refs)
unfolding dedup_refs
dedup_refs-NotSeen seen [] = tt
dedup_refs-NotSeen seen (r ∷ refs) =
    if-cases (All (λ (q : Reference). NotSeen seen q.label)) (any (text_eq r.label) seen)
      (λ e. dedup_refs-NotSeen seen refs)
      (λ e. (
        e,
        All-mono (λ (q : Reference). NotSeen (r.label ∷ seen) q.label)
            (λ (q : Reference). NotSeen seen q.label) (λ q k. ground arith)
            (dedup_refs (r.label ∷ seen) refs) (dedup_refs-NotSeen (r.label ∷ seen) refs),
      ))

pub dedup_refs-LabelsDiffer :
    (seen : List Text) (refs : List Reference) → LabelsDiffer (dedup_refs seen refs)
unfolding dedup_refs
dedup_refs-LabelsDiffer seen [] = tt
dedup_refs-LabelsDiffer seen (r ∷ refs) =
    if-both LabelsDiffer (any (text_eq r.label) seen) (dedup_refs-LabelsDiffer seen refs) (
      All-mono (λ (q : Reference). NotSeen (r.label ∷ seen) q.label)
          (λ (q : Reference). text_eq q.label r.label ≡ false) (λ q k. ground arith)
          (dedup_refs (r.label ∷ seen) refs) (dedup_refs-NotSeen (r.label ∷ seen) refs),
      dedup_refs-LabelsDiffer (r.label ∷ seen) refs,
    )

pub length-dedup_refs_le :
    (seen : List Text) (refs : List Reference) → length (dedup_refs seen refs) ≤ length refs
unfolding dedup_refs
length-dedup_refs_le seen [] = omega arith
length-dedup_refs_le seen (r ∷ refs) =
    ground (arith, length-dedup_refs_le seen refs, length-dedup_refs_le (r.label ∷ seen) refs)
