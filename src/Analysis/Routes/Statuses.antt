-- ===== src/Analysis/Routes/Statuses.antt =====
-- The check statuses that a run writes on its versions, against the checks of the motion routes.
use legal_bridge.Prelude.{
  contains, lower, join, any, any-sort_by, ℕ, Bool, true, List, [], ◌∷◌, ◌≡◌, refl, sym, ap, ◌∙◌,
  arith, filter, sort_by, take, ◌==◌, ◌&&◌, leb,
}
use legal_bridge.Store.Schema.{
  Uuid, LegalCase, LegalAuthority, DocumentPage, DocumentRecord, CitationStatus, Db,
}
use legal_bridge.Motions.Drafting.{render_motion}
use legal_bridge.Motions.Checks.{
  missing_phrases, ethics_status, firewall, cited_pages, with_document,
}
use legal_bridge.Analysis.Patterns.{Python}
use legal_bridge.Analysis.Observations.{Source, load_sources, is_processed, source_le}
use legal_bridge.Analysis.Authorities.{Scores}
use legal_bridge.Analysis.Drafts.{motion_sections}
use legal_bridge.Analysis.Rows.{Call}
use legal_bridge.Analysis.Run.{drafted_version}

-- The text of a run's version has every phrase that the Ethics Auditor requires.
no_missing_phrase :
    (python : Python) (scores : Scores) (call : Call) (legal_case : LegalCase) (source : Source)
    (sources : List Source) (a b : LegalAuthority) (n : ℕ)
    → missing_phrases
        (drafted_version python scores call legal_case source sources a b n).rendered_text
      ≡ []
unfolding drafted_version motion_sections render_motion missing_phrases contains lower join
no_missing_phrase python scores call legal_case source sources a b n = refl

abbrev there {ℓ} : {A : Type ℓ} → A → Bool
there _ = true

any-filter {ℓ} :
    {A : Type ℓ} (p : A → Bool) (xs : List A) → any there (filter p xs) ≡ true → any there xs ≡ true
any-filter p [] h = h
any-filter p (x ∷ xs) h = refl

firewall_passes :
    (organization_id case_id version_id : Uuid) (pages : List (DocumentPage × DocumentRecord))
    (authorities : List LegalAuthority)
    → any there pages ≡ true
    → (firewall organization_id case_id version_id (take 3 pages) authorities).0
      ≡ CitationStatus.passed_synthetic_sources
unfolding firewall
firewall_passes organization_id case_id version_id [] authorities h = absurd (ground arith)
firewall_passes organization_id case_id version_id (p ∷ pages) authorities h = refl

-- A case with a source has a page to cite.
pages_there :
    (organization_id case_id : Uuid) (db : Db) (source : Source) (sources : List Source)
    → load_sources organization_id case_id db ≡ source ∷ sources
    → any there (
        with_document db.documents (
          filter
            (λ (p : DocumentPage). (p.organization_id == organization_id) && (p.case_id == case_id))
            db.document_pages))
      ≡ true
unfolding load_sources
pages_there organization_id case_id db source sources h =
    let joined = with_document db.documents (
      filter
        (λ (p : DocumentPage). (p.organization_id == organization_id) && (p.case_id == case_id))
        db.document_pages) in
    let kept = filter (λ (s : Source). is_processed s.1.extraction_status) joined in
    any-filter (λ (s : Source). is_processed s.1.extraction_status) joined
      (sym (any-sort_by source_le there kept) ∙ ap (any there) h)

-- The statuses that a run writes on the versions of its motion, without the checks of the motion
-- routes, are those that these checks give: the Ethics Auditor misses no phrase in the text of the
-- version, and for a case with a source the Citation Firewall, with whatever authorities, passes it.
pub run_statuses_agree :
    (python : Python) (scores : Scores) (call : Call) (legal_case : LegalCase) (source : Source)
    (sources : List Source) (a b : LegalAuthority) (n : ℕ) (authorities : List LegalAuthority)
    (db : Db)
    → load_sources call.organization_id call.case_id db ≡ source ∷ sources
    → let v = drafted_version python scores call legal_case source sources a b n in
      (v.ethics_check_status ≡ ethics_status (missing_phrases v.rendered_text))
      × (v.citation_check_status
          ≡ (firewall call.organization_id call.case_id v.id
              (cited_pages call.organization_id call.case_id db)
              authorities).0)
unfolding cited_pages drafted_version
run_statuses_agree python scores call legal_case source sources a b n authorities db h =
    let v = drafted_version python scores call legal_case source sources a b n in
    let older : DocumentPage × DocumentRecord → DocumentPage × DocumentRecord → Bool =
      λ p q. leb p.0.created_at q.0.created_at in
    let joined = with_document db.documents (
      filter
        (λ (p : DocumentPage).
          (p.organization_id == call.organization_id) && (p.case_id == call.case_id))
        db.document_pages) in
    (
      ap ethics_status (sym (no_missing_phrase python scores call legal_case source sources a b n)),
      sym (
          firewall_passes call.organization_id call.case_id v.id (sort_by older joined) authorities
            (any-sort_by older there joined
              ∙ pages_there call.organization_id call.case_id db source sources h)),
    )
