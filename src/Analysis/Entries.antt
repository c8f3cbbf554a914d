-- ===== src/Analysis/Entries.antt =====
-- server/app/services/analysis.py: the excerpts, the observations that stand for pages without a
-- record, and the contradiction rows.
use legal_bridge.Prelude.{
  ℕ, ◌+◌, String, some, List, [], ◌∷◌, ◌++◌, ◌||◌, take, codes, decimal, text_eq, if◌then◌else◌,
}
use legal_bridge.Store.Schema.{Uuid, Text, ContradictionRecord}
use legal_bridge.Analysis.Observations.{Source, SourceObservation, source_excerpt}
use legal_bridge.Analysis.Contradictions.{Contradiction}
use legal_bridge.Analysis.Rows.{Call}

unfoldable pub excerpts_from : ℕ → List Source → List Text
unfolding source_excerpt
excerpts_from index [] = []
excerpts_from index ((page, document) ∷ sources) =
    source_excerpt page (decimal (index + 1)) ∷ excerpts_from (index + 1) sources

-- The observations that stand for pages without a record.
unfoldable pub document_references : ℕ → List Source → List SourceObservation
unfolding source_excerpt
document_references index [] = []
document_references index ((page, document) ∷ sources) =
    record {
      key = codes "document_reference";
      value = codes document.original_filename;
      detail = source_excerpt page (decimal (index + 1));
      page = page;
      document = document;
      excerpt = source_excerpt page (decimal (index + 1));
    }
    ∷ document_references (index + 1) sources

abbrev pub or_references : List Source → List SourceObservation → List SourceObservation
or_references sources [] = document_references 0 (take 20 sources)
or_references sources (o ∷ os) = o ∷ os

abbrev pub contradiction_severity : Text → String
contradiction_severity key =
    if text_eq key (codes "seal_code") || text_eq key (codes "arrest_time")
    then "high"
    else "medium"

abbrev pub contradiction_record : Call → Uuid → Contradiction → ContradictionRecord
contradiction_record call new_id c = record {
  id = new_id;
  organization_id = call.organization_id;
  case_id = call.case_id;
  analysis_run_id = call.fresh 0;
  title = c.title;
  description =
      codes c.source_a.document.original_filename
      ++ (codes " records "
          ++ (c.source_a.value
              ++ (codes ", while "
                  ++ (codes c.source_b.document.original_filename
                      ++ (codes " records "
                          ++ (c.source_b.value
                              ++ codes
                                  ". The difference affects the reliability of the combined chronology and should be resolved against the original records."))))));
  severity = contradiction_severity c.key;
  status = "review_required";
  source_a_document_id = some c.source_a.document.id;
  source_a_page_id = some c.source_a.page.id;
  source_a_excerpt = c.source_a.excerpt;
  source_b_document_id = some c.source_b.document.id;
  source_b_page_id = some c.source_b.page.id;
  source_b_excerpt = c.source_b.excerpt;
  reviewer_note = some "Compare the cited pages and record the reconciled value.";
}

unfoldable pub contradiction_records : Call → ℕ → List Contradiction → List ContradictionRecord
contradiction_records call n [] = []
contradiction_records call n (c ∷ cs) =
    contradiction_record call (call.fresh n) c ∷ contradiction_records call (n + 1) cs

abbrev pub future_ai_unavailable : String
future_ai_unavailable =
    "The future AI provider is intentionally unavailable; ANALYSIS_PROVIDER=deterministic is required."
