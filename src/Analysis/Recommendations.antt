-- ===== src/Analysis/Recommendations.antt =====
-- server/app/services/analysis.py: the strategy and the ethics rows of a run.
use legal_bridge.Prelude.{ℕ, ◌+◌, String, List, [], ◌∷◌, ◌++◌, codes}
use legal_bridge.Store.Schema.{StrategyRecommendation, EthicsFinding}
use legal_bridge.Analysis.Observations.{Source}
use legal_bridge.Analysis.Timeline.{Scope}
use legal_bridge.Analysis.Drafts.{source_at, source_text}

-- The titles of the recommendations with their priorities.
abbrev pub strategy_titles : List (String × String)
strategy_titles =
    ("Reconcile the event chronology", "high")
    ∷ ("Compare witness descriptions", "high")
    ∷ ("Trace the seizure record", "medium")
    ∷ ("Review electronic-record handling", "medium")
    ∷ ("Resolve location differences", "medium")
    ∷ ("Complete attorney source verification", "high")
    ∷ []

abbrev pub strategy : Scope → Source → String × String → StrategyRecommendation
strategy scope (page, document) (title, priority) = record {
  organization_id = scope.organization_id;
  case_id = scope.case_id;
  analysis_run_id = scope.analysis_run_id;
  title = title;
  description = "Source-grounded demonstration recommendation; not legal advice.";
  priority = priority;
  status = "attorney_review_required";
  rationale =
      codes "Supported by a review point in " ++ (source_text (page, document) ++ codes ".");
  risk =
      "Context may be incomplete; acting without checking original documents could create an unsupported claim.";
  next_action = "Attorney to compare the cited page with the original record.";
  supporting_source_ids_json = document.id ∷ page.id ∷ [];
}

unfoldable pub strategies_from :
    Scope → Source → List Source → ℕ → List (String × String) → List StrategyRecommendation
strategies_from scope source sources index [] = []
strategies_from scope source sources index (item ∷ items) =
    strategy scope (source_at (index + 4) source sources) item
    ∷ strategies_from scope source sources (index + 1) items

abbrev pub ethics_items : List (record { category : String; title : String; severity : String })
ethics_items =
    record {
      category = "unsupported_claims";
      title = "Unsupported claims must be removed";
      severity = "high";
    }
    ∷ record {
      category = "source_labels";
      title = "Synthetic authorities require prominent labels";
      severity = "medium";
    }
    ∷ record {
      category = "confidentiality";
      title = "Case information requires confidential handling";
      severity = "high";
    }
    ∷ record {
      category = "filing_boundary";
      title = "Automatic court filing is prohibited";
      severity = "critical";
    }
    ∷ []

abbrev pub ethics_finding :
    Scope → record { category : String; title : String; severity : String } → EthicsFinding
ethics_finding scope item = record {
  organization_id = scope.organization_id;
  case_id = scope.case_id;
  analysis_run_id = scope.analysis_run_id;
  category = item.category;
  title = item.title;
  description =
      "The Ethics Auditor requires cautious, source-linked language and human attorney control.";
  severity = item.severity;
  status = "requires_attorney_review";
  required_action =
      "Attorney must verify sources, remove overconfident language, and confirm that no court filing occurs.";
}
