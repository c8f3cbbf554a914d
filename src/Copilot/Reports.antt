-- ===== src/Copilot/Reports.antt =====
-- server/app/api/routes/copilot.py: `download_report`. The writers of DOCX and PDF files are
-- parameters.
pub mod Delivered
use legal_bridge.Prelude.{
  ℕ, String, Bool, Option, none, some, List, [], ◌∷◌, ◌++◌, ◌&&◌, ◌==◌, not, find, filter, map,
  sort_by, length, flatten, leb, codes, is_prefix, join, if◌then◌else◌,
}
use legal_bridge.Store.Schema.{
  Uuid, DateTime, Text, Reference, CopilotThread, CopilotMessage, AuditEvent, Db, Metadata, number,
  name, plain,
}
use legal_bridge.Store.Session.{
  ApplicationError, Action, ◌>>=◌, ◌>>◌, pure, query, modify, commit, or_raise, add_audit_event,
}
use legal_bridge.Auth.Principal.{Principal}
use legal_bridge.Cases.{get_organization_case}
use legal_bridge.Extraction.Texts.{is_empty_text}
use legal_bridge.Copilot.{Answer}
use legal_bridge.Copilot.Nim.{NimSettings, is_nvidia_nim}
use legal_bridge.Copilot.Answering.{Services, copilot_answer}
use legal_bridge.Copilot.Routes.{thread_of, copilot_event}

pub data ReportFormat : Type 0 where
  pdf docx : ReportFormat

pub data ReportKind : Type 0 where
  chronology contradictions summary : ReportKind

pub record ReportWriters : Type 0 where
  -- `date.today().isoformat()`
  pub today : Text
  -- The title and the sections with their headings.
  pub write_docx : Text → List (Text × Text) → List ℕ
  pub write_pdf : Text → List ℕ

abbrev pub report_title : ReportKind → String
report_title ReportKind.chronology = "LegalBridge Chronology Report"
report_title ReportKind.contradictions = "LegalBridge Contradictions Report"
report_title ReportKind.summary = "LegalBridge Summary Report"

abbrev pub report_question : ReportKind → String
report_question ReportKind.chronology = "Build the complete chronology with sources."
report_question ReportKind.contradictions = "Explain all contradictions with sources."
report_question ReportKind.summary = "Summarise the complete case with sources."

abbrev pub report_message : ReportFormat → ReportKind → String
report_message pdf ReportKind.chronology = "Generated PDF Copilot chronology report."
report_message pdf ReportKind.contradictions = "Generated PDF Copilot contradictions report."
report_message pdf ReportKind.summary = "Generated PDF Copilot summary report."
report_message docx ReportKind.chronology = "Generated DOCX Copilot chronology report."
report_message docx ReportKind.contradictions = "Generated DOCX Copilot contradictions report."
report_message docx ReportKind.summary = "Generated DOCX Copilot summary report."

abbrev pub report_filename : ReportFormat → ReportKind → String
report_filename pdf ReportKind.chronology = "legalbridge-chronology.pdf"
report_filename pdf ReportKind.contradictions = "legalbridge-contradictions.pdf"
report_filename pdf ReportKind.summary = "legalbridge-summary.pdf"
report_filename docx ReportKind.chronology = "legalbridge-chronology.docx"
report_filename docx ReportKind.contradictions = "legalbridge-contradictions.docx"
report_filename docx ReportKind.summary = "legalbridge-summary.docx"

pub record ReportFile : Type 0 where
  pub content : List ℕ
  pub media_type : String
  pub filename : String

abbrev pub manifest_lines : List Reference → List Text
manifest_lines references = map (λ (r : Reference). codes "- " ++ r.label) references

-- `manifest or ...`
abbrev pub manifest_or : Text → Text
manifest_or manifest =
    if is_empty_text manifest then codes "- No source pages available" else manifest

abbrev pub report_body : Text → Text → Text → Text → Text
report_body today title content manifest = flatten (
    title
    ∷ codes "\nGenerated: "
    ∷ today
    ∷ codes "\n\nEvidence and analysis\n"
    ∷ content
    ∷ codes "\n\nSource manifest\n"
    ∷ manifest
    ∷ codes "\n\nAttorney review required. Not legal advice; no automatic court filing."
    ∷ [])

-- `_report_bytes`: the bytes and the media type.
unfoldable pub report_bytes :
    ReportWriters → Text → Text → List Reference → ReportFormat → List ℕ × String
unfolding join
report_bytes writers title content references docx =
    let manifest = manifest_or (join (codes "\n") (manifest_lines references)) in
    (
      writers.write_docx title
          ((codes "Evidence and analysis", content) ∷ (codes "Source manifest", manifest) ∷ []),
      "application/vnd.openxmlformats-officedocument.wordprocessingml.document",
    )
report_bytes writers title content references pdf =
    let manifest = manifest_or (join (codes "\n") (manifest_lines references)) in
    (writers.write_pdf (report_body writers.today title content manifest), "application/pdf")

-- The audit event of a report.
abbrev pub report_event : Uuid → Uuid → ReportFormat → ReportKind → Principal → AuditEvent
report_event case_id thread_id format kind principal =
    copilot_event principal case_id "copilot_thread" thread_id "copilot_report_generated"
      (report_message format kind) []

abbrev pub report_file : ReportWriters → ReportFormat → ReportKind → Answer → ReportFile
report_file writers format kind result =
    let file =
      report_bytes writers (codes (report_title kind)) result.answer result.references format in
    record { content = file.0; media_type = file.1; filename = report_filename format kind }

module _ (writers : ReportWriters) (case_id thread_id : Uuid) (format : ReportFormat)
    (kind : ReportKind) (principal : Principal) where
  -- `download_report`, behind the answer.
  unfoldable pub deliver_report : Answer → Action ReportFile
  unfolding report_bytes
  deliver_report result = do
    add_audit_event (report_event case_id thread_id format kind principal)
    commit
    pure (report_file writers format kind result)

  module _ (services : Services) where
    -- `download_report`, behind the query for the thread.
    unfoldable pub report_on : Action ReportFile
    unfolding copilot_answer deliver_report
    report_on = do
      result ←
          copilot_answer services principal.organization.id case_id (codes (report_question kind))
      deliver_report result

    unfoldable pub download_report : Action ReportFile
    unfolding thread_of report_on
    download_report = do thread_of principal.organization.id case_id thread_id; report_on
