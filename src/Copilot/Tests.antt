-- ===== src/Copilot/Tests.antt =====
-- The theorems on the copilot at a case with one document of two pages, where the service of the
-- language model cannot be reached.
use legal_bridge.Prelude.{
  ◌≤◌, true, false, none, some, List, [], ◌∷◌, ◌≡◌, refl, All, length, ltb, ◌||◌, codes, decimal,
  if◌then◌else◌, lower, contains, sort_by, filter, join,
}
use legal_bridge.Store.Schema.{Text, DocumentPage, CaseStatus, LegalCase, CopilotThread, Db}
use legal_bridge.Store.Session.{ok, err, Session, request}
use legal_bridge.Config.Validators.{AiProvider}
use legal_bridge.Auth.Tests.{admin_alice}
use legal_bridge.Cases.Tests.{theft}
use legal_bridge.Analysis.Observations.{Source, load_sources}
use legal_bridge.Analysis.Tests.{python, case_file, first_page, second_page, memo}
use legal_bridge.Copilot.{Answer, load_all_pages, extract_records}
use legal_bridge.Copilot.Questions.{
  is_broad, is_similar, is_timeline, is_report, is_contradiction, is_compare, stem_of, is_mentioned,
  mentioned_filenames, candidates, selected_pages,
}
use legal_bridge.Copilot.Nim.{
  NimClient, content, transport_error, context_of, nim_request, nvidia_nim_answer,
}
use legal_bridge.Copilot.Usable.{usable_nim_content}
use legal_bridge.Copilot.Nim.Attempts.{Ends, is_asked, nvidia_nim_answer-Ends}
use legal_bridge.Copilot.Similar.{similar_cases}
use legal_bridge.Copilot.Similar.Isolation.{Tells, similar_cases-Tells}
use legal_bridge.Copilot.Answers.{timeline_text, contradiction_text, is_temporal, has_several}
use legal_bridge.Copilot.Extractive.{extractive_answer}
use legal_bridge.Copilot.Groups.{by_key, group_records}
use legal_bridge.Extraction.Sections.{is_empty}
use legal_bridge.Copilot.Answering.{Services, selected_for, copilot_answer}
use legal_bridge.Copilot.Grounding.{IsGrounded, Gives, LabelsDiffer}
use legal_bridge.Copilot.References.{copilot_answer-IsGrounded}
use legal_bridge.Copilot.Routes.{
  copilot_thread_not_found, own_thread, provider_used, NewMessages, create_message, get_thread,
}
use legal_bridge.Copilot.Reports.{ReportFormat, ReportKind, ReportWriters, download_report}
use legal_bridge.Copilot.Routes.Exchanges.{Replies, create_message-Replies}
use legal_bridge.Copilot.Routes.Providers.{fallback_claims_nim}
use legal_bridge.Copilot.Reports.Delivered.{Reports, thread_refused, download_report-Reports}

abbrev services : Services
services = record {
  python = python;
  relevance = record { higher = λ question a b. ltb (length b) (length a) };
  show_date = decimal;
  settings = record {
    ai_provider = AiProvider.nvidia_nim;
    ai_fallback_enabled = true;
    nvidia_nim_model = codes "model";
    nvidia_nim_base_url = codes "https://nim/v1/";
    nvidia_nim_api_key = codes "key";
  };
  client = record { post = λ k r. transport_error };
}

abbrev thread : CopilotThread
thread = record {
  id = 90;
  organization_id = 10;
  case_id = 50;
  created_by_user_id = 1;
  title = "Case source review";
  updated_at = 5;
}

abbrev chats : Db
chats = record case_file { copilot_threads = thread ∷ [] }

abbrev session : Session
session = record { committed = chats; working = chats }

abbrev new : NewMessages
new = record { user_message_id = 91; assistant_message_id = 92; asked_at = 6; answered_at = 7 }

abbrev writers : ReportWriters
writers = record {
  today = codes "2025-01-01";
  write_docx = λ title sections. title;
  write_pdf = λ body. body;
}

abbrev question : Text
question = codes "Show the Timeline"

copilot_answer-IsGrounded_example :
    Gives
      (λ a. All (IsGrounded 10 50 chats) a.references × LabelsDiffer a.references)
      (copilot_answer services 10 50 question session).0
copilot_answer-IsGrounded_example = copilot_answer-IsGrounded services 10 50 question session

abbrev rows : List Source
rows = (first_page, memo) ∷ (second_page, memo) ∷ []

-- A service that replies, and to no use.
abbrev curt : NimClient
curt = record services.client { post = λ k r. content (some (codes "No.")) }

nvidia_nim_answer-Ends_example :
    Ends python services.settings curt
      (nim_request python services.settings curt question (context_of rows))
      (if is_asked python services.settings curt rows then 2 else 0)
      (nvidia_nim_answer python services.settings curt question rows)
nvidia_nim_answer-Ends_example = nvidia_nim_answer-Ends python services.settings curt question rows

abbrev archived_case : LegalCase
archived_case = record theft { id = 60; status = CaseStatus.archived }

abbrev with_archive : Db
with_archive = record chats { cases = theft ∷ archived_case ∷ [] }

similar_cases-Tells_example :
    All (Tells 10 50 with_archive) (similar_cases python 10 50 (codes "seal" ∷ []) with_archive)
    × (length (similar_cases python 10 50 (codes "seal" ∷ []) with_archive) ≤ 3)
similar_cases-Tells_example = similar_cases-Tells 10 50 with_archive python (codes "seal" ∷ [])

finds : own_thread 10 50 90 chats ≡ some thread
finds = refl

create_message-Replies_example :
    Replies services new 50 90 question admin_alice chats thread
      (request (create_message services new 50 question 90 admin_alice) chats)
create_message-Replies_example =
    create_message-Replies services new 50 90 question admin_alice chats thread refl

thread_refused_example :
    (request (create_message services new 50 question 99 admin_alice) chats
      ≡ (err copilot_thread_not_found, chats))
    × (request (get_thread 50 99 admin_alice) chats ≡ (err copilot_thread_not_found, chats))
    × (request
          (download_report writers 50 99 ReportFormat.pdf ReportKind.summary admin_alice services)
          chats
        ≡ (err copilot_thread_not_found, chats))
thread_refused_example =
    thread_refused 50 99 admin_alice services new question writers ReportFormat.pdf
      ReportKind.summary chats refl

download_report-Reports_example :
    Reports services writers 50 90 ReportFormat.pdf ReportKind.summary admin_alice chats (
      request
        (download_report writers 50 90 ReportFormat.pdf ReportKind.summary admin_alice services)
        chats)
download_report-Reports_example =
    download_report-Reports services writers 50 90 ReportFormat.pdf ReportKind.summary admin_alice
      chats thread refl

loaded : load_all_pages 10 50 chats ≡ rows
unfolding load_sources sort_by
loaded = refl

not_similar : is_similar (lower question) ≡ false
unfolding is_similar contains lower
not_similar = refl

timeline_asked_too :
    (is_report (lower question)
      || is_timeline (lower question)
      || is_contradiction (lower question)
      || is_compare (lower question))
    ≡ true
unfolding is_report is_timeline is_contradiction is_compare contains lower
timeline_asked_too = refl

timeline_asked : is_timeline (lower question) ≡ true
unfolding is_timeline contains lower
timeline_asked = refl

-- Both pages are selected, the longer one first.
chosen : selected_for services 10 50 question rows ≡ rows
unfolding selected_for selected_pages candidates mentioned_filenames is_mentioned stem_of is_broad
    contains lower sort_by
chosen = refl

has_rows : is_empty (load_all_pages 10 50 chats) ≡ false
unfolding load_sources sort_by
has_rows = refl

has_chosen : is_empty (selected_for services 10 50 question (load_all_pages 10 50 chats)) ≡ false
has_chosen = rw (loaded, chosen) refl

fallback_claims_nim_example :
    (result : Answer) × (copilot_answer services 10 50 question session ≡ (ok result, session))
    × (result
        ≡ extractive_answer python decimal 10 50
            (load_all_pages 10 50 chats)
            (lower question)
            (selected_for services 10 50 question (load_all_pages 10 50 chats))
            chats)
    × (provider_used services.settings result.answer ≡ "nvidia_nim")
fallback_claims_nim_example =
    fallback_claims_nim services 10 50 question session refl refl (λ k r. refl) has_rows not_similar
      has_chosen timeline_asked_too

-- The chronology of the records, where no run has written one.
answers_timeline :
    timeline_text python decimal rows [] (filter is_temporal (extract_records rows))
    ≡ codes
        "Chronology reconstructed from extracted document records (attorney verification required):\n\n• Arrest time: at 09:15 — memo [memo.txt p.1]"
unfolding timeline_text extract_records contains decimal join
answers_timeline = refl

abbrev register : DocumentPage
register = record second_page { extracted_text = codes "RECORD: Seal code|B2|stored\n" }

-- Keys are told apart by their letters: `seal code` of the stored page is another key.
answers_contradictions :
    contradiction_text python decimal rows [] (
      filter has_several (
        by_key
          (extract_records ((first_page, memo) ∷ (second_page, memo) ∷ (register, memo) ∷ []))))
    ≡ codes
        "Extractive contradiction analysis from document RECORD fields (attorney verification required):\n\n**Seal code** — 2 differing values:\n  • \"A1\" — sealed 10:30 [memo.txt p.1]\n  • \"B2\" — stored [memo.txt p.2]"
unfolding contradiction_text extract_records group_records decimal join
answers_contradictions = refl

-- Internal remarks and repeated headings are left out.
cleans :
    usable_nim_content python (
      some (
        codes
          "# Direct answer\nWe need to answer this.\nThe seal code differs between the memo and the register [memo.txt p.1].\n\n\n\nSources\nmemo.txt p.1\nSOURCES\nmemo.txt p.2"))
    ≡ some (
        codes
          "Direct answer\n\nThe seal code differs between the memo and the register [memo.txt p.1].\n\nSources\nmemo.txt p.1\nmemo.txt p.2")
unfolding usable_nim_content contains lower
cleans = refl

refuses_short : usable_nim_content python (some (codes "No.")) ≡ none
unfolding usable_nim_content contains lower
refuses_short = refl

stems : stem_of (codes "memo.final.txt") ≡ codes "memo.final"
unfolding stem_of
stems = refl
