-- ===== src/Copilot/Nim.antt =====
-- server/app/services/platform.py: `_nvidia_nim_answer`. The HTTP client of
-- the language model service is a parameter: it says how each request ends.
pub mod Attempts
use legal_bridge.Prelude.{
  ℕ, zero, suc, ◌+◌, ◌-◌, String, Bool, true, false, Option, none, some, List, [], ◌∷◌, ◌++◌, ◌&&◌,
  ◌||◌, ◌==◌, not, any, map, take, length, flatten, ltb, leb, codes, decimal, text_eq, lower_char,
  is_prefix, contains, join, if◌then◌else◌,
}
use legal_bridge.Store.Schema.{Text}
use legal_bridge.Config.Validators.{AiProvider}
use legal_bridge.Extraction.Texts.{
  is_empty_text, is_space, cons_first, line_feeds, strip, lstrip, rstrip,
}
use legal_bridge.Analysis.Patterns.{Python}
use legal_bridge.Analysis.Observations.{Source}
use legal_bridge.Copilot.Questions.{names_any}
use legal_bridge.Copilot.Usable.{usable_nim_content}

abbrev pub system_prompt : String
system_prompt =
    "You are LegalBridge Copilot. Start with a direct answer to the user's question. Answer only from supplied SOURCE blocks; do not reveal internal reasoning or invent facts, files, pages, statutes, or precedents. Use these headings: Case status; What the records show; Important inconsistencies; Recommended next steps; Sources. Cite every factual claim with the exact [filename p.number] source label. Keep current-case evidence separate from general procedural guidance and state when a clarifying detail is needed. "

abbrev pub no_authority : String
no_authority =
    "No verified authority was retrieved from the current LegalBridge authority corpus. State exactly: 'No verified authority is available in the current LegalBridge authority corpus.'"

abbrev pub no_mention : String
no_mention = "Do not mention legal authorities unless one is supplied in the evidence."

-- The settings of the service; the validators ask for a URL and a key where it is configured.
pub record NimSettings : Type 0 where
  pub ai_provider : AiProvider
  pub ai_fallback_enabled : Bool
  pub nvidia_nim_model : Text
  pub nvidia_nim_base_url : Text
  pub nvidia_nim_api_key : Text

-- A request to the service. Its temperature is always zero and its time limit 25 seconds.
pub record NimRequest : Type 0 where
  pub url : Text
  pub api_key : Text
  pub model : Text
  pub system : Text
  pub user : Text

-- How a request ends: with a content, which is a string or is not, with an error status, with
-- another of the errors that are caught, or with one that no `except` names, such as that of a
-- malformed URL.
pub data NimReply : Type 0 where
  content : Option Text → NimReply
  status_error : NimReply
  transport_error : NimReply
  other_error : NimReply

-- The attempt is given with the request.
pub record NimClient : Type 0 where
  pub post : ℕ → NimRequest → NimReply

-- An answer, the fallback, or an exception.
pub data NimOutcome : Type 0 where
  answered : Text → NimOutcome
  fallback : NimOutcome
  raised : NimOutcome

abbrev pub is_nvidia_nim : AiProvider → Bool
is_nvidia_nim AiProvider.nvidia_nim = true
is_nvidia_nim _ = false

abbrev pub source_block : Source → Text
source_block (page, document) = flatten (
    codes "SOURCE ["
    ∷ codes document.original_filename
    ∷ codes " p."
    ∷ decimal page.page_number
    ∷ codes "]\n"
    ∷ take 5000 page.extracted_text
    ∷ [])

unfoldable pub context_of : List Source → Text
unfolding join
context_of selected = join (codes "\n\n") (map source_block (take 16 selected))

module _ (python : Python) (settings : NimSettings) (client : NimClient) where
  abbrev pub is_legal_question : Text → Bool
  is_legal_question question =
      names_any ("statute" ∷ "section" ∷ "precedent" ∷ "authority" ∷ "law" ∷ "legal research" ∷ [])
        (python.casefold question)

  unfoldable pub nim_request : Text → Text → NimRequest
  unfolding rstrip
  nim_request question context = record {
    url = rstrip (λ c. c == 47) settings.nvidia_nim_base_url ++ codes "/chat/completions";
    api_key = settings.nvidia_nim_api_key;
    model = settings.nvidia_nim_model;
    system =
        codes system_prompt
        ++ (if is_legal_question question then codes no_authority else codes no_mention);
    user = flatten (codes "Question: " ∷ question ∷ codes "\n\n" ∷ context ∷ []);
  }

  abbrev pub on_error : NimOutcome
  on_error = if settings.ai_fallback_enabled then fallback else raised

  -- The attempts that are left, behind those that were made; with the number of requests.
  unfoldable pub nim_attempts : NimRequest → ℕ → ℕ → NimOutcome × ℕ
  unfolding usable_nim_content
  nim_attempts request zero attempt = (fallback, attempt)
  nim_attempts request (suc left) attempt = elim (client.post attempt request) [
    | status_error ↦ (on_error, attempt + 1)
    | transport_error ↦ (on_error, attempt + 1)
    | other_error ↦ (raised, attempt + 1)
    | content c ↦ elim (usable_nim_content python c) [
      | some usable ↦ (answered usable, attempt + 1)
      | none ↦ nim_attempts request left (attempt + 1)
    ]
  ]

  -- `_nvidia_nim_answer`, with the number of requests that it sends.
  unfoldable pub nvidia_nim_answer : Text → List Source → NimOutcome × ℕ
  unfolding nim_request nim_attempts context_of
  nvidia_nim_answer question selected =
      let context = context_of selected in
      if not (is_nvidia_nim settings.ai_provider) || is_empty_text context
      then (fallback, 0)
      else nim_attempts (nim_request question context) 2 0
