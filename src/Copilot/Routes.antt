-- ===== src/Copilot/Routes.antt =====
-- server/app/api/routes/copilot.py: the threads of a case and their messages.
pub mod Exchanges
pub mod Providers
use legal_bridge.Prelude.{
  ℕ, String, Bool, Option, none, some, List, [], ◌∷◌, ◌++◌, ◌&&◌, ◌==◌, not, find, filter, map,
  sort_by, length, flatten, leb, codes, is_prefix, join, if◌then◌else◌,
}
use legal_bridge.Store.Schema.{
  Uuid, DateTime, Text, Reference, CopilotThread, CopilotMessage, AuditEvent, Db, Metadata, number,
  name, plain,
}
use legal_bridge.Store.Session.{
  ApplicationError, Action, ◌>>=◌, ◌>>◌, pure, query, modify, commit, or_raise, add_audit_event,
}
use legal_bridge.Auth.Principal.{Principal}
use legal_bridge.Cases.{get_organization_case}
use legal_bridge.Extraction.Texts.{is_empty_text}
use legal_bridge.Copilot.{Answer}
use legal_bridge.Copilot.Nim.{NimSettings, is_nvidia_nim}
use legal_bridge.Copilot.Answering.{Services, copilot_answer}

abbrev pub copilot_thread_not_found : ApplicationError
copilot_thread_not_found = record {
  status_code = 404;
  code = "copilot_thread_not_found";
  message = "Copilot thread not found.";
}

abbrev pub is_thread_of : Uuid → Uuid → CopilotThread → Bool
is_thread_of organization_id case_id t =
    (t.organization_id == organization_id) && (t.case_id == case_id)

-- The query of `_thread`.
abbrev pub own_thread : Uuid → Uuid → Uuid → Db → Option CopilotThread
own_thread organization_id case_id thread_id db =
    find (λ t. (t.id == thread_id) && is_thread_of organization_id case_id t) db.copilot_threads

-- `_thread`
unfoldable pub thread_of : Uuid → Uuid → Uuid → Action CopilotThread
thread_of organization_id case_id thread_id = do
  thread ← query (own_thread organization_id case_id thread_id)
  or_raise thread copilot_thread_not_found

pub record ThreadPayload : Type 0 where
  pub thread : CopilotThread
  pub messages : List CopilotMessage

-- `_payload`
unfoldable pub payload_of : CopilotThread → Db → ThreadPayload
unfolding sort_by
payload_of thread db = record {
  thread = thread;
  messages =
      sort_by (λ (a b : CopilotMessage). leb a.created_at b.created_at)
        (filter (λ (m : CopilotMessage). m.thread_id == thread.id) db.copilot_messages);
}

unfoldable pub list_threads : Uuid → Principal → Action (List ThreadPayload)
unfolding payload_of sort_by
list_threads case_id principal = do
  get_organization_case principal.organization.id case_id
  query (λ db.
      map (λ t. payload_of t db)
        (sort_by (λ (a b : CopilotThread). leb b.updated_at a.updated_at)
          (filter (is_thread_of principal.organization.id case_id) db.copilot_threads)))

abbrev pub copilot_event :
    Principal
    → Uuid
    → String
    → Uuid
    → String
    → String
    → List (record { key : String; value : Metadata })
    → AuditEvent
copilot_event principal case_id entity_type entity_id event_type message metadata = record {
  organization_id = principal.organization.id;
  case_id = some case_id;
  actor_user_id = some principal.user.id;
  event_type = event_type;
  message = plain message;
  entity_type = entity_type;
  entity_id = entity_id;
  metadata_json = metadata;
}

abbrev pub add_message : CopilotMessage → Db → Db
add_message m db = record db { copilot_messages = db.copilot_messages ++ m ∷ [] }

-- `thread_id` is fresh.
unfoldable pub create_thread : Uuid → DateTime → Uuid → String → Principal → Action ThreadPayload
unfolding payload_of
create_thread thread_id now case_id title principal = do
  get_organization_case principal.organization.id case_id
  let thread : CopilotThread = record {
    id = thread_id;
    organization_id = principal.organization.id;
    case_id = case_id;
    created_by_user_id = principal.user.id;
    title = title;
    updated_at = now;
  }
  modify (λ db. record db { copilot_threads = db.copilot_threads ++ thread ∷ [] })
  add_audit_event (
      copilot_event principal case_id "copilot_thread" thread.id "copilot_thread_created"
        "Case-aware Legal Copilot thread created." [])
  commit
  query (payload_of thread)

unfoldable pub get_thread : Uuid → Uuid → Principal → Action ThreadPayload
unfolding payload_of thread_of
get_thread case_id thread_id principal = do
  thread ← thread_of principal.organization.id case_id thread_id
  query (payload_of thread)

abbrev pub extractive_lead : String
extractive_lead = "The retrieved case records contain"

-- `provider_used`
unfoldable pub provider_used : NimSettings → Text → String
provider_used settings answer =
    if is_nvidia_nim settings.ai_provider && not (is_prefix (codes extractive_lead) answer)
    then "nvidia_nim"
    else "extractive_fallback"

-- The identifiers and the times of the two messages.
pub record NewMessages : Type 0 where
  pub user_message_id : Uuid
  pub assistant_message_id : Uuid
  pub asked_at : DateTime
  pub answered_at : DateTime

pub record Exchange : Type 0 where
  pub user_message : CopilotMessage
  pub assistant_message : CopilotMessage

abbrev pub user_message_of : NewMessages → CopilotThread → Text → CopilotMessage
user_message_of new thread content = record {
  id = new.user_message_id;
  thread_id = thread.id;
  role = "user";
  content = content;
  source_references_json = [];
  metadata_json = [];
  created_at = new.asked_at;
}

abbrev pub assistant_message_of :
    NimSettings → NewMessages → CopilotThread → Answer → CopilotMessage
assistant_message_of settings new thread result = record {
  id = new.assistant_message_id;
  thread_id = thread.id;
  role = "assistant";
  content = result.answer;
  source_references_json = result.references;
  metadata_json =
      record { key = "provider_used"; value = name (provider_used settings result.answer) } ∷ [];
  created_at = new.answered_at;
}

abbrev pub response_event : NimSettings → NewMessages → Uuid → Principal → Answer → AuditEvent
response_event settings new case_id principal result =
    copilot_event principal case_id "copilot_message" new.assistant_message_id "copilot_response"
      "Legal Copilot produced a deterministic source-grounded response."
      (record { key = "source_reference_count"; value = number (length result.references) }
        ∷ record { key = "provider_used"; value = name (provider_used settings result.answer) }
        ∷ [])

module _ (services : Services) (new : NewMessages) (case_id : Uuid) (content : Text) where
  -- `create_message`, from the assistant's message on.
  unfoldable pub store_reply : CopilotThread → Principal → Answer → Action Exchange
  store_reply thread principal result = do
    let replied = assistant_message_of services.settings new thread result
    modify (add_message replied)
    add_audit_event (response_event services.settings new case_id principal result)
    commit
    pure (record { user_message = user_message_of new thread content; assistant_message = replied })

  -- `create_message`, behind the query for the thread.
  unfoldable pub reply_to : CopilotThread → Principal → Action Exchange
  unfolding copilot_answer store_reply
  reply_to thread principal = do
    modify (add_message (user_message_of new thread content))
    result ← copilot_answer services principal.organization.id case_id content
    store_reply thread principal result

  unfoldable pub create_message : Uuid → Principal → Action Exchange
  unfolding thread_of reply_to
  create_message thread_id principal = do
    thread ← thread_of principal.organization.id case_id thread_id
    reply_to thread principal
