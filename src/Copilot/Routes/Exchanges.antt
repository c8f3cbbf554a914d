-- ===== src/Copilot/Routes/Exchanges.antt =====
-- What a message to the copilot leaves.
use legal_bridge.Prelude.{
  ◌⊎◌, inl, inr, ℕ, false, Option, some, List, [], ◌∷◌, ◌++◌, ◌≡◌, refl, sym, ap, subst,
  append_assoc, All, if-both,
}
use legal_bridge.Store.Schema.{Uuid, Text, CopilotThread, CopilotMessage, Db}
use legal_bridge.Store.Session.{Result, ok, err, Session, Action, ◌>>=◌, or_raise, request}
use legal_bridge.Auth.Principal.{Principal}
use legal_bridge.Processing.{unexpected_error}
use legal_bridge.Extraction.Sections.{is_empty}
use legal_bridge.Analysis.Observations.{Source}
use legal_bridge.Copilot.{Answer}
use legal_bridge.Copilot.Questions.{is_similar}
use legal_bridge.Copilot.Nim.{
  NimRequest, other_error, NimOutcome, answered, fallback, raised, nim_request, context_of,
}
use legal_bridge.Copilot.Nim.Attempts.{Ends, Tells, nvidia_nim_answer-Ends}
use legal_bridge.Copilot.Answering.{
  Services, lowered, selected_for, answer_behind, answer_from, copilot_answer,
}
use legal_bridge.Copilot.Grounding.{IsGrounded, Gives, LabelsDiffer}
use legal_bridge.Copilot.References.{copilot_answer-IsGrounded}
use legal_bridge.Copilot.Routes.{
  copilot_thread_not_found, own_thread, thread_of, add_message, NewMessages, Exchange,
  user_message_of, assistant_message_of, response_event, store_reply, reply_to, create_message,
}

module _ (services : Services) where
  -- The fallback is disabled, or the service may end a request with an error that is not caught.
  abbrev pub MayRaise : Type 0
  MayRaise =
      (services.settings.ai_fallback_enabled ≡ false)
      ⊎ ((k : ℕ) × (r : NimRequest) × (services.client.post k r ≡ other_error))

  -- The session as it was; an error is that of the service.
  abbrev pub Answers : Session → Result Answer × Session → Type 0
  Answers s (ok a, s') = s' ≡ s
  Answers s (err e, s') = (s' ≡ s) × (e ≡ unexpected_error) × MayRaise

  may_raise :
      (r : NimRequest) (n : ℕ)
      → Tells services.python services.settings services.client r raised n
      → MayRaise
  may_raise r n (inl e) = inl e
  may_raise r n (inr (k, less, e)) = inr (k, r, e)

  module _ (organization_id case_id : Uuid) (question : Text) (s : Session) where
    answer_behind-Answers :
        (all_rows selected : List Source) (limit : ℕ) (p : NimOutcome × ℕ)
        → Ends services.python services.settings services.client
            (nim_request services.python services.settings services.client question
              (context_of selected))
            limit
            p
        → Answers s
            (answer_behind services organization_id case_id question all_rows selected p.0 s)
    unfolding answer_behind
    answer_behind-Answers all_rows selected limit (answered text, n) h = refl
    answer_behind-Answers all_rows selected limit (fallback, n) h = refl
    answer_behind-Answers all_rows selected limit (raised, n) h = (refl, refl, may_raise _ n h.1)

    answer_from-Answers :
        (all_rows : List Source)
        → Answers s (answer_from services organization_id case_id question all_rows s)
    unfolding answer_from
    answer_from-Answers all_rows =
        let selected = selected_for services organization_id case_id question all_rows in
        if-both (λ (m : Action Answer). Answers s (m s)) (is_empty all_rows) refl
          (if-both (λ (m : Action Answer). Answers s (m s))
            (is_similar (lowered services organization_id case_id question)) refl
            (if-both (λ (m : Action Answer). Answers s (m s)) (is_empty selected) refl
              (answer_behind-Answers all_rows selected _ _ (
                nvidia_nim_answer-Ends services.python services.settings services.client question
                  selected))))

    pub copilot_answer-Answers :
        Answers s (copilot_answer services organization_id case_id question s)
    unfolding copilot_answer
    copilot_answer-Answers = answer_from-Answers _

  module _ (new : NewMessages) (case_id thread_id : Uuid) (content : Text)
      (sender : Principal) where
    -- The session behind the user's message.
    abbrev pub asked : Db → CopilotThread → Session
    asked db thread = record {
      committed = db;
      working = add_message (user_message_of new thread content) db;
    }

    abbrev pub with_exchange : CopilotThread → Answer → Db → Db
    with_exchange thread result db = record db {
      copilot_messages =
          db.copilot_messages
          ++ user_message_of new thread content
            ∷ assistant_message_of services.settings new thread result
            ∷ [];
      audit_events =
          db.audit_events ++ response_event services.settings new case_id sender result ∷ [];
    }

    -- An exchange of two messages behind the others, with one audit event and references that are
    -- grounded; or the error of the service, and the rows as they were.
    abbrev pub Replies : Db → CopilotThread → Result Exchange × Db → Type 0
    Replies db thread (err e, db') = (db' ≡ db) × (e ≡ unexpected_error) × MayRaise
    Replies db thread (ok exchange, db') =
        (result : Answer) × ((copilot_answer services sender.organization.id case_id content
            (asked db thread)).0
          ≡ ok result)
        × (db' ≡ with_exchange thread result db)
        × (exchange.user_message ≡ user_message_of new thread content)
        × (exchange.assistant_message ≡ assistant_message_of services.settings new thread result)
        × All (IsGrounded sender.organization.id case_id db) result.references
        × LabelsDiffer result.references

    module _ (db : Db) (thread : CopilotThread) where
      append_two :
          (ms : List CopilotMessage) (a b : CopilotMessage)
          → (ms ++ a ∷ []) ++ b ∷ [] ≡ ms ++ a ∷ b ∷ []
      append_two ms a b = append_assoc ms (a ∷ []) (b ∷ [])

      stored :
          (s : Session) (result : Answer)
          → s ≡ asked db thread
          → (copilot_answer services sender.organization.id case_id content (asked db thread)).0
            ≡ ok result
          → All (IsGrounded sender.organization.id case_id db) result.references
            × LabelsDiffer result.references
          → Replies db thread (
              let (r, s') = store_reply services new case_id content thread sender result s in
              (r, s'.committed))
      unfolding store_reply
      stored s result h q g = (
        result,
        q,
        rw h (
            ap
              (λ (ms : List CopilotMessage). record (with_exchange thread result db) {
                copilot_messages = ms;
              })
              (append_two db.copilot_messages _ _)),
        refl,
        refl,
        g.0,
        g.1,
      )

      on_answer :
          (r : Result Answer) (s : Session)
          → Answers (asked db thread) (r, s)
          → (copilot_answer services sender.organization.id case_id content (asked db thread)).0 ≡ r
          → Gives
              (λ a.
                All (IsGrounded sender.organization.id case_id db) a.references
                × LabelsDiffer a.references)
              r
          → Replies db thread (
              let (r', s') = elim r as (λ _. Result Exchange × Session) [
                | ok result ↦ store_reply services new case_id content thread sender result s
                | err e ↦ (err e, s)
              ] in
              (r', s'.committed))
      on_answer (ok result) s h q g = stored s result h q g
      on_answer (err e) s h q g = (ap (λ (t : Session). t.committed) h.0, h.1, h.2)

      on_pair :
          (p : Result Answer × Session)
          → Answers (asked db thread) p
          → (copilot_answer services sender.organization.id case_id content (asked db thread)).0
            ≡ p.0
          → Gives
              (λ a.
                All (IsGrounded sender.organization.id case_id db) a.references
                × LabelsDiffer a.references)
              p.0
          → Replies db thread (
              let (r', s') =
                (let (r, s) = p in
                  elim r as (λ _. Result Exchange × Session) [
                    | ok result ↦ store_reply services new case_id content thread sender result s
                    | err e ↦ (err e, s)
                  ]) in
              (r', s'.committed))
      on_pair (r, s) h q g = on_answer r s h q g

      reply_to-Replies :
          Replies db thread (request (reply_to services new case_id content thread sender) db)
      unfolding reply_to
      reply_to-Replies =
          on_pair (copilot_answer services sender.organization.id case_id content (asked db thread))
            (copilot_answer-Answers sender.organization.id case_id content (asked db thread)) refl
            (copilot_answer-IsGrounded services sender.organization.id case_id content
              (asked db thread))

    -- A message to a thread of the case in the sender's organisation is answered by
    -- copilot_answer: the question and that answer are stored behind the other messages, with one
    -- audit event, no other row changes, and the references of the answer are pages of the case, with different labels; or the service's
    -- error is passed on, which happens only where the fallback is disabled
    -- or the service may end with an error that is not caught, and no row has changed.
    pub create_message-Replies :
        (db : Db) (thread : CopilotThread)
        → own_thread sender.organization.id case_id thread_id db ≡ some thread
        → Replies db thread
            (request (create_message services new case_id content thread_id sender) db)
    unfolding create_message thread_of
    create_message-Replies db thread h =
        subst
          (λ (o : Option CopilotThread). Replies db thread (
            request
              (or_raise o copilot_thread_not_found >>= λ t.
                reply_to services new case_id content t sender)
              db))
          (sym h) (reply_to-Replies db thread)
