-- ===== src/Copilot/Reports/Delivered.antt =====
-- What a report of the copilot leaves, and what is answered for a thread of another case.
use legal_bridge.Prelude.{Option, none, some, [], ◌∷◌, ◌++◌, ◌≡◌, refl, sym, ap, subst, codes, All}
use legal_bridge.Store.Schema.{Uuid, Text, CopilotThread, Db}
use legal_bridge.Store.Session.{Result, ok, err, Session, Action, ◌>>=◌, or_raise, query, request}
use legal_bridge.Auth.Principal.{Principal}
use legal_bridge.Processing.{unexpected_error}
use legal_bridge.Copilot.{Answer}
use legal_bridge.Copilot.Answering.{Services, copilot_answer}
use legal_bridge.Copilot.Grounding.{IsGrounded, Gives, LabelsDiffer}
use legal_bridge.Copilot.References.{copilot_answer-IsGrounded}
use legal_bridge.Copilot.Routes.{
  copilot_thread_not_found, own_thread, thread_of, NewMessages, reply_to, payload_of, get_thread,
  create_message,
}
use legal_bridge.Copilot.Reports.{
  ReportFormat, ReportKind, ReportWriters, ReportFile, report_question, report_event, report_file,
  deliver_report, report_on, download_report,
}
use legal_bridge.Copilot.Routes.Exchanges.{MayRaise, Answers, copilot_answer-Answers}

module _ (case_id thread_id : Uuid) (sender : Principal) where
  refused :
      {A : Type 0} (k : CopilotThread → Action A) (db : Db)
      → own_thread sender.organization.id case_id thread_id db ≡ none
      → request (thread_of sender.organization.id case_id thread_id >>= k) db
        ≡ (err copilot_thread_not_found, db)
  unfolding thread_of
  refused {A} k db h =
      subst
        (λ (o : Option CopilotThread).
          request (or_raise o copilot_thread_not_found >>= k) db
          ≡ (err copilot_thread_not_found, db))
        (sym h) refl

  -- A thread that is not one of the case in the sender's organisation is not found: a message, a
  -- reading and a report are refused with 404 and change no row.
  pub thread_refused :
      (services : Services) (new : NewMessages) (content : Text) (writers : ReportWriters)
      (format : ReportFormat) (kind : ReportKind) (db : Db)
      → own_thread sender.organization.id case_id thread_id db ≡ none
      → (request (create_message services new case_id content thread_id sender) db
          ≡ (err copilot_thread_not_found, db))
        × (request (get_thread case_id thread_id sender) db ≡ (err copilot_thread_not_found, db))
        × (request (download_report writers case_id thread_id format kind sender services) db
            ≡ (err copilot_thread_not_found, db))
  unfolding create_message get_thread download_report
  thread_refused services new content writers format kind db h = (
    refused (λ t. reply_to services new case_id content t sender) db h,
    refused (λ t. query (payload_of t)) db h,
    refused (λ _. report_on writers case_id thread_id format kind sender services) db h,
  )

module _ (services : Services) (writers : ReportWriters) (case_id thread_id : Uuid)
    (format : ReportFormat) (kind : ReportKind) (sender : Principal) (db : Db) where
  abbrev pub before : Session
  before = record { committed = db; working = db }

  -- The file of an answer whose references are grounded, with one audit event; or the error of the
  -- service, and the rows as they were.
  abbrev pub Reports : Result ReportFile × Db → Type 0
  Reports (err e, db') = (db' ≡ db) × (e ≡ unexpected_error) × MayRaise services
  Reports (ok file, db') =
      (result : Answer) × ((copilot_answer services sender.organization.id case_id
          (codes (report_question kind)) before).0
        ≡ ok result)
      × (file ≡ report_file writers format kind result)
      × All (IsGrounded sender.organization.id case_id db) result.references
      × LabelsDiffer result.references
      × (db' ≡ record db {
        audit_events = db.audit_events ++ report_event case_id thread_id format kind sender ∷ [];
      })

  abbrev Grounded : Answer → Type 0
  Grounded a =
      All (IsGrounded sender.organization.id case_id db) a.references × LabelsDiffer a.references

  abbrev result_of : Result ReportFile × Session → Result ReportFile × Db
  result_of (r, s) = (r, s.committed)

  delivered :
      (result : Answer) (s : Session)
      → s ≡ before
      → (copilot_answer services sender.organization.id case_id
          (codes (report_question kind))
          before).0
        ≡ ok result
      → Grounded result
      → Reports (result_of (deliver_report writers case_id thread_id format kind sender result s))
  unfolding deliver_report
  delivered result s h q g = (
    result,
    q,
    refl,
    g.0,
    g.1,
    ap
        (λ (t : Session). record t.working {
          audit_events =
              t.working.audit_events ++ report_event case_id thread_id format kind sender ∷ [];
        })
        h,
  )

  on_answer :
      (p : Result Answer × Session)
      → Answers services before p
      → (copilot_answer services sender.organization.id case_id
          (codes (report_question kind))
          before).0
        ≡ p.0
      → Gives Grounded p.0
      → Reports (
          let (r', s') =
            (let (r, s) = p in
              elim r as (λ _. Result ReportFile × Session) [
                | ok result ↦ deliver_report writers case_id thread_id format kind sender result s
                | err e ↦ (err e, s)
              ]) in
          (r', s'.committed))
  on_answer (ok result, s) h q g = delivered result s h q g
  on_answer (err e, s) h q g = (ap (λ (t : Session). t.committed) h.0, h.1, h.2)

  report_on-Reports :
      Reports (request (report_on writers case_id thread_id format kind sender services) db)
  unfolding report_on
  report_on-Reports =
      let question = codes (report_question kind) in
      on_answer (copilot_answer services sender.organization.id case_id question before)
        (copilot_answer-Answers services sender.organization.id case_id question before) refl
        (copilot_answer-IsGrounded services sender.organization.id case_id question before)

  -- A report on a thread of the case in the sender's organisation is the file of what
  -- copilot_answer answers to the question of its kind; the references are pages of the case, with
  -- different labels, and one audit event is added and no other row changes; or the service's error is passed on, which happens only where the fallback is
  -- disabled or the service may end with an error that is not caught, and no row has changed.
  pub download_report-Reports :
      (thread : CopilotThread)
      → own_thread sender.organization.id case_id thread_id db ≡ some thread
      → Reports (request (download_report writers case_id thread_id format kind sender services) db)
  unfolding download_report thread_of
  download_report-Reports thread h =
      subst
        (λ (o : Option CopilotThread). Reports (
          request
            (or_raise o copilot_thread_not_found >>= λ _.
              report_on writers case_id thread_id format kind sender services)
            db))
        (sym h) report_on-Reports
