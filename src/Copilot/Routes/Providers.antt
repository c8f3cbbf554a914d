-- ===== src/Copilot/Routes/Providers.antt =====
-- What the copilot says about who wrote an answer, and what it answers to a thread of another case.
use mathlib.Core.Bool.{false≢true}
use legal_bridge.Prelude.{
  ℕ, Bool, true, false, List, [], ◌∷◌, ◌≡◌, ◌||◌, refl, sym, ◌∙◌, subst, arith, not, length, ltb,
  codes, is_prefix, join, if-both, if-cases, Bool-cases, inl, inr,
}
use legal_bridge.Store.Schema.{Uuid, Text, TimelineEventRecord, ContradictionRecord, Db}
use legal_bridge.Store.Session.{Result, ok, Session, Action}
use legal_bridge.Config.Validators.{AiProvider}
use legal_bridge.Extraction.Sections.{is_empty}
use legal_bridge.Extraction.Texts.{is_empty_text}
use legal_bridge.Analysis.Patterns.{Python}
use legal_bridge.Analysis.Observations.{Source}
use legal_bridge.Copilot.{PageRecord, Answer, load_all_pages}
use legal_bridge.Copilot.Questions.{
  is_similar, is_report, is_timeline, is_contradiction, is_compare,
}
use legal_bridge.Copilot.Groups.{Groups}
use legal_bridge.Copilot.Nim.{
  NimRequest, NimOutcome, fallback, transport_error, is_nvidia_nim, context_of, nim_request,
  nim_attempts, nvidia_nim_answer,
}
use legal_bridge.Copilot.Answers.{
  report_text, timeline_text, contradiction_text, comparison_text, comparison_heading, compared,
  by_document, lines_text,
}
use legal_bridge.Copilot.Extractive.{extractive_answer}
use legal_bridge.Copilot.Answering.{
  Services, lowered, selected_for, answer_behind, answer_from, copilot_answer,
}
use legal_bridge.Copilot.Routes.{extractive_lead, provider_used}

-- A text that does not begin the way that `create_message` looks for.
abbrev OtherLead : Text → Type 0
OtherLead text = is_prefix (codes extractive_lead) text ≡ false

module _ (python : Python) (show_date : ℕ → Text) (all_rows : List Source) where
  timeline_text-OtherLead :
      (events : List TimelineEventRecord) (recs : List PageRecord)
      → OtherLead (timeline_text python show_date all_rows events recs)
  unfolding timeline_text join
  timeline_text-OtherLead (ev ∷ events) recs = refl
  timeline_text-OtherLead [] (r ∷ recs) = refl
  timeline_text-OtherLead [] [] = refl

  contradiction_text-OtherLead :
      (cs : List ContradictionRecord) (groups : Groups)
      → OtherLead (contradiction_text python show_date all_rows cs groups)
  unfolding contradiction_text join
  contradiction_text-OtherLead (c ∷ cs) groups = refl
  contradiction_text-OtherLead [] (g ∷ groups) = refl
  contradiction_text-OtherLead [] [] = refl

module _ (python : Python) (selected : List Source) where
  report_text-OtherLead : (text : Text) → OtherLead (report_text python selected text)
  unfolding report_text
  report_text-OtherLead text = refl

  comparison-OtherLead :
      (lines : List Text)
      → OtherLead (lines_text (codes (comparison_heading python selected) ∷ lines))
  unfolding join
  comparison-OtherLead [] = refl
  comparison-OtherLead (line ∷ lines) = refl

  comparison_text-OtherLead : OtherLead (comparison_text python selected)
  unfolding comparison_text
  comparison_text-OtherLead = elim (Bool-cases (ltb (length (by_document selected)) 2)) [
    | inl e ↦ rw e refl
    | inr e ↦ rw e (comparison-OtherLead (compared python selected (by_document selected)))
  ]

module _ (services : Services) (organization_id case_id : Uuid) (question : Text) where
  open services use {python, show_date, settings, client}

  abbrev text : Text
  text = lowered services organization_id case_id question

  -- A question for which a report, a chronology, the contradictions or a comparison is made.
  abbrev pub is_routed : Bool
  is_routed = is_report text || is_timeline text || is_contradiction text || is_compare text

  extractive_answer-OtherLead :
      (all_rows selected : List Source) (db : Db)
      → is_routed ≡ true
      → OtherLead
          (extractive_answer python show_date organization_id case_id all_rows text selected
            db).answer
  unfolding extractive_answer
  extractive_answer-OtherLead all_rows selected db routed =
      if-cases (λ (a : Answer). OtherLead a.answer) (is_report text)
        (λ _. report_text-OtherLead python selected text)
        (λ r.
          if-cases (λ (a : Answer). OtherLead a.answer) (is_timeline text)
            (λ _. timeline_text-OtherLead python show_date all_rows _ _)
            (λ t.
              if-cases (λ (a : Answer). OtherLead a.answer) (is_contradiction text)
                (λ _. contradiction_text-OtherLead python show_date all_rows _ _)
                (λ c.
                  if-cases (λ (a : Answer). OtherLead a.answer) (is_compare text)
                    (λ _. comparison_text-OtherLead python selected)
                    (λ d. absurd (ground (arith, r, t, c, d, routed))))))

  no_attempt :
      (r : NimRequest)
      → settings.ai_fallback_enabled ≡ true
      → client.post 0 r ≡ transport_error
      → (nim_attempts python settings client r 2 0).0 ≡ fallback
  unfolding nim_attempts
  no_attempt r enabled down = ground arith

  no_reply :
      (selected : List Source)
      → settings.ai_fallback_enabled ≡ true
      → ((k : ℕ) (r : NimRequest) → client.post k r ≡ transport_error)
      → (nvidia_nim_answer python settings client question selected).0 ≡ fallback
  unfolding nvidia_nim_answer
  no_reply selected enabled down =
      let r = nim_request python settings client question (context_of selected) in
      if-both (λ (p : NimOutcome × ℕ). p.0 ≡ fallback)
        (not (is_nvidia_nim settings.ai_provider) || is_empty_text (context_of selected)) refl
        (no_attempt r enabled (down 0 r))

  answer_from_fallback :
      (s : Session) (all_rows : List Source)
      → is_empty all_rows ≡ false
      → is_similar text ≡ false
      → is_empty (selected_for services organization_id case_id question all_rows) ≡ false
      → (nvidia_nim_answer python settings client question
          (selected_for services organization_id case_id question all_rows)).0
        ≡ fallback
      → answer_from services organization_id case_id question all_rows s ≡ (
        ok (
            extractive_answer python show_date organization_id case_id all_rows text
              (selected_for services organization_id case_id question all_rows)
              s.working),
        s,
      )
  unfolding answer_from answer_behind
  answer_from_fallback s all_rows rows similar chosen none_came =
      let selected = selected_for services organization_id case_id question all_rows in
      let r : Result Answer = ok (
        extractive_answer python show_date organization_id case_id all_rows text selected
          s.working) in
      if-cases (λ (m : Action Answer). m s ≡ (r, s)) (is_empty all_rows)
        (λ e. absurd (false≢true (sym rows ∙ e)))
        (λ _.
          if-cases (λ (m : Action Answer). m s ≡ (r, s)) (is_similar text)
            (λ e. absurd (false≢true (sym similar ∙ e)))
            (λ _.
              if-cases (λ (m : Action Answer). m s ≡ (r, s)) (is_empty selected)
                (λ e. absurd (false≢true (sym chosen ∙ e)))
                (λ _.
                  subst
                    (λ (o : NimOutcome).
                      answer_behind services organization_id case_id question all_rows selected o s
                      ≡ (r, s))
                    (sym none_came) refl)))

  -- Where the service is configured and cannot be reached, and the fallback is enabled, a question
  -- for a report, a chronology, the contradictions or a comparison, for which pages are
  -- selected and which is not for similar cases, is answered by the extractive rules, and yet the
  -- provider of the answer is recorded as nvidia_nim.
  pub fallback_claims_nim :
      (s : Session)
      → settings.ai_provider ≡ AiProvider.nvidia_nim
      → settings.ai_fallback_enabled ≡ true
      → ((k : ℕ) (r : NimRequest) → client.post k r ≡ transport_error)
      → is_empty (load_all_pages organization_id case_id s.working) ≡ false
      → is_similar text ≡ false
      → is_empty (
          selected_for services organization_id case_id question
            (load_all_pages organization_id case_id s.working))
        ≡ false
      → is_routed ≡ true
      → (result : Answer) × (copilot_answer services organization_id case_id question s
          ≡ (ok result, s))
        × (result
            ≡ extractive_answer python show_date organization_id case_id
                (load_all_pages organization_id case_id s.working)
                text
                (selected_for services organization_id case_id question
                  (load_all_pages organization_id case_id s.working))
                s.working)
        × (provider_used settings result.answer ≡ "nvidia_nim")
  unfolding copilot_answer provider_used
  fallback_claims_nim s nim enabled down rows similar chosen routed =
      let all_rows = load_all_pages organization_id case_id s.working in
      let selected = selected_for services organization_id case_id question all_rows in
      let other = extractive_answer-OtherLead all_rows selected s.working routed in
      (
        extractive_answer python show_date organization_id case_id all_rows text selected s.working,
        answer_from_fallback s all_rows rows similar chosen (no_reply selected enabled down),
        refl,
        rw (nim, other) refl,
      )
