-- ===== src/Copilot/References.antt =====
-- The references of the answers of `copilot_answer`.
use legal_bridge.Prelude.{
  ◌≤◌, false, Option, none, some, List, [], ◌∷◌, ◌≡◌, refl, arith, All, All-filter, All-take,
  All-sort_by, filter, map, take, length, length-take, sort_by, if-both,
}
use legal_bridge.Store.Schema.{Uuid, Text, Reference, Db}
use legal_bridge.Store.Session.{Session, Action}
use legal_bridge.Extraction.Sections.{is_empty}
use legal_bridge.Analysis.Observations.{Source}
use legal_bridge.Copilot.{Answer, reference, load_all_pages}
use legal_bridge.Copilot.Questions.{
  is_compare, is_timeline, is_contradiction, is_similar, is_report, is_broad, mentioned_filenames,
  is_of_files, candidates, scored_le, selected_pages, references_of,
}
use legal_bridge.Copilot.Nim.{NimOutcome, answered, fallback, raised}
use legal_bridge.Copilot.Similar.{SimilarCase, similar_answer}
use legal_bridge.Copilot.Extractive.{file_answer, single_name, extractive_answer}
use legal_bridge.Copilot.Answering.{
  Services, lowered, selected_for, answer_behind, answer_from, copilot_answer,
}
use legal_bridge.Copilot.Grounding.{
  IsStored, IsGrounded, Gives, LabelsDiffer, load_sources-IsStored, references_of-IsGrounded,
  dedup_refs-LabelsDiffer, length-dedup_refs_le,
}

length-map {ℓ κ} :
    {A : Type ℓ} {B : Type κ} (f : A → B) (xs : List A) → length (map f xs) ≡ length xs
length-map f [] = refl
length-map f (x ∷ xs) = omega (arith, length-map f xs)

module _ (services : Services) (organization_id case_id : Uuid) (question : Text) where
  open services use {python, relevance, show_date, settings, client}

  abbrev only_file : List Source → Option Text
  only_file all_rows =
      single_name
        (mentioned_filenames python (lowered services organization_id case_id question) all_rows)

  -- What holds of no reference, of those to the selected pages and of those to the pages of the one
  -- file that is mentioned, holds of the references of every answer.
  module _ (P : List Reference → Type 0) (all_rows : List Source) (nothing : P [])
      (chosen : P (references_of (selected_for services organization_id case_id question all_rows)))
      (of_file : (name : Text)
        → only_file all_rows ≡ some name
        → P (references_of (filter (is_of_files python (name ∷ [])) all_rows))) where
    abbrev selected : List Source
    selected = selected_for services organization_id case_id question all_rows

    similar_answer_none : (similar : List SimilarCase) → P (similar_answer similar).references
    unfolding similar_answer
    similar_answer_none similar =
        if-both (λ (a : Answer). P a.references) (is_empty similar) nothing nothing

    file_answer_holds :
        (name : Text)
        → only_file all_rows ≡ some name
        → P (file_answer python show_date organization_id case_id all_rows name).references
    unfolding file_answer
    file_answer_holds name e =
        if-both (λ (a : Answer). P a.references)
          (is_empty (filter (is_of_files python (name ∷ [])) all_rows)) nothing (of_file name e)

    by_name :
        (o : Option Text)
        → only_file all_rows ≡ o
        → (text : Text)
        → P
            (elim o as (λ _. Answer) [
              | some name ↦ file_answer python show_date organization_id case_id all_rows name
              | none ↦ record { answer = text; references = references_of selected }
            ]).references
    by_name (some name) e text = file_answer_holds name e
    by_name none e text = chosen

    extractive_answer_holds :
        (db : Db)
        → P
            (extractive_answer python show_date organization_id case_id all_rows
              (lowered services organization_id case_id question)
              selected
              db).references
    unfolding extractive_answer
    extractive_answer_holds db =
        let text = lowered services organization_id case_id question in
        if-both (λ (a : Answer). P a.references) (is_report text) chosen
          (if-both (λ (a : Answer). P a.references) (is_timeline text) chosen
            (if-both (λ (a : Answer). P a.references) (is_contradiction text) chosen
              (if-both (λ (a : Answer). P a.references) (is_compare text) chosen
                (by_name (only_file all_rows) refl _))))

    answer_behind_holds :
        (outcome : NimOutcome) (s : Session)
        → Gives
            (λ a. P a.references)
            (answer_behind services organization_id case_id question all_rows selected outcome s).0
    unfolding answer_behind
    answer_behind_holds (answered text) s = chosen
    answer_behind_holds fallback s = extractive_answer_holds s.working
    answer_behind_holds raised s = tt

    pub answer_from_holds :
        (s : Session)
        → Gives
            (λ a. P a.references)
            (answer_from services organization_id case_id question all_rows s).0
    unfolding answer_from
    answer_from_holds s =
        let text = lowered services organization_id case_id question in
        if-both (λ (m : Action Answer). Gives (λ a. P a.references) (m s).0) (is_empty all_rows)
          nothing
          (if-both (λ (m : Action Answer). Gives (λ a. P a.references) (m s).0) (is_similar text)
            (similar_answer_none _)
            (if-both (λ (m : Action Answer). Gives (λ a. P a.references) (m s).0)
              (is_empty selected) nothing (answer_behind_holds _ s)))

  selected_for_holds :
      (Q : Source → Type 0) (all_rows : List Source)
      → All Q all_rows
      → All Q (selected_for services organization_id case_id question all_rows)
  unfolding selected_for selected_pages candidates
  selected_for_holds Q all_rows h =
      let text = lowered services organization_id case_id question in
      let names = mentioned_filenames python text all_rows in
      All-take Q _ _ (
        All-sort_by Q (scored_le relevance question) _
          (if-both (All Q) (is_empty names) h (All-filter Q (is_of_files python names) all_rows h)))

  at_most_five :
      (all_rows : List Source)
      → is_broad (lowered services organization_id case_id question) ≡ false
      → length (references_of (selected_for services organization_id case_id question all_rows)) ≤ 5
  unfolding selected_for selected_pages
  at_most_five all_rows targeted =
      let text = lowered services organization_id case_id question in
      let names = mentioned_filenames python text all_rows in
      let scored = sort_by (scored_le relevance question) (candidates python names all_rows) in
      rw targeted (
        omega (
          arith,
          length-dedup_refs_le [] (map reference (take 5 scored)),
          length-map reference (take 5 scored),
          length-take 5 scored,
        ))

  -- Every reference of an answer is to a stored page of the case and the organisation, of a document
  -- that has been processed; and no two references of an answer have the same label.
  pub copilot_answer-IsGrounded :
      (s : Session)
      → Gives
          (λ a.
            All (IsGrounded organization_id case_id s.working) a.references
            × LabelsDiffer a.references)
          (copilot_answer services organization_id case_id question s).0
  unfolding copilot_answer
  copilot_answer-IsGrounded s =
      let rows = load_all_pages organization_id case_id s.working in
      let stored = load_sources-IsStored organization_id case_id s.working in
      let grounded = references_of-IsGrounded organization_id case_id s.working in
      answer_from_holds
        (λ refs. All (IsGrounded organization_id case_id s.working) refs × LabelsDiffer refs) rows
        (tt, tt)
        (
          grounded _ (selected_for_holds (IsStored organization_id case_id s.working) rows stored),
          dedup_refs-LabelsDiffer [] _,
        )
        (λ name e. (
          grounded _ (
              All-filter (IsStored organization_id case_id s.working)
                (is_of_files python (name ∷ [])) rows stored),
          dedup_refs-LabelsDiffer [] _,
        ))
        s

  -- A question that is not broad, and that does not mention exactly one file of the case, is answered
  -- with at most five references.
  pub copilot_answer_targeted :
      (s : Session)
      → is_broad (lowered services organization_id case_id question) ≡ false
      → only_file (load_all_pages organization_id case_id s.working) ≡ none
      → Gives
          (λ a. length a.references ≤ 5)
          (copilot_answer services organization_id case_id question s).0
  unfolding copilot_answer
  copilot_answer_targeted s targeted unnamed =
      let rows = load_all_pages organization_id case_id s.working in
      answer_from_holds (λ refs. length refs ≤ 5) rows (omega arith) (at_most_five rows targeted)
        (λ name e. absurd (ground (arith, e, unnamed))) s
