-- ===== src/Analysis/Timeline/Chronology.antt =====
-- The order of the timeline.
use legal_bridge.Prelude.{
  ℕ, suc, ◌+◌, ◌≤◌, Bool, true, false, List, [], ◌∷◌, ◌≡◌, refl, ap, arith, length, length-take,
  take, filter, sort_by, leb, ◌==◌, codes, text_le_total, Linked, Linked-sort_by, Linked-take,
  if◌then◌else◌,
}
use legal_bridge.Store.Schema.{TimelineEventRecord}
use legal_bridge.Analysis.Patterns.{Python}
use legal_bridge.Analysis.Observations.{SourceObservation}
use legal_bridge.Analysis.Timeline.{
  Scope, or_max, timeline_le, on_timeline, timeline_event, timeline_from, timeline,
}

-- Whether an event is on an earlier day than another, or on the same day and not later. An event
-- without a date comes last, and so does on its day one without a time.
abbrev pub not_later : TimelineEventRecord → TimelineEventRecord → Bool
not_later e f =
    if or_max 3652059 e.event_date == or_max 3652059 f.event_date
    then leb (or_max 1440 e.event_time) (or_max 1440 f.event_time)
    else leb (or_max 3652059 e.event_date) (or_max 3652059 f.event_date)

-- Events numbered from `n` on, in the order of their times.
abbrev pub Chronological : ℕ → List TimelineEventRecord → Type 0
Chronological n [] = Unit
Chronological n (e ∷ []) = e.sequence_number ≡ n
Chronological n (e ∷ f ∷ rest) =
    (e.sequence_number ≡ n) × (not_later e f ≡ true) × Chronological (n + 1) (f ∷ rest)

module _ (python : Python) (scope : Scope) where
  timeline_le_total :
      (a b : SourceObservation)
      → timeline_le python scope a b ≡ false
      → timeline_le python scope b a ≡ true
  timeline_le_total a b h = ground (
    arith,
    h,
    text_le_total (codes a.document.original_filename) (codes b.document.original_filename),
  )

  timeline_le-not_later :
      (m n : ℕ) (a b : SourceObservation)
      → timeline_le python scope a b ≡ true
      → not_later (timeline_event python scope m a) (timeline_event python scope n b) ≡ true
  timeline_le-not_later m n a b h = ground (arith, h)

  timeline_from-Chronological :
      (n : ℕ) (os : List SourceObservation)
      → Linked (timeline_le python scope) os
      → Chronological n (timeline_from python scope n os)
  unfolding timeline_from
  timeline_from-Chronological n [] l = tt
  timeline_from-Chronological n (o ∷ []) l = refl
  timeline_from-Chronological n (o ∷ p ∷ os) l = (
    refl,
    timeline_le-not_later n (n + 1) o p l.0,
    timeline_from-Chronological (n + 1) (p ∷ os) l.1,
  )

  length-timeline_from :
      (n : ℕ) (os : List SourceObservation) → length (timeline_from python scope n os) ≡ length os
  unfolding timeline_from
  length-timeline_from n [] = refl
  length-timeline_from n (o ∷ os) = ap suc (length-timeline_from (n + 1) os)

  -- The timeline of a run has at most thirty events, numbered from one on without a gap, each on an
  -- earlier day than the next, or on the same day and not later than it, where what has no date or
  -- no time comes last.
  pub timeline-Chronological :
      (os : List SourceObservation)
      → Chronological 1 (timeline python scope os) × (length (timeline python scope os) ≤ 30)
  unfolding timeline
  timeline-Chronological os =
      let sorted = sort_by (timeline_le python scope) (filter (on_timeline python scope) os) in
      (
        timeline_from-Chronological 1 (take 30 sorted) (
            Linked-take (timeline_le python scope) 30 sorted (
              Linked-sort_by (timeline_le python scope) timeline_le_total
                (filter (on_timeline python scope) os))),
        omega (arith, length-timeline_from 1 (take 30 sorted), length-take 30 sorted),
      )
