-- ===== src/Copilot/Nim/Attempts.antt =====
-- What `_nvidia_nim_answer` sends and returns.
use legal_bridge.Prelude.{
  ◌⊎◌, ℕ, zero, suc, ◌+◌, ◌≤◌, ◌<◌, Bool, false, Option, none, some, List, ◌≡◌, ◌||◌, refl, arith,
  not, if◌then◌else◌, if-cases, Bool-cases, inl, inr,
}
use legal_bridge.Store.Schema.{Text}
use legal_bridge.Extraction.Texts.{is_empty_text}
use legal_bridge.Analysis.Patterns.{Python}
use legal_bridge.Analysis.Observations.{Source}
use legal_bridge.Copilot.Nim.{
  NimSettings, NimRequest, NimReply, content, status_error, transport_error, other_error, NimClient,
  NimOutcome, answered, fallback, raised, is_nvidia_nim, on_error, context_of, nim_request,
  nim_attempts, nvidia_nim_answer,
}
use legal_bridge.Copilot.Usable.{usable_nim_content}

module _ (python : Python) (settings : NimSettings) (client : NimClient) where
  -- What an outcome tells of the replies to the first `n` requests.
  abbrev pub Tells : NimRequest → NimOutcome → ℕ → Type 0
  Tells request (answered text) n =
      (k : ℕ) × (c : Option Text) × (k < n)
      × (client.post k request ≡ content c)
      × (usable_nim_content python c ≡ some text)
  Tells request fallback n = Unit
  Tells request raised n =
      (settings.ai_fallback_enabled ≡ false)
      ⊎ ((k : ℕ) × (k < n) × (client.post k request ≡ other_error))

  -- So many requests at most, and what the outcome tells.
  abbrev pub Ends : NimRequest → ℕ → NimOutcome × ℕ → Type 0
  Ends request limit (outcome, n) = (n ≤ limit) × Tells request outcome n

  on_error-Tells :
      (request : NimRequest) (n : ℕ) → Tells request (on_error python settings client) n
  on_error-Tells request n =
      if-cases (λ o. Tells request o n) settings.ai_fallback_enabled (λ e. tt) (λ e. inl e)

  -- A limit may be raised.
  Ends-mono :
      (request : NimRequest) (limit limit' : ℕ) (p : NimOutcome × ℕ)
      → limit ≤ limit'
      → Ends request limit p
      → Ends request limit' p
  Ends-mono request limit limit' (outcome, n) h e = (omega (arith, e.0), e.1)

  module _ (request : NimRequest) (left attempt : ℕ) (next : NimOutcome × ℕ) where
    by_content :
        Ends request (attempt + suc left) next
        → (c : Option Text) → client.post attempt request ≡ content c
        → (u : Option Text) → usable_nim_content python c ≡ u
        → Ends request (attempt + suc left) (elim u as (λ _. NimOutcome × ℕ) [
          | some usable ↦ (answered usable, attempt + 1)
          | none ↦ next
        ])
    by_content h c e none u = h
    by_content h c e (some text) u = (omega arith, (attempt, c, omega arith, e, u))

    by_reply :
        Ends request (attempt + suc left) next
        → (r : NimReply) → client.post attempt request ≡ r
        → Ends request (attempt + suc left) (elim r as (λ _. NimOutcome × ℕ) [
          | status_error ↦ (on_error python settings client, attempt + 1)
          | transport_error ↦ (on_error python settings client, attempt + 1)
          | other_error ↦ (raised, attempt + 1)
          | content c ↦ elim (usable_nim_content python c) as (λ _. NimOutcome × ℕ) [
            | some usable ↦ (answered usable, attempt + 1)
            | none ↦ next
          ]
        ])
    by_reply h status_error e = (omega arith, on_error-Tells request (attempt + 1))
    by_reply h transport_error e = (omega arith, on_error-Tells request (attempt + 1))
    by_reply h other_error e = (omega arith, inr (attempt, omega arith, e))
    by_reply h (content c) e = by_content h c e (usable_nim_content python c) refl

  nim_attempts-Ends :
      (request : NimRequest) (left attempt : ℕ)
      → Ends request (attempt + left) (nim_attempts python settings client request left attempt)
  unfolding nim_attempts
  nim_attempts-Ends request zero attempt = (omega arith, tt)
  nim_attempts-Ends request (suc left) attempt =
      by_reply request left attempt (nim_attempts python settings client request left (attempt + 1))
        (Ends-mono request (attempt + 1 + left) (attempt + suc left) _ (omega arith)
          (nim_attempts-Ends request left (attempt + 1)))
        (client.post attempt request) refl

  -- Whether a request is sent at all.
  abbrev pub is_asked : List Source → Bool
  is_asked selected =
      not (not (is_nvidia_nim settings.ai_provider) || is_empty_text (context_of selected))

  -- The service is asked at most twice, and not at all where another provider is configured or the
  -- context is empty; an answer is the usable content of one of the replies, and an exception comes
  -- only where the fallback is disabled, or where a request ended with an error that is not caught.
  pub nvidia_nim_answer-Ends :
      (question : Text) (selected : List Source)
      → Ends
          (nim_request python settings client question (context_of selected))
          (if is_asked selected then 2 else 0)
          (nvidia_nim_answer python settings client question selected)
  unfolding nvidia_nim_answer
  nvidia_nim_answer-Ends question selected =
      elim (Bool-cases
        (not (is_nvidia_nim settings.ai_provider) || is_empty_text (context_of selected))) [
          | inl e ↦ rw e (omega arith, tt)
          | inr e ↦ rw e (nim_attempts-Ends _ 2 0)
        ]
