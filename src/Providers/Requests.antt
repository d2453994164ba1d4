-- ===== src/Providers/Requests.antt =====
-- The attempts of `_fetch_hour` of src/hqt/data/providers/dukascopy_provider.py.
use mathlib.Core.Path.{subst}
use haru_quant_cbot.Hasher.{Bytes}
use haru_quant_cbot.Prelude.{
  ◌∙◌, ap, inl, refl, arith, inr, ◌-◌, coded, raise, some, zero, ◌⊎◌, ◌∷◌, none, ok, ◌≡◌, ◌^◌, ◌+◌,
  suc, ◌<◌, [], Option, List, ℕ,
}
use haru_quant_cbot.Providers.Dukascopy.{attempted, request, request_from, Fetched}

-- The sleeps after the attempts from one on.
abbrev pub backoffs : ℕ → ℕ → List ℕ
backoffs attempt zero = []
backoffs attempt (suc n) = 2 ^ attempt ∷ backoffs (suc attempt) n

module _ (response : ℕ → Option Bytes) where
  -- The k-th attempt from one on is the first that is answered.
  abbrev pub FirstAnswered : ℕ → ℕ → Bytes → Type 0
  FirstAnswered attempt k content =
      ((j : ℕ) → j < k → response (attempt + j) ≡ none) × (response (attempt + k) ≡ some content)

  -- The first attempt that is answered, or that none is.
  Decided : ℕ → ℕ → Fetched → Type 0
  Decided left attempt f =
      ((k : ℕ) × (content : Bytes) × (k < left)
        × FirstAnswered attempt k content
        × (f ≡ record { answer = ok content; sleeps = backoffs attempt k }))
      ⊎ (((j : ℕ) → j < left → response (attempt + j) ≡ none)
          × (f ≡ record { answer = raise (coded 20); sleeps = backoffs attempt (left - 1) }))

  none_before :
      (attempt k : ℕ)
      → response attempt ≡ none
      → ((j : ℕ) → j < k → response (suc attempt + j) ≡ none)
      → (j : ℕ) → j < suc k
      → response (attempt + j) ≡ none
  none_before attempt k e later zero h = subst (λ n. response n ≡ none) (omega arith) e
  none_before attempt k e later (suc j) h =
      subst (λ n. response n ≡ none) (omega arith) (later j (omega arith))

  attempted-Decided :
      (left attempt : ℕ) (later : Fetched) (now : Option Bytes)
      → response attempt ≡ now
      → Decided left (suc attempt) later
      → Decided (suc left) attempt (attempted attempt left later now)
  unfolding Decided
  attempted-Decided left attempt later (some content) e d = inl (
    0,
    content,
    omega arith,
    (λ j h. absurd (omega arith), subst (λ n. response n ≡ some content) (omega arith) e),
    refl,
  )
  attempted-Decided zero attempt later none e d =
      inr (none_before attempt 0 e (λ j h. absurd (omega arith)), refl)
  attempted-Decided (suc left) attempt later none e (inl (k, content, l, (before, at), same)) =
      inl (
        suc k,
        content,
        omega arith,
        (none_before attempt k e before, subst (λ n. response n ≡ some content) (omega arith) at),
        ap (λ (f : Fetched). attempted attempt (suc left) f none) same,
      )
  attempted-Decided (suc left) attempt later none e (inr (all, same)) =
      let one_more : suc (suc left - 1) ≡ suc (suc left) - 1 = omega arith in
      inr (
        none_before attempt (suc left) e all,
        ap (λ (f : Fetched). attempted attempt (suc left) f none) same
            ∙ ap (λ n. record { answer = raise (coded 20); sleeps = backoffs attempt n }) one_more,
      )

  request_from-Decided :
      (left attempt : ℕ) → Decided left attempt (request_from response attempt left)
  unfolding request_from Decided
  request_from-Decided zero attempt = inr (λ j h. absurd (omega arith), refl)
  request_from-Decided (suc left) attempt =
      attempted-Decided left attempt (request_from response (suc attempt) left) (response attempt)
        refl (request_from-Decided left (suc attempt))

  -- An hour is requested at most max_retries times. The content of the first answered request is the
  -- answer, after a sleep for each request before it, doubled from one to the next; where no request is
  -- answered, or there is none to make, the answer is the error BRK-020, after a sleep for each request
  -- but the last.
  pub request-decided :
      (max_retries : ℕ)
      → ((k : ℕ) × (content : Bytes) × (k < max_retries)
          × ((j : ℕ) → j < k → response j ≡ none)
          × (response k ≡ some content)
          × (request response max_retries ≡ record { answer = ok content; sleeps = backoffs 0 k }))
        ⊎ (((j : ℕ) → j < max_retries → response j ≡ none)
            × (request response max_retries
                ≡ record { answer = raise (coded 20); sleeps = backoffs 0 (max_retries - 1) }))
  unfolding request Decided
  request-decided max_retries = elim (request_from-Decided max_retries 0) [
    | inl (k, content, l, (before, at), same) ↦ inl (
      k,
      content,
      l,
      λ j h. subst (λ n. response n ≡ none) (omega arith) (before j h),
      subst (λ n. response n ≡ some content) (omega arith) at,
      same,
    )
    | inr (all, same) ↦ inr (λ j h. subst (λ n. response n ≡ none) (omega arith) (all j h), same)
  ]
