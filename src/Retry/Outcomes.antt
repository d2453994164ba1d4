-- ===== src/Retry/Outcomes.antt =====
-- What `with_retry` returns, raises and waits for, by how the wrapped function answers.
use haru_quant_cbot.Prelude.{
  ap, ℕ, zero, suc, ◌+◌, ◌≤◌, ◌<◌, ◌≡◌, ◌≢◌, ◌⊎◌, true, false, Option, none, some, List, [], ◌∷◌,
  arith, length, ap,
}
use haru_quant_cbot.Prelude.Int.{pos, negsuc}
use haru_quant_cbot.Retry.{
  Answer, returned, raised, Ending, value, error, no_exception, Settings, rounds, retry_loop,
  with_retry,
}

-- The capped waits of exponential backoff: n of them, from a first delay.
abbrev pub backoff : {X D : Type 0} → Settings X D → ℕ → D → List D
backoff s zero d = []
backoff s (suc n) d = s.min_delay d s.max_delay ∷ backoff s n (s.times d s.backoff_factor)

module _ {A X D : Type 0} (s : Settings X D) (call : ℕ → Answer A X) where
  -- The attempt raised something that the wrapper catches.
  abbrev pub Fails : ℕ → Type 0
  Fails n = (e : X) × (call n ≡ raised e) × (s.catches e ≡ true)

  abbrev pub FailFrom : ℕ → ℕ → Type 0
  FailFrom a n = (j : ℕ) → a ≤ j → j < n → Fails j

  -- The attempt ends the loop: it returned, or it raised something that is not caught.
  abbrev pub Decides : ℕ → Ending A X → Type 0
  Decides n end =
      ((a : A) × (call n ≡ returned a) × (end ≡ value a))
      ⊎ ((e : X) × (call n ≡ raised e) × (s.catches e ≡ false) × (end ≡ error e))

  retry_loop_decided :
      (k left attempt n : ℕ) (m : ℕ) (d : D) (last : Option X) (end : Ending A X)
      → s.max_retries ≡ pos m
      → attempt + left ≡ suc m
      → k < left
      → n ≡ attempt + k
      → FailFrom attempt n
      → Decides n end
      → retry_loop s call left attempt d last
        ≡ record { ending = end; sleeps = backoff s k d; calls = suc k }
  unfolding retry_loop
  retry_loop_decided zero zero attempt n m d last end em el lt en fails dec = absurd (omega arith)
  retry_loop_decided zero (suc left) attempt n m d last end em el lt en fails dec =
      let e : n ≡ attempt = omega arith in ground arith
  retry_loop_decided (suc k) zero attempt n m d last end em el lt en fails dec =
      absurd (omega arith)
  retry_loop_decided (suc k) (suc left) attempt n m d last end em el lt en fails dec =
      let here : Fails attempt = fails attempt (omega arith) (omega arith) in
      let rest =
        retry_loop_decided k left (suc attempt) n m (s.times d s.backoff_factor) (some here.0) end
          em (omega arith) (omega arith) (omega arith) (λ j lo hi. fails j (omega arith) hi) dec in
      ground (arith, rest)

  retry_loop_exhausted :
      (left attempt : ℕ) (m : ℕ) (d : D) (last : Option X) (e : X)
      → s.max_retries ≡ pos m
      → attempt + suc left ≡ suc m
      → FailFrom attempt (suc m)
      → call m ≡ raised e
      → retry_loop s call (suc left) attempt d last
        ≡ record { ending = error e; sleeps = backoff s left d; calls = suc left }
  unfolding retry_loop
  retry_loop_exhausted zero attempt m d last e em el fails ce =
      let same : attempt ≡ m = omega arith in
      let here : Fails m = fails m (omega arith) (omega arith) in ground arith
  retry_loop_exhausted (suc left) attempt m d last e em el fails ce =
      let here : Fails attempt = fails attempt (omega arith) (omega arith) in
      let rest =
        retry_loop_exhausted left (suc attempt) m (s.times d s.backoff_factor) (some here.0) e em
          (omega arith) (λ j lo hi. fails j (omega arith) hi) ce in
      ground (arith, rest)

  retry_loop_counts :
      (left attempt : ℕ) (m : ℕ) (d : D) (last : Option X)
      → s.max_retries ≡ pos m
      → attempt + suc left ≡ suc m
      → ((retry_loop s call (suc left) attempt d last).calls ≤ suc left)
        × (suc (length (retry_loop s call (suc left) attempt d last).sleeps)
            ≡ (retry_loop s call (suc left) attempt d last).calls)
        × ((retry_loop s call (suc left) attempt d last).ending ≢ no_exception)
  unfolding retry_loop
  retry_loop_counts zero attempt m d last em el = ground arith
  retry_loop_counts (suc left) attempt m d last em el = ground (
    arith,
    λ (e : X). retry_loop_counts left (suc attempt) m (s.times d s.backoff_factor) (some e) em,
  )

  rounds_pos : (m : ℕ) → s.max_retries ≡ pos m → rounds s.max_retries ≡ suc m
  unfolding rounds
  rounds_pos m em = ap rounds em

  -- Let attempt n, one of the max_retries + 1 attempts, be the first that returns or raises what is
  -- not caught. The wrapper ends with that value or exception after exactly n + 1 calls, and has
  -- waited n times, for min(delay, max_delay) with a delay that is multiplied each time.
  pub with_retry-decided :
      (n m : ℕ) (end : Ending A X)
      → s.max_retries ≡ pos m
      → n ≤ m
      → FailFrom 0 n
      → Decides n end
      → with_retry s call
        ≡ record { ending = end; sleeps = backoff s n s.initial_delay; calls = suc n }
  unfolding with_retry
  with_retry-decided n m end em le fails dec = rw (rounds_pos m em) (
      retry_loop_decided n (suc m) 0 n m s.initial_delay none end em (omega arith) (omega arith)
        (omega arith) fails dec)

  -- If all max_retries + 1 attempts raise what is caught, the wrapper raises the last exception,
  -- after exactly max_retries waits: there is none after the last attempt.
  pub with_retry-exhausted :
      (m : ℕ) (e : X)
      → s.max_retries ≡ pos m
      → FailFrom 0 (suc m)
      → call m ≡ raised e
      → with_retry s call
        ≡ record { ending = error e; sleeps = backoff s m s.initial_delay; calls = suc m }
  unfolding with_retry
  with_retry-exhausted m e em fails ce =
      rw (rounds_pos m em)
        (retry_loop_exhausted m 0 m s.initial_delay none e em (omega arith) fails ce)

  -- However the function answers, with max_retries at least 0 it is called at most max_retries + 1
  -- times, there is one wait fewer than calls, and the wrapper never ends by `raise None`.
  pub with_retry_bounds :
      (m : ℕ)
      → s.max_retries ≡ pos m
      → ((with_retry s call).calls ≤ suc m)
        × (suc (length (with_retry s call).sleeps) ≡ (with_retry s call).calls)
        × ((with_retry s call).ending ≢ no_exception)
  unfolding with_retry
  with_retry_bounds m em =
      rw (rounds_pos m em) (retry_loop_counts m 0 m s.initial_delay none em (omega arith))

  -- With a negative max_retries the function is never called, and the wrapper ends by `raise None`.
  pub with_retry_negative :
      (k : ℕ)
      → s.max_retries ≡ negsuc k
      → with_retry s call ≡ record { ending = no_exception; sleeps = []; calls = 0 }
  unfolding with_retry retry_loop
  with_retry_negative k em = let none_left : rounds s.max_retries ≡ 0 = ap rounds em in rw none_left
