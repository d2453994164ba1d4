-- ===== src/Retry.antt =====
-- The decorator `with_retry` (src/hqt/data/providers/factory.py): attempts, waits and the final
-- exception. The wrapped function is an oracle that answers attempt after attempt.
pub mod Outcomes
mod Tests
use haru_quant_cbot.Prelude.{
  ℕ, zero, suc, ◌+◌, Bool, Option, none, some, List, [], ◌∷◌, if◌then◌else◌,
}
use haru_quant_cbot.Prelude.Int.{ℤ, pos, negsuc, ltb_ℤ}

-- One call of the wrapped function.
pub data Answer (A X : Type 0) : Type 0 where
  returned : A → Answer A X
  raised : X → Answer A X

-- How the wrapper ends. `no_exception` is `raise None`, which Python turns into a `TypeError`.
pub data Ending (A X : Type 0) : Type 0 where
  value : A → Ending A X
  error : X → Ending A X
  no_exception : Ending A X

-- The ending, the waits in order, and how often the function was called.
pub record Run (A X D : Type 0) : Type 0 where
  pub ending : Ending A X
  pub sleeps : List D
  pub calls : ℕ

-- `len(range(max_retries + 1))`
unfoldable pub rounds : ℤ → ℕ
rounds (pos n) = suc n
rounds (negsuc n) = 0

abbrev raise_last : {A X D : Type 0} → Option X → Run A X D
raise_last none = record { ending = no_exception; sleeps = []; calls = 0 }
raise_last (some e) = record { ending = error e; sleeps = []; calls = 0 }

-- The numbers are a type `D` of delays with the two operations that the code applies to them.
pub record Settings (X D : Type 0) : Type 0 where
  pub max_retries : ℤ
  pub initial_delay : D
  pub max_delay : D
  pub backoff_factor : D
  pub catches : X → Bool
  pub min_delay : D → D → D
  pub times : D → D → D

module _ {A X D : Type 0} (s : Settings X D) (call : ℕ → Answer A X) where
  -- The `for` loop, with the rounds that are left, the attempt's number, the current delay and
  -- `last_exception`.
  unfoldable pub retry_loop : ℕ → ℕ → D → Option X → Run A X D
  retry_loop zero attempt delay last = raise_last last
  retry_loop (suc left) attempt delay last = elim (call attempt) [
    | returned a ↦ record { ending = value a; sleeps = []; calls = 1 }
    | raised e ↦
        let again = retry_loop left (suc attempt) (s.times delay s.backoff_factor) (some e) in
        let final = retry_loop left (suc attempt) delay (some e) in
        if s.catches e
        then if ltb_ℤ (pos attempt) s.max_retries
          then record {
            ending = again.ending;
            sleeps = s.min_delay delay s.max_delay ∷ again.sleeps;
            calls = suc again.calls;
          }
          else record { ending = final.ending; sleeps = final.sleeps; calls = suc final.calls }
        else record { ending = error e; sleeps = []; calls = 1 }
  ]

  unfoldable pub with_retry : Run A X D
  unfolding rounds
  with_retry = retry_loop (rounds s.max_retries) 0 s.initial_delay none
