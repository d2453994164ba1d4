-- ===== src/Retry/Tests.antt =====
-- Concrete runs of `with_retry`, in milliseconds: two retries, from 500 doubling to at most 800.
use haru_quant_cbot.Prelude.{ℕ, zero, suc, ◌*◌, ◌≡◌, refl, min, [], ◌∷◌, inl, arith, leb}
use haru_quant_cbot.Prelude.Int.{pos}
use haru_quant_cbot.Retry.{Answer, returned, raised, value, Settings, retry_loop, with_retry}
use haru_quant_cbot.Retry.Outcomes.{with_retry-decided, FailFrom}

abbrev settings : Settings ℕ ℕ
settings = record {
  max_retries = pos 2;
  initial_delay = 500;
  max_delay = 800;
  backoff_factor = 2;
  catches = λ e. leb e 9;
  min_delay = min;
  times = λ d f. d * f;
}

abbrev third_works : ℕ → Answer ℕ ℕ
third_works zero = raised 1
third_works (suc zero) = raised 2
third_works (suc (suc n)) = returned 7

abbrev never_works : ℕ → Answer ℕ ℕ
never_works n = raised 4

third_works-fails : FailFrom settings third_works 0 2
third_works-fails zero lo hi = (1, refl, refl)
third_works-fails (suc zero) lo hi = (2, refl, refl)
third_works-fails (suc (suc n)) lo hi = absurd (omega arith)

run-third_works :
    with_retry settings third_works
    ≡ record { ending = value 7; sleeps = 500 ∷ 800 ∷ []; calls = 3 }
unfolding with_retry retry_loop
run-third_works = refl

with_retry-decided_example :
    with_retry settings third_works
    ≡ record { ending = value 7; sleeps = 500 ∷ 800 ∷ []; calls = 3 }
with_retry-decided_example =
    with_retry-decided settings third_works 2 2 (value 7) refl (omega arith) third_works-fails
      (inl (7, refl, refl))
