-- ===== src/Checks/CleaningTests.antt =====
-- The cleaning of frames of whole numbers.
use haru_quant_cbot.Checks.Cleaned.{remove_duplicates-exact, IsIncreasing}
use haru_quant_cbot.Checks.Refilled.{fill_zero_volumes-Refilled, Refilled}
use haru_quant_cbot.Checks.Volumes.{invalid_volume}
use haru_quant_cbot.Prelude.Text.{str, text_beq}
use haru_quant_cbot.Checks.Instances.{
  filler-SortLaws, gappy-FillLaws, twice_frame, filler, gappy, bar_at, volume_frame,
}
use haru_quant_cbot.Validation.{has_column, is_empty}
use haru_quant_cbot.Prelude.{inl, map, In, refl, ok, ◌≡◌, [], ◌∷◌, ℕ}
use haru_quant_cbot.Checks.Cleaning.{
  keep_last, set_column, replaced_volumes, remove_duplicates, fill_zero_volumes,
}
use haru_quant_cbot.Checks.{Bar, BarFrame}

remove_duplicates-exact_example :
    (clean : BarFrame ℕ) × (remove_duplicates filler keep_last twice_frame ≡ ok clean)
    × IsIncreasing clean.content
    × ((row : Bar ℕ) → In row clean.content → In row twice_frame.content)
    × ((row : Bar ℕ)
        → In row twice_frame.content
        → In row.timestamp (map (λ (r : Bar ℕ). r.timestamp) clean.content))
unfolding is_empty has_column text_beq
remove_duplicates-exact_example =
    remove_duplicates-exact filler filler-SortLaws twice_frame refl refl

-- The second bar has no volume and takes that of the first.
abbrev gap_frame : BarFrame ℕ
gap_frame = record volume_frame { content = bar_at 0 5 ∷ record (bar_at 1 5) { volume = 0 } ∷ [] }

gap_filled :
    fill_zero_volumes gappy filler (str "ffill") gap_frame
    ≡ ok (record gap_frame { rows = 2; content = bar_at 0 5 ∷ bar_at 1 5 ∷ [] })
unfolding fill_zero_volumes is_empty has_column text_beq invalid_volume replaced_volumes set_column
gap_filled = refl

fill_zero_volumes-Refilled_example :
    (clean : BarFrame ℕ) × (fill_zero_volumes gappy filler (str "ffill") gap_frame ≡ ok clean)
    × Refilled gappy gap_frame.content clean.content
unfolding is_empty has_column text_beq
fill_zero_volumes-Refilled_example =
    fill_zero_volumes-Refilled gappy filler gappy-FillLaws (str "ffill") gap_frame refl refl
      (inl refl)
