-- ===== src/LogFilters/Refinement.antt =====
-- `ThrottleFilter` against a filter that forgets nothing: the cleanup loses no decision.
use haru_quant_cbot.Prelude.{
  ℕ, ◌+◌, ◌≤◌, ◌≡◌, refl, Bool, false, not, ◌&&◌, Option, none, some, List, [], ◌∷◌, keep, any_of,
  ltb, leb, arith, if◌then◌else◌, Bool-cases, inl, inr,
}
use haru_quant_cbot.Prelude.Text.{Text, text_beq, text_beq_iff, text_eq}
use haru_quant_cbot.Prelude.Dict.{
  Dict, IsDistinct, lookup, insert, lookup-insert, insert-IsDistinct,
}
use haru_quant_cbot.LogFilters.{
  LogRecord, Throttle, init_throttle, message_key, clean_up, throttle_filter,
}

-- The passes so far, newest first: the key and the time.
abbrev pub History : Type 0
History = List (Text × ℕ)

-- Has a record with the key passed less than `window` ago?
abbrev pub passed_recently : ℕ → ℕ → Text → History → Bool
passed_recently window now key = any_of (λ e. text_beq e.0 key && ltb now (e.1 + window))

abbrev pub Event : Type 0
Event = ℕ × LogRecord

-- The specification: a record passes if none with its key has passed within the window.
abbrev pub allowed : ℕ → List Event → History → List Bool
allowed window [] h = []
allowed window ((now, r) ∷ events) h =
    let recent = passed_recently window now (message_key r) h in
    not recent ∷ allowed window events (if recent then h else (message_key r, now) ∷ h)

-- The answers of the filter to a sequence of records.
abbrev pub decisions : Throttle → List Event → List Bool
decisions s [] = []
decisions s ((now, r) ∷ events) = let (s', b) = throttle_filter s now r in b ∷ decisions s' events

-- The clock does not go back, from a first reading.
abbrev pub IsMonotone : ℕ → List Event → Type 0
IsMonotone t [] = Unit
IsMonotone t ((now, r) ∷ events) = (t ≤ now) × IsMonotone now events

abbrev recent_entry : ℕ → ℕ → Option ℕ → Bool
recent_entry window now none = false
recent_entry window now (some t) = ltb now (t + window)

-- From time t on, the table answers as the history does.
record Agrees (window t : ℕ) (times : Dict Text ℕ) (h : History) : Type 0 where
  distinct : IsDistinct times
  answers :
      (key : Text) (now : ℕ)
      → t ≤ now
      → passed_recently window now key h ≡ recent_entry window now (lookup key times)

lookup-keep :
    (p : Text × ℕ → Bool) (key : Text) (d : Dict Text ℕ)
    → IsDistinct d
    → lookup key (keep p d)
      ≡ elim (lookup key d) [ none ↦ none | some v ↦ if p (key, v) then some v else none ]
unfolding lookup
lookup-keep p key [] h = refl
lookup-keep p key ((k, v) ∷ d) h = ground (arith, text_beq_iff k key, lookup-keep p key d h.1)

keep-IsDistinct : (p : Text × ℕ → Bool) (d : Dict Text ℕ) → IsDistinct d → IsDistinct (keep p d)
keep-IsDistinct p [] h = tt
keep-IsDistinct p ((k, v) ∷ d) h = ground (arith, lookup-keep p k d h.1, keep-IsDistinct p d h.1)

clean_up-IsDistinct :
    (now window : ℕ) (d : Dict Text ℕ) → IsDistinct d → IsDistinct (clean_up now window d)
unfolding clean_up
clean_up-IsDistinct now window d h =
    ground (arith, keep-IsDistinct (λ e. leb now (e.1 + window)) d h)

recent-clean_up :
    (now window later : ℕ) (key : Text) (d : Dict Text ℕ)
    → IsDistinct d
    → now ≤ later
    → recent_entry window later (lookup key (clean_up now window d))
      ≡ recent_entry window later (lookup key d)
unfolding clean_up
recent-clean_up now window later key d h le =
    ground (arith, lookup-keep (λ e. leb now (e.1 + window)) key d h)

-- A pass enters the table and the history alike.
pass-Agrees :
    (window t now : ℕ) (key : Text) (times : Dict Text ℕ) (h : History)
    → t ≤ now
    → Agrees window t times h
    → passed_recently window now key h ≡ false
    → Agrees window now (clean_up now window (insert key now times)) ((key, now) ∷ h)
pass-Agrees window t now key times h le a fresh = record {
  distinct = clean_up-IsDistinct now window _ (insert-IsDistinct key now times a.distinct);
  answers = λ k later le'. ground (
    arith,
    recent-clean_up now window later k (insert key now times)
        (insert-IsDistinct key now times a.distinct) le',
    lookup-insert key k now times,
    text_beq_iff key k,
    a.answers k later (omega arith),
    a.answers key now le,
  );
}

later-Agrees :
    {window t now : ℕ} {times : Dict Text ℕ} {h : History}
    → t ≤ now
    → Agrees window t times h
    → Agrees window now times h
later-Agrees le a = record {
  distinct = a.distinct;
  answers = λ key later le'. a.answers key later (omega arith);
}

decisions-eq-allowed :
    (events : List Event) (t : ℕ) (s : Throttle) (h : History)
    → IsMonotone t events
    → Agrees s.window_seconds t s.message_times h
    → decisions s events ≡ allowed s.window_seconds events h
unfolding throttle_filter
decisions-eq-allowed [] t s h m a = refl
decisions-eq-allowed ((now, r) ∷ events) t s h m a =
    let key = message_key r in
    let window = s.window_seconds in
    let times = clean_up now window (insert key now s.message_times) in
    elim (Bool-cases (passed_recently window now key h)) [
      | inl old ↦ ground (
        arith,
        old,
        a.answers key now m.0,
        decisions-eq-allowed events now s h m.1 (later-Agrees m.0 a),
      )
      | inr fresh ↦ ground (
        arith,
        fresh,
        a.answers key now m.0,
        decisions-eq-allowed events now (record s { message_times = times }) ((key, now) ∷ h) m.1
            (pass-Agrees window t now key s.message_times h m.0 a fresh),
      )
    ]

-- A new `ThrottleFilter`, on any sequence of records under a clock that does not go back, answers
-- as the filter that keeps every pass for ever: a record passes exactly if no record with its
-- key has passed less than the window before. The cleanup changes no answer.
pub throttle-refines-history :
    (window start : ℕ) (events : List Event)
    → IsMonotone start events
    → decisions (init_throttle window) events ≡ allowed window events []
unfolding init_throttle lookup
throttle-refines-history window start events m =
    decisions-eq-allowed events start (init_throttle window) [] m
      (record { distinct = tt; answers = λ key now le. refl })
