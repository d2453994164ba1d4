-- ===== src/Providers/Connection.antt =====
-- The connection of `MT5DataProvider` of src/hqt/data/providers/mt5_provider.py over its methods.
use mathlib.Core.Path.{subst}
use haru_quant_cbot.Prelude.Text.{Text}
use haru_quant_cbot.Prelude.{
  inr, ◌∙◌, inl, coded, [], ◌⊎◌, refl, raise, sym, true, false, ◌∷◌, ok, Result, arith, Bool, ◌≡◌,
  List,
}
use haru_quant_cbot.Providers.Mt5.{
  get_available_timeframes, get_available_symbols, fetch_ticks, fetch_bars, shutdown_call,
  login_call, initialize_call, Mt5, Call, Answers, ensure_connected, init_mt5, close, and_then,
  log_in,
}

-- Whether the package is connected after the calls, the last one first.
abbrev pub is_up : List Call → Bool
is_up [] = false
is_up (initialize_call done ∷ calls) = done
is_up (login_call ∷ calls) = is_up calls
is_up (shutdown_call ∷ calls) = false

-- The provider knows whether the package is connected.
abbrev pub IsConsistent : Mt5 → Type 0
IsConsistent s = s.connected ≡ is_up s.calls

-- A call of a method, with what the package answers in it.
pub data Method (N : Type 0) : Type 0 where
  bars ticks timeframes : Answers N → Text → Method N
  symbols : Answers N → Method N
  closing : Method N

unfoldable pub step : {N : Type 0} → Method N → Mt5 → Mt5
unfolding fetch_bars fetch_ticks get_available_symbols get_available_timeframes close
step (bars mt5 symbol) s = (fetch_bars mt5 symbol s).0
step (ticks mt5 symbol) s = (fetch_ticks mt5 symbol s).0
step (timeframes mt5 symbol) s = (get_available_timeframes mt5 symbol s).0
step (symbols mt5) s = (get_available_symbols mt5 s).0
step closing s = close s

unfoldable pub steps : {N : Type 0} → List (Method N) → Mt5 → Mt5
unfolding step
steps [] s = s
steps (method ∷ methods) s = steps methods (step method s)

and_then-state :
    {A : Type 0} (r : Mt5 × Result {0} Unit) (next : Result A) → (and_then r next).0 ≡ r.0
and_then-state (s, ok done) next = refl
and_then-state (s, raise e) next = refl

module _ {N : Type 0} (mt5 : Answers N) where
  ensure_connected-IsConsistent :
      (s : Mt5) → IsConsistent s → IsConsistent (ensure_connected mt5 s).0
  unfolding ensure_connected log_in
  ensure_connected-IsConsistent s h = ground arith

  -- Where the connection is made it stands, and where it is refused it does not.
  ensure_connected-answer :
      (s : Mt5)
      → ((ensure_connected mt5 s).1 ≡ ok tt × ((ensure_connected mt5 s).0.connected ≡ true))
        ⊎ ((s.connected ≡ false)
            × ((ensure_connected mt5 s).0.connected ≡ false)
            × (((ensure_connected mt5 s).1 ≡ raise (coded 1))
                ⊎ ((ensure_connected mt5 s).1 ≡ raise (coded 2))))
  unfolding ensure_connected log_in
  ensure_connected-answer s = ground arith

close-down : (s : Mt5) → IsConsistent s → is_up (close s).calls ≡ false
unfolding close
close-down s h = ground arith

module _ {N : Type 0} where
  after_ensure :
      {A : Type 0} (mt5 : Answers N) (s : Mt5) (next : Result A)
      → IsConsistent s
      → IsConsistent (and_then (ensure_connected mt5 s) next).0
  after_ensure mt5 s next h =
      subst IsConsistent (sym (and_then-state (ensure_connected mt5 s) next))
        (ensure_connected-IsConsistent mt5 s h)

  step-IsConsistent : (method : Method N) (s : Mt5) → IsConsistent s → IsConsistent (step method s)
  unfolding step fetch_bars fetch_ticks get_available_symbols get_available_timeframes close
  step-IsConsistent (bars mt5 symbol) s h = after_ensure mt5 s _ h
  step-IsConsistent (ticks mt5 symbol) s h = after_ensure mt5 s _ h
  step-IsConsistent (timeframes mt5 symbol) s h = after_ensure mt5 s _ h
  step-IsConsistent (symbols mt5) s h = after_ensure mt5 s _ h
  step-IsConsistent closing s h = ground arith

  steps-IsConsistent :
      (methods : List (Method N)) (s : Mt5) → IsConsistent s → IsConsistent (steps methods s)
  unfolding steps
  steps-IsConsistent [] s h = h
  steps-IsConsistent (method ∷ methods) s h =
      steps-IsConsistent methods (step method s) (step-IsConsistent method s h)

  -- A provider that is made is connected and so is the package, and one that is not made leaves the
  -- package unconnected. After every sequence of its methods, whatever the package answers in each, the
  -- provider holds itself connected exactly if the package is; a close after it leaves the package
  -- unconnected.
  pub steps-connection :
      (mt5 : Answers N) (has_credentials : Bool) (methods : List (Method N))
      → let (made, answer) = init_mt5 mt5 has_credentials in
        let s = steps methods made in
        (((answer ≡ ok tt) × (is_up made.calls ≡ true))
          ⊎ (((answer ≡ raise (coded 1)) ⊎ (answer ≡ raise (coded 2)))
              × (is_up made.calls ≡ false)))
        × (s.connected ≡ is_up s.calls)
        × (is_up (close s).calls ≡ false)
  unfolding init_mt5
  steps-connection mt5 has_credentials methods =
      let start : Mt5 = record {
        has_credentials = has_credentials;
        connected = false;
        calls = [];
      } in
      let made = (ensure_connected mt5 start).0 in
      let c : IsConsistent made = ensure_connected-IsConsistent mt5 start refl in
      let later = steps-IsConsistent methods made c in
      (
        elim (ensure_connected-answer mt5 start) [
          | inl (answer, up) ↦ inl (answer, sym c ∙ up)
          | inr (_, down, answer) ↦ inr (answer, sym c ∙ down)
        ],
        later,
        close-down (steps methods made) later,
      )
