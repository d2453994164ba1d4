-- ===== src/Config/Sequences.antt =====
-- Sequences of calls on a `ConfigManager`.
-- The calls that change a manager.
use mathlib.Core.Option.{some-injective}
use haru_quant_cbot.Config.Reload.{
  reload_now-ok, reload_now-raise, object_at-last, load-ok, load-raise, reload_hot-runs,
}
use mathlib.Core.Path.{subst}
use haru_quant_cbot.Prelude.{
  Option-cases, false, ◌∙◌, refl, none, ◌||◌, length, arith, ap, sym, ◌++◌, ◌↔◌, [], coded, inr,
  inl, ◌⊎◌, true, ◌∷◌, raise, Result, Result-cases, some, Bool, ◌≡◌, ℕ, Option, List,
}
use haru_quant_cbot.Prelude.Text.{str, Text}
use haru_quant_cbot.Config.Manager.{
  env_name, remove_first, stored, object_at, Notice, read_config, AppConfig,
  unregister_reload_callback, init_manager, load, get_config, register_reload_callback, reload_hot,
  ConfigManager, World,
}

pub data Call : Type 0 where
  loading : Text → Bool → Call
  reloading : Option (List Text) → Call
  registering unregistering : ℕ → Call

-- The current configuration is an object of the heap.
abbrev pub IsValid : ConfigManager → Type 0
IsValid s =
    (place : ℕ) → s.config ≡ some place → (c : AppConfig) × (object_at place s.objects ≡ some c)

abbrev pub IsFrozen : ConfigManager → Type 0
IsFrozen s = (s.frozen ≡ true) × ((place : ℕ) × (s.config ≡ some place))

module _ (w : World) where
  unfoldable pub call : Call → ConfigManager → ConfigManager
  unfolding load reload_hot register_reload_callback unregister_reload_callback
  call (loading env freeze) s = (load w env freeze s).0
  call (reloading keys) s = (reload_hot w keys s).0
  call (registering callback) s = register_reload_callback callback s
  call (unregistering callback) s = unregister_reload_callback callback s

  unfoldable pub run : List Call → ConfigManager → ConfigManager
  run [] s = s
  run (c ∷ calls) s = run calls (call c s)

  -- What a call can do: nothing, put a new configuration in place, or change the callbacks.
  Outcome : ConfigManager → ConfigManager → Type 0
  Outcome s t =
      (t ≡ s)
      ⊎ (((freeze : Bool) × (c : AppConfig) × (t ≡ stored w freeze s c))
          ⊎ ((callbacks : List ℕ) × (t ≡ record s { reload_callbacks = callbacks })))

  load-Outcome :
      (env : Text) (freeze : Bool) (s : ConfigManager) → Outcome s (load w env freeze s).0
  unfolding Outcome
  load-Outcome env freeze s = elim (Result-cases (read_config w env)) [
    | inr (e, bad) ↦
        inl (ap (λ (p : ConfigManager × Result ℕ). p.0) (load-raise w env freeze s e bad))
    | inl (c, fine) ↦ inr (
        inl (freeze, c, ap (λ (p : ConfigManager × Result ℕ). p.0) (load-ok w env freeze s c fine)))
  ]

  reload_hot-Outcome :
      (keys : Option (List Text)) (s : ConfigManager) → Outcome s (reload_hot w keys s).0
  unfolding Outcome
  reload_hot-Outcome keys s = elim (reload_hot-runs w keys s) [
    | inl (e, bad) ↦ inl (ap fst bad)
    | inr (allowed, same) ↦
        elim (Result-cases (read_config w (env_name (w.environ (str "HQT_ENV"))))) [
          | inr (e, bad) ↦ inl (ap fst (same ∙ reload_now-raise w allowed s e bad))
          | inl (c, fine) ↦ inr (inl (false, c, ap fst (same ∙ reload_now-ok w allowed s c fine)))
        ]
  ]
    where
      fst : ConfigManager × Result (List Notice) → ConfigManager
      fst p = p.0

  call-Outcome : (c : Call) (s : ConfigManager) → Outcome s (call c s)
  unfolding Outcome call register_reload_callback unregister_reload_callback
  call-Outcome (loading env freeze) s = load-Outcome env freeze s
  call-Outcome (reloading keys) s = reload_hot-Outcome keys s
  call-Outcome (registering callback) s = inr (inr (s.reload_callbacks ++ callback ∷ [], refl))
  call-Outcome (unregistering callback) s =
      inr (inr (remove_first callback s.reload_callbacks, refl))

  call-IsFrozen : (c : Call) (s : ConfigManager) → IsFrozen s → IsFrozen (call c s)
  unfolding Outcome
  call-IsFrozen c s h = elim (call-Outcome c s) [
    | inl same ↦ subst IsFrozen (sym same) h
    | inr (inl (freeze, d, e)) ↦
        subst IsFrozen (sym e) (ground (arith, h.0), (length s.objects, refl))
    | inr (inr (callbacks, e)) ↦ subst IsFrozen (sym e) h
  ]

  run-IsFrozen : (calls : List Call) (s : ConfigManager) → IsFrozen s → IsFrozen (run calls s)
  unfolding run
  run-IsFrozen [] s h = h
  run-IsFrozen (c ∷ calls) s h = run-IsFrozen calls (call c s) (call-IsFrozen c s h)

  reload_hot-frozen :
      (keys : Option (List Text)) (s : ConfigManager)
      → IsFrozen s
      → reload_hot w keys s ≡ (s, raise (coded 7))
  unfolding reload_hot
  reload_hot-frozen keys s (f, (place, h)) = ground (arith, f, h)

  -- Once a frozen configuration has been loaded, whatever is called afterwards, a load without
  -- freezing included, `reload_hot` is refused with CFG-007 and changes nothing.
  pub reload_hot-refused_forever :
      (calls : List Call) (keys : Option (List Text)) (s : ConfigManager)
      → IsFrozen s
      → reload_hot w keys (run calls s) ≡ (run calls s, raise (coded 7))
  reload_hot-refused_forever calls keys s h =
      reload_hot-frozen keys (run calls s) (run-IsFrozen calls s h)

  call-IsValid : (c : Call) (s : ConfigManager) → IsValid s → IsValid (call c s)
  unfolding Outcome
  call-IsValid c s h = elim (call-Outcome c s) [
    | inl same ↦ subst IsValid (sym same) h
    | inr (inl (freeze, d, e)) ↦ subst IsValid (sym e) (λ place at.
        let d' = record d { is_frozen = freeze || d.is_frozen } in
        (
          d',
          ap (λ n. object_at n (s.objects ++ d' ∷ [])) (sym (some-injective _ _ at))
              ∙ object_at-last d' s.objects,
        ))
    | inr (inr (callbacks, e)) ↦ subst IsValid (sym e) h
  ]

  run-IsValid : (calls : List Call) (s : ConfigManager) → IsValid s → IsValid (run calls s)
  unfolding run
  run-IsValid [] s h = h
  run-IsValid (c ∷ calls) s h = run-IsValid calls (call c s) (call-IsValid c s h)

  get_config-set :
      (s : ConfigManager) → IsValid s → (get_config s ≡ raise (coded 8)) ↔ (s.config ≡ none)
  unfolding get_config
  get_config-set s valid = elim (Option-cases s.config) [
    | inl unset ↦ ground (arith, unset)
    | inr (place, h) ↦ let (c, there) = valid place h in ground (arith, h, there)
  ]

  -- After any calls on a new manager, `get_config` returns a configuration exactly if one was put in
  -- place; the place it is said to be at is always one of the heap.
  pub get_config-after_calls :
      (calls : List Call)
      → let s = run calls init_manager in
        IsValid s × ((get_config s ≡ raise (coded 8)) ↔ (s.config ≡ none))
  unfolding init_manager
  get_config-after_calls calls =
      let valid = run-IsValid calls init_manager new in
      (valid, get_config-set (run calls init_manager) valid)
    where
      new : IsValid init_manager
      new place h = cc
