-- ===== src/Config/Reload.antt =====
-- `load` and `reload_hot` of `ConfigManager`: what they leave.
use haru_quant_cbot.Config.{
  no_fields, no_items, field, Fields, item, Items, table, array, scalar, text, Value,
}
use haru_quant_cbot.Prelude.Text.{split_on, str, text_beq_iff, Text}
use haru_quant_cbot.Prelude.{
  Bool-cases, coded, Option-cases, sym, map, false, Result, none, inl, inr, Result-cases, ◌||◌, ok,
  nat_beq_iff, ◌∙◌, ◌⊎◌, refl, zero, suc, ap, [], raise, ◌∷◌, arith, Error, Bool, true, ◌++◌, some,
  ◌≡◌, ◌<◌, length, Option, List, ℕ,
}
use haru_quant_cbot.Config.Manager.{
  allowed_keys, after_load, env_name, Notice, reload_now, reload_hot, stored, load, ConfigManager,
  fields_beq, items_beq, read_config, read_key, update_parts, own_object, get_config, assigned,
  AppConfig, World, update_keys, object_at, value_beq,
}

mutual
  unfolding value_beq

  value_refl : (v : Value) → value_beq v v ≡ true
  value_refl (text t) = (text_beq_iff t t).1 refl
  value_refl (scalar n) = (nat_beq_iff n n).1 refl
  value_refl (array vs) = items_refl vs
  value_refl (table fs) = fields_refl fs

  items_refl : (vs : Items) → items_beq vs vs ≡ true
  items_refl no_items = refl
  items_refl (item v vs) = ground (arith, value_refl v, items_refl vs)

  fields_refl : (fs : Fields) → fields_beq fs fs ≡ true
  fields_refl no_fields = refl
  fields_refl (field k v fs) =
      ground (arith, (text_beq_iff k k).1 refl, value_refl v, fields_refl fs)

assigned-same :
    (section name : Text) (o : Option Value) (s : ConfigManager) → assigned section name o o s ≡ s
assigned-same section name none s = refl
assigned-same section name (some v) s = ground (arith, value_refl v)

own_object-at :
    (place : ℕ) (s : ConfigManager)
    → s.config ≡ some place
    → own_object s ≡ object_at place s.objects
own_object-at place s h = ground (arith, h)

-- Where `self.config` is the new object already, a key changes nothing.
update_parts-aliased :
    (place : ℕ) (parts : List Text) (s : ConfigManager)
    → s.config ≡ some place
    → update_parts place parts s ≡ s
update_parts-aliased place [] s h = refl
update_parts-aliased place (a ∷ []) s h = refl
update_parts-aliased place (a ∷ b ∷ c ∷ parts) s h = refl
update_parts-aliased place (section ∷ name ∷ []) s h =
    ap
      (λ o.
        assigned section name (read_key section name o)
          (read_key section name (object_at place s.objects)) s)
      (own_object-at place s h)
    ∙ assigned-same section name (read_key section name (object_at place s.objects)) s

update_keys-aliased :
    (place : ℕ) (keys : List Text) (s : ConfigManager)
    → s.config ≡ some place
    → update_keys place keys s ≡ s
unfolding update_keys
update_keys-aliased place [] s h = refl
update_keys-aliased place (key ∷ keys) s h =
    ap (update_keys place keys) (update_parts-aliased place (split_on b'.' key) s h)
    ∙ update_keys-aliased place keys s h

pub object_at-last :
    (c : AppConfig) (cs : List AppConfig) → object_at (length cs) (cs ++ c ∷ []) ≡ some c
unfolding object_at
object_at-last c [] = refl
object_at-last c (d ∷ cs) = object_at-last c cs

object_at-append :
    (n : ℕ) (cs ds : List AppConfig) → n < length cs → object_at n (cs ++ ds) ≡ object_at n cs
unfolding object_at
object_at-append n [] ds h = absurd (ground (arith, h))
object_at-append zero (c ∷ cs) ds h = refl
object_at-append (suc n) (c ∷ cs) ds h = object_at-append n cs ds (omega (arith, h))

module _ (w : World) where
  pub load-ok :
      (env : Text) (freeze : Bool) (s : ConfigManager) (c : AppConfig)
      → read_config w env ≡ ok c
      → load w env freeze s ≡ (stored w freeze s c, ok (length s.objects))
  unfolding load
  load-ok env freeze s c fine = rw (fine, load) refl

  pub load-raise :
      (env : Text) (freeze : Bool) (s : ConfigManager) (e : Error)
      → read_config w env ≡ raise e
      → load w env freeze s ≡ (s, raise e)
  unfolding load
  load-raise env freeze s e bad = rw (bad, load) refl

  abbrev frozen_as : Bool → AppConfig → AppConfig
  frozen_as freeze c = record c { is_frozen = freeze || c.is_frozen }

  own_object-stored :
      (freeze : Bool) (s : ConfigManager) (c : AppConfig)
      → own_object (stored w freeze s c) ≡ some (frozen_as freeze c)
  own_object-stored freeze s c = object_at-last (frozen_as freeze c) s.objects

  -- A `load` that raises leaves the manager as it is. One that succeeds makes the configuration that
  -- was read the current one, frozen if that was asked for; the manager is frozen then or if it was
  -- before; the earlier configurations and the callbacks stay.
  pub load-outcome :
      (env : Text) (freeze : Bool) (s : ConfigManager)
      → ((e : Error) × (load w env freeze s ≡ (s, raise e)))
        ⊎ ((c : AppConfig) × (read_config w env ≡ ok c)
            × (get_config (load w env freeze s).0
                ≡ ok (record c { is_frozen = freeze || c.is_frozen }))
            × ((load w env freeze s).0.frozen ≡ (freeze || s.frozen))
            × ((load w env freeze s).0.reload_callbacks ≡ s.reload_callbacks)
            × ((n : ℕ)
                → n < length s.objects
                → object_at n (load w env freeze s).0.objects ≡ object_at n s.objects))
  unfolding get_config
  load-outcome env freeze s = elim (Result-cases (read_config w env)) [
    | inr (e, bad) ↦ inl (e, load-raise env freeze s e bad)
    | inl (c, fine) ↦
        let done = ap (λ (p : ConfigManager × Result ℕ). p.0) (load-ok env freeze s c fine) in
        inr (
          c,
          fine,
          ap get_config done ∙ ground (arith, own_object-stored freeze s c),
          ap (λ (t : ConfigManager). t.frozen) done,
          ap (λ (t : ConfigManager). t.reload_callbacks) done,
          λ n below.
              ap (λ (t : ConfigManager). object_at n t.objects) done
              ∙ object_at-append n s.objects (frozen_as freeze c ∷ []) below,
        )
  ]

  pub reload_now-ok :
      (keys : List Text) (s : ConfigManager) (c : AppConfig)
      → read_config w (env_name (w.environ (str "HQT_ENV"))) ≡ ok c
      → reload_now w keys s
        ≡ (stored w false s c, ok (map (λ callback. (callback, some c)) s.reload_callbacks))
  unfolding reload_now after_load
  reload_now-ok keys s c fine =
      let place = length s.objects in
      let t = stored w false s c in
      ap (after_load keys) (load-ok (env_name (w.environ (str "HQT_ENV"))) false s c fine)
      ∙ ap (noticed) (update_keys-aliased place keys t refl)
      ∙ ap (λ o. (t, ok (map (λ callback. (callback, o)) s.reload_callbacks)))
          (own_object-stored false s c)
    where
      noticed : ConfigManager → ConfigManager × Result (List Notice)
      noticed u = (u, ok (map (λ callback. (callback, own_object u)) u.reload_callbacks))

  pub reload_now-raise :
      (keys : List Text) (s : ConfigManager) (e : Error)
      → read_config w (env_name (w.environ (str "HQT_ENV"))) ≡ raise e
      → reload_now w keys s ≡ (s, raise e)
  unfolding reload_now after_load
  reload_now-raise keys s e bad =
      ap (after_load keys) (load-raise (env_name (w.environ (str "HQT_ENV"))) false s e bad)

  -- A `reload_hot` raises and leaves the manager as it is, or it comes to `load`.
  pub reload_hot-runs :
      (keys : Option (List Text)) (s : ConfigManager)
      → ((e : Error) × (reload_hot w keys s ≡ (s, raise e)))
        ⊎ ((allowed : List Text) × (reload_hot w keys s ≡ reload_now w allowed s))
  unfolding reload_hot
  reload_hot-runs keys s = elim (Option-cases s.config) [
    | inl unset ↦ inl (coded 6, ground (arith, unset))
    | inr (place, h) ↦ elim (Bool-cases s.frozen) [
      | inl f ↦ inl (coded 7, ground (arith, h, f))
      | inr f ↦ elim (Result-cases (allowed_keys keys)) [
        | inr (e, bad) ↦ inl (e, ground (arith, h, f, bad))
        | inl (allowed, fine) ↦ inr (allowed, ground (arith, h, f, fine))
      ]
    ]
  ]

  -- Whatever keys it is given, a `reload_hot` that raises nothing does to the manager what
  -- `load(freeze=False)` does: the whole configuration is the one just read. Each callback is called
  -- once, in the order of registration, with that configuration.
  pub reload_hot-replaces_all :
      (keys : Option (List Text)) (s : ConfigManager) (notices : List Notice)
      → (reload_hot w keys s).1 ≡ ok notices
      → (c : AppConfig) × (read_config w (env_name (w.environ (str "HQT_ENV"))) ≡ ok c)
        × ((reload_hot w keys s).0 ≡ (load w (env_name (w.environ (str "HQT_ENV"))) false s).0)
        × (get_config (reload_hot w keys s).0 ≡ ok c)
        × (notices ≡ map (λ callback. (callback, some c)) s.reload_callbacks)
  unfolding get_config
  reload_hot-replaces_all keys s notices h = elim (reload_hot-runs keys s) [
    | inl (e, bad) ↦ absurd (ground (arith, h, bad))
    | inr (allowed, same) ↦
        elim (Result-cases (read_config w (env_name (w.environ (str "HQT_ENV"))))) [
          | inr (e, bad) ↦ absurd (ground (arith, h, same, reload_now-raise allowed s e bad))
          | inl (c, fine) ↦
              let all = same ∙ reload_now-ok allowed s c fine in
              let loaded = load-ok (env_name (w.environ (str "HQT_ENV"))) false s c fine in
              (
                c,
                fine,
                ap (λ (p : ConfigManager × Result (List Notice)). p.0) all
                    ∙ sym (ap (λ (p : ConfigManager × Result ℕ). p.0) loaded),
                ap (λ (p : ConfigManager × Result (List Notice)). get_config p.0) all
                    ∙ ground (arith, own_object-stored false s c),
                ap given (sym h ∙ ap (λ (p : ConfigManager × Result (List Notice)). p.1) all),
              )
        ]
  ]
    where
      given : Result (List Notice) → List Notice
      given (ok some_notices) = some_notices
      given (raise e) = []
