-- ===== src/Config/Plain.antt =====
-- `_resolve_placeholders` on configurations without placeholders.
use haru_quant_cbot.Prelude.{
  ◌&&◌, refl, ◌∙◌, ap, ok, none, ◌++◌, arith, ◌∷◌, true, not, [], nat_beq, Result, any_of, false,
  Bool, ◌≡◌, Option, ℕ,
}
use haru_quant_cbot.Prelude.Text.{str, Text}
use haru_quant_cbot.Config.{
  no_fields, no_items, field, Fields, item, Items, table, array, scalar, text, Value,
}
use haru_quant_cbot.Config.Placeholders.{
  resolve_fields, resolve_items, env_rest, env_first, secret_char, put_secrets, resolve_value,
  resolve_text, match_at, find_secrets, sub_env, strip_prefix,
}

abbrev pub has_dollar : Text → Bool
has_dollar t = any_of (nat_beq b'$') t

strip-dollar :
    (word : Text) (c : ℕ) (cs : Text)
    → nat_beq b'$' c ≡ false
    → strip_prefix (str "${" ++ word) (c ∷ cs) ≡ none
unfolding strip_prefix
strip-dollar word c cs h = ground (arith, h)

match_at-dollar :
    (word : Text) (first rest : ℕ → Bool) (c : ℕ) (cs : Text)
    → nat_beq b'$' c ≡ false
    → match_at word first rest (c ∷ cs) ≡ none
unfolding match_at
match_at-dollar word first rest c cs h = ground (arith, strip-dollar word c cs h)

sub_env-plain :
    (environ : Text → Option Text) (t : Text) → has_dollar t ≡ false → sub_env environ 0 t ≡ t
unfolding sub_env
sub_env-plain environ [] h = refl
sub_env-plain environ (c ∷ cs) h = ground (
  arith,
  match_at-dollar (str "env:") env_first env_rest c cs (ground (arith, h)),
  sub_env-plain environ cs (ground (arith, h)),
)

find_secrets-plain : (t : Text) → has_dollar t ≡ false → find_secrets 0 t ≡ []
unfolding find_secrets
find_secrets-plain [] h = refl
find_secrets-plain (c ∷ cs) h = ground (
  arith,
  match_at-dollar (str "secret:") secret_char secret_char c cs (ground (arith, h)),
  find_secrets-plain cs (ground (arith, h)),
)

-- No text in the value holds a dollar sign.
unfoldable mutual
  pub is_plain : Value → Bool
  is_plain (text t) = not (has_dollar t)
  is_plain (scalar n) = true
  is_plain (array vs) = items_plain vs
  is_plain (table fs) = fields_plain fs

  pub items_plain : Items → Bool
  items_plain no_items = true
  items_plain (item v vs) = is_plain v && items_plain vs

  pub fields_plain : Fields → Bool
  fields_plain no_fields = true
  fields_plain (field k v fs) = is_plain v && fields_plain fs

module _ (environ : Text → Option Text) (secret : Text → Result (Option Text)) where
  resolve_text-plain : (t : Text) → has_dollar t ≡ false → resolve_text environ secret t ≡ ok t
  unfolding resolve_text put_secrets
  resolve_text-plain t h =
      ap (λ value. put_secrets secret (find_secrets 0 value) value) (sub_env-plain environ t h)
      ∙ ap (λ names. put_secrets secret names t) (find_secrets-plain t h)

  mutual
    unfolding resolve_value is_plain

    value-plain : (v : Value) → is_plain v ≡ true → resolve_value environ secret v ≡ ok v
    value-plain (text t) h = ground (arith, resolve_text-plain t (ground (arith, h)))
    value-plain (scalar n) h = refl
    value-plain (array vs) h = ground (arith, items-plain vs h)
    value-plain (table fs) h = ground (arith, fields-plain fs h)

    items-plain : (vs : Items) → items_plain vs ≡ true → resolve_items environ secret vs ≡ ok vs
    items-plain no_items h = refl
    items-plain (item v vs) h =
        ground (arith, value-plain v (ground (arith, h)), items-plain vs (ground (arith, h)))

    fields-plain : (fs : Fields) → fields_plain fs ≡ true → resolve_fields environ secret fs ≡ ok fs
    fields-plain no_fields h = refl
    fields-plain (field k v fs) h =
        ground (arith, value-plain v (ground (arith, h)), fields-plain fs (ground (arith, h)))

  -- A value none of whose texts has a dollar sign comes back as it is, whatever the environment
  -- and the secrets hold.
  pub resolve_value-plain : (v : Value) → is_plain v ≡ true → resolve_value environ secret v ≡ ok v
  resolve_value-plain v h = value-plain v h
