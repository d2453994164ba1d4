-- ===== src/Config/Placeholders.antt =====
-- `_resolve_placeholders` of src/hqt/foundation/config/manager.py: the two regular expressions are
-- scanners over the text, `${env:NAME}` and `${secret:key}`.
use haru_quant_cbot.Config.{
  no_items, no_fields, field, Fields, item, Items, table, array, scalar, text, Value,
}
use haru_quant_cbot.Prelude.{
  if◌then◌else◌, zero, ◌>>=◌, ◌-◌, ◌+◌, coded, raise, length, ◌&&◌, ◌++◌, nat_beq, none, ◌∷◌, leb,
  ok, ◌||◌, suc, Result, [], some, Bool, List, Option, ℕ,
}
use haru_quant_cbot.Prelude.Text.{str, Text}

abbrev between : ℕ → ℕ → ℕ → Bool
between low high c = leb low c && leb c high

-- `[A-Z_]`
unfoldable pub env_first : ℕ → Bool
env_first c = between b'A' b'Z' c || nat_beq c b'_'

-- `[A-Z0-9_]`
unfoldable pub env_rest : ℕ → Bool
env_rest c = between b'A' b'Z' c || between b'0' b'9' c || nat_beq c b'_'

-- `[a-zA-Z0-9_.]`
unfoldable pub secret_char : ℕ → Bool
secret_char c =
    between b'a' b'z' c
    || between b'A' b'Z' c
    || between b'0' b'9' c
    || nat_beq c b'_'
    || nat_beq c b'.'

-- The longest prefix of characters that pass, and the rest.
unfoldable pub span : (ℕ → Bool) → Text → Text × Text
span ok_char [] = ([], [])
span ok_char (c ∷ cs) =
    let (name, rest) = span ok_char cs in if ok_char c then (c ∷ name, rest) else ([], c ∷ cs)

-- The text after a prefix, if it has it.
unfoldable pub strip_prefix : Text → Text → Option Text
strip_prefix [] t = some t
strip_prefix (p ∷ ps) [] = none
strip_prefix (p ∷ ps) (c ∷ cs) = if nat_beq p c then strip_prefix ps cs else none

-- A name up to its closing brace: a first character, then others.
abbrev name_if_closed : (ℕ → Bool) → Text × Text → Option Text
name_if_closed first ([], after) = none
name_if_closed first (c ∷ cs, []) = none
name_if_closed first (c ∷ cs, d ∷ after) = if first c && nat_beq d b'}' then some (c ∷ cs) else none

unfoldable pub closed_name : (ℕ → Bool) → (ℕ → Bool) → Text → Option Text
unfolding span
closed_name first rest t = name_if_closed first (span rest t)

-- A match of `${`, the word, a name and `}` at the start of the text: its name.
unfoldable pub match_at : Text → (ℕ → Bool) → (ℕ → Bool) → Text → Option Text
unfolding strip_prefix closed_name
match_at word first rest t = elim (strip_prefix (str "${" ++ word) t) [
  | none ↦ none
  | some after ↦ closed_name first rest after
]

abbrev or_empty : Option Text → Text
or_empty none = []
or_empty (some t) = t

-- `re.sub` with the environment: `skip` counts the characters of the last match that are left.
unfoldable pub sub_env : (Text → Option Text) → ℕ → Text → Text
unfolding match_at
sub_env environ skip [] = []
sub_env environ (suc skip) (c ∷ cs) = sub_env environ skip cs
sub_env environ zero (c ∷ cs) = elim (match_at (str "env:") env_first env_rest (c ∷ cs)) [
  | none ↦ c ∷ sub_env environ zero cs
  | some name ↦ or_empty (environ name) ++ sub_env environ (length name + 6) cs
]

-- The names of `re.finditer`, likewise.
unfoldable pub find_secrets : ℕ → Text → List Text
unfolding match_at
find_secrets skip [] = []
find_secrets (suc skip) (c ∷ cs) = find_secrets skip cs
find_secrets zero (c ∷ cs) = elim (match_at (str "secret:") secret_char secret_char (c ∷ cs)) [
  | none ↦ find_secrets zero cs
  | some name ↦ name ∷ find_secrets (length name + 9) cs
]

-- `value.replace(old, new)` for an `old` of a length that is not zero.
unfoldable pub replace_from : Text → Text → ℕ → Text → Text
unfolding strip_prefix
replace_from old new skip [] = []
replace_from old new (suc skip) (c ∷ cs) = replace_from old new skip cs
replace_from old new zero (c ∷ cs) = elim (strip_prefix old (c ∷ cs)) [
  | none ↦ c ∷ replace_from old new zero cs
  | some after ↦ new ++ replace_from old new (length old - 1) cs
]

-- The loop over the matches. The call `secrets.get` is an argument, with what it raises.
unfoldable pub put_secrets : (Text → Result (Option Text)) → List Text → Text → Result Text
unfolding replace_from
put_secrets secret [] value = ok value
put_secrets secret (name ∷ names) value = elim (secret name) [
  | raise e ↦ raise e
  | ok none ↦ raise (coded 5)
  | ok (some found) ↦
      put_secrets secret names (replace_from (str "${secret:" ++ name ++ str "}") found 0 value)
]

module _ (environ : Text → Option Text) (secret : Text → Result (Option Text)) where
  unfoldable pub resolve_text : Text → Result Text
  unfolding sub_env find_secrets put_secrets
  resolve_text t =
      let value = sub_env environ 0 t in put_secrets secret (find_secrets 0 value) value

  unfoldable mutual
    unfolding resolve_text

    pub resolve_value : Value → Result Value
    resolve_value (text t) = do resolved ← resolve_text t; ok (text resolved)
    resolve_value (scalar n) = ok (scalar n)
    resolve_value (array vs) = do resolved ← resolve_items vs; ok (array resolved)
    resolve_value (table fs) = do resolved ← resolve_fields fs; ok (table resolved)

    pub resolve_items : Items → Result Items
    resolve_items no_items = ok no_items
    resolve_items (item v vs) = do
      resolved ← resolve_value v
      rest ← resolve_items vs
      ok (item resolved rest)

    pub resolve_fields : Fields → Result Fields
    resolve_fields no_fields = ok no_fields
    resolve_fields (field k v fs) = do
      resolved ← resolve_value v
      rest ← resolve_fields fs
      ok (field k resolved rest)
