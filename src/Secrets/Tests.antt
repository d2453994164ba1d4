-- ===== src/Secrets/Tests.antt =====
-- A keyring that is a function of the keys, a cipher that writes nothing but one secret, and a disk
-- that is full.
use haru_quant_cbot.Secrets.Backends.{get-set, KeyringLaws}
use haru_quant_cbot.Prelude.Text.{text_beq, text_eq, text_beq_iff, str, Text}
use haru_quant_cbot.Prelude.{
  if◌then◌else◌, value_error, password_delete_error, ◌++◌, ◌∙◌, refl, raise, none, [], length, sym,
  ◌∷◌, ◌≢◌, other_error, Result, some, arith, false, true, drop, take, Option, ap, ℕ, ◌≡◌, List, ok,
}
use haru_quant_cbot.Secrets.{
  saved, load_file_secrets, write_failed, save_file_secrets, Keyring, init_manager, SecretsManager,
  delete, set, Machine, get,
}
use haru_quant_cbot.Secrets.Persistence.{
  change-IsPersistent, setting, Restores, IsPersistent, change,
}
use haru_quant_cbot.Prelude.Dict.{insert, Dict}

abbrev Keys : Type 0
Keys = Text → Option Text

abbrev with_key : Text → Option Text → Keys → Keys
with_key k o w j = if text_beq k j then o else w j

abbrev delete_key : Text → Keys → Option Text → Result Keys
delete_key k w none = raise password_delete_error
delete_key k w (some v) = ok (with_key k none w)

abbrev ring : Keyring Keys
ring = record {
  get_password = λ k w. ok (w k);
  set_password = λ k v w. ok (with_key k (some v) w);
  delete_password = λ k w. delete_key k w (w k);
}

ok-injective : (a b : Keys) → ok a ≡ ok b → a ≡ b
ok-injective a b h = ap (λ (r : Result Keys). elim r [ ok x ↦ x | raise e ↦ a ]) h

same_key : (k : Text) (o : Option Text) (w : Keys) → with_key k o w k ≡ o
same_key k o w = ground (arith, text_beq_iff k k)

other_key : (k j : Text) (o : Option Text) (w : Keys) → k ≢ j → with_key k o w j ≡ w j
other_key k j o w ne = ground (arith, text_beq_iff k j)

deleted_key :
    (k : Text) (w w' : Keys) (o : Option Text) → delete_key k w o ≡ ok w' → with_key k none w ≡ w'
deleted_key k w w' none h = cc
deleted_key k w w' (some v) h = ok-injective (with_key k none w) w' h

absent_key :
    (k : Text) (w : Keys) (o : Option Text)
    → delete_key k w o ≡ raise password_delete_error
    → o ≡ none
absent_key k w none h = refl
absent_key k w (some v) h = cc

laws : KeyringLaws ring
laws = record {
  read_after_set = λ k v w w' h.
      ap (λ (x : Keys). ok (x k)) (sym (ok-injective (with_key k (some v) w) w' h))
      ∙ ap ok (same_key k (some v) w);
  read_other_after_set = λ k v j w w' h ne.
      ap (λ (x : Keys). ok (x j)) (sym (ok-injective (with_key k (some v) w) w' h))
      ∙ ap ok (other_key k j (some v) w ne);
  read_after_delete = λ k w w' h.
      ap (λ (x : Keys). ok (x k)) (sym (deleted_key k w w' (w k) h)) ∙ ap ok (same_key k none w);
  read_other_after_delete = λ k j w w' h ne.
      ap (λ (x : Keys). ok (x j)) (sym (deleted_key k w w' (w k) h))
      ∙ ap ok (other_key k j none w ne);
  read_absent = λ k w h. ap ok (absent_key k w (w k) h);
}

-- Only the empty dict and one secret can be written.
abbrev one_secret : Dict Text Text → Result (List ℕ)
one_secret [] = ok []
one_secret ((k, v) ∷ []) = ok (length k ∷ k ++ v)
one_secret (a ∷ b ∷ d) = raise value_error

abbrev read_secret : List ℕ → Result (Dict Text Text)
read_secret [] = ok []
read_secret (n ∷ text) = ok ((take n text, drop n text) ∷ [])

abbrev machine : Machine
machine = record { encrypted = one_secret; decrypted = read_secret; written = λ _. saved }

abbrev full : Machine
full = record machine { written = λ _. write_failed none other_error }

take-all : (k v : Text) → take (length k) (k ++ v) ≡ k
take-all [] v = refl
take-all (c ∷ k) v = ap (◌∷◌ c) (take-all k v)

drop-all : (k v : Text) → drop (length k) (k ++ v) ≡ v
drop-all [] v = refl
drop-all (c ∷ k) v = drop-all k v

restores : Restores machine
restores [] bytes h = ground (arith, h)
restores ((k, v) ∷ []) bytes h = ground (arith, h, take-all k v, drop-all k v)
restores (a ∷ b ∷ d) bytes h = cc

abbrev on_file : SecretsManager Keys
on_file = record { use_keyring = false; file_secrets = []; file = none; keyring = λ _. none }

abbrev on_ring : SecretsManager Keys
on_ring = record on_file { use_keyring = true }

fresh : IsPersistent machine on_file
unfolding init_manager load_file_secrets
fresh = refl

set_works : (set machine ring (str "token") (str "x") on_ring).1 ≡ ok tt
unfolding set
set_works = refl

delete_works : (delete machine ring (str "token") on_ring).1 ≡ ok tt
unfolding delete
delete_works = refl

file_works : (change machine ring (setting (str "token") (str "x")) on_file).1 ≡ ok tt
unfolding change set save_file_secrets insert
file_works = refl

get-set_example :
    (get machine ring (str "token") none (set machine ring (str "token") (str "x") on_ring).0
      ≡ ok (some (str "x")))
    × ((other : Text)
        → str "token" ≢ other
        → get machine ring other none (set machine ring (str "token") (str "x") on_ring).0
          ≡ get machine ring other none on_ring)
get-set_example = get-set machine ring laws (str "token") (str "x") none on_ring set_works

change-IsPersistent_example :
    IsPersistent machine (change machine ring (setting (str "token") (str "x")) on_file).0
change-IsPersistent_example =
    change-IsPersistent machine ring restores (setting (str "token") (str "x")) on_file refl fresh
      file_works

encrypts :
    full.encrypted (insert (str "token") (str "x") [])
    ≡ ok (length (str "token") ∷ str "token" ++ str "x")
unfolding insert
encrypts = refl
