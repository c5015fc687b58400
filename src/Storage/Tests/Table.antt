-- ===== src/Storage/Tests/Table.antt =====
-- A database in place of Badger for the tests: a table of keys, with the stored values as they are.
use doq.Common.{
  ◌≡◌, ◌≢◌, refl, sym, Bool, true, false, List, [], ◌∷◌, ◌++◌, Option, none, some, if◌then◌else◌,
  Bool-cases, inl, inr,
}
use doq.Common.Text.{Text, text_eq, text_eq_refl, eq_of_text_eq}
use doq.Common.Dict
use doq.Common.Dict.{lookup-insert, lookup-remove}
use doq.Errors.{Error, Result, ok, err}
use doq.Entity.{Message, QueueConfig, config_to_proto}
use doq.Storage.{Badger}
use doq.Storage.Laws.{IsLawful}
use doq.Storage.DeleteQueue.{ListsKeys}

pub data Stored : Type 0 where
  message : Message → Stored
  config : QueueConfig → Stored

abbrev found : Option Stored → Result Stored
found none = err Error.key_not_found
found (some v) = ok v

abbrev as_message : Stored → Result Message
as_message (Stored.message m) = ok m
as_message (Stored.config c) = err (Error.failure 1)

abbrev as_config : Stored → Result QueueConfig
as_config (Stored.message m) = err (Error.failure 1)
as_config (Stored.config c) = ok c

abbrev has_prefix : Text → Text → Bool
has_prefix [] key = true
has_prefix (c ∷ cs) [] = false
has_prefix (c ∷ cs) (k ∷ ks) = if text_eq (c ∷ []) (k ∷ []) then has_prefix cs ks else false

abbrev keys_with : List (Text × Stored) → Text → List Text
keys_with [] prefix = []
keys_with ((key, v) ∷ rest) prefix =
    if has_prefix prefix key then key ∷ keys_with rest prefix else keys_with rest prefix

abbrev pub table : Badger
table = record {
  Db = List (Text × Stored);
  Bytes = Stored;
  get = λ db key. found (Dict.lookup db key);
  set = λ db key v. ok (Dict.insert db key v);
  delete = λ db key. ok (Dict.remove db key);
  keys_with = keys_with;
  drop_prefix = λ db prefixes. ok [];
  marshal = λ m. ok (Stored.message m);
  unmarshal = as_message;
  marshal_config = λ c. ok (Stored.config c);
  unmarshal_config = as_config;
}

other : (k j : Text) → j ≢ k → text_eq k j ≡ false
other k j ne = elim (Bool-cases (text_eq k j)) [
  | inl e ↦ absurd (ne (sym (eq_of_text_eq k j e)))
  | inr e ↦ e
]

pub table-IsLawful : IsLawful table
table-IsLawful = record {
  get_set = λ db db' k v e.
      let same : Dict.insert db k v ≡ db' = cc in
      rw (← same, lookup-insert db k v k, text_eq_refl k) refl;
  get_set_other = λ db db' k j v e ne.
      let same : Dict.insert db k v ≡ db' = cc in
      rw (← same, lookup-insert db k v j, other k j ne) refl;
  get_delete = λ db db' k e.
      let same : Dict.remove db k ≡ db' = cc in
      rw (← same, lookup-remove db k k, text_eq_refl k) refl;
  get_delete_other = λ db db' k j e ne.
      let same : Dict.remove db k ≡ db' = cc in
      rw (← same, lookup-remove db k j, other k j ne) refl;
  decoded = λ m v plain e. let same : Stored.message m ≡ v = cc in rw (← same) refl;
  decoded_config =
      λ c v e. let same : Stored.config (config_to_proto c) ≡ v = cc in rw (← same) refl;
}

has_prefix-append : (p rest : Text) → has_prefix p (p ++ rest) ≡ true
has_prefix-append [] rest = refl
has_prefix-append (c ∷ p) rest = rw (text_eq_refl (c ∷ []), has_prefix-append p rest) refl

pub table-ListsKeys : ListsKeys table
unfolding Dict.lookup
table-ListsKeys [] p rest v e = cc
table-ListsKeys ((key, w) ∷ db) p rest v e = elim (Bool-cases (text_eq key (p ++ rest))) [
  | inl same ↦
      let here = eq_of_text_eq key (p ++ rest) same in
      rw (here, has_prefix-append p rest) (inl refl)
  | inr differs ↦
      let later = table-ListsKeys db p rest v (rw differs at e) in
      elim (Bool-cases (has_prefix p key)) [ inl h ↦ rw h (inr later) | inr h ↦ rw h later ]
]
