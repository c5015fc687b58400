-- ===== src/Storage/DeleteQueue.antt =====
-- pkg/storage/badger_store.go: what DeleteQueue leaves in the database.
use doq.Common.{ℕ, ◌≡◌, ◌≢◌, refl, sym, ◌∙◌, List, [], ◌∷◌, ◌++◌, ◌⊎◌, inl, inr, Bool-cases}
use doq.Common.Text.{Text, text_eq, eq_of_text_eq, text_eq_refl}
use doq.Errors.{Error, Result, ok, err, found_or}
use doq.Entity.{Message}
use doq.Storage
use doq.Storage.{Badger, delete_keys}
use doq.Storage.Keys.{
  get_messages_key, get_messages_prefix, get_queue_key, uint64_to_bytes, get_messages_key-colon,
}
use doq.Storage.Laws.{IsLawful, >>?-inv, found_or-inv}

-- The key is in the list.
abbrev pub Listed : Text → List Text → Type 0
Listed k [] = ⊥
Listed k (j ∷ ks) = (k ≡ j) ⊎ Listed k ks

-- Badger's iterator finds every key with the prefix that holds a value.
abbrev pub ListsKeys : Badger → Type 0
ListsKeys b =
    (db : b.Db) (prefix rest : Text) (v : b.Bytes)
    → b.get db (prefix ++ rest) ≡ ok v
    → Listed (prefix ++ rest) (b.keys_with db prefix)

-- No value is under the key.
abbrev pub IsAbsent : (b : Badger) → b.Db → Text → Type 0
IsAbsent b db k = (v : b.Bytes) → b.get db k ≢ ok v

module _ (b : Badger) (laws : IsLawful b) (lists : ListsKeys b) where
  -- A deletion of any key keeps a key absent, and makes its own so.
  delete-IsAbsent :
      (db db' : b.Db) (j k : Text)
      → b.delete db j ≡ ok db'
      → (k ≡ j) ⊎ IsAbsent b db k
      → IsAbsent b db' k
  delete-IsAbsent db db' j k d gone v found = elim (Bool-cases (text_eq k j)) [
    | inl same ↦
        let here : k ≡ j = eq_of_text_eq k j same in cc (laws.get_delete db db' j d, here, found)
    | inr other ↦
        let ne : k ≢ j = λ e. cc (e, other, text_eq_refl j) in
        elim gone [
          | inl e ↦ absurd (ne e)
          | inr absent ↦ absurd (absent v (sym (laws.get_delete_other db db' j k d ne) ∙ found))
        ]
  ]

  delete_keys-IsAbsent :
      (ks : List Text) (db db' : b.Db) (k : Text)
      → delete_keys b db ks ≡ ok db'
      → Listed k ks ⊎ IsAbsent b db k
      → IsAbsent b db' k
  unfolding delete_keys
  delete_keys-IsAbsent [] db db' k d gone = elim gone [
    | inl listed ↦ absurd listed
    | inr absent ↦ let same : db ≡ db' = cc in rw (← same) absent
  ]
  delete_keys-IsAbsent (j ∷ ks) db db' k d gone =
      let (db1, first, rest) = >>?-inv (b.delete db j) _ db' d in
      delete_keys-IsAbsent ks db1 db' k rest (elim gone [
        | inr absent ↦ inr (delete-IsAbsent db db1 j k first (inr absent))
        | inl listed ↦ elim listed [
          | inl here ↦ inr (delete-IsAbsent db db1 j k first (inl here))
          | inr later ↦ inl later
        ]
      ])

  -- After DeleteQueue nothing is left under any key with the prefix of the queue's messages.
  prefix-IsAbsent :
      (db db' : b.Db) (q rest : Text)
      → Storage.delete_queue b db q ≡ ok db'
      → IsAbsent b db' (get_messages_prefix q ++ rest)
  unfolding Storage.delete_queue
  prefix-IsAbsent db db' q rest d =
      let p = get_messages_prefix q in
      let (db1, first, last) = >>?-inv (delete_keys b db (b.keys_with db p)) _ db' d in
      delete-IsAbsent db1 db' (get_queue_key q) (p ++ rest) last (
        inr (
          delete_keys-IsAbsent (b.keys_with db p) db db1 (p ++ rest) first
            (listed_or_absent (b.get db (p ++ rest)) refl)))
    where
      listed_or_absent :
          (r : Result b.Bytes)
          → b.get db (get_messages_prefix q ++ rest) ≡ r
          → Listed (get_messages_prefix q ++ rest) (b.keys_with db (get_messages_prefix q))
            ⊎ IsAbsent b db (get_messages_prefix q ++ rest)
      listed_or_absent (ok v) e = inl (lists db (get_messages_prefix q) rest v e)
      listed_or_absent (err x) e = inr λ v found. cc

  unread :
      (db : b.Db) (q : Text) (i : ℕ) (m : Message)
      → IsAbsent b db (get_messages_key q i)
      → Storage.get b db q i ≢ ok m
  unfolding Storage.get
  unread db q i m absent found =
      let (v, p, s) = >>?-inv (found_or (b.get db (get_messages_key q i))) _ m found in
      absent v (found_or-inv (b.get db (get_messages_key q i)) v p)

  unloaded :
      (db db' : b.Db) (q : Text)
      → Storage.delete_queue b db q ≡ ok db'
      → Storage.load_queue b db' q ≡ err Error.key_not_found
  unfolding Storage.delete_queue Storage.load_queue
  unloaded db db' q d =
      let (db1, first, last) =
        >>?-inv (delete_keys b db (b.keys_with db (get_messages_prefix q))) _ db' d in
      rw (laws.get_delete db1 db' (get_queue_key q) last) refl

  -- After DeleteQueue no message of the queue can be read, and its configuration is not found. But no
  -- message of a queue whose name is this one's, a colon and more can be read either.
  pub delete_queue_lem :
      (db db' : b.Db) (q : Text)
      → Storage.delete_queue b db q ≡ ok db'
      → ((i : ℕ) (m : Message) → Storage.get b db' q i ≢ ok m)
        × (Storage.load_queue b db' q ≡ err Error.key_not_found)
        × ((r : Text) (i : ℕ) (m : Message) → Storage.get b db' (q ++ (58 ∷ r)) i ≢ ok m)
  unfolding get_messages_key
  delete_queue_lem db db' q d = (
    λ i m. unread db' q i m (prefix-IsAbsent db db' q (uint64_to_bytes i) d),
    unloaded db db' q d,
    λ r i m. unread db' (q ++ (58 ∷ r)) i m (
        rw (get_messages_key-colon q r i)
          (prefix-IsAbsent db db' q (r ++ (58 ∷ uint64_to_bytes i)) d)),
  )
