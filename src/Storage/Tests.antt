-- ===== src/Storage/Tests.antt =====
-- pkg/storage: the properties at a table with one message.
pub mod Table
use doq.Common.{
  ℕ, ◌+◌, ◌%◌, ◌^◌, ◌<◌, ◌≡◌, ◌≢◌, refl, ◌++◌, Bool, true, false, List, [], ◌∷◌, Option, none, some,
  arith, if◌then◌else◌, ◌⊎◌, inl, inr,
}
use doq.Common.Int.{ℤ, pos}
use doq.Common.Text.{Text, bytes, text_eq}
use doq.Common.Dict
use doq.Errors.{Error, Result, ok, err}
use doq.Entity.{Message}
use doq.Storage
use doq.Storage.{Badger, write_message, read_message, delete_keys}
use doq.Storage.Keys.{get_messages_key, get_messages_prefix, get_queue_key, uint64_to_bytes}
use doq.Storage.Laws.{store-enqueue_lem, store-dequeue_lem, store-ack_lem}
use doq.Storage.DeleteQueue.{delete_queue_lem}
use doq.Storage.Tests.Table.{table, table-IsLawful, table-ListsKeys, Stored}

abbrev pub name : Text
name = bytes "q"

abbrev pub letter : Message
letter = record {
  group = bytes "default";
  id = 1;
  priority = pos 7;
  content = bytes "hi";
  metadata = none;
  delivery_count = 0;
}

abbrev pub delivered : Message
delivered = record letter { delivery_count = 1 }

abbrev pub one_letter : List (Text × Stored)
one_letter = (get_messages_key name 1, Stored.message letter) ∷ []

store-enqueue_lem_example :
    (Storage.get table one_letter name 1 ≡ ok letter)
    × (letter ≡ record letter { delivery_count = 0 })
    × ((r : Text) (j : ℕ)
        → j < 2 ^ 64
        → (r ≢ name) ⊎ (j ≢ 1)
        → Storage.get table one_letter r j ≡ Storage.get table [] r j)
unfolding Storage.enqueue write_message Dict.insert
store-enqueue_lem_example =
    store-enqueue_lem table table-IsLawful [] one_letter name letter letter (omega arith) (λ e. cc)
      refl

delete_queue_lem_example :
    ((i : ℕ) (m : Message) → Storage.get table [] name i ≢ ok m)
    × (Storage.load_queue table [] name ≡ err Error.key_not_found)
    × ((r : Text) (i : ℕ) (m : Message) → Storage.get table [] (name ++ (58 ∷ r)) i ≢ ok m)
unfolding Storage.delete_queue delete_keys Dict.remove get_messages_key get_messages_prefix
    get_queue_key uint64_to_bytes text_eq
delete_queue_lem_example =
    delete_queue_lem table table-IsLawful table-ListsKeys
      ((get_messages_key (name ++ (58 ∷ name)) 1, Stored.message letter) ∷ one_letter) [] name refl
