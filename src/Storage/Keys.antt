-- ===== src/Storage/Keys.antt =====
-- pkg/storage/badger_store.go and utils.go: the keys of queues and messages in the database.
use doq.Common.{
  ℕ, ◌/◌, ◌%◌, ◌^◌, ◌<◌, ◌≡◌, refl, ap, sym, ◌∙◌, [], ◌∷◌, ◌++◌, arith, length, length-append,
  append_assoc,
}
use doq.Common.Text.{Text, bytes}

abbrev pub queues : Text
queues = bytes "queues:"

abbrev pub messages : Text
messages = bytes "messages:"

-- binary.BigEndian.PutUint64
unfoldable pub uint64_to_bytes : ℕ → Text
uint64_to_bytes u =
    (u / 2 ^ 56 % 256)
    ∷ (u / 2 ^ 48 % 256)
    ∷ (u / 2 ^ 40 % 256)
    ∷ (u / 2 ^ 32 % 256)
    ∷ (u / 2 ^ 24 % 256)
    ∷ (u / 2 ^ 16 % 256)
    ∷ (u / 2 ^ 8 % 256)
    ∷ (u % 256)
    ∷ []

abbrev pub add_prefix : Text → Text → Text
add_prefix prefix key = prefix ++ key

unfoldable pub get_messages_prefix : Text → Text
get_messages_prefix queue_name = messages ++ (queue_name ++ (58 ∷ []))

unfoldable pub get_queue_key : Text → Text
get_queue_key queue_name = queues ++ (queue_name ++ (58 ∷ []))

unfoldable pub get_messages_key : Text → ℕ → Text
get_messages_key queue_name id = add_prefix (get_messages_prefix queue_name) (uint64_to_bytes id)

uint64_to_bytes-injective :
    (u v : ℕ) → u < 2 ^ 64 → v < 2 ^ 64 → uint64_to_bytes u ≡ uint64_to_bytes v → u ≡ v
unfolding uint64_to_bytes
uint64_to_bytes-injective u v hu hv e = ground arith

-- Two appended lists that are equal have equal parts, when the ends are of one length.
append-injective : (a b c d : Text) → length c ≡ length d → (a ++ c) ≡ (b ++ d) → (a ≡ b) × (c ≡ d)
append-injective [] [] c d l e = (refl, e)
append-injective [] (y ∷ b) c d l e = absurd (omega (arith, l, ap length e, length-append b d))
append-injective (x ∷ a) [] c d l e = absurd (omega (arith, l, ap length e, length-append a c))
append-injective (x ∷ a) (y ∷ b) c d l e = let (p, q) = append-injective a b c d l (cc) in (cc, q)

append-cancel : (p a b : Text) → (p ++ a) ≡ (p ++ b) → a ≡ b
append-cancel [] a b e = e
append-cancel (x ∷ p) a b e = append-cancel p a b cc

-- Two messages have one key only when they are one message of one queue: an id is a uint64.
pub get_messages_key-injective :
    (q r : Text) (i j : ℕ)
    → i < 2 ^ 64
    → j < 2 ^ 64
    → get_messages_key q i ≡ get_messages_key r j
    → (q ≡ r) × (i ≡ j)
unfolding get_messages_key get_messages_prefix uint64_to_bytes
get_messages_key-injective q r i j hi hj e =
    let tails = append-cancel messages _ _ (
      sym (append_assoc messages (q ++ (58 ∷ [])) (uint64_to_bytes i))
      ∙ e
      ∙ append_assoc messages (r ++ (58 ∷ [])) (uint64_to_bytes j)) in
    let (p, s) = append-injective (q ++ (58 ∷ [])) (r ++ (58 ∷ [])) _ _ refl tails in
    ((append-injective q r _ _ refl p).0, uint64_to_bytes-injective i j hi hj s)

-- The keys of a queue whose name is another's, a colon and more have the prefix of the other.
pub get_messages_key-colon :
    (q r : Text) (i : ℕ)
    → get_messages_key (q ++ (58 ∷ r)) i
      ≡ (get_messages_prefix q ++ (r ++ (58 ∷ uint64_to_bytes i)))
unfolding get_messages_key get_messages_prefix
get_messages_key-colon q r i = simp (append_assoc)
