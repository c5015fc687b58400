-- ===== src/Storage/Snapshot/Laws.antt =====
-- pkg/storage/snapshot.go: what is written is read back, and a stream that is cut off is noticed.
use doq.Common.{
  ℕ, zero, suc, ◌^◌, ◌%◌, ◌<◌, ◌≤◌, ◌≡◌, ◌≢◌, refl, ap, sym, ◌∙◌, true, false, [], ◌∷◌, ◌++◌, none,
  some, arith, ltb, ◌==◌, length, length-append, append_assoc, take, Option-cases, Bool-cases, inl,
  inr, if◌then◌else◌,
}
use doq.Common.Text.{Text}
use doq.Proto.{SnapshotItem, as_read}
use doq.Storage.Snapshot.{
  ItemCodec, SnapshotSink, put_uint32, uint32, write_snapshot_item, Read, ReadError, ok, err, skip,
  read_full, read_snapshot_item, length_error,
}

-- Protobuf's documented behaviour: what it encodes takes less than 2 GiB, and it decodes to the item, of
-- which it does not tell an empty map from nil and keeps no more of a queue than pb.Queue has.
pub record IsLawful (p : ItemCodec) : Type 0 where
  pub decoded :
      (item : SnapshotItem) (content : Text)
      → p.marshal item ≡ some content
      → (p.unmarshal content ≡ some (as_read item)) × (length content < 2 ^ 31)

-- A sink that keeps what is written to it, in order.
pub record KeepsWrites (k : SnapshotSink) (contents : k.Sink → Text) : Type 0 where
  pub appended :
      (sink sink' : k.Sink) (bytes : Text)
      → k.write sink bytes ≡ some sink'
      → contents sink' ≡ contents sink ++ bytes

uint32-put_uint32 : (u : ℕ) → u < 2 ^ 32 → uint32 (put_uint32 u) ≡ u
unfolding uint32 put_uint32
uint32-put_uint32 u h = omega arith

take-append : (xs ys : Text) → take (length xs) (xs ++ ys) ≡ xs
take-append [] ys = refl
take-append (x ∷ xs) ys = ap (λ t. x ∷ t) (take-append xs ys)

skip-append : (xs ys : Text) → skip (length xs) (xs ++ ys) ≡ ys
unfolding skip
skip-append [] ys = refl
skip-append (x ∷ xs) ys = skip-append xs ys

read_full-append : (n : ℕ) (xs ys : Text) → length xs ≡ n → read_full n (xs ++ ys) ≡ (ok xs, ys)
unfolding read_full
read_full-append n xs ys e =
    let long : ltb (length (xs ++ ys)) n ≡ false = ground (arith, length-append xs ys) in
    rw long (rw (← e) (rw (take-append, skip-append) refl))

read_full-short :
    (n : ℕ) (xs : Text)
    → length xs < n
    → read_full n xs
      ≡ (if length xs == 0 then err ReadError.end_of_file else err ReadError.unexpected_end, [])
unfolding read_full
read_full-short n xs h = let short : ltb (length xs) n ≡ true = ground arith in rw short refl

length-take : (n : ℕ) (xs : Text) → n ≤ length xs → length (take n xs) ≡ n
length-take zero xs h = refl
length-take (suc n) [] h = elim h [ ]
length-take (suc n) (x ∷ xs) h = omega (arith, length-take n xs (omega arith))

-- Reading fails, and not with the end of the snapshot.
abbrev pub FailsMidway : Read SnapshotItem → Type 0
FailsMidway (ok item) = ⊥
FailsMidway (err e) = e ≢ ReadError.end_of_file

-- An item as it stands on the stream.
unfoldable pub frame : Text → Text
frame content = put_uint32 (length content) ++ content

module _ (p : ItemCodec) where
  read_step :
      (bytes prefix rest content rest' : Text) (item : SnapshotItem)
      → read_full 4 bytes ≡ (ok prefix, rest)
      → read_full (uint32 prefix) rest ≡ (ok content, rest')
      → p.unmarshal content ≡ some item
      → read_snapshot_item p bytes ≡ (ok item, rest')
  unfolding read_snapshot_item
  read_step bytes prefix rest content rest' item head body decoded =
      rw head (rw body (rw decoded refl))

  read_no_content :
      (bytes prefix rest rest' : Text) (e : ReadError)
      → read_full 4 bytes ≡ (ok prefix, rest)
      → read_full (uint32 prefix) rest ≡ (err e, rest')
      → read_snapshot_item p bytes ≡ (err ReadError.no_content, rest')
  unfolding read_snapshot_item
  read_no_content bytes prefix rest rest' e head body = rw head (rw body refl)

  read_no_length :
      (bytes rest : Text) (e : ReadError)
      → read_full 4 bytes ≡ (err e, rest)
      → read_snapshot_item p bytes ≡ (err (length_error e), rest)
  unfolding read_snapshot_item
  read_no_length bytes rest e head = rw head refl

module _ (p : ItemCodec) (laws : IsLawful p) where
  pub read_frame :
      (item : SnapshotItem) (content rest : Text)
      → p.marshal item ≡ some content
      → read_snapshot_item p (frame content ++ rest) ≡ (ok (as_read item), rest)
  unfolding frame
  read_frame item content rest e =
      let (back, small) = laws.decoded item content e in
      let prefix = put_uint32 (length content) in
      let n : uint32 prefix ≡ length content = uint32-put_uint32 (length content) (omega arith) in
      let head = read_full-append 4 prefix (content ++ rest) (four (length content)) in
      let body = read_full-append (uint32 prefix) content rest (sym n) in
      read_step p (frame content ++ rest) prefix (content ++ rest) content rest (as_read item)
        (rw (append_assoc) head) body back
    where
      four : (u : ℕ) → length (put_uint32 u) ≡ 4
      four u = unfold put_uint32 in refl

  cut_in_length :
      (n : ℕ) (bytes : Text)
      → length bytes ≡ suc n
      → suc n < 4
      → FailsMidway (read_snapshot_item p bytes).0
  cut_in_length n bytes l h =
      let cut : (length bytes == 0) ≡ false = ground arith in
      let short = read_full-short 4 bytes (omega arith) in
      rw (read_no_length p bytes [] ReadError.unexpected_end (rw cut at short)) λ z. cc

  cut_in_content :
      (n : ℕ) (content : Text)
      → length content < 2 ^ 32
      → n < length content
      → FailsMidway (read_snapshot_item p (put_uint32 (length content) ++ take n content)).0
  cut_in_content n content small h =
      let prefix = put_uint32 (length content) in
      let size = uint32-put_uint32 (length content) small in
      let l = length-take n content (omega arith) in
      let body = read_full-short (uint32 prefix) (take n content) (omega (arith, size, l)) in
      elim (Bool-cases (length (take n content) == 0)) [
        | inl t ↦
            rw (read_no_content p _ prefix (take n content) [] _ (head n content) (rw t at body))
              λ z. cc
        | inr t ↦
            rw (read_no_content p _ prefix (take n content) [] _ (head n content) (rw t at body))
              λ z. cc
      ]
    where
      head :
          (n : ℕ) (content : Text)
          → read_full 4 (put_uint32 (length content) ++ take n content)
            ≡ (ok (put_uint32 (length content)), take n content)
      head n content =
          read_full-append 4 (put_uint32 (length content)) (take n content)
            (unfold put_uint32 in refl)

  -- A stream that ends inside an item is not taken for a complete snapshot: reading what is there of the
  -- item fails, and not with io.EOF. Protobuf encodes the item in less than 2 GiB.
  pub read_snapshot_item-cut :
      (item : SnapshotItem) (content : Text) (n : ℕ)
      → p.marshal item ≡ some content
      → 0 < n
      → n < length (frame content)
      → FailsMidway (read_snapshot_item p (take n (frame content))).0
  unfolding frame put_uint32
  read_snapshot_item-cut item content zero e pos h = elim pos [ ]
  read_snapshot_item-cut item content (suc zero) e pos h = cut_in_length 0 _ refl (omega arith)
  read_snapshot_item-cut item content (suc (suc zero)) e pos h =
      cut_in_length 1 _ refl (omega arith)
  read_snapshot_item-cut item content (suc (suc (suc zero))) e pos h =
      cut_in_length 2 _ refl (omega arith)
  read_snapshot_item-cut item content (suc (suc (suc (suc n)))) e pos h =
      let small = (laws.decoded item content e).1 in
      cut_in_content n content (omega arith) (omega arith)

  module _ (k : SnapshotSink) (contents : k.Sink → Text) (kept : KeepsWrites k contents) where
    -- What a successful write adds to the sink is the item's frame.
    pub write-frame :
        (sink sink' : k.Sink) (item : SnapshotItem)
        → write_snapshot_item p k sink item ≡ (sink', none)
        → (content : Text) × (p.marshal item ≡ some content)
          × (contents sink' ≡ contents sink ++ frame content)
    unfolding write_snapshot_item frame
    write-frame sink sink' item e = elim (Option-cases (p.marshal item)) [
      | inl failed ↦ cc (rw (failed, write_snapshot_item) at e)
      | inr (content, encoded) ↦
          let small = (laws.decoded item content encoded).1 in
          let n : length content % 2 ^ 32 ≡ length content = omega arith in
          let e1 = rw (encoded, write_snapshot_item) at e in
          elim (Option-cases (k.write sink (put_uint32 (length content % 2 ^ 32)))) [
            | inl failed ↦ cc (rw failed at e1)
            | inr (s1, w1) ↦
                let e2 = rw w1 at e1 in
                elim (Option-cases (k.write s1 content)) [
                  | inl failed ↦ cc (rw failed at e2)
                  | inr (s2, w2) ↦
                      let e3 = rw w2 at e2 in
                      let same : s2 ≡ sink' = cc in
                      (
                        content,
                        encoded,
                        ap contents (sym same)
                            ∙ (kept.appended s1 s2 content w2
                                ∙ (ap (λ t. t ++ content) (kept.appended sink s1 _ w1)
                                    ∙ (append_assoc (contents sink) _ content
                                        ∙ ap (λ u. contents sink ++ (put_uint32 u ++ content)) n))),
                      )
                ]
          ]
    ]
