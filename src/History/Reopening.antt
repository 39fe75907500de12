-- ===== src/History/Reopening.antt =====
-- crates/asli-history/src/lib.rs: reading a file that `persist` wrote, whole or torn.
use asli.Prelude.{
  ℕ, zero, suc, ◌+◌, ◌≤◌, ◌<◌, ◌≡◌, ◌⊎◌, refl, sym, ap, ◌∙◌, ltb, false, List, [], ◌∷◌, ◌++◌,
  Option, some, length, take, drop, All, arith, inl, inr, le→ltb, u32_max, IsU64, length-append,
  append_assoc,
}
use asli.Prelude.Bytes.{
  IsArray, to_be, from_be, slice, length-to_be, from_be-to_be, take-append_of, drop-append_of,
  drop-drop,
}
use asli.Prelude.Utf8.{IsScalar, from_utf8-as_bytes}
use asli.Prelude.Results.{done, ◌>>=◌, >>=-done, >>=-return, >>=_assoc, fail_if, done-injective}
use asli.Crypto.Error as CryptoError
use asli.Crypto.Aead.{IsTagged}
use asli.Crypto.Primitives.{Primitives}
use asli.Crypto.Clip.{seal, open_clip, encode_inner, inner_header_len, padded_len}
use asli.Crypto.Clip.Layout as Layout
use asli.Crypto.Clip.Layout.{length-encode_inner}
use asli.Crypto.Clip.Padding.{padded_len_bounds}
use asli.Crypto.Clip.Sealing.{open_clip-sealed, seal_ok}
use asli.History.{Entry, Content, Result, malformed, content_bytes}
use asli.History as History
use asli.History.File.{
  room, inner_of, entry_of, from_parts, content_type, record_of, records_of, open_record,
  decode_records, from_crypto, from_crypto-done, min_record_bytes, max_record_bytes, nonce_len,
  id_len,
}

-- A text holds scalar values. A content of at most 33554000 bytes fits a record with its padding.
abbrev pub IsContent : Content → Type 0
IsContent (History.text t) = All IsScalar t
IsContent (History.image_png bytes) = Unit {0}

pub record IsEntry (e : Entry) : Type 0 where
  pub id : IsArray 16 e.id
  pub device : IsArray 16 e.device_id
  pub time : IsU64 e.ts_ms
  pub content : IsContent e.content
  pub small : length (content_bytes e.content) ≤ 33554000

from_parts-content_type :
    (c : Content) → IsContent c → from_parts (content_type c) (content_bytes c) ≡ done c
unfolding from_parts content_type content_bytes
from_parts-content_type (History.text t) v = rw (from_parts, from_utf8-as_bytes t v) refl
from_parts-content_type (History.image_png bytes) v = refl

entry_of-inner_of : (e : Entry) → IsContent e.content → entry_of e.id (inner_of e) ≡ done e
unfolding entry_of inner_of
entry_of-inner_of e v = rw (from_parts-content_type e.content v) refl

-- Whenever the generator returns a nonce, it has 24 bytes.
abbrev pub IsNonces : (ℕ → Option (List ℕ)) → Type 0
IsNonces nonces = (idx : ℕ) (nonce : List ℕ) → nonces idx ≡ some nonce → length nonce ≡ nonce_len

-- The bytes of a record: its length, the id, the nonce, the padded plaintext and the tag.
unfoldable pub record_len : Entry → ℕ
record_len e =
    4
    + (id_len
        + (nonce_len + (padded_len (inner_header_len + length (content_bytes e.content)) + 16)))

-- What the bytes of a record are to the reader.
pub record IsRecord (crypto : Primitives) (key : List ℕ) (e : Entry) (bytes : List ℕ) : Type 0 where
  pub body : List ℕ
  pub size : ℕ
  pub layout : bytes ≡ to_be 4 size ++ body
  pub length_body : length body ≡ size
  pub whole : 4 + size ≡ record_len e
  pub long : min_record_bytes ≤ size
  pub short : size ≤ max_record_bytes
  pub opens : open_record crypto key body ≡ done e

-- A file that ends here, or was cut in the middle of a record.
pub record IsTorn (tail : List ℕ) : Type 0 where
  pub stops :
      (length tail < 4)
      ⊎ ((min_record_bytes ≤ from_be (take 4 tail))
          × (from_be (take 4 tail) ≤ max_record_bytes)
          × (length (drop 4 tail) < from_be (take 4 tail)))

module _ (crypto : Primitives) (key : List ℕ) where
  pub decode_records-torn :
      (rounds : ℕ) (tail : List ℕ) → IsTorn tail → decode_records crypto rounds key tail ≡ done []
  unfolding decode_records
  decode_records-torn zero tail torn = refl
  decode_records-torn (suc rounds) tail torn = elim torn.stops [
    | inl short ↦ ground arith
    | inr (long, fits, cut) ↦ ground arith
  ]

  pub decode_records-record :
      (rounds : ℕ) (e : Entry) (bytes tail : List ℕ)
      → IsRecord crypto key e bytes
      → decode_records crypto (suc rounds) key (bytes ++ tail)
        ≡ (decode_records crypto rounds key tail >>= λ es. done (e ∷ es))
  unfolding decode_records
  decode_records-record rounds e bytes tail r =
      let after = r.body ++ tail in
      let whole : bytes ++ tail ≡ to_be 4 r.size ++ after =
        ap (λ front. front ++ tail) r.layout ∙ append_assoc (to_be 4 r.size) r.body tail in
      let four = length-to_be 4 r.size in
      let head : take 4 (to_be 4 r.size ++ after) ≡ to_be 4 r.size =
        take-append_of 4 (to_be 4 r.size) after four in
      let rest : drop 4 (to_be 4 r.size ++ after) ≡ after =
        drop-append_of 4 (to_be 4 r.size) after four in
      let size = from_be-to_be 4 r.size (omega (arith, r.short)) in
      let mine : take r.size after ≡ r.body = take-append_of r.size r.body tail r.length_body in
      let later : drop r.size after ≡ tail = drop-append_of r.size r.body tail r.length_body in
      let first : ltb (length (to_be 4 r.size ++ after)) 4 ≡ false =
        le→ltb _ _ (omega (arith, four, length-append (to_be 4 r.size) after)) in
      let low : ltb r.size min_record_bytes ≡ false = le→ltb _ _ r.long in
      let high : ltb max_record_bytes r.size ≡ false = le→ltb _ _ r.short in
      let here : ltb (length after) r.size ≡ false =
        le→ltb _ _ (omega (arith, r.length_body, length-append r.body tail)) in
      rw (whole, head, rest, size, first, low, high, here, mine, later, r.opens) refl

  inner_of-IsValid : (e : Entry) → IsEntry e → Layout.IsValid (inner_of e)
  unfolding inner_of
  inner_of-IsValid e v = record {
    device = v.device;
    seq_fits = omega arith;
    ts_fits = v.time;
    small = omega (arith, v.small);
  }

  length-inner_of :
      (e : Entry)
      → IsEntry e
      → length (encode_inner (inner_of e))
        ≡ padded_len (inner_header_len + length (content_bytes e.content))
  unfolding inner_of
  length-inner_of e v = length-encode_inner (inner_of e) v.device

  length-sealed_inner : (e : Entry) → IsEntry e → length (encode_inner (inner_of e)) ≤ 67108800
  unfolding inner_of
  length-sealed_inner e v = omega (
    arith,
    length-encode_inner (inner_of e) v.device,
    padded_len_bounds (inner_header_len + length (content_bytes e.content)),
    v.small,
  )

  open_record-parts :
      (e : Entry) (nonce sealed : List ℕ)
      → IsEntry e
      → length nonce ≡ nonce_len
      → open_clip crypto.aead key 0 room e.id nonce sealed ≡ CryptoError.ok (inner_of e)
      → open_record crypto key (e.id ++ (nonce ++ sealed)) ≡ done e
  unfolding open_record slice
  open_record-parts e nonce sealed v n opened =
      let body = e.id ++ (nonce ++ sealed) in
      let after : drop 16 body ≡ nonce ++ sealed =
        drop-append_of 16 e.id (nonce ++ sealed) v.id.size in
      let last : drop 40 body ≡ sealed =
        drop-drop 16 24 body ∙ ap (drop 24) after ∙ drop-append_of 24 nonce sealed n in
      rw
        (
          take-append_of 16 e.id (nonce ++ sealed) v.id.size,
          after,
          take-append_of 24 nonce sealed n,
          last,
          opened,
        )
        (entry_of-inner_of e v.content)

  module _ (tagged : IsTagged crypto.aead) where
    pub record_of-IsRecord :
        (random : Option (List ℕ)) (e : Entry) (bytes : List ℕ)
        → IsEntry e
        → ((nonce : List ℕ) → random ≡ some nonce → length nonce ≡ nonce_len)
        → record_of crypto key random e ≡ done bytes
        → IsRecord crypto key e bytes
    unfolding record_of record_len
    record_of-IsRecord random e bytes v drawn h =
        let (sealed, made, more) =
          >>=-done (from_crypto (seal crypto.aead random key 0 room e.id (inner_of e))) _ h in
        let sealing = from_crypto-done _ made in
        let (nonce, cipher) =
          seal_ok crypto.aead random key 0 room e.id (inner_of e) sealed sealing in
        let size = id_len + (nonce_len + length sealed.ciphertext) in
        let (fits, low, last) = >>=-done (fail_if (ltb u32_max size) malformed) _ more in
        let nonce_size = drawn sealed.nonce nonce in
        let body = e.id ++ (sealed.nonce ++ sealed.ciphertext) in
        let grown = tagged key sealed.nonce _ _ sealed.ciphertext cipher in
        let opened =
          open_clip-sealed crypto.aead random key 0 room e.id (inner_of e) sealed
            (inner_of-IsValid e v) sealing in
        record {
          body = body;
          size = size;
          layout = sym (done-injective _ _ last);
          length_body = omega (
            arith,
            v.id.size,
            nonce_size,
            length-append e.id (sealed.nonce ++ sealed.ciphertext),
            length-append sealed.nonce sealed.ciphertext,
          );
          whole = omega (arith, grown, length-inner_of e v);
          long = omega (arith, grown);
          short = omega (arith, grown, length-sealed_inner e v);
          opens = open_record-parts e sealed.nonce sealed.ciphertext v nonce_size opened;
        }

    pub decode_records-records_of :
        (nonces : ℕ → Option (List ℕ)) (rounds idx : ℕ) (es : List Entry) (bytes tail : List ℕ)
        → IsNonces nonces
        → All IsEntry es
        → records_of crypto key nonces idx es ≡ done bytes
        → decode_records crypto (length es + rounds) key (bytes ++ tail)
          ≡ (decode_records crypto rounds key tail >>= λ later. done (es ++ later))
    unfolding records_of
    decode_records-records_of nonces rounds idx [] bytes tail drawn v h =
        let empty : [] ≡ bytes = ground arith in
        let none : 0 + rounds ≡ rounds = omega arith in
        rw (← empty, none) (sym (>>=-return (decode_records crypto rounds key tail)))
    decode_records-records_of nonces rounds idx (e ∷ es) bytes tail drawn v h =
        let (first, made, more) = >>=-done (record_of crypto key (nonces idx) e) _ h in
        let (rest, others, last) = >>=-done (records_of crypto key nonces (idx + 1) es) _ more in
        let whole : bytes ≡ first ++ rest = ground arith in
        let count : suc (length es) + rounds ≡ suc (length es + rounds) = omega arith in
        let one = record_of-IsRecord (nonces idx) e first v.0 (drawn idx) made in
        let more_rounds = decode_records-record (length es + rounds) e first (rest ++ tail) one in
        let later =
          decode_records-records_of nonces rounds (idx + 1) es rest tail drawn v.1 others in
        rw (whole, append_assoc first rest tail, count, more_rounds, later)
          (>>=_assoc (decode_records crypto rounds key tail) _ _)
