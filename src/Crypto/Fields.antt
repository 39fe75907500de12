-- ===== src/Crypto/Fields.antt =====
-- crates/asli-crypto/src/msg.rs: the writer and the reader of the fields of a body. A `Writer` is the
-- bytes that it has; a method of the reader returns what it read with the reader after it. The
-- source's `usize` has 64 bits, and no position or length here comes near to overflowing it.
pub mod Reading
pub mod Writing
pub mod Steps
use asli.Prelude.{ℕ, zero, suc, ◌+◌, ◌==◌, ltb, not, u32_max, List, [], ◌∷◌, ◌++◌, length}
use asli.Prelude.Utf8.{as_bytes, from_utf8}
use asli.Prelude.Bytes.{to_be, from_be, slice, byte_at}
use asli.Crypto.Error.{
  Result, ok, err, ◌>>=◌, ◌>>◌, refuse_if, ok_or, inner_malformed, inner_version, announce_field,
  not_utf8,
}

abbrev pub write_bytes : List ℕ → List ℕ → List ℕ
write_bytes out bytes = out ++ bytes

abbrev pub write_u8 : List ℕ → ℕ → List ℕ
write_u8 out value = out ++ (value ∷ [])

abbrev pub write_u64 : List ℕ → ℕ → List ℕ
write_u64 out value = out ++ to_be 8 value

pub record Reader : Type 0 where
  pub buf : List ℕ
  pub at : ℕ

abbrev pub reader : List ℕ → Reader
reader buf = record { buf = buf; at = 0 }

-- `Reader::bytes`, and `Reader::array` for a constant length.
unfoldable pub read_bytes : Reader → ℕ → Result (List ℕ × Reader)
read_bytes r len = do
  let end = r.at + len
  refuse_if (ltb (length r.buf) end) inner_malformed
  ok (slice r.at len r.buf, record r { at = end })

unfoldable pub read_u8 : Reader → Result (ℕ × Reader)
read_u8 r = do read ← read_bytes r 1; ok (byte_at 0 read.0, read.1)

-- `from_be_bytes` of an array of `n` bytes, as `Reader::u64` and its callers read an integer.
unfoldable pub read_be : ℕ → Reader → Result (ℕ × Reader)
read_be n r = do read ← read_bytes r n; ok (from_be read.0, read.1)

unfoldable pub done : Reader → Result (Unit {0})
done r = refuse_if (not (r.at == length r.buf)) inner_malformed

-- `version` of file.rs.
unfoldable pub version : Reader → Result Reader
version r = do read ← read_u8 r; refuse_if (not (read.0 == 1)) (inner_version read.0); ok read.1

abbrev pub max_text_bytes : ℕ
max_text_bytes = 64

-- `Writer::text`; its test that the length fits a byte is part of the other, which is stricter.
unfoldable pub write_text : List ℕ → List ℕ → Result (List ℕ)
write_text out text = do
  refuse_if (ltb 255 (length (as_bytes text))) announce_field
  refuse_if (ltb max_text_bytes (length (as_bytes text))) announce_field
  ok (out ++ (length (as_bytes text) ∷ as_bytes text))

-- `Writer::blob`
unfoldable pub write_blob : List ℕ → List ℕ → Result (List ℕ)
write_blob out bytes = do
  refuse_if (ltb u32_max (length bytes)) inner_malformed
  ok (out ++ (to_be 4 (length bytes) ++ bytes))

-- `Reader::text`
unfoldable pub read_text : Reader → Result (List ℕ × Reader)
read_text r = do
  len ← read_u8 r
  refuse_if (ltb max_text_bytes len.0) announce_field
  read ← read_bytes len.1 len.0
  text ← ok_or (from_utf8 read.0) not_utf8
  ok (text, read.1)

-- `Reader::blob`
unfoldable pub read_blob : Reader → Result (List ℕ × Reader)
read_blob r = do len ← read_be 4 r; read_bytes len.1 len.0

-- The loop over some texts, and the collecting of so many.
unfoldable pub write_texts : List ℕ → List (List ℕ) → Result (List ℕ)
unfolding write_text
write_texts out [] = ok out
write_texts out (text ∷ texts) = do written ← write_text out text; write_texts written texts

unfoldable pub read_texts : ℕ → Reader → Result (List (List ℕ) × Reader)
unfolding read_text
read_texts zero r = ok ([], r)
read_texts (suc count) r = do
  text ← read_text r
  texts ← read_texts count text.1
  ok (text.0 ∷ texts.0, texts.1)
