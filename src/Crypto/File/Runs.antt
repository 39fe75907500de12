-- ===== src/Crypto/File/Runs.antt =====
-- Bodies that are refused.
use asli.Prelude.{◌≡◌, refl, [], ◌∷◌, replicate}
use asli.Prelude.Bytes.{byte_at, slice}
use asli.Crypto.Error.{err, inner_malformed, inner_version}
use asli.Crypto.Fields.{read_bytes, read_u8, version}
use asli.Crypto.File.{decode_chunk, decode_cancel}

empty_body : decode_chunk [] ≡ err inner_malformed
unfolding decode_chunk version read_u8 read_bytes
empty_body = refl

later_version : decode_cancel (2 ∷ replicate 16 5) ≡ err (inner_version 2)
unfolding decode_cancel version read_u8 read_bytes byte_at slice
later_version = refl
