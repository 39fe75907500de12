-- ===== src/Lib.antt =====
-- Asli keeps the clipboard of one person's machines in sync through a relay that sees only
-- ciphertext. This library models the parts of it that decide what is sent, what is accepted and
-- what is remembered, and proves what makes them correct.
--
-- Core follows crates/asli-core/src. Core.Replay is the replay guard (replay.rs: `check`, `record`,
-- `memory`, `restore`, `clear`), whose `HashMap` is the association list of Core.Replay.Table.
-- Core.Echo is the ring of content hashes (echo.rs), and Core.Normalize the form in which text is
-- hashed and sent (normalize.rs).
-- Crypto follows crates/asli-crypto/src. Crypto.Clip is the plaintext, the padding, the associated
-- data and the sealing of a clip (clip.rs), Crypto.Chunk a clip sent in pieces and put together
-- again (chunk.rs), Crypto.Msg the messages between devices (msg.rs: the kinds, the framing, `seal`
-- and `open`) with Crypto.Fields for the fields of their bodies and Crypto.Card for the signed card
-- of a device, Crypto.Device the keys of a device and the boxes sealed to it (device.rs),
-- Crypto.Announce what a device announces (announce.rs), Crypto.Rekey the bundle of a new account
-- key (rekey.rs), Crypto.Offer the signed offer of a file and its answer and Crypto.File the pieces
-- and their acknowledgements (file.rs), Crypto.Direct the frames of a direct connection (direct.rs:
-- `Stream`, `hello`), Crypto.About what a device says of itself and its goodbye (about.rs),
-- Crypto.Enroll the join code and Crypto.Enroll.Messages the request, the grant and the refusal of a
-- join (enroll.rs: `JoinCode`, `grant`, `open_grant`), Crypto.Signing the signature that ends a body,
-- Crypto.Identity the keys and the room of an account (identity.rs, kdf.rs), Crypto.Auth the
-- handshake with the relay (auth.rs, and the checks of identity.rs), Crypto.Base32 and Crypto.Token
-- the join token (base32.rs, token.rs), and Crypto.Error the errors (error.rs). The primitives are
-- the parameter of Crypto.Primitives. Their laws: what XChaCha20-Poly1305 encrypted decrypts under
-- the same key, nonce and associated data (Crypto.Aead); a digest of SHA-256 and an output of HKDF
-- have their sizes; an Ed25519 key verifies what it signed; both sides of X25519 come to the same
-- secret. That the cipher adds a tag of 16 bytes is a hypothesis of the theorems that need it. The
-- random generator is an argument that may fail.
-- Net follows crates/asli-net/src. Net.State is the connection state machine (state.rs: `next`),
-- with the codes of envelope.rs that it reads, Net.Backoff the pacing of reconnects (backoff.rs),
-- Net.Envelope the messages on the wire (envelope.rs), Net.Error the errors (error.rs), and
-- Net.Session the protocol driver (session.rs), in parts: Sending makes frames (`observe_local`,
-- `observe_local_image`, `msg_frame`), Introducing what a device says of itself and a rekey
-- (`announce_frame`, `card_frame`, `rekey_frame`), Arriving, Chunks and Messages take what arrives
-- (`on_clip`, `on_chunk`, `on_msg`, `on_card`, `on_rekey`, `on_announce`), and Handling is the
-- handshake, `handle_frame` and `pump`. A frame is the message that it holds, since JSON and base64
-- are libraries that the source calls.
-- History follows crates/asli-history/src, the stored history of clips. History is the entries, the
-- limits and the eviction (lib.rs: `Content`, `Limits`, `evict`), History.Preview the rows of a
-- listing (`preview`, `line_count`, `summary`, `list`), History.File the key (key.rs: `derive`) and
-- the file (`persist`, `decode_all`), and History.Store the operations (`open`, `open_or_reset`,
-- `append_from`, `get`, `remove`, `clear`, `rekey`). The file at the store's path is a state of its
-- own, and whether the operating system reads or writes it is an argument.
-- Prelude holds what these share: Boolean tests, lists measured by native numbers, the bounds and
-- saturating operations of machine integers, byte strings, Rust's `str` as a list of scalar
-- values, its UTF-8, and the results that fail (Prelude.Results).
--
-- The parts interact as in the program: a clip is normalized, laid out, padded and sealed, whole or
-- in chunks; one that arrives is opened, put together and passes the replay guard; its hash goes
-- into the echo guard before the clipboard is written, and the change that the clipboard then
-- reports is normalized, hashed and taken as an echo. The history lays out and seals its entries as
-- clips of their own room under a key of their own. The state machine says when a clip may be
-- sent at all, and the pacer how long to wait after a connection is lost.
--
-- Identifiers of 16 and 32 bytes that are only compared are the numbers that the bytes spell in
-- Core, and lists of bytes in Crypto. Time and randomness are arguments. Methods that change `self`
-- return the new record. Most loops run over a list or a number that gets smaller. The others have
-- fuel: the doubling of a bucket in `padded_len`, where eight rounds lead from 256 to the limit that
-- the branch has; the two symbols that a byte completes in Base32, where three rounds are enough for
-- the twelve bits that can wait; the cutting into pieces, whose fuel is the length of the text; and
-- in History the eviction, with a round for each entry, the room for an ellipsis, with a round for
-- each character, and the reading of records, with a round for each byte of the file.
--
-- Not modelled: the windows, tray, command line and daemon of crates/asli-app, the platform
-- clipboards of crates/asli-clipboard, drag and drop, the overwriting of a history file before it
-- is removed and its temporary copy, the relay server, the sockets of the client, the text form of a
-- frame, and the cryptographic primitives, which the source takes from other crates.
pub mod Prelude
pub mod Core
pub mod Net
pub mod Crypto
pub mod History
