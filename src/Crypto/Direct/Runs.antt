-- ===== src/Crypto/Direct/Runs.antt =====
-- A concrete direct connection, and the theorems at concrete inputs.
use asli.Prelude.Bytes.{same_bytes}
use asli.Prelude.Bytes.{byte_at}
use asli.Crypto.Direct.{seal}
use asli.Crypto.Direct.{other}
use asli.Prelude.{ℕ, ◌≡◌, refl, true, List, [], ◌∷◌, ◌++◌, replicate, arith}
use asli.Crypto.Error.{ok}
use asli.Crypto.Primitives.{constant}
use asli.Crypto.Direct.{receiver, sender, Stream, new, hello, is_hello}
use asli.Crypto.Direct.Frames.{InStep, seal_all, open_all, open_all-seal_all}
use asli.Crypto.Direct.Nonces.{Encrypted, HasDistinct, seal_all-HasDistinct}

abbrev ours : Stream
ours = new constant (replicate 32 1) (replicate 16 2) (replicate 16 3) receiver

abbrev theirs : Stream
theirs = new constant (replicate 32 1) (replicate 16 2) (replicate 16 3) sender

ours-theirs : InStep ours theirs
unfolding new other
ours-theirs = record { key = refl; aad = refl; sides = refl; count = refl }

abbrev frames : List (List ℕ)
frames = (1 ∷ 2 ∷ []) ∷ (3 ∷ []) ∷ []

made : (seal_all constant ours frames).1 ≡ ok frames
unfolding seal_all seal
made = refl

made_back : (seal_all constant theirs frames).1 ≡ ok frames
unfolding seal_all seal
made_back = refl

is_hello-hello : is_hello (hello (replicate 16 3)) (replicate 16 3) ≡ true
unfolding is_hello hello byte_at same_bytes
is_hello-hello = refl

open_all-seal_all_example :
    ((open_all constant theirs frames).1 ≡ ok frames)
    × InStep (seal_all constant ours frames).0 (open_all constant theirs frames).0
open_all-seal_all_example = open_all-seal_all constant ours theirs frames frames ours-theirs made

seal_all-HasDistinct_example :
    (nonces : List (List ℕ)) × (Encrypted constant.aead ours.key ours.aad nonces
        (frames ++ frames)
        (frames ++ frames)
      × HasDistinct nonces)
unfolding new
seal_all-HasDistinct_example =
    seal_all-HasDistinct constant (replicate 32 1) (replicate 16 2) (replicate 16 3) frames frames
      frames frames (omega arith) (omega arith) made made_back
