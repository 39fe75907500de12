-- ===== src/Net/Session/History.antt =====
-- Any sequence of frames that a session of session.rs handles, each with what the generator returns
-- meanwhile and with the time.
use asli.Prelude.{ℕ, ◌==◌, List, [], ◌∷◌, All, Bool-cases, inl, inr}
use asli.Crypto.Primitives.{Primitives}
use asli.Net.Envelope.{Message, version, protocol_version}
use asli.Net.Session.{Session}
use asli.Net.Session.Handling.{Draws, dispatch, handle_frame}

module _ (crypto : Primitives) where
  unfoldable pub run : Session → List (Message × Draws × ℕ) → Session
  run s [] = s
  run s ((m, draws, now) ∷ rest) = run (handle_frame crypto s draws m now).0 rest

module _ {ℓ} (crypto : Primitives) (P : Session → Type ℓ) where
  pub handle_frame-cases :
      (s : Session) (draws : Draws) (m : Message) (now : ℕ)
      → P s
      → P (dispatch crypto s draws m now).0
      → P (handle_frame crypto s draws m now).0
  unfolding handle_frame
  handle_frame-cases s draws m now kept done = elim (Bool-cases (version m == protocol_version)) [
    | inl same ↦ rw same done
    | inr other ↦ rw other kept
  ]

  -- What every message of a kind keeps, any sequence of frames with such messages keeps.
  module _ {κ} (Kind : Message → Type κ)
      (each : (s : Session) (draws : Draws) (m : Message) (now : ℕ)
        → P s
        → Kind m
        → P (dispatch crypto s draws m now).0) where
    pub run-keeps_when :
        (frames : List (Message × Draws × ℕ)) (s : Session)
        → P s
        → All (λ f. Kind f.0) frames
        → P (run crypto s frames)
    unfolding run
    run-keeps_when [] s p kinds = p
    run-keeps_when ((m, draws, now) ∷ rest) s p kinds =
        run-keeps_when rest (handle_frame crypto s draws m now).0
          (handle_frame-cases s draws m now p (each s draws m now p kinds.0)) kinds.1

  -- What every message keeps, any sequence of frames keeps.
  pub run-keeps :
      ((s : Session) (draws : Draws) (m : Message) (now : ℕ)
        → P s
        → P (dispatch crypto s draws m now).0)
      → (frames : List (Message × Draws × ℕ)) (s : Session) → P s
      → P (run crypto s frames)
  run-keeps each frames s p =
      run-keeps_when (λ m. Unit {0}) (λ s draws m now q c. each s draws m now q) frames s p
        (anything frames)
    where
      anything : (fs : List (Message × Draws × ℕ)) → All (λ f. Unit {0}) fs
      anything [] = tt
      anything (f ∷ fs) = (tt, anything fs)
