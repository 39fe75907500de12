-- ===== src/Net/Session/Pinning.antt =====
-- The key that a device's first card fixed, over any sequence of frames.
use asli.Prelude.{
  ℕ, ◌==◌, if◌then◌else◌, ◌≡◌, refl, sym, ◌∙◌, ap, List, [], ◌∷◌, some, arith, Bool-cases,
  Option-cases, inl, inr, true, false, not, ltb, ◌||◌,
}
use asli.Prelude.Bytes.{same_bytes, same_bytes_self, same_bytes→eq}
use asli.Crypto.Primitives.{Primitives}
use asli.Crypto.Card.{Card}
use asli.Crypto.Card as CryptoCard
use asli.Crypto.Error as CryptoError
use asli.Crypto.Msg.{Kind, card}
use asli.Net.Envelope.{Message, device_msg, protocol_version, version}
use asli.Net.Envelope as Envelope
use asli.Net.Session.{Session, KnownDevice, get, insert, fresh}
use asli.Net.Session.Cases.{on_msg-cases}
use asli.Net.Session.Frames.{
  Keeps, on_clip-Keeps, on_chunk-Keeps, on_announce-Keeps, on_challenge-Keeps, on_relay_error-Keeps,
  introduce-Keeps,
}
use asli.Net.Session.Messages.{known_of_card, learn, pin_card, on_card, act_on}
use asli.Net.Session.History.{run, run-keeps}
use asli.Net.Session.Handling.{Draws, dispatch, on_auth_ok, on_presence}

-- The session knows the device, by that signing key.
pub record Pinned (s : Session) (id key : List ℕ) : Type 0 where
  pub entry : KnownDevice
  pub found : get s.known id ≡ some entry
  pub same : entry.sign_pub ≡ key

same_bytes-other :
    (xs ys zs : List ℕ) → same_bytes xs ys ≡ true → same_bytes xs zs ≡ same_bytes ys zs
same_bytes-other xs ys zs e = ap (λ ws. same_bytes ws zs) (same_bytes→eq xs ys e)

-- Two strings that equal a third one equal each other.
same_bytes-common :
    (xs ys zs : List ℕ)
    → same_bytes xs ys ≡ false
    → same_bytes xs zs ≡ true
    → same_bytes ys zs ≡ false
same_bytes-common xs ys zs other e = elim (Bool-cases (same_bytes ys zs)) [
  | inr apart ↦ apart
  | inl f ↦
      let first : xs ≡ ys = same_bytes→eq xs zs e ∙ sym (same_bytes→eq ys zs f) in
      let both : same_bytes xs ys ≡ true = rw first (same_bytes_self ys) in absurd (ground arith)
]

get-insert :
    (known : List KnownDevice) (d : KnownDevice) (id : List ℕ)
    → get (insert known d) id ≡ (if same_bytes d.device_id id then some d else get known id)
unfolding get insert
get-insert [] d id = refl
get-insert (e ∷ es) d id = elim (Bool-cases (same_bytes e.device_id d.device_id)) [
  | inl same ↦ rw (same, same_bytes-other e.device_id d.device_id id same) (ground arith)
  | inr other ↦ elim (Bool-cases (same_bytes e.device_id id)) [
    | inr no_match ↦ rw (other, no_match) (get-insert es d id)
    | inl match ↦
        let apart = same_bytes-common e.device_id d.device_id id other match in
        rw (other, match, apart) refl
  ]
]

Keeps-Pinned : (s t : Session) (id key : List ℕ) → Keeps s t → Pinned s id key → Pinned t id key
Keeps-Pinned s t id key k p = record { entry = p.entry; found = rw k.known p.found; same = p.same }

learn-Pinned :
    (s : Session) (c : Card) (id key : List ℕ)
    → Pinned s id key
    → (same_bytes c.device_id id ≡ true → c.sign_pub ≡ key)
    → Pinned (learn s c).0 id key
unfolding learn
learn-Pinned s c id key p agrees = elim (Bool-cases (same_bytes c.device_id id)) [
  | inl same ↦ record {
    entry = known_of_card c;
    found = get-insert s.known (known_of_card c) id ∙ rw same refl;
    same = agrees same;
  }
  | inr other ↦ record {
    entry = p.entry;
    found = get-insert s.known (known_of_card c) id ∙ rw other p.found;
    same = p.same;
  }
]

pin_card-Pinned :
    (s : Session) (c : Card) (id key : List ℕ) → Pinned s id key → Pinned (pin_card s c).0 id key
unfolding pin_card
pin_card-Pinned s c id key p = elim (Option-cases (get s.known c.device_id)) [
  | inl e ↦
      rw (e, pin_card)
        (learn-Pinned s c id key p λ same.
          let found : get s.known c.device_id ≡ some p.entry =
            rw (same_bytes→eq c.device_id id same) p.found in
          absurd (ground arith))
  | inr (pinned, e) ↦ elim (Bool-cases (same_bytes pinned.sign_pub c.sign_pub)) [
    | inr changed ↦ rw (e, changed, pin_card) p
    | inl agree ↦
        let learned = learn-Pinned s c id key p λ same.
          let found : get s.known c.device_id ≡ some p.entry =
            rw (same_bytes→eq c.device_id id same) p.found in
          let entry : pinned ≡ p.entry = ground arith in
          sym (same_bytes→eq pinned.sign_pub c.sign_pub agree)
          ∙ ap KnownDevice.sign_pub entry
          ∙ p.same in
        elim (Bool-cases (ltb c.ts_ms pinned.ts_ms)) [
          | inl older ↦ rw (e, agree, older, pin_card) p
          | inr newer ↦ rw (e, agree, newer, pin_card) learned
        ]
  ]
]

module _ (crypto : Primitives) where
  on_card-Pinned :
      (s : Session) (body : List ℕ) (now : ℕ) (id key : List ℕ)
      → Pinned s id key
      → Pinned (on_card crypto s body now).0 id key
  unfolding on_card
  on_card-Pinned s body now id key p =
      elim (CryptoError.Result-cases (CryptoCard.decode crypto body s.identity.room_id_bytes)) [
        | inr (failure, e) ↦ rw (e, on_card) p
        | inl (c, e) ↦
            elim (Bool-cases (same_bytes c.device_id s.device_id || not (fresh now c.ts_ms))) [
              | inl ignored ↦ rw (e, ignored, on_card) p
              | inr taken ↦ rw (e, taken, on_card) (pin_card-Pinned s c id key p)
            ]
      ]

  act_on-Pinned :
      (s : Session) (kind : Kind) (body : List ℕ) (now : ℕ) (id key : List ℕ)
      → Pinned s id key
      → Pinned (act_on crypto s kind body now).0 id key
  unfolding act_on
  act_on-Pinned s card body now id key p = on_card-Pinned s body now id key p
  act_on-Pinned s _ body now id key p = p

  dispatch-Pinned :
      (s : Session) (draws : Draws) (m : Message) (now : ℕ) (id key : List ℕ)
      → Pinned s id key
      → Pinned (dispatch crypto s draws m now).0 id key
  unfolding dispatch on_auth_ok on_presence
  dispatch-Pinned s draws (Envelope.device_msg m) now id key p =
      on_msg-cases crypto (λ t. Pinned t id key) s p m now
        λ kind body opened.
          act_on-Pinned _ kind body now id key
            (record { entry = p.entry; found = p.found; same = p.same })
  dispatch-Pinned s draws (Envelope.challenge m) now id key p =
      Keeps-Pinned s _ id key (on_challenge-Keeps crypto s draws.client_nonce m now) p
  dispatch-Pinned s draws (Envelope.auth_ok m) now id key p =
      Keeps-Pinned _ _ id key (introduce-Keeps crypto _ draws.introduction _ now)
        (record { entry = p.entry; found = p.found; same = p.same })
  dispatch-Pinned s draws (Envelope.presence m) now id key p =
      elim (Bool-cases (m.peers == s.peers)) [
        | inl same ↦
            rw (same, on_presence) (record { entry = p.entry; found = p.found; same = p.same })
        | inr changed ↦
            rw (changed, on_presence)
              (Keeps-Pinned _ _ id key (introduce-Keeps crypto _ draws.introduction _ now)
                (record { entry = p.entry; found = p.found; same = p.same }))
      ]
  dispatch-Pinned s draws (Envelope.clip m) now id key p =
      Keeps-Pinned s _ id key (on_clip-Keeps crypto s m now) p
  dispatch-Pinned s draws (Envelope.clip_begin m) now id key p =
      Keeps-Pinned s _ id key (on_chunk-Keeps crypto s m now) p
  dispatch-Pinned s draws (Envelope.clip_chunk m) now id key p =
      Keeps-Pinned s _ id key (on_chunk-Keeps crypto s m now) p
  dispatch-Pinned s draws (Envelope.clip_end m) now id key p =
      Keeps-Pinned s _ id key (on_chunk-Keeps crypto s m now) p
  dispatch-Pinned s draws (Envelope.announce m) now id key p =
      Keeps-Pinned s _ id key (on_announce-Keeps crypto s m now) p
  dispatch-Pinned s draws (Envelope.relay_error m) now id key p =
      Keeps-Pinned s _ id key (on_relay_error-Keeps crypto s m) p
  dispatch-Pinned s draws _ now id key p = p

  -- Once a session knows a device by a signing key, it goes on knowing the device by that key, whatever
  -- frames arrive afterwards: no card, replayed, forged or signed with another key, replaces it.
  pub run-get_sign_pub :
      (s : Session) (frames : List (Message × Draws × ℕ)) (id : List ℕ) (d : KnownDevice)
      → get s.known id ≡ some d
      → (e : KnownDevice) × (get (run crypto s frames).known id ≡ some e)
        × (e.sign_pub ≡ d.sign_pub)
  run-get_sign_pub s frames id d found =
      let p =
        run-keeps crypto (λ t. Pinned t id d.sign_pub)
          (λ t draws m now q. dispatch-Pinned t draws m now id d.sign_pub q) frames s
          (record { entry = d; found = found; same = refl }) in
      (p.entry, p.found, p.same)
