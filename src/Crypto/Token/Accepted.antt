-- ===== src/Crypto/Token/Accepted.antt =====
-- What every text that `parse` accepts is.
use asli.Prelude.{
  ℕ, zero, suc, ◌+◌, ◌==◌, ◌≡◌, refl, sym, ap, ap₂, ◌∙◌, arith, Bool, true, false, not, List, [],
  ◌∷◌, ◌++◌, some, length, length-take, take, drop, ==→eq,
}
use asli.Prelude.Text.{trim}
use asli.Prelude.Bytes.{same_bytes, same_bytes→eq, byte_at}
use asli.Crypto.Error.{Error, Result, ok, ◌>>◌, refuse_if, ok_or, >>=-ok, ok_or_ok}
use asli.Crypto.Base32
use asli.Crypto.Token.{
  Sha256, token_prefix, token_version, key_len, checksum, parse, parse_body,
  strip_prefix_ignore_ascii_case,
}

-- A guard that let the code go on.
passes :
    (b : Bool) (e : Error) (k : Result (List ℕ)) (out : List ℕ)
    → (refuse_if (not b) e >> k) ≡ ok out
    → (b ≡ true) × (k ≡ ok out)
passes true e k out h = (refl, h)
passes false e k out h = cc

ok-injective : (xs ys : List ℕ) → ◌≡◌ {A = Result (List ℕ)} (ok xs) (ok ys) → xs ≡ ys
ok-injective xs ys h = cc

rejoin : (n : ℕ) (xs : List ℕ) → take n xs ++ drop n xs ≡ xs
rejoin zero xs = refl
rejoin (suc n) [] = refl
rejoin (suc n) (x ∷ xs) = ap (◌∷◌ x) (rejoin n xs)

module _ (sha : Sha256) where
  Accepted : List ℕ → List ℕ → Type 0
  Accepted body secret =
      (length secret ≡ 32)
      × (Base32.decode body ≡ ok (token_version ∷ secret ++ checksum sha (token_version ∷ secret)))

  payload-Accepted :
      (body decoded secret : List ℕ)
      → Base32.decode body ≡ ok decoded
      → length decoded ≡ 36
      → byte_at 0 decoded ≡ 1
      → checksum sha (take 33 decoded) ≡ drop 33 decoded
      → drop 1 (take 33 decoded) ≡ secret
      → Accepted body secret
  unfolding Accepted byte_at
  payload-Accepted body [] secret e n v c s = absurd (omega arith)
  payload-Accepted body (x ∷ xs) secret e n v c s =
      let whole : xs ≡ secret ++ checksum sha (1 ∷ secret) =
        sym (rejoin 32 xs) ∙ ap₂ (◌++◌) s (sym c ∙ ap₂ (λ y ys. checksum sha (y ∷ ys)) v s) in
      (
        ap length (sym s) ∙ length-take 32 xs (omega (arith, n)),
        e ∙ ap₂ (λ y ys. ok (y ∷ ys)) v whole,
      )

  parse_body-Accepted :
      (body secret : List ℕ) → parse_body sha body ≡ ok secret → Accepted body secret
  unfolding parse_body
  parse_body-Accepted body secret h =
      let (decoded, e, h1) = >>=-ok (Base32.decode body) _ h in
      let payload = take (1 + key_len) decoded in
      let sum = drop (1 + key_len) decoded in
      let (n, h2) = passes (length decoded == 36) _ _ secret h1 in
      let (v, h3) = passes (byte_at 0 decoded == token_version) _ _ secret h2 in
      let (c, h4) = passes (same_bytes (checksum sha payload) sum) _ _ secret h3 in
      payload-Accepted body decoded secret e (==→eq _ _ n) (==→eq _ _ v)
        (same_bytes→eq (checksum sha payload) sum c) (ok-injective _ _ h4)

  -- Every text that `parse` accepts is, without the white space around it and the prefix, an
  -- encoding of the version, a secret of 32 bytes and their checksum, and the result is that secret.
  pub parse-Accepted :
      (input secret : List ℕ)
      → parse sha input ≡ ok secret
      → (body : List ℕ) × (strip_prefix_ignore_ascii_case (trim input) token_prefix ≡ some body)
        × (length secret ≡ 32)
        × (Base32.decode body
            ≡ ok (token_version ∷ secret ++ checksum sha (token_version ∷ secret)))
  unfolding parse Accepted
  parse-Accepted input secret h =
      let (body, e, h1) =
        >>=-ok (ok_or (strip_prefix_ignore_ascii_case (trim input) token_prefix) _) _ h in
      let (n, d) = parse_body-Accepted body secret h1 in (body, ok_or_ok _ _ body e, n, d)
