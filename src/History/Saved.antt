-- ===== src/History/Saved.antt =====
-- crates/asli-history/src/lib.rs: the whole file of a history, read back.
use asli.Prelude.{
  ℕ, zero, suc, ◌+◌, ◌-◌, ◌≤◌, ◌<◌, ◌≡◌, refl, sym, ap, ◌∙◌, ltb, leb, if◌then◌else◌, lt→leb,
  le→leb, true, false, List, [], ◌∷◌, ◌++◌, Option, length, take, All, arith, inl, inr, Bool-cases,
  tests, le→ltb, ltb→lt, ltb→le, ne→==, length-append, length-take, append-nil, ◌==◌,
}
use asli.Prelude.Bytes.{
  to_be, byte_at, same_bytes_self, length-to_be, from_be-to_be, take-append_of, drop-append_of,
}
use asli.Prelude.Results.{done, ◌>>=◌, >>=-done, done-injective}
use asli.Crypto.Aead.{IsTagged}
use asli.Crypto.Primitives.{Primitives}
use asli.History.{Entry}
use asli.History.File.{
  magic, format_version, header_len, record_of, records_of, file_of, decode_records, decode_all,
}
use asli.History.Reopening.{
  IsEntry, IsNonces, IsRecord, IsTorn, record_len, decode_records-torn, decode_records-record,
  record_of-IsRecord, decode_records-records_of,
}

module _ {ℓ} {A : Type ℓ} where
  take-append_short : (k : ℕ) (xs ys : List A) → k ≤ length xs → take k (xs ++ ys) ≡ take k xs
  take-append_short zero xs ys h = refl
  take-append_short (suc k) [] ys h = absurd (omega arith)
  take-append_short (suc k) (x ∷ xs) ys h = ap (◌∷◌ x) (take-append_short k xs ys (omega arith))

  take-append_long :
      (k : ℕ) (xs ys : List A) → length xs ≤ k → take k (xs ++ ys) ≡ xs ++ take (k - length xs) ys
  take-append_long k [] ys h = let e : k - 0 ≡ k = omega arith in rw e refl
  take-append_long zero (x ∷ xs) ys h = absurd (omega arith)
  take-append_long (suc k) (x ∷ xs) ys h =
      let e : suc k - suc (length xs) ≡ k - length xs = omega arith in
      rw e (ap (◌∷◌ x) (take-append_long k xs ys (omega arith)))

length-take_nil : (k : ℕ) → length (take {A = ℕ} k []) ≡ 0
length-take_nil zero = refl
length-take_nil (suc k) = refl

-- How many of the first entries have their whole record in `k` bytes.
unfoldable pub landed : ℕ → List Entry → ℕ
landed k [] = 0
landed k (e ∷ es) =
    let rest = landed (k - record_len e) es in if leb (record_len e) k then suc rest else 0

module _ (crypto : Primitives) (key : List ℕ) where
  -- A record that was cut short.
  take-IsTorn :
      (e : Entry) (bytes : List ℕ) (k : ℕ)
      → IsRecord crypto key e bytes
      → k < length bytes
      → IsTorn (take k bytes)
  take-IsTorn e bytes k r short = elim (Bool-cases (ltb k 4)) [
    | inl early ↦ record { stops = inl (omega (tests, early, length-take k bytes (omega arith))) }
    | inr late ↦
        let four = length-to_be 4 r.size in
        let total : length bytes ≡ 4 + length r.body =
          ap length r.layout
          ∙ length-append (to_be 4 r.size) r.body
          ∙ ap (λ n. n + length r.body) four in
        let part = take (k - 4) r.body in
        let cut : take k bytes ≡ to_be 4 r.size ++ part =
          ap (take k) r.layout
          ∙ take-append_long k (to_be 4 r.size) r.body (omega (tests, late, four))
          ∙ ap (λ n. to_be 4 r.size ++ take (k - n) r.body) four in
        let size = from_be-to_be 4 r.size (omega (arith, r.short)) in
        let few : length part ≡ k - 4 = length-take (k - 4) r.body (omega (arith, total)) in
        rw cut (record {
          stops = inr (
              rw
                (
                  take-append_of 4 (to_be 4 r.size) part four,
                  drop-append_of 4 (to_be 4 r.size) part four,
                  size,
                )
                (r.long, r.short, omega (tests, late, few, total, r.length_body)));
        })
  ]

  module _ (tagged : IsTagged crypto.aead) where
    length-records_of :
        (nonces : ℕ → Option (List ℕ)) (idx : ℕ) (es : List Entry) (bytes : List ℕ)
        → IsNonces nonces
        → All IsEntry es
        → records_of crypto key nonces idx es ≡ done bytes
        → length es ≤ length bytes
    unfolding records_of
    length-records_of nonces idx [] bytes drawn v h = omega arith
    length-records_of nonces idx (e ∷ es) bytes drawn v h =
        let (first, made, more) = >>=-done (record_of crypto key (nonces idx) e) _ h in
        let (rest, others, last) = >>=-done (records_of crypto key nonces (idx + 1) es) _ more in
        let whole = done-injective _ _ last in
        let one = record_of-IsRecord crypto key tagged (nonces idx) e first v.0 (drawn idx) made in
        omega (
          arith,
          ap length whole,
          length-append first rest,
          ap length one.layout,
          length-append (to_be 4 one.size) one.body,
          length-to_be 4 one.size,
          length-records_of nonces (idx + 1) es rest drawn v.1 others,
        )

    length-record :
        (e : Entry) (bytes : List ℕ) → IsRecord crypto key e bytes → length bytes ≡ record_len e
    length-record e bytes one = omega (
      arith,
      ap length one.layout,
      length-append (to_be 4 one.size) one.body,
      length-to_be 4 one.size,
      one.length_body,
      one.whole,
    )

    decode_records-take :
        (nonces : ℕ → Option (List ℕ)) (rounds idx k : ℕ) (es : List Entry) (bytes : List ℕ)
        → IsNonces nonces
        → All IsEntry es
        → k ≤ rounds
        → records_of crypto key nonces idx es ≡ done bytes
        → decode_records crypto rounds key (take k bytes) ≡ done (take (landed k es) es)
    unfolding records_of landed
    decode_records-take nonces rounds idx k [] bytes drawn v enough h =
        let empty : [] ≡ bytes = done-injective _ _ h in
        rw (← empty) (
          decode_records-torn crypto key rounds (take k [])
            (record { stops = inl (omega (arith, length-take_nil k)) }))
    decode_records-take nonces zero idx k (e ∷ es) bytes drawn v enough h =
        let small : leb (record_len e) k ≡ false =
          unfold record_len in lt→leb _ _ (omega (arith, enough)) in
        rw small (unfold decode_records in refl)
    decode_records-take nonces (suc rounds) idx k (e ∷ es) bytes drawn v enough h =
        let (first, made, more) = >>=-done (record_of crypto key (nonces idx) e) _ h in
        let (rest, others, last) = >>=-done (records_of crypto key nonces (idx + 1) es) _ more in
        let whole = sym (done-injective _ _ last) in
        let one = record_of-IsRecord crypto key tagged (nonces idx) e first v.0 (drawn idx) made in
        let size = length-record e first one in
        let long : 1 ≤ length first = unfold record_len in omega (arith, size) in
        elim (Bool-cases (ltb k (record_len e))) [
          | inl cut ↦
              let early = ltb→lt _ _ cut in
              let short : k < length first = omega (arith, early, size) in
              let out : leb (record_len e) k ≡ false = lt→leb _ _ early in
              rw (out, whole, take-append_short k first rest (omega (arith, short)))
                (decode_records-torn crypto key (suc rounds) (take k first)
                  (take-IsTorn e first k one short))
          | inr past ↦
              let late = ltb→le _ _ past in
              let within : leb (record_len e) k ≡ true = le→leb _ _ late in
              let here = take-append_long k first rest (omega (arith, late, size)) in
              let later =
                decode_records-take nonces rounds (idx + 1) (k - record_len e) es rest drawn v.1
                  (omega (arith, enough, long, size)) others in
              rw (within, whole, here, size)
                (decode_records-record crypto key rounds e first _ one
                  ∙ ap (λ read. read >>= λ later. done (e ∷ later)) later)
        ]

    -- What `decode_all` makes of the header and what follows.
    decode_all-header :
        (rest : List ℕ)
        → decode_all crypto (magic ++ (format_version ∷ rest)) key
          ≡ decode_records crypto (9 + length rest) key rest
    unfolding decode_all byte_at
    decode_all-header rest =
        let size : suc (suc (suc (suc (suc (suc (suc (suc (suc (length rest)))))))))
            ≡ 9 + length rest =
          omega arith in
        let some_bytes : ((9 + length rest) == 0) ≡ false = ne→== _ _ (λ e. omega (arith, e)) in
        let header : ltb (9 + length rest) header_len ≡ false = le→ltb _ _ (omega arith) in
        rw (same_bytes_self magic, size, some_bytes, header)
          (ap (λ rounds. decode_records crypto rounds key rest) size)

    -- A file that `persist` wrote, followed by a record that was cut short or by nothing, is read
    -- back as the entries it was written from. The entries have fields of their lengths and
    -- contents of at most 33554000 bytes, the nonces 24 bytes, and the cipher adds a tag of 16.
    pub decode_all-file_of :
        (nonces : ℕ → Option (List ℕ)) (es : List Entry) (bytes tail : List ℕ)
        → IsNonces nonces
        → All IsEntry es
        → file_of crypto key nonces es ≡ done bytes
        → IsTorn tail
        → decode_all crypto (bytes ++ tail) key ≡ done es
    unfolding file_of
    decode_all-file_of nonces es bytes tail drawn v h torn =
        let (records, made, last) = >>=-done (records_of crypto key nonces 0 es) _ h in
        let whole : bytes ≡ magic ++ (format_version ∷ records) = sym (done-injective _ _ last) in
        let many = length-records_of nonces 0 es records drawn v made in
        let spare = 9 + length (records ++ tail) - length es in
        let rounds : 9 + length (records ++ tail) ≡ length es + spare =
          omega (arith, many, length-append records tail) in
        rw
          (
            whole,
            decode_all-header (records ++ tail),
            rounds,
            decode_records-records_of crypto key tagged nonces spare 0 es records tail drawn v made,
            decode_records-torn crypto key spare tail torn,
            append-nil,
          )
          refl

    -- An interrupted write keeps the records that landed: a file of `persist`, cut anywhere after
    -- its header, is read as the newest of its entries, and exactly as many of them as have their
    -- whole record before the cut. The entries have fields of their lengths and contents of at most
    -- 33554000 bytes, the nonces 24 bytes, and the cipher adds a tag of 16.
    pub decode_all-take :
        (nonces : ℕ → Option (List ℕ)) (es : List Entry) (bytes : List ℕ) (k : ℕ)
        → IsNonces nonces
        → All IsEntry es
        → file_of crypto key nonces es ≡ done bytes
        → header_len ≤ k
        → k ≤ length bytes
        → decode_all crypto (take k bytes) key ≡ done (take (landed (k - header_len) es) es)
    unfolding file_of
    decode_all-take nonces es bytes k drawn v h low high =
        let (records, made, last) = >>=-done (records_of crypto key nonces 0 es) _ h in
        let whole : bytes ≡ magic ++ (format_version ∷ records) = sym (done-injective _ _ last) in
        let part = take (k - 9) records in
        let cut : take k bytes ≡ magic ++ (format_version ∷ part) =
          ap (take k) whole ∙ take-append_long k (magic ++ (format_version ∷ [])) records low in
        let size : length part ≡ k - 9 =
          length-take (k - 9) records (omega (arith, high, ap length whole)) in
        rw (cut, decode_all-header part)
          (decode_records-take nonces (9 + length part) 0 (k - 9) es records drawn v
            (omega (arith, size)) made)
