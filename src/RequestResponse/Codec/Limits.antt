-- ===== src/RequestResponse/Codec/Limits.antt =====
-- What the codec accepts.
use connexa.Prelude.{
  ℕ, suc, zero, ◌+◌, ◌^◌, ◌<◌, ◌≤◌, ◌≡◌, refl, arith, Result, ok, err, [], ◌∷◌, ◌++◌, take, length,
  ◌⊎◌, inl, inr, if◌then◌else◌, ltb, nat_beq, Post, Bool-cases, ap, continue, ensure, not, leb,
  ◌>>◌, pure, ◌∙◌, change_error, returned, failed, false, true, subst, Bool, Exec, sym, map_err,
}
use connexa.RequestResponse.{Bytes, is_empty}
use connexa.RequestResponse.Codec.{
  CodecError, unexpected_eof, invalid_data, io, Io, Codec, one_more, read_request, read_response,
  invalid_input, write_request, read_message, write_message,
}

take-all : (n : ℕ) (l : Bytes) → length l ≤ n → take n l ≡ l
take-all zero [] h = refl
take-all zero (x ∷ l) h = absurd (omega arith)
take-all (suc n) [] h = refl
take-all (suc n) (x ∷ l) h = ap (λ r. x ∷ r) (take-all n l (omega arith))

length-take : (n : ℕ) (l : Bytes) → n ≤ length l → length (take n l) ≡ n
length-take zero l h = refl
length-take (suc n) [] h = absurd (omega arith)
length-take (suc n) (x ∷ l) h = omega (arith, length-take n l)

-- What a reader of messages of at most `max` bytes makes of the bytes of a stream.
unfoldable pub accept : ℕ → Bytes → Result CodecError Bytes
accept max [] = err unexpected_eof
accept max (b ∷ rest) =
    if nat_beq (max + 1) (2 ^ 64)
    then err unexpected_eof
    else if ltb max (length (b ∷ rest))
    then err invalid_data
    else ok (b ∷ rest)

-- What a reader makes of the bytes that it got.
abbrev judge : ℕ → Bytes → Result CodecError Bytes
judge max [] = err unexpected_eof
judge max (b ∷ rest) = if leb (length (b ∷ rest)) max then ok (b ∷ rest) else err invalid_data

judge-long : (max : ℕ) (l : Bytes) → max < length l → judge max l ≡ err invalid_data
judge-long max [] h = absurd (omega arith)
judge-long max (b ∷ rest) h = ground arith

judge-short :
    (max : ℕ) (b : ℕ) (rest : Bytes)
    → length (b ∷ rest) ≤ max
    → judge max (b ∷ rest) ≡ ok (b ∷ rest)
judge-short max b rest h = ground arith

judge-take : (max : ℕ) (l : Bytes) → max < 2 ^ 64 → judge max (take (one_more max) l) ≡ accept max l
unfolding accept
judge-take max [] h = ap (judge max) (take-all (one_more max) [] (omega arith))
judge-take max (b ∷ rest) h = elim (Bool-cases (nat_beq (max + 1) (2 ^ 64))) [
  | inl last ↦
      let wraps : one_more max ≡ 0 = ground (arith, last) in
      rw last (ap (λ n. judge max (take n (b ∷ rest))) wraps)
  | inr other ↦
      let exact : one_more max ≡ max + 1 = ground (arith, other) in
      rw other (
        ap (λ n. judge max (take n (b ∷ rest))) exact
        ∙ elim (Bool-cases (ltb max (length (b ∷ rest)))) [
          | inl long ↦ rw long (
              judge-long max (take (max + 1) (b ∷ rest))
                (omega (arith, length-take (max + 1) (b ∷ rest) (ground (arith, long)))))
          | inr short ↦
              let fits : length (b ∷ rest) ≤ max = ground (arith, short) in
              rw short (
                ap (judge max) (take-all (max + 1) (b ∷ rest) (omega arith))
                ∙ judge-short max b rest fits)
        ])
]

module _ {S : Type 0} (stream : Io S) (content : S → Bytes) where
  -- A stream holds what was written to it. Every call may fail.
  pub record IsStream : Type 0 where
    pub read_lem :
        (n : ℕ) (s : S)
        → Post (λ bytes t. bytes ≡ take n (content s)) (λ t. Unit) (stream.read_to_end n s)
    pub write_lem :
        (bytes : Bytes) (s : S)
        → Post (λ u t. content t ≡ content s ++ bytes) (λ t. Unit) (stream.write_all bytes s)

  judged :
      (max : ℕ) (buffer : Bytes) (t : S)
      → ((do
        ensure (not (is_empty buffer)) unexpected_eof
        ensure (leb (length buffer) max) invalid_data
        pure buffer)
          t)
        ≡ (judge max buffer, t)
  judged max [] t = refl
  judged max (b ∷ rest) t = elim (Bool-cases (leb (length (b ∷ rest)) max)) [
    | inl fits ↦ rw fits refl
    | inr long ↦ rw long refl
  ]

  module _ (law : IsStream) where
    -- What comes of reading a message: this, or an error of the stream.
    abbrev pub Gives : Result CodecError Bytes → Result CodecError Bytes → Type 0
    Gives expected r = (r ≡ expected) ⊎ ((e : ℕ) × (r ≡ err (io e)))

    read_message_lem :
        (max : ℕ) (s : S)
        → max < 2 ^ 64
        → Gives (accept max (content s)) (read_message stream max s).0
    unfolding read_message
    read_message_lem max s h = by_read (law.read_lem (one_more max) s)
      where
        by_read :
            {p : Result ℕ Bytes × S}
            → Post (λ bytes t. bytes ≡ take (one_more max) (content s)) (λ t. Unit) p
            → Gives
                (accept max (content s))
                (continue (change_error io p) (λ buffer. do
                  ensure (not (is_empty buffer)) unexpected_eof
                  ensure (leb (length buffer) max) invalid_data
                  pure buffer)).0
        by_read (returned {a = buffer} {s = t} e) =
            inl (
              ap (λ r. r.0) (judged max buffer t) ∙ ap (judge max) e ∙ judge-take max (content s) h)
        by_read (failed {e = e} x) = inr (e, refl)

    -- A reader gets what the stream holds if that is a message within the limit, and an error
    -- otherwise, for requests as for responses. At the largest limit of all it never gets a message.
    -- The stream itself may fail.
    pub read_lem :
        (codec : Codec) (s : S)
        → codec.max_request_size < 2 ^ 64
        → codec.max_response_size < 2 ^ 64
        → Gives (accept codec.max_request_size (content s)) (read_request stream codec s).0
          × Gives (accept codec.max_response_size (content s)) (read_response stream codec s).0
    unfolding read_request read_response
    read_lem codec s h k =
        (read_message_lem codec.max_request_size s h, read_message_lem codec.max_response_size s k)

    -- A message that a writer has let through is one of its size, and on a stream that was empty it is
    -- all that the stream holds.
    write_message_lem :
        (max : ℕ) (message : Bytes) (s t : S)
        → content s ≡ []
        → write_message stream max message s ≡ (ok tt, t)
        → (is_empty message ≡ false) × (length message ≤ max) × (content t ≡ message)
    unfolding write_message
    write_message_lem max [] s t e h = absurd (cc (ap (λ p. p.0) h))
    write_message_lem max (b ∷ rest) s t e h =
        let (fits, h') =
          passes (leb (length (b ∷ rest)) max) (map_err io (stream.write_all (b ∷ rest)) >> pure tt)
            h in
        (refl, ground (arith, fits), by_write (law.write_lem (b ∷ rest) s) h')
      where
        passes :
            (c : Bool) (next : Exec CodecError S (Unit {0}))
            → (ensure c invalid_input >> next) s ≡ (ok tt, t)
            → (c ≡ true) × (next s ≡ (ok tt, t))
        passes true next same = (refl, same)
        passes false next same = absurd (cc (ap (λ p. p.0) same))

        by_write :
            {p : Result ℕ (Unit {0}) × S}
            → Post (λ u t'. content t' ≡ content s ++ (b ∷ rest)) (λ t'. Unit) p
            → continue (change_error io p) (λ _. pure tt) ≡ (ok tt, t)
            → content t ≡ b ∷ rest
        by_write (returned {s = t'} x) same =
            ap content (sym (ap (λ p. p.1) same)) ∙ x ∙ ap (λ l. l ++ (b ∷ rest)) e
        by_write (failed x) same = absurd (cc (ap (λ p. p.0) same))

    accept-fits :
        (max : ℕ) (l : Bytes)
        → is_empty l ≡ false
        → length l ≤ max
        → max + 1 < 2 ^ 64
        → accept max l ≡ ok l
    unfolding accept
    accept-fits max [] ne h k = absurd (cc ne)
    accept-fits max (b ∷ rest) ne h k = ground arith

    written_back :
        (max limit : ℕ) (message : Bytes) (s t : S)
        → content s ≡ []
        → write_message stream max message s ≡ (ok tt, t)
        → max ≤ limit
        → limit + 1 < 2 ^ 64
        → Gives (ok message) (read_message stream limit t).0
    written_back max limit message s t e h le top =
        let (nonempty, fits, whole) = write_message_lem max message s t e h in
        subst (λ r. Gives r (read_message stream limit t).0)
          (ap (accept limit) whole ∙ accept-fits limit message nonempty (omega arith) top)
          (read_message_lem limit t (omega arith))

    -- A request that one side has written is the request that the other side reads, if its limit is no
    -- smaller and below the largest number. The stream was empty before, and may fail in the reading.
    pub read_request-write_request :
        (codec other : Codec) (message : Bytes) (s t : S)
        → content s ≡ []
        → codec.max_request_size ≤ other.max_request_size
        → other.max_request_size + 1 < 2 ^ 64
        → write_request stream codec message s ≡ (ok tt, t)
        → Gives (ok message) (read_request stream other t).0
    unfolding read_request write_request
    read_request-write_request codec other message s t e le top w =
        written_back codec.max_request_size other.max_request_size message s t e w le top
