-- ===== src/Transfer/Line.antt =====
-- `readResponse` returns the length of the first line.
use mathlib.Core.List.{append_assoc}
use mstone.Base.{
  ℕ, ◌+◌, ◌-◌, ◌≤◌, ◌≡◌, ◌≢◌, refl, sym, ap, ◌∙◌, ◌⊎◌, inl, inr, false, not, ◌||◌, ◌==◌, List, [],
  ◌∷◌, ◌++◌, Option, none, some, arith, ltb, if◌then◌else◌, length, length-append, Bool-cases, ℤ,
  pos, negsuc, Bytes, c_string, c_string-NoNul, NoNul, NoNul-left, subst,
}
use mstone.Transfer.{Round, ReadResult, got, failed, retry_read, InTime}
use mstone.Transfer.Reads.{Reads, retry_read-Reads}

-- `readResponse` looks for the end of the line that starts the buffer: the length of the line with
-- its newline. The search for "\r\n" after it can never be the first to succeed.
unfoldable pub line_length : Bytes → Option ℕ
line_length [] = none
line_length (c ∷ s) =
    if c == b'\n' then some 1 else elim (line_length s) [ none ↦ none | some n ↦ some (n + 1) ]

-- What `readResponse` leaves: its return value, the buffer, and what the peer has still to deliver.
-- `ptcx->bytesread` grows by `resplen`, the value returned, unless that is -1.
pub record Response : Type 0 where
  pub ret : ℤ
  pub buffer : Bytes
  pub unread : Bytes

-- `resplen` is set and the loop left, or the loop goes on
unfoldable pub end_of_line : Option ℕ → Bytes → Bytes → Option Response → Option Response
end_of_line none buffer s onward = onward
end_of_line (some n) buffer s onward = some (record { ret = pos n; buffer = buffer; unread = s })

-- what follows the call of `retryRead`
unfoldable pub after_line_read :
    Bytes → (Bytes → Bytes → Option Response) → Option (ReadResult × Bytes) → Option Response
after_line_read buffer onward none = none
after_line_read buffer onward (some (failed, s)) =
    some (record { ret = negsuc 0; buffer = buffer; unread = s })
after_line_read buffer onward (some (got [], s)) =
    some (record { ret = negsuc 0; buffer = buffer; unread = s })
after_line_read buffer onward (some (got (b ∷ bs), s)) =
    let longer = buffer ++ (b ∷ bs) in
    end_of_line (line_length (c_string longer)) longer s (onward longer s)

-- `readResponse (ptcx, sock, buffer, buflen)`, with the bytes read so far
unfoldable pub read_response : List Round → ℕ → Bytes → Bytes → Option Response
read_response [] buflen buffer s =
    if ltb (length buffer) buflen
    then none
    else some (record { ret = pos 0; buffer = buffer; unread = s })
read_response (r ∷ rs) buflen buffer s =
    let onward =
      after_line_read buffer (λ longer s'. read_response rs buflen longer s')
        (retry_read (buflen - length buffer) r.turns s) in
    if not (ltb (length buffer) buflen) || r.expired
    then some (record { ret = pos 0; buffer = buffer; unread = s })
    else onward

abbrev pub NoNewline : Bytes → Type 0
NoNewline [] = Unit {0}
NoNewline (c ∷ s) = (c ≢ b'\n') × NoNewline s

-- The buffer starts with a line of `n` bytes, its newline included.
pub record Line (buffer : Bytes) (n : ℕ) : Type 0 where
  pub text : Bytes
  pub extra : Bytes
  pub splits : buffer ≡ text ++ (b'\n' ∷ extra)
  pub no_newline : NoNewline text
  pub length_is : n ≡ length text + 1

abbrev Measured : Bytes → Option ℕ → Type 0
Measured s none = NoNewline s
Measured s (some n) = Line s n

Measured-cons :
    (c : ℕ) (s : Bytes) (o : Option ℕ)
    → c ≢ b'\n'
    → Measured s o
    → Measured (c ∷ s) (elim o [ none ↦ none | some n ↦ some (n + 1) ])
Measured-cons c s none h m = (h, m)
Measured-cons c s (some n) h m = record {
  text = c ∷ m.text;
  extra = m.extra;
  splits = ap (◌∷◌ c) m.splits;
  no_newline = (h, m.no_newline);
  length_is = omega (arith, m.length_is);
}

line_length-Measured : (s : Bytes) → Measured s (line_length s)
unfolding line_length
line_length-Measured [] = tt
line_length-Measured (c ∷ s) = elim (Bool-cases (c == b'\n')) [
  | inl newline ↦ rw newline (record {
    text = [];
    extra = s;
    splits = ap (λ (k : ℕ). k ∷ s) (ground arith);
    no_newline = tt;
    length_is = omega arith;
  })
  | inr other ↦
      rw other (Measured-cons c s (line_length s) (λ e. ground arith) (line_length-Measured s))
]

-- How `readResponse` ends, having read all of `buffer` of the stream `s` within `buflen` bytes: it
-- fails; or returns 0, with the buffer full and no newline in it; or returns the length of the line
-- that the buffer starts with, its newline included.
pub record Answers (s : Bytes) (buflen : ℕ) (r : Response) : Type 0 where
  pub stream : s ≡ r.buffer ++ r.unread
  pub within : length r.buffer ≤ buflen
  pub outcome :
      (r.ret ≡ negsuc 0)
      ⊎ ((r.ret ≡ pos 0) × (length r.buffer ≡ buflen) × NoNewline r.buffer)
      ⊎ ((n : ℕ) × (r.ret ≡ pos n) × Line r.buffer n)

abbrev pub Answering : Bytes → ℕ → Option Response → Type 0
Answering s buflen none = Unit {0}
Answering s buflen (some r) = Answers s buflen r

after_line-Answering :
    (o : Option ℕ) (buffer s : Bytes) (buflen : ℕ) (onward : Option Response)
    → length buffer ≤ buflen
    → Measured buffer o
    → (NoNewline buffer → Answering (buffer ++ s) buflen onward)
    → Answering (buffer ++ s) buflen (end_of_line o buffer s onward)
unfolding end_of_line
after_line-Answering none buffer s buflen onward w m keep = keep m
after_line-Answering (some n) buffer s buflen onward w m keep = record {
  stream = refl;
  within = w;
  outcome = inr (inr (n, refl, m));
}

after_line_read-Answering :
    (x : Option (ReadResult × Bytes)) (buffer s : Bytes) (buflen : ℕ)
    (onward : Bytes → Bytes → Option Response)
    → length buffer ≤ buflen
    → NoNul (buffer ++ s)
    → Reads (buflen - length buffer) s x
    → ((longer s' : Bytes)
        → length longer ≤ buflen
        → NoNul (longer ++ s')
        → NoNewline longer
        → Answering (longer ++ s') buflen (onward longer s'))
    → Answering (buffer ++ s) buflen (after_line_read buffer onward x)
unfolding after_line_read
after_line_read-Answering none buffer s buflen onward w nonul reads keep = tt
after_line_read-Answering (some (failed, s')) buffer s buflen onward w nonul reads keep = record {
  stream = ap (◌++◌ buffer) (sym reads);
  within = w;
  outcome = inl refl;
}
after_line_read-Answering (some (got [], s')) buffer s buflen onward w nonul reads keep = record {
  stream = ap (◌++◌ buffer) reads.0;
  within = w;
  outcome = inl refl;
}
after_line_read-Answering (some (got (b ∷ bs), s')) buffer s buflen onward w nonul reads keep =
    let longer = buffer ++ (b ∷ bs) in
    let same : buffer ++ s ≡ longer ++ s' =
      ap (◌++◌ buffer) reads.0 ∙ sym (append_assoc buffer (b ∷ bs) s') in
    let nonul' : NoNul (longer ++ s') = subst NoNul same nonul in
    let w' : length longer ≤ buflen = omega (arith, reads.1, length-append buffer (b ∷ bs)) in
    rw same (
      rw (c_string-NoNul longer (NoNul-left longer s' nonul'), after_line_read)
        (after_line-Answering (line_length longer) longer s' buflen (onward longer s') w'
          (line_length-Measured longer) (keep longer s' w' nonul')))

Answers-full :
    (buffer s : Bytes) (buflen : ℕ)
    → length buffer ≤ buflen
    → ltb (length buffer) buflen ≡ false
    → NoNewline buffer
    → Answers (buffer ++ s) buflen (record { ret = pos 0; buffer = buffer; unread = s })
Answers-full buffer s buflen w full clean = record {
  stream = refl;
  within = w;
  outcome = inr (inl (refl, ground arith, clean));
}

read_response-Answering :
    (rounds : List Round) (buffer s : Bytes) (buflen : ℕ)
    → InTime rounds
    → length buffer ≤ buflen
    → NoNul (buffer ++ s)
    → NoNewline buffer
    → Answering (buffer ++ s) buflen (read_response rounds buflen buffer s)
unfolding read_response
read_response-Answering [] buffer s buflen t w nonul clean =
    elim (Bool-cases (ltb (length buffer) buflen)) [
      | inl room ↦ rw room tt
      | inr full ↦ rw full (Answers-full buffer s buflen w full clean)
    ]
read_response-Answering (r ∷ rs) buffer s buflen t w nonul clean =
    elim (Bool-cases (ltb (length buffer) buflen)) [
      | inl room ↦
          rw (room, t.0)
            (after_line_read-Answering (retry_read (buflen - length buffer) r.turns s) buffer s
              buflen (λ longer s'. read_response rs buflen longer s') w nonul
              (retry_read-Reads (buflen - length buffer) r.turns s)
              λ longer s' w' nonul' clean'.
                read_response-Answering rs longer s' buflen t.1 w' nonul' clean')
      | inr full ↦ rw full (Answers-full buffer s buflen w full clean)
    ]

-- `readResponse`, wherever the network cuts a stream with no NUL byte and as long as the time does
-- not expire: what it read is the front of the stream and no more than `buflen` bytes; it returns
-- -1, or the length of the line that it read with its newline, the first newline of the stream, or
-- 0 when `buflen` bytes hold no newline.
pub read_response_line :
    (rounds : List Round) (buflen : ℕ) (s : Bytes)
    → InTime rounds
    → NoNul s
    → Answering s buflen (read_response rounds buflen [] s)
read_response_line rounds buflen s t nonul =
    read_response-Answering rounds [] s buflen t (omega arith) nonul tt
