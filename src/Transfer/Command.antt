-- ===== src/Transfer/Command.antt =====
-- `doCommandResponse`: a command goes out in full before a response line is read.
use mathlib.Core.List.{append-nil}
use mstone.Base.{
  ℕ, zero, suc, ◌+◌, ◌≡◌, refl, ap, ◌∙◌, ◌⊎◌, inl, inr, List, [], ◌++◌, Option, none, some, arith,
  length, ℤ, pos, negsuc, Bytes, NoNul,
}
use mstone.Transfer.{Round, Written, send_command, InTime}
use mstone.Transfer.Writes.{Sending, send_command_all}
use mstone.Transfer.Line.{
  Response, read_response, Line, NoNewline, Answers, Answering, read_response_line,
}

-- What `doCommandResponse` leaves: its return value, what was put on the wire, the response buffer,
-- and what the peer has still to deliver.
pub record Answer : Type 0 where
  pub ret : ℤ
  pub wire : Bytes
  pub buffer : Bytes
  pub unread : Bytes

-- `if (ret <= 0) return -1;`
pub positive_or_error : ℤ → ℤ
positive_or_error (pos zero) = negsuc 0
positive_or_error (pos (suc n)) = pos (suc n)
positive_or_error (negsuc n) = negsuc 0

unfoldable pub answer : Bytes → Option Response → Option Answer
unfolding positive_or_error
answer wire none = none
answer wire (some r) =
    some
      (record { ret = positive_or_error r.ret; wire = wire; buffer = r.buffer; unread = r.unread })

-- the second half of `doCommandResponse`, on what `sendCommand` returned
unfoldable pub await_response : ℤ → Bytes → List Round → ℕ → Bytes → Option Answer
unfolding answer
await_response (negsuc n) wire reads resplen s =
    some (record { ret = negsuc 0; wire = wire; buffer = []; unread = s })
await_response (pos n) wire reads resplen s = answer wire (read_response reads resplen [] s)

-- `doCommandResponse`, with the rounds of its writes and of its reads
unfoldable pub do_command_response : List Round → List Round → Bytes → ℕ → Bytes → Option Answer
unfolding await_response
do_command_response writes reads command resplen s = elim (send_command writes command 0 []) [
  | none ↦ none
  | some w ↦ await_response w.ret w.wire reads resplen s
]

-- A call with `s` to come has sent the whole command and read a line of `n` bytes, which is what it
-- returns; or it returns -1.
pub record Exchanges (command s : Bytes) (a : Answer) : Type 0 where
  pub outcome :
      ((n : ℕ) × (a.ret ≡ pos n)
        × (a.wire ≡ command)
        × (s ≡ a.buffer ++ a.unread)
        × Line a.buffer n)
      ⊎ (a.ret ≡ negsuc 0)

abbrev pub Exchanging : Bytes → Bytes → Option Answer → Type 0
Exchanging command s none = Unit {0}
Exchanging command s (some a) = Exchanges command s a

answer_outcome :
    (r : Response) (command s : Bytes) (resplen : ℕ)
    → Answers s resplen r
    → (r.ret ≡ negsuc 0)
      ⊎ ((r.ret ≡ pos 0) × (length r.buffer ≡ resplen) × NoNewline r.buffer)
      ⊎ ((n : ℕ) × (r.ret ≡ pos n) × Line r.buffer n)
    → ((n : ℕ) × (positive_or_error r.ret ≡ pos n)
        × (command ≡ command)
        × (s ≡ r.buffer ++ r.unread)
        × Line r.buffer n)
      ⊎ (positive_or_error r.ret ≡ negsuc 0)
unfolding positive_or_error
answer_outcome r command s resplen h (inl e) = inr (rw e)
answer_outcome r command s resplen h (inr (inl (e, full, clean))) = inr (rw e)
answer_outcome r command s resplen h (inr (inr (zero, e, l))) = absurd (omega (arith, l.length_is))
answer_outcome r command s resplen h (inr (inr (suc n, e, l))) =
    inl (suc n, rw e, refl, h.stream, l)

answer-Exchanging :
    (o : Option Response) (command s : Bytes) (resplen : ℕ)
    → Answering s resplen o
    → Exchanging command s (answer command o)
unfolding answer
answer-Exchanging none command s resplen h = tt
answer-Exchanging (some r) command s resplen h = record {
  outcome = answer_outcome r command s resplen h h.outcome;
}

await_response-Exchanging :
    (ret : ℤ) (wire command s left : Bytes) (reads : List Round) (resplen : ℕ)
    → InTime reads
    → NoNul s
    → ((ret ≡ pos (0 + length wire)) × (left ≡ [])) ⊎ (ret ≡ negsuc 0)
    → command ≡ wire ++ left
    → Exchanging command s (await_response ret wire reads resplen s)
unfolding await_response
await_response-Exchanging (negsuc n) wire command s left reads resplen t nonul h e = record {
  outcome = inr refl;
}
await_response-Exchanging (pos n) wire command s left reads resplen t nonul (inr e) c = absurd (cc)
await_response-Exchanging (pos n) wire command s left reads resplen t nonul (inl (e, all)) c =
    let whole : command ≡ wire = c ∙ ap (◌++◌ wire) all ∙ append-nil wire in
    rw whole (
      answer-Exchanging (read_response reads resplen [] s) wire s resplen
        (read_response_line reads resplen s t nonul))

do_command-Exchanging :
    (o : Option Written) (reads : List Round) (command s : Bytes) (resplen : ℕ)
    → InTime reads
    → NoNul s
    → Sending command 0 [] o
    → Exchanging command s
        (elim o [ none ↦ none | some w ↦ await_response w.ret w.wire reads resplen s ])
do_command-Exchanging none reads command s resplen t nonul h = tt
do_command-Exchanging (some w) reads command s resplen t nonul h =
    await_response-Exchanging w.ret w.wire command s h.left reads resplen t nonul
      (rw h.wire_is h.ret_is) (rw h.wire_is h.splits)

-- `doCommandResponse`, as long as no time expires and the stream has no NUL byte: if it returns a
-- positive count then the whole command is on the wire, and the response buffer starts with a line
-- of that many bytes, the first of the stream; in every other case it returns -1.
pub do_command_response-Exchanging :
    (writes reads : List Round) (command : Bytes) (resplen : ℕ) (s : Bytes)
    → InTime writes
    → InTime reads
    → NoNul s
    → Exchanging command s (do_command_response writes reads command resplen s)
unfolding do_command_response
do_command_response-Exchanging writes reads command resplen s w t nonul =
    do_command-Exchanging (send_command writes command 0 []) reads command s resplen t nonul
      (send_command_all writes command w)
