-- ===== src/Smtp/SendFile.antt =====
-- src/smtp.c: sendFile.
pub mod Delivery
use mstone.Base.{
  ℕ, ◌+◌, Bool, true, false, List, [], ◌∷◌, ◌++◌, Option, none, some, ◌==◌, if◌then◌else◌, length,
  drop, ℤ, pos, negsuc, Bytes, codes,
}
use mathlib.Core.Option
use mstone.Transfer.{Round, Written, retry_write}

-- How a loop of `sendFile` ends: all written, cut off by the time, or an error; with the bytes on
-- the wire.
pub data Part : Type 0 where
  whole cut broken_part : Bytes → Part

after_part : Bool → Bytes → (ℕ → Bytes → Option Part) → ℤ → Option Part
after_part expired wire onward (negsuc n) = some (broken_part wire)
after_part true wire onward (pos n) = some (cut wire)
after_part false wire onward (pos n) = onward n wire

written_part : Bool → Bytes → (ℕ → Bytes → Option Part) → Option Written → Option Part
unfolding after_part
written_part expired wire onward none = none
written_part expired wire onward (some w) = after_part expired (wire ++ w.wire) onward w.ret

-- `while (todo > 0)`: one of the three write loops of `sendFile`
pub send_part : List Round → Bytes → Bytes → Option Part
unfolding written_part
send_part [] buf wire = if length buf == 0 then some (whole wire) else none
send_part (r ∷ rs) buf wire =
    let rest =
      written_part r.expired wire (λ n wire'. send_part rs (drop n buf) wire')
        (retry_write r.turns buf 0 []) in
    if length buf == 0 then some (whole wire) else rest

-- What a call of `read` on the file gives, with the rounds that write it.
pub record Chunk : Type 0 where
  pub bytes : Bytes
  pub rounds : List Round

-- How the reads of the file end: `read` has returned 0, or -1.
pub data ReadEnd : Type 0 where
  end_of_file read_error : ReadEnd

-- What the calls of `read` on a file that has been opened give, in order, and how they end.
pub record Reading : Type 0 where
  pub chunks : List Chunk
  pub ends : ReadEnd

-- `MSG_TRAILER`
abbrev pub msg_trailer : Bytes
msg_trailer = codes "\r\n.\r\n"

-- the return value of `sendFile`: `sentbytes`, or -1
pub file_sent : Part → Written
file_sent (whole wire) = record { ret = pos (length wire); wire = wire }
file_sent (cut wire) = record { ret = pos (length wire); wire = wire }
file_sent (broken_part wire) = record { ret = negsuc 0; wire = wire }

next_part : (Bytes → Option Part) → Option Part → Option Part
next_part onward none = none
next_part onward (some (whole wire)) = onward wire
next_part onward (some (cut wire)) = some (cut wire)
next_part onward (some (broken_part wire)) = some (broken_part wire)

-- behind the file: the trailer; that `todo` is less than 0 is only logged
pub after_file : ReadEnd → List Round → Bytes → Option Part
unfolding send_part
after_file end_of_file trailer wire = send_part trailer msg_trailer wire
after_file read_error trailer wire = send_part trailer msg_trailer wire

-- the file and the trailer
pub send_chunks : List Chunk → ReadEnd → List Round → Bytes → Option Part
unfolding next_part send_part after_file
send_chunks [] ends trailer wire = after_file ends trailer wire
send_chunks (c ∷ cs) ends trailer wire =
    next_part (λ wire'. send_chunks cs ends trailer wire') (send_part c.rounds c.bytes wire)

-- `sendFile` without leading text; `none` is a file that `open` does not open, or where `lseek` to
-- the offset fails
unfoldable pub send_file : Option Reading → List Round → Option Written
unfolding send_chunks file_sent
send_file none trailer = some (record { ret = negsuc 0; wire = [] })
send_file (some file) trailer = Option.map file_sent (send_chunks file.chunks file.ends trailer [])
