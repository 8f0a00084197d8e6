-- ===== src/Smtp/Hello.antt =====
-- src/smtp.c: the loop of sendSMTPStart that reads the response to EHLO or LHLO, of several lines.
-- `retryRead` does not end what it reads by a NUL, so the buffer is kept with what an earlier
-- response has left behind the bytes read.
use mstone.Base.{
  ℕ, ◌+◌, ◌-◌, Bool, true, false, ◌&&◌, List, [], ◌∷◌, ◌++◌, Option, none, some, ◌==◌,
  if◌then◌else◌, length, take, drop, Bytes, c_string,
}
use mstone.Transfer.{Round, ReadResult, got, failed, retry_read}
use mstone.Pish.{max_response_len}
use mstone.Smtp.{is_smtp_response, is_smtp_response_ok}

-- the search back from the end for the start of the last line; the newline at the very end does not
-- count, and neither does one at the very start. (Of a newline alone the code looks at the byte in
-- front of the buffer.)
last_line_from : Bytes → Bytes → Bytes
last_line_from [] best = best
last_line_from (c ∷ []) best = best
last_line_from (c ∷ d ∷ s) best = last_line_from (d ∷ s) (if c == b'\n' then d ∷ s else best)

pub last_line : Bytes → Bytes
unfolding last_line_from
last_line [] = []
last_line (c ∷ s) = last_line_from s (c ∷ s)

ends_line : Bytes → Bool
ends_line [] = false
ends_line (c ∷ []) = c == b'\n'
ends_line (c ∷ d ∷ s) = ends_line (d ∷ s)

-- What the loop leaves: whether `rc` is not negative, the buffer, and what the server has still to
-- deliver.
pub record Hello : Type 0 where
  pub ok : Bool
  pub response : Bytes
  pub unread : Bytes

-- `strcpy (respBuffer, resp)`
moved : Bytes → Bytes → Bytes
moved line buffer = line ++ (0 ∷ drop (length line + 1) buffer)

-- the tests behind a read; `resp` points into the buffer, which can go on behind what was read
hello_read :
    (ℕ → Bytes → Bytes → Option Hello) → ℕ → Bytes → Option (ReadResult × Bytes) → Option Hello
unfolding ends_line last_line moved
hello_read onward len buffer none = none
hello_read onward len buffer (some (failed, s)) =
    some (record { ok = false; response = buffer; unread = s })
hello_read onward len buffer (some (got [], s)) =
    some (record { ok = true; response = buffer; unread = s })
hello_read onward len buffer (some (got (c ∷ cs), s)) =
    let text = take len buffer ++ (c ∷ cs) in
    let buffer' = text ++ drop (length text) buffer in
    let resp = drop (length text - length (last_line text)) buffer' in
    let line = c_string resp in
    let next =
      onward (if ends_line text then length line else length text)
        (if ends_line text then moved line buffer' else buffer') s in
    if ends_line text && is_smtp_response resp
    then some (record { ok = is_smtp_response_ok resp; response = buffer'; unread = s })
    else next

-- the loop around `retryRead`, with a script for each call
read_loop : List Round → ℕ → Bytes → Bytes → Option Hello
unfolding hello_read
read_loop [] len buffer s = none
read_loop (r ∷ rs) len buffer s =
    hello_read (λ len' buffer' s'. read_loop rs len' buffer' s') len buffer
      (retry_read (max_response_len - len) r.turns s)

-- `*respBuffer = '\0'`, and the loop
unfoldable pub read_hello : List Round → Bytes → Bytes → Option Hello
unfolding read_loop
read_hello rs buffer s = read_loop rs 0 (0 ∷ drop 1 buffer) s
