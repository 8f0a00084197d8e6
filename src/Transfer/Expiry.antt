-- ===== src/Transfer/Expiry.antt =====
-- src/bench.c: the calls over a socket come back when the time runs out.
use mstone.Base.{
  ℕ, ◌+◌, ◌-◌, ◌≤◌, ◌≡◌, ◌⊎◌, inl, inr, Bool, true, false, not, ◌||◌, List, [], ◌∷◌, ◌++◌, Option,
  none, some, IsSome, arith, ltb, ◌==◌, if_cases, length, take, drop, ℤ, pos, negsuc, Bytes,
}
use mstone.Transfer.{
  Reply, moved, interrupted, again, broken, stale, Turn, ReadResult, got, failed, read_reply,
  retry_read, Written, write_reply, retry_write, Round, resume, after_write, send_command,
}
use mstone.Transfer.Line.{Response, end_of_line, after_line_read, read_response}
use mstone.Transfer.Command.{answer, await_response, do_command_response}
use mstone.Transfer.Message.{
  garbage_size, Verdict, complete, refused, more, Retrieved, conclude, after_read, retrieve,
}

-- Some pass of a retry loop would find that the time has expired.
abbrev pub Expires : List Turn → Type 0
Expires [] = 1 ≤ 0
Expires (t ∷ ts) = (t.expired ≡ true) ⊎ Expires ts

-- So would some round, and in each round up to that one some pass.
abbrev pub RunsOut : List Round → Type 0
RunsOut [] = 1 ≤ 0
RunsOut (r ∷ rs) = Expires r.turns × ((r.expired ≡ true) ⊎ RunsOut rs)

read_reply-IsSome :
    (reply : Reply) (ready_again : Bool) (count : ℕ) (s : Bytes)
    (retry : Option (ReadResult × Bytes))
    → IsSome retry
    → IsSome (read_reply reply ready_again count s retry)
unfolding read_reply
read_reply-IsSome (moved n) ready_again count s retry h = tt
read_reply-IsSome interrupted ready_again count s retry h = h
read_reply-IsSome again ready_again count s retry h =
    if_cases IsSome ready_again (λ ready. h) (λ gone. tt)
read_reply-IsSome broken ready_again count s retry h = tt
read_reply-IsSome stale ready_again count s retry h = h

pub retry_read-IsSome :
    (count : ℕ) (ts : List Turn) (s : Bytes) → Expires ts → IsSome (retry_read count ts s)
unfolding retry_read
retry_read-IsSome count [] s h = absurd (omega (arith, h))
retry_read-IsSome count (t ∷ ts) s (inl late) =
    if_cases IsSome (count == 0 || (t.expired || not t.ready)) (λ ends. tt)
      (λ goes. absurd (ground (arith, goes, late)))
retry_read-IsSome count (t ∷ ts) s (inr h) =
    if_cases IsSome (count == 0 || (t.expired || not t.ready)) (λ ends. tt)
      (λ goes.
        read_reply-IsSome t.reply t.ready_again count s (retry_read count ts s)
          (retry_read-IsSome count ts s h))

write_reply-IsSome :
    (reply : Reply) (ready_again : Bool) (byteswritten : ℕ) (wire : Bytes) (retry : Option Written)
    (onward : ℕ → Option Written)
    → IsSome retry
    → ((n : ℕ) → IsSome (onward n))
    → IsSome (write_reply reply ready_again byteswritten wire retry onward)
unfolding write_reply
write_reply-IsSome (moved n) ready_again byteswritten wire retry onward h go = go n
write_reply-IsSome interrupted ready_again byteswritten wire retry onward h go = h
write_reply-IsSome again ready_again byteswritten wire retry onward h go =
    if_cases IsSome ready_again (λ ready. h) (λ gone. tt)
write_reply-IsSome broken ready_again byteswritten wire retry onward h go = tt
write_reply-IsSome stale ready_again byteswritten wire retry onward h go = h

pub retry_write-IsSome :
    (ts : List Turn) (buf : Bytes) (byteswritten : ℕ) (wire : Bytes)
    → Expires ts
    → IsSome (retry_write ts buf byteswritten wire)
unfolding retry_write
retry_write-IsSome [] buf byteswritten wire h = absurd (omega (arith, h))
retry_write-IsSome (t ∷ ts) buf byteswritten wire (inl late) =
    if_cases IsSome (length buf == 0 || t.expired) (λ ends. tt)
      (λ goes. absurd (ground (arith, goes, late)))
retry_write-IsSome (t ∷ ts) buf byteswritten wire (inr h) =
    if_cases IsSome (length buf == 0 || t.expired) (λ ends. tt)
      (λ goes.
        write_reply-IsSome t.reply t.ready_again byteswritten wire
          (retry_write ts buf byteswritten wire)
          (λ n.
            retry_write ts (drop n buf) (byteswritten + length (take n buf)) (wire ++ take n buf))
          (retry_write-IsSome ts buf byteswritten wire h)
          (λ n.
            retry_write-IsSome ts (drop n buf) (byteswritten + length (take n buf))
              (wire ++ take n buf) h))

resume-IsSome :
    (ret : ℤ) (expired : Bool) (sentbytes : ℕ) (wire : Bytes) (onward : ℕ → Bytes → Option Written)
    → (expired ≡ true) ⊎ ((n : ℕ) (wire' : Bytes) → IsSome (onward n wire'))
    → IsSome (resume ret expired sentbytes wire onward)
unfolding resume
resume-IsSome (negsuc n) expired sentbytes wire onward h = tt
resume-IsSome (pos n) true sentbytes wire onward h = tt
resume-IsSome (pos n) false sentbytes wire onward (inl late) = absurd (cc)
resume-IsSome (pos n) false sentbytes wire onward (inr go) = go n wire

after_write-IsSome :
    (expired : Bool) (sentbytes : ℕ) (wire : Bytes) (onward : ℕ → Bytes → Option Written)
    (o : Option Written)
    → IsSome o
    → (expired ≡ true) ⊎ ((n : ℕ) (wire' : Bytes) → IsSome (onward n wire'))
    → IsSome (after_write expired sentbytes wire onward o)
unfolding after_write
after_write-IsSome expired sentbytes wire onward none h go = h
after_write-IsSome expired sentbytes wire onward (some w) h go =
    resume-IsSome w.ret expired sentbytes (wire ++ w.wire) onward go

pub send_command-IsSome :
    (rs : List Round) (command : Bytes) (sentbytes : ℕ) (wire : Bytes)
    → RunsOut rs
    → IsSome (send_command rs command sentbytes wire)
unfolding send_command
send_command-IsSome [] command sentbytes wire h = absurd (omega (arith, h))
send_command-IsSome (r ∷ rs) command sentbytes wire (ends, h) =
    let onward : ℕ → Bytes → Option Written =
      λ sent wire'. send_command rs (drop sent command) (sentbytes + sent) wire' in
    let more : (r.expired ≡ true) ⊎ ((n : ℕ) (wire' : Bytes) → IsSome (onward n wire')) = elim h [
      | inl late ↦ inl late
      | inr k ↦ inr (λ n wire'. send_command-IsSome rs (drop n command) (sentbytes + n) wire' k)
    ] in
    if_cases IsSome (length command == 0) (λ done. tt)
      (λ waits.
        after_write-IsSome r.expired sentbytes wire onward (retry_write r.turns command 0 [])
          (retry_write-IsSome r.turns command 0 [] ends) more)

end_of_line-IsSome :
    (o : Option ℕ) (buffer s : Bytes) (onward : Option Response)
    → IsSome onward
    → IsSome (end_of_line o buffer s onward)
unfolding end_of_line
end_of_line-IsSome none buffer s onward h = h
end_of_line-IsSome (some n) buffer s onward h = tt

after_line_read-IsSome :
    (buffer : Bytes) (onward : Bytes → Bytes → Option Response) (o : Option (ReadResult × Bytes))
    → IsSome o
    → ((longer s : Bytes) → IsSome (onward longer s))
    → IsSome (after_line_read buffer onward o)
unfolding after_line_read
after_line_read-IsSome buffer onward none h go = h
after_line_read-IsSome buffer onward (some (failed, s)) h go = tt
after_line_read-IsSome buffer onward (some (got [], s)) h go = tt
after_line_read-IsSome buffer onward (some (got (b ∷ bs), s)) h go =
    let longer = buffer ++ (b ∷ bs) in end_of_line-IsSome _ longer s (onward longer s) (go longer s)

pub read_response-IsSome :
    (rs : List Round) (buflen : ℕ) (buffer s : Bytes)
    → RunsOut rs
    → IsSome (read_response rs buflen buffer s)
unfolding read_response
read_response-IsSome [] buflen buffer s h = absurd (omega (arith, h))
read_response-IsSome (r ∷ rs) buflen buffer s (ends, inl late) =
    if_cases IsSome (not (ltb (length buffer) buflen) || r.expired) (λ done. tt)
      (λ goes. absurd (ground (arith, goes, late)))
read_response-IsSome (r ∷ rs) buflen buffer s (ends, inr h) =
    if_cases IsSome (not (ltb (length buffer) buflen) || r.expired) (λ done. tt)
      (λ goes.
        after_line_read-IsSome buffer (λ longer s'. read_response rs buflen longer s')
          (retry_read (buflen - length buffer) r.turns s)
          (retry_read-IsSome (buflen - length buffer) r.turns s ends)
          (λ longer s'. read_response-IsSome rs buflen longer s' h))

answer-IsSome : (wire : Bytes) (o : Option Response) → IsSome o → IsSome (answer wire o)
unfolding answer
answer-IsSome wire none h = h
answer-IsSome wire (some r) h = tt

await_response-IsSome :
    (ret : ℤ) (wire : Bytes) (reads : List Round) (resplen : ℕ) (s : Bytes)
    → RunsOut reads
    → IsSome (await_response ret wire reads resplen s)
unfolding await_response
await_response-IsSome (negsuc n) wire reads resplen s h = tt
await_response-IsSome (pos n) wire reads resplen s h =
    answer-IsSome wire (read_response reads resplen [] s)
      (read_response-IsSome reads resplen [] s h)

awaited-IsSome :
    (o : Option Written) (reads : List Round) (resplen : ℕ) (s : Bytes)
    → IsSome o
    → RunsOut reads
    → IsSome (elim o [ none ↦ none | some w ↦ await_response w.ret w.wire reads resplen s ])
awaited-IsSome none reads resplen s h k = h
awaited-IsSome (some w) reads resplen s h k = await_response-IsSome w.ret w.wire reads resplen s k

pub do_command_response-IsSome :
    (writes reads : List Round) (command : Bytes) (resplen : ℕ) (s : Bytes)
    → RunsOut writes
    → RunsOut reads
    → IsSome (do_command_response writes reads command resplen s)
unfolding do_command_response
do_command_response-IsSome writes reads command resplen s h k =
    awaited-IsSome (send_command writes command 0 []) reads resplen s
      (send_command-IsSome writes command 0 [] h) k

conclude-IsSome :
    (v : Verdict) (s : Bytes) (total bytesread : ℕ) (onward : Bytes → Bytes → ℕ → Option Retrieved)
    → ((kept s' : Bytes) (n : ℕ) → IsSome (onward kept s' n))
    → IsSome (conclude v s total bytesread onward)
unfolding conclude
conclude-IsSome complete s total bytesread onward go = tt
conclude-IsSome refused s total bytesread onward go = tt
conclude-IsSome (more kept) s total bytesread onward go = go kept s bytesread

after_read-IsSome :
    (window : Bytes) (bytesread : ℕ) (onward : Bytes → Bytes → ℕ → Option Retrieved)
    (o : Option (ReadResult × Bytes))
    → IsSome o
    → ((kept s' : Bytes) (n : ℕ) → IsSome (onward kept s' n))
    → IsSome (after_read window bytesread onward o)
unfolding after_read
after_read-IsSome window bytesread onward none h go = h
after_read-IsSome window bytesread onward (some (failed, s)) h go = tt
after_read-IsSome window bytesread onward (some (got [], s)) h go = tt
after_read-IsSome window bytesread onward (some (got (b ∷ bs), s)) h go =
    conclude-IsSome _ s (length (window ++ (b ∷ bs))) (bytesread + length (b ∷ bs)) onward go

pub retrieve-IsSome :
    (window : Bytes) (rs : List Round) (s : Bytes) (bytesread : ℕ)
    → RunsOut rs
    → IsSome (retrieve window rs s bytesread)
unfolding retrieve
retrieve-IsSome window [] s bytesread h = absurd (omega (arith, h))
retrieve-IsSome window (r ∷ rs) s bytesread (ends, inl late) =
    if_cases IsSome r.expired (λ done. tt) (λ goes. absurd (ground (arith, goes, late)))
retrieve-IsSome window (r ∷ rs) s bytesread (ends, inr h) =
    if_cases IsSome r.expired (λ done. tt)
      (λ goes.
        after_read-IsSome window bytesread (λ kept s' n. retrieve kept rs s' n)
          (retry_read (garbage_size - length window) r.turns s)
          (retry_read-IsSome (garbage_size - length window) r.turns s ends)
          (λ kept s' n. retrieve-IsSome kept rs s' n h))
