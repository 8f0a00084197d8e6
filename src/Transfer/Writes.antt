-- ===== src/Transfer/Writes.antt =====
-- `retryWrite` and `sendCommand` put the front of a command on the wire, or all of it.
use mathlib.Core.List.{append_assoc, append-nil}
use mstone.Base.{
  ℕ, zero, suc, ◌+◌, ◌≡◌, refl, sym, ap, ◌∙◌, ◌⊎◌, inl, inr, Bool, true, false, ◌||◌, ◌==◌, List,
  [], ◌∷◌, ◌++◌, Option, none, some, arith, length, length-append, take, drop, take-append-drop,
  Bool-cases, ℤ, pos, negsuc, Bytes, drop-append, subst,
}
use mstone.Transfer.{
  Reply, moved, interrupted, again, broken, stale, Turn, Round, InTime, Written, write_error,
  write_reply, retry_write, resume, after_write, send_command,
}

-- How `retryWrite` ends with `buf` to write, `byteswritten` bytes written and `wire` on the wire: a
-- part of `buf` follows on the wire, and the value returned counts it, or is -1 if there is nothing
-- to count.
pub record Puts (buf : Bytes) (byteswritten : ℕ) (wire : Bytes) (w : Written) : Type 0 where
  pub sent : Bytes
  pub left : Bytes
  pub splits : buf ≡ sent ++ left
  pub wire_is : w.wire ≡ wire ++ sent
  pub ret_is :
      (w.ret ≡ pos (byteswritten + length sent))
      ⊎ ((w.ret ≡ negsuc 0) × (byteswritten + length sent ≡ 0))

abbrev pub Putting : Bytes → ℕ → Bytes → Option Written → Type 0
Putting buf byteswritten wire none = Unit {0}
Putting buf byteswritten wire (some w) = Puts buf byteswritten wire w

Puts-nothing :
    (buf : Bytes) (n : ℕ) (wire : Bytes) → Puts buf n wire (record { ret = pos n; wire = wire })
Puts-nothing buf n wire = record {
  sent = [];
  left = buf;
  splits = refl;
  wire_is = sym (append-nil wire);
  ret_is = inl (ap pos (omega arith));
}

write_error-Puts : (buf : Bytes) (n : ℕ) (wire : Bytes) → Puts buf n wire (write_error n wire)
unfolding write_error
write_error-Puts buf zero wire = record {
  sent = [];
  left = buf;
  splits = refl;
  wire_is = sym (append-nil wire);
  ret_is = inr (refl, refl);
}
write_error-Puts buf (suc n) wire = Puts-nothing buf (suc n) wire

Putting-append :
    (front buf : Bytes) (n : ℕ) (wire : Bytes) (o : Option Written)
    → Putting buf (n + length front) (wire ++ front) o
    → Putting (front ++ buf) n wire o
Putting-append front buf n wire none h = tt
Putting-append front buf n wire (some w) h = record {
  sent = front ++ h.sent;
  left = h.left;
  splits = rw (append_assoc front h.sent h.left) (ap (◌++◌ front) h.splits);
  wire_is = h.wire_is ∙ append_assoc wire front h.sent;
  ret_is = ground (arith, h.ret_is, length-append front h.sent);
}

write_reply-Putting :
    (reply : Reply) (again' : Bool) (n : ℕ) (wire buf : Bytes) (retry : Option Written)
    (onward : ℕ → Option Written)
    → Putting buf n wire retry
    → ((k : ℕ) → Putting buf n wire (onward k))
    → Putting buf n wire (write_reply reply again' n wire retry onward)
unfolding write_reply
write_reply-Putting (moved k) again' n wire buf retry onward h g = g k
write_reply-Putting interrupted again' n wire buf retry onward h g = h
write_reply-Putting again true n wire buf retry onward h g = h
write_reply-Putting again false n wire buf retry onward h g = write_error-Puts buf n wire
write_reply-Putting broken again' n wire buf retry onward h g = write_error-Puts buf n wire
write_reply-Putting stale again' n wire buf retry onward h g = h

pub retry_write-Putting :
    (ts : List Turn) (buf : Bytes) (n : ℕ) (wire : Bytes)
    → Putting buf n wire (retry_write ts buf n wire)
unfolding retry_write
retry_write-Putting [] buf n wire = ground (arith, Puts-nothing buf n wire)
retry_write-Putting (t ∷ ts) buf n wire = elim (Bool-cases (length buf == 0 || t.expired)) [
  | inl stop ↦ rw stop (Puts-nothing buf n wire)
  | inr go ↦ rw go (
      write_reply-Putting t.reply t.ready_again n wire buf (retry_write ts buf n wire) _
        (retry_write-Putting ts buf n wire)
        λ k.
          subst
            (λ b.
              Putting b n wire
                (retry_write ts (drop k buf) (n + length (take k buf)) (wire ++ take k buf)))
            (take-append-drop k buf)
            (Putting-append (take k buf) (drop k buf) n wire _
              (retry_write-Putting ts (drop k buf) (n + length (take k buf)) (wire ++ take k buf))))
]

-- How `sendCommand` ends: what it put on the wire is the front of the command, and all of it if it
-- reports no error, when the value returned is the number of bytes sent.
pub record Sends (command : Bytes) (sentbytes : ℕ) (wire : Bytes) (w : Written) : Type 0 where
  pub sent : Bytes
  pub left : Bytes
  pub splits : command ≡ sent ++ left
  pub wire_is : w.wire ≡ wire ++ sent
  pub ret_is : ((w.ret ≡ pos (sentbytes + length sent)) × (left ≡ [])) ⊎ (w.ret ≡ negsuc 0)

abbrev pub Sending : Bytes → ℕ → Bytes → Option Written → Type 0
Sending command sentbytes wire none = Unit {0}
Sending command sentbytes wire (some w) = Sends command sentbytes wire w

Sends-nothing : (n : ℕ) (wire : Bytes) → Sends [] n wire (record { ret = pos n; wire = wire })
Sends-nothing n wire = record {
  sent = [];
  left = [];
  splits = refl;
  wire_is = sym (append-nil wire);
  ret_is = inl (ap pos (omega arith), refl);
}

Sending-append :
    (front command : Bytes) (n : ℕ) (wire : Bytes) (o : Option Written)
    → Sending command (n + length front) (wire ++ front) o
    → Sending (front ++ command) n wire o
Sending-append front command n wire none h = tt
Sending-append front command n wire (some w) h = record {
  sent = front ++ h.sent;
  left = h.left;
  splits = rw (append_assoc front h.sent h.left) (ap (◌++◌ front) h.splits);
  wire_is = h.wire_is ∙ append_assoc wire front h.sent;
  ret_is = ground (arith, h.ret_is, length-append front h.sent);
}

resume-Sending :
    (ret : ℤ) (command sent left : Bytes) (n : ℕ) (wire : Bytes)
    (onward : ℕ → Bytes → Option Written)
    → command ≡ sent ++ left
    → ((k : ℕ)
        → k ≡ length sent
        → Sending left (n + length sent) (wire ++ sent) (onward k (wire ++ sent)))
    → (ret ≡ pos (0 + length sent)) ⊎ ((ret ≡ negsuc 0) × (0 + length sent ≡ 0))
    → Sending command n wire (resume ret false n (wire ++ sent) onward)
unfolding resume
resume-Sending (pos k) command sent left n wire onward splits keep r =
    rw splits
      (Sending-append sent left n wire (onward k (wire ++ sent)) (keep k (ground (arith, r))))
resume-Sending (negsuc k) command sent left n wire onward splits keep r = record {
  sent = sent;
  left = left;
  splits = splits;
  wire_is = refl;
  ret_is = inr refl;
}

after_write-Sending :
    (o : Option Written) (command : Bytes) (n : ℕ) (wire : Bytes)
    (onward : ℕ → Bytes → Option Written)
    → Putting command 0 [] o
    → ((sent left : Bytes)
        → command ≡ sent ++ left
        → Sending left (n + length sent) (wire ++ sent) (onward (length sent) (wire ++ sent)))
    → Sending command n wire (after_write false n wire onward o)
unfolding after_write
after_write-Sending none command n wire onward h keep = tt
after_write-Sending (some w) command n wire onward h keep = rw h.wire_is (
    resume-Sending w.ret command h.sent h.left n wire onward h.splits
      (λ k e. rw e (keep h.sent h.left h.splits)) h.ret_is)

send_command-Sending :
    (rounds : List Round) (command : Bytes) (n : ℕ) (wire : Bytes)
    → InTime rounds
    → Sending command n wire (send_command rounds command n wire)
unfolding send_command
send_command-Sending [] [] n wire t = Sends-nothing n wire
send_command-Sending [] (c ∷ command) n wire t = ground arith
send_command-Sending (r ∷ rs) [] n wire t = Sends-nothing n wire
send_command-Sending (r ∷ rs) (c ∷ command) n wire t =
    let more : (suc (length command) == 0) ≡ false = ground arith in
    rw (more, t.0)
      (after_write-Sending (retry_write r.turns (c ∷ command) 0 []) (c ∷ command) n wire _
        (retry_write-Putting r.turns (c ∷ command) 0 [])
        λ sent left e.
          rw (e, drop-append sent left)
            (send_command-Sending rs left (n + length sent) (wire ++ sent) t.1))

-- Whatever the network does, and as long as `sendCommand`'s own test does not find the time
-- expired: when it returns, the bytes on the wire are the front of the command; it returns either
-- -1, or the length of the command with the command on the wire in full.
pub send_command_all :
    (rounds : List Round) (command : Bytes)
    → InTime rounds
    → Sending command 0 [] (send_command rounds command 0 [])
send_command_all rounds command t = send_command-Sending rounds command 0 [] t
