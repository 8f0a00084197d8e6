-- ===== src/Smtp/SendFile/Delivery.antt =====
-- src/smtp.c: sendFile puts the file and the trailer on the wire, or a front of them.
use mathlib.Core.List.{append_assoc, append-nil}
use mathlib.Core.Option
use mstone.Base.{
  ℕ, ◌+◌, ◌≡◌, refl, sym, ap, ◌∙◌, subst, ◌⊎◌, inl, inr, Bool, true, false, ◌==◌, List, [], ◌∷◌,
  ◌++◌, Option, none, some, arith, length, drop, drop-append, if_cases, ℤ, pos, negsuc, Bytes,
}
use mstone.Transfer.{Round, InTime, Written, retry_write}
use mstone.Transfer.Writes.{Putting, retry_write-Putting, Sending}
use mstone.Smtp.SendFile.{
  Part, whole, cut, broken_part, after_part, written_part, send_part, Chunk, ReadEnd, end_of_file,
  read_error, Reading, msg_trailer, file_sent, next_part, after_file, send_chunks, send_file,
}

-- A front of the text has followed on the wire.
record IsFront (text wire out : Bytes) : Type 0 where
  sent : Bytes
  left : Bytes
  splits : text ≡ sent ++ left
  out_is : out ≡ wire ++ sent

-- How a loop that writes the text ends, in time.
abbrev PartOf : Bytes → Bytes → Part → Type 0
PartOf text wire (whole out) = out ≡ wire ++ text
PartOf text wire (cut out) = true ≡ false
PartOf text wire (broken_part out) = IsFront text wire out

abbrev Parting : Bytes → Bytes → Option Part → Type 0
Parting text wire none = Unit {0}
Parting text wire (some p) = PartOf text wire p

IsFront-append :
    (front text wire out : Bytes)
    → IsFront text (wire ++ front) out
    → IsFront (front ++ text) wire out
IsFront-append front text wire out h = record {
  sent = front ++ h.sent;
  left = h.left;
  splits = rw (append_assoc front h.sent h.left) (ap (◌++◌ front) h.splits);
  out_is = h.out_is ∙ append_assoc wire front h.sent;
}

Parting-append :
    (front text wire : Bytes) (o : Option Part)
    → Parting text (wire ++ front) o
    → Parting (front ++ text) wire o
Parting-append front text wire none h = tt
Parting-append front text wire (some (whole out)) h = h ∙ append_assoc wire front text
Parting-append front text wire (some (cut out)) h = h
Parting-append front text wire (some (broken_part out)) h = IsFront-append front text wire out h

module _ (buf wire : Bytes) (onward : ℕ → Bytes → Option Part)
    (go : (sent left : Bytes)
      → buf ≡ sent ++ left
      → Parting left (wire ++ sent) (onward (length sent) (wire ++ sent))) where
  after_part-Parting :
      (ret : ℤ) (sent left : Bytes)
      → buf ≡ sent ++ left
      → (ret ≡ pos (0 + length sent)) ⊎ ((ret ≡ negsuc 0) × (0 + length sent ≡ 0))
      → Parting buf wire (after_part false (wire ++ sent) onward ret)
  unfolding after_part
  after_part-Parting (negsuc n) sent left splits r = record {
    sent = sent;
    left = left;
    splits = splits;
    out_is = refl;
  }
  after_part-Parting (pos n) sent left splits r =
      let same : length sent ≡ n = ground (arith, r) in
      subst (λ b. Parting b wire (onward n (wire ++ sent))) (sym splits)
        (Parting-append sent left wire (onward n (wire ++ sent)) (
          subst (λ k. Parting left (wire ++ sent) (onward k (wire ++ sent))) same
            (go sent left splits)))

  written_part-Parting :
      (expired : Bool) (o : Option Written)
      → expired ≡ false
      → Putting buf 0 [] o
      → Parting buf wire (written_part expired wire onward o)
  unfolding written_part
  written_part-Parting expired none in_time h = tt
  written_part-Parting expired (some w) in_time h =
      rw in_time (rw h.wire_is (after_part-Parting w.ret h.sent h.left h.splits h.ret_is))

send_part-Parting :
    (rs : List Round) (buf wire : Bytes) → InTime rs → Parting buf wire (send_part rs buf wire)
unfolding send_part
send_part-Parting [] [] wire h = sym (append-nil wire)
send_part-Parting [] (x ∷ buf) wire h =
    if_cases (Parting (x ∷ buf) wire) (length (x ∷ buf) == 0) (λ e. absurd (ground (arith, e)))
      (λ waits. tt)
send_part-Parting (r ∷ rs) [] wire h = sym (append-nil wire)
send_part-Parting (r ∷ rs) (x ∷ buf) wire h =
    if_cases (Parting (x ∷ buf) wire) (length (x ∷ buf) == 0) (λ e. absurd (ground (arith, e)))
      (λ waits.
        written_part-Parting (x ∷ buf) wire (λ n wire'. send_part rs (drop n (x ∷ buf)) wire')
          (λ sent left splits.
            subst (λ b. Parting left (wire ++ sent) (send_part rs b (wire ++ sent)))
              (sym (ap (drop (length sent)) splits ∙ drop-append sent left))
              (send_part-Parting rs left (wire ++ sent) h.1))
          r.expired (retry_write r.turns (x ∷ buf) 0 []) h.0
          (retry_write-Putting r.turns (x ∷ buf) 0 []))

-- What the reads of the file have given.
abbrev pub contents : List Chunk → Bytes
contents [] = []
contents (c ∷ cs) = c.bytes ++ contents cs

-- The tests of the rounds that write the file never find the time expired.
abbrev pub FileInTime : List Chunk → Type 0
FileInTime [] = Unit {0}
FileInTime (c ∷ cs) = InTime c.rounds × FileInTime cs

next_part-Parting :
    (front text wire : Bytes) (onward : Bytes → Option Part) (o : Option Part)
    → Parting front wire o
    → Parting text (wire ++ front) (onward (wire ++ front))
    → Parting (front ++ text) wire (next_part onward o)
unfolding next_part
next_part-Parting front text wire onward none h go = tt
next_part-Parting front text wire onward (some (whole out)) h go =
    rw h (Parting-append front text wire (onward (wire ++ front)) go)
next_part-Parting front text wire onward (some (cut out)) h go = h
next_part-Parting front text wire onward (some (broken_part out)) h go = record {
  sent = h.sent;
  left = h.left ++ text;
  splits = ap (λ s. s ++ text) h.splits ∙ append_assoc h.sent h.left text;
  out_is = h.out_is;
}

after_file-Parting :
    (ends : ReadEnd) (trailer : List Round) (wire : Bytes)
    → InTime trailer
    → Parting msg_trailer wire (after_file ends trailer wire)
unfolding after_file
after_file-Parting end_of_file trailer wire t = send_part-Parting trailer msg_trailer wire t
after_file-Parting read_error trailer wire t = send_part-Parting trailer msg_trailer wire t

send_chunks-Parting :
    (cs : List Chunk) (ends : ReadEnd) (trailer : List Round) (wire : Bytes)
    → FileInTime cs
    → InTime trailer
    → Parting (contents cs ++ msg_trailer) wire (send_chunks cs ends trailer wire)
unfolding send_chunks
send_chunks-Parting [] ends trailer wire h t = after_file-Parting ends trailer wire t
send_chunks-Parting (c ∷ cs) ends trailer wire h t =
    rw (append_assoc c.bytes (contents cs) msg_trailer) (
      next_part-Parting c.bytes (contents cs ++ msg_trailer) wire
        (λ wire'. send_chunks cs ends trailer wire') (send_part c.rounds c.bytes wire)
        (send_part-Parting c.rounds c.bytes wire h.0)
        (send_chunks-Parting cs ends trailer (wire ++ c.bytes) h.1 t))

file_sent-Sending :
    (text : Bytes) (o : Option Part)
    → Parting text [] o
    → Sending text 0 [] (Option.map file_sent o)
unfolding file_sent
file_sent-Sending text none h = tt
file_sent-Sending text (some (whole out)) h = record {
  sent = text;
  left = [];
  splits = sym (append-nil text);
  wire_is = h;
  ret_is = inl (ap pos (omega (arith, ap length h)), refl);
}
file_sent-Sending text (some (cut out)) h = absurd (cc)
file_sent-Sending text (some (broken_part out)) h = record {
  sent = h.sent;
  left = h.left;
  splits = h.splits;
  wire_is = h.out_is;
  ret_is = inr refl;
}

-- For a file that is opened and read from its offset, as long as no time expires, and wherever the
-- network cuts the writes: what sendFile puts on the wire is a front of the bytes that the reads
-- have given, until one finds the end of the file or fails, with the trailer CR LF "." CR LF behind
-- them, and all of it if it does not return -1; then it returns the number of these bytes.
pub send_file-Sending :
    (file : Reading) (trailer : List Round)
    → FileInTime file.chunks
    → InTime trailer
    → Sending (contents file.chunks ++ msg_trailer) 0 [] (send_file (some file) trailer)
unfolding send_file
send_file-Sending file trailer h t =
    file_sent-Sending (contents file.chunks ++ msg_trailer)
      (send_chunks file.chunks file.ends trailer [])
      (send_chunks-Parting file.chunks file.ends trailer [] h t)
