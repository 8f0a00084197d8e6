-- ===== src/Transfer/Output.antt =====
-- `sendOutput` puts a status message on the descriptor in full, or reports an error.
use mathlib.Core.List.{append_assoc, append-nil}
use mstone.Base.{
  ℕ, suc, ◌≡◌, refl, ap, ◌∙◌, ◌⊎◌, inl, inr, false, ◌==◌, List, [], ◌∷◌, ◌++◌, Option, none, some,
  arith, if◌then◌else◌, length, take, drop, take-append-drop, pos, negsuc, Bytes, subst,
}
use mstone.Transfer.{Reply, moved, interrupted, again, broken, stale, Written}

-- The reply to the `write` of `sendOutput`: any error but `EINTR` ends it with -1.
pub output_reply : Reply → Bytes → Bytes → Option Written → (ℕ → Option Written) → Option Written
output_reply (moved n) string wire retry onward = onward n
output_reply interrupted string wire retry onward = retry
output_reply again string wire retry onward = some (record { ret = negsuc 0; wire = wire })
output_reply broken string wire retry onward = some (record { ret = negsuc 0; wire = wire })
output_reply stale string wire retry onward = retry

-- `sendOutput`, one reply for each pass; `sentbytes` is the number of bytes on the wire.
pub send_output : List Reply → Bytes → Bytes → Option Written
send_output [] string wire =
    if length string == 0 then some (record { ret = pos (length wire); wire = wire }) else none
send_output (r ∷ rs) string wire =
    let written =
      output_reply r string wire (send_output rs string wire)
        λ n. send_output rs (drop n string) (wire ++ take n string) in
    if length string == 0 then some (record { ret = pos (length wire); wire = wire }) else written

-- The message that was to be written is `wire ++ string`: all of it is out, and its length is
-- returned; or -1 is returned, and some front of it is out.
pub record Outputs (message : Bytes) (w : Written) : Type 0 where
  pub left : Bytes
  pub splits : message ≡ w.wire ++ left
  pub ret_is : ((w.ret ≡ pos (length message)) × (left ≡ [])) ⊎ (w.ret ≡ negsuc 0)

abbrev pub Outputting : Bytes → Option Written → Type 0
Outputting message none = Unit {0}
Outputting message (some w) = Outputs message w

output_reply-Outputting :
    (r : Reply) (string wire : Bytes) (retry : Option Written) (onward : ℕ → Option Written)
    → Outputting (wire ++ string) retry
    → ((n : ℕ) → Outputting (wire ++ string) (onward n))
    → Outputting (wire ++ string) (output_reply r string wire retry onward)
unfolding output_reply
output_reply-Outputting (moved n) string wire retry onward h g = g n
output_reply-Outputting interrupted string wire retry onward h g = h
output_reply-Outputting again string wire retry onward h g = record {
  left = string;
  splits = refl;
  ret_is = inr refl;
}
output_reply-Outputting broken string wire retry onward h g = record {
  left = string;
  splits = refl;
  ret_is = inr refl;
}
output_reply-Outputting stale string wire retry onward h g = h

Outputting-done :
    (wire : Bytes)
    → Outputting (wire ++ []) (some (record { ret = pos (length wire); wire = wire }))
Outputting-done wire = record {
  left = [];
  splits = refl;
  ret_is = inl (rw (append-nil wire), refl);
}

send_output-Outputting :
    (rs : List Reply) (string wire : Bytes)
    → Outputting (wire ++ string) (send_output rs string wire)
unfolding send_output
send_output-Outputting [] [] wire = Outputting-done wire
send_output-Outputting [] (c ∷ string) wire = ground arith
send_output-Outputting (r ∷ rs) [] wire = Outputting-done wire
send_output-Outputting (r ∷ rs) (c ∷ string) wire =
    let more : (suc (length string) == 0) ≡ false = ground arith in
    rw more (
      output_reply-Outputting r (c ∷ string) wire (send_output rs (c ∷ string) wire) _
        (send_output-Outputting rs (c ∷ string) wire)
        λ n.
          subst
            (λ message.
              Outputting message
                (send_output rs (drop n (c ∷ string)) (wire ++ take n (c ∷ string))))
            (append_assoc wire (take n (c ∷ string)) (drop n (c ∷ string))
              ∙ ap (◌++◌ wire) (take-append-drop n (c ∷ string)))
            (send_output-Outputting rs (drop n (c ∷ string)) (wire ++ take n (c ∷ string))))

-- Whatever the replies of `write` are, when `sendOutput` returns it has written the whole message
-- and returns its length, or returns -1 with some front of the message written.
pub send_output_all :
    (rs : List Reply) (message : Bytes) → Outputting message (send_output rs message [])
send_output_all rs message = send_output-Outputting rs message []
