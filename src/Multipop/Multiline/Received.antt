-- ===== src/Multipop/Multiline/Received.antt =====
-- src/multipop.c: what mpop_multiline_cmd has read when it returns.
use mathlib.Core.List.{append_assoc}
use mstone.Base.{
  ℕ, ◌+◌, ◌-◌, ◌≤◌, ◌≡◌, refl, sym, ap, ◌∙◌, subst, Bool, true, false, ◌&&◌, not, ◌==◌, ==_iff,
  List, [], ◌∷◌, ◌++◌, Option, none, some, arith, ltb, if_cases, length, length-append, length-drop,
  take, take-append-drop, ℤ, pos, negsuc, is_negative, Bytes, codes, starts_with, starts_with_mono,
}
use mstone.Transfer.{Round, ReadResult, got, failed, retry_read, Written, send_command}
use mstone.Transfer.Reads.{Reads, retry_read-Reads}
use mstone.Pish.{Call}
use mstone.Multipop.Multiline.{
  Lines, Fetched, last5, eom, after_more, more, judged, after_first, read_text, lines_read,
  command_sent, multiline,
}

-- With `s` to come, so many bytes have been taken off the stream: they start with "+" and end with
-- a line that holds only a dot.
pub record Received (s unread : Bytes) (n : ℕ) : Type 0 where
  pub front : Bytes
  pub splits : s ≡ (front ++ eom) ++ unread
  pub counts : n ≡ length (front ++ eom)
  pub begins : starts_with (codes "+") (front ++ eom) ≡ true

-- An error is the only other end.
abbrev pub Receives : Bytes → ℤ → Bytes → Type 0
Receives s (pos n) unread = Received s unread n
Receives s (negsuc k) unread = Unit {0}

abbrev Reading : Bytes → Option Lines → Type 0
Reading s none = Unit {0}
Reading s (some l) = Receives s l.ret l.unread

abbrev pub Receiving : Bytes → Option Fetched → Type 0
Receiving s none = Unit {0}
Receiving s (some x) = Receives s x.ret x.unread

true_both : (a b : Bool) → (a && b) ≡ true → (a ≡ true) × (b ≡ true)
true_both true b h = (refl, h)
true_both false b h = absurd (cc)

full_match : (p s : Bytes) → length s ≡ length p → starts_with p s ≡ true → s ≡ p
unfolding starts_with
full_match [] [] h e = refl
full_match [] (c ∷ s) h e = absurd (omega (arith, h))
full_match (x ∷ p) [] h e = absurd (omega (arith, h))
full_match (x ∷ p) (c ∷ s) h e =
    let both = true_both (x == c) (starts_with p s) e in
    let same : x ≡ c = (==_iff x c).0 both.0 in
    ap (λ (y : ℕ). y ∷ s) (sym same) ∙ ap (◌∷◌ x) (full_match p s (omega (arith, h)) both.1)

last5-splits : (s : Bytes) → take (length s - 5) s ++ last5 s ≡ s
unfolding last5
last5-splits s = take-append-drop (length s - 5) s

length-last5 : (s : Bytes) → 5 ≤ length s → length (last5 s) ≡ 5
unfolding last5
length-last5 s h = omega (arith, h, length-drop (length s - 5) s)

-- What has been read, up to the last 5 bytes and with them.
record Sofar (s0 front window : Bytes) (nread : ℕ) (s : Bytes) : Type 0 where
  splits : s0 ≡ (front ++ window) ++ s
  size : length window ≡ 5
  counts : nread ≡ length (front ++ window)
  begins : starts_with (codes "+") (front ++ window) ≡ true

Sofar-next :
    (s0 front window : Bytes) (n : ℕ) (s bs s' : Bytes)
    → Sofar s0 front window n s
    → s ≡ bs ++ s'
    → Sofar s0
        (front ++ take (length (window ++ bs) - 5) (window ++ bs))
        (last5 (window ++ bs))
        (n + length bs)
        s'
Sofar-next s0 front window n s bs s' h e =
    let text = window ++ bs in
    let whole : (front ++ take (length text - 5) text) ++ last5 text ≡ (front ++ window) ++ bs =
      append_assoc front (take (length text - 5) text) (last5 text)
      ∙ ap (◌++◌ front) (last5-splits text)
      ∙ sym (append_assoc front window bs) in
    record {
      splits =
          h.splits
          ∙ ap (◌++◌ (front ++ window)) e
          ∙ sym (append_assoc (front ++ window) bs s')
          ∙ ap (λ t. t ++ s') (sym whole);
      size = length-last5 text (omega (arith, h.size, length-append window bs));
      counts = omega (arith, h.counts, length-append (front ++ window) bs, ap length whole);
      begins =
          ap (starts_with (codes "+")) whole
          ∙ starts_with_mono (codes "+") (front ++ window) bs h.begins;
    }

Sofar-Received :
    (s0 front window : Bytes) (n : ℕ) (s : Bytes)
    → Sofar s0 front window n s
    → starts_with eom window ≡ true
    → Received s0 s n
Sofar-Received s0 front window n s h e =
    let same : window ≡ eom = full_match eom window (omega (arith, h.size)) e in
    record {
      front = front;
      splits = h.splits ∙ ap (λ t. (front ++ t) ++ s) same;
      counts = h.counts ∙ ap (λ t. length (front ++ t)) same;
      begins = ap (λ t. starts_with (codes "+") (front ++ t)) (sym same) ∙ h.begins;
    }

after_more-Reading :
    (onward : Bytes → ℕ → Bytes → Option Lines) (s0 front window : Bytes) (n : ℕ) (s : Bytes)
    (o : Option (ReadResult × Bytes))
    → Sofar s0 front window n s
    → Reads 4091 s o
    → ((front' window' : Bytes) (n' : ℕ) (s' : Bytes)
        → Sofar s0 front' window' n' s'
        → Reading s0 (onward window' n' s'))
    → Reading s0 (after_more onward window n o)
unfolding after_more
after_more-Reading onward s0 front window n s none h r go = tt
after_more-Reading onward s0 front window n s (some (failed, s')) h r go = tt
after_more-Reading onward s0 front window n s (some (got bs, s')) h r go =
    go (front ++ take (length (window ++ bs) - 5) (window ++ bs)) (last5 (window ++ bs))
      (n + length bs) s' (Sofar-next s0 front window n s bs s' h r.0)

more-Reading :
    (rs : List Round) (s0 front window : Bytes) (n : ℕ) (s : Bytes)
    → Sofar s0 front window n s
    → Reading s0 (more rs window n s)
unfolding more
more-Reading [] s0 front window n s h =
    if_cases (Reading s0) (starts_with eom window) (λ end. Sofar-Received s0 front window n s h end)
      (λ waits. tt)
more-Reading (r ∷ rs) s0 front window n s h =
    if_cases (Reading s0) (starts_with eom window) (λ end. Sofar-Received s0 front window n s h end)
      (λ waits.
        after_more-Reading (λ window' n' s'. more rs window' n' s') s0 front window n s
          (retry_read 4091 r.turns s) h (retry_read-Reads 4091 r.turns s)
          (λ front' window' n' s' h'. more-Reading rs s0 front' window' n' s' h'))

first_Sofar :
    (s0 bs s : Bytes)
    → s0 ≡ bs ++ s
    → 5 ≤ length bs
    → starts_with (codes "+") bs ≡ true
    → Sofar s0 (take (length bs - 5) bs) (last5 bs) (length bs) s
first_Sofar s0 bs s e long plus = record {
  splits = e ∙ ap (λ t. t ++ s) (sym (last5-splits bs));
  size = length-last5 bs long;
  counts = ap length (sym (last5-splits bs));
  begins = ap (starts_with (codes "+")) (last5-splits bs) ∙ plus;
}

judged-Reading : (rs : List Round) (s0 bs s : Bytes) → s0 ≡ bs ++ s → Reading s0 (judged rs bs s)
unfolding judged
judged-Reading rs s0 bs s e =
    if_cases (Reading s0) (not (starts_with (codes "+") bs)) (λ bad. tt)
      (λ plus.
        if_cases (Reading s0) (ltb (length bs) 5) (λ short. tt)
          (λ long.
            more-Reading rs s0 (take (length bs - 5) bs) (last5 bs) (length bs) s
              (first_Sofar s0 bs s e (ground (arith, long)) (ground (arith, plus)))))

after_first-Reading :
    (again : Bytes → Option Lines) (rs : List Round) (s : Bytes) (o : Option (ReadResult × Bytes))
    → Reads 4096 s o
    → ((s' : Bytes) → s ≡ s' → Reading s (again s'))
    → Reading s (after_first again rs o)
unfolding after_first
after_first-Reading again rs s none r go = tt
after_first-Reading again rs s (some (failed, s')) r go = tt
after_first-Reading again rs s (some (got [], s')) r go = go s' r.0
after_first-Reading again rs s (some (got (c ∷ cs), s')) r go = judged-Reading rs s (c ∷ cs) s' r.0

read_text-Reading : (rs : List Round) (s : Bytes) → Reading s (read_text rs s)
unfolding read_text
read_text-Reading [] s = tt
read_text-Reading (r ∷ rs) s =
    after_first-Reading (λ s'. read_text rs s') rs s (retry_read 4096 r.turns s)
      (retry_read-Reads 4096 r.turns s)
      (λ s' e. subst (λ t. Reading t (read_text rs s')) (sym e) (read_text-Reading rs s'))

lines_read-Receiving :
    (s wire : Bytes) (o : Option Lines) → Reading s o → Receiving s (lines_read wire o)
unfolding lines_read
lines_read-Receiving s wire none h = tt
lines_read-Receiving s wire (some l) h = h

negative_Receives : (s unread : Bytes) → Receives s (negsuc 0) unread
negative_Receives s unread = tt

command_sent-Receiving :
    (c : Call) (s : Bytes) (o : Option Written) → Receiving s (command_sent c s o)
unfolding command_sent
command_sent-Receiving c s none = tt
command_sent-Receiving c s (some w) =
    if_cases (Receiving s) (is_negative w.ret) (λ bad. negative_Receives s s)
      (λ ok. lines_read-Receiving s w.wire (read_text c.reads s) (read_text-Reading c.reads s))

-- Whatever the network and the clock do, and wherever the stream is cut: when mpop_multiline_cmd
-- returns a number of bytes, it has taken exactly that many off the stream, and they start with "+"
-- and end with CR LF "." CR LF.
pub multiline-Receiving : (c : Call) (command s : Bytes) → Receiving s (multiline c command s)
unfolding multiline
multiline-Receiving c command s = command_sent-Receiving c s (send_command c.writes command 0 [])
