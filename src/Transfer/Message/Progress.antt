-- ===== src/Transfer/Message/Progress.antt =====
-- `retrMsg` gets every message that the network delivers.
use mathlib.Core.List.{append_assoc, append-nil}
use mstone.Base.{
  ℕ, zero, suc, ◌-◌, ◌≤◌, ◌<◌, ◌≡◌, refl, sym, ap, ◌∙◌, inl, inr, Bool, true, false, List, [], ◌∷◌,
  ◌++◌, Option, none, some, arith, length, take, drop, min, length-drop, take-append-drop,
  Bool-cases, ◌==◌, ◌||◌, not, pos, Bytes, codes, contains, starts_with, contains-append,
  contains_suffix, contains_prefix, c_string-NoNul, NoNul, NoNul-left, NoNul-right,
}
use mstone.Transfer.{Reply, moved, Turn, Round, ReadResult, got, retry_read, read_reply}
use mstone.Transfer.Message.{
  IsWindow, Retrieved, judge, conclude, after_read, retrieve, retr_msg, terminator, garbage_size,
}
use mstone.Transfer.Message.Buffer.{kept_lem, window_enough}

abbrev pub Moves : Reply → Type 0
Moves (moved (suc n)) = Unit {0}
Moves _ = ⊥

abbrev pub DeliversFirst : List Turn → Type 0
DeliversFirst [] = ⊥
DeliversFirst (t ∷ ts) = (t.expired ≡ false) × (t.ready ≡ true) × Moves t.reply

-- The first pass of the round's read finds bytes, and no time has expired.
abbrev pub Delivers : Round → Type 0
Delivers r = (r.expired ≡ false) × DeliversFirst r.turns

abbrev pub AllDeliver : List Round → Type 0
AllDeliver [] = Unit {0}
AllDeliver (r ∷ rs) = Delivers r × AllDeliver rs

read_reply-Moves :
    (reply : Reply) (ready_again : Bool) (count : ℕ) (s : Bytes)
    (retry : Option (ReadResult × Bytes))
    → 0 < count
    → Moves reply
    → (n : ℕ) × (0 < n)
      × (read_reply reply ready_again count s retry ≡ some (got (take n s), drop n s))
unfolding read_reply
read_reply-Moves (moved (suc n)) ready_again count s retry p m =
    (min (suc n) count, omega arith, refl)
read_reply-Moves (moved zero) ready_again count s retry p m = elim m [ ]
read_reply-Moves _ ready_again count s retry p m = elim m [ ]

retry_read_delivers :
    (count : ℕ) (ts : List Turn) (s : Bytes)
    → 0 < count
    → DeliversFirst ts
    → (n : ℕ) × (0 < n) × (retry_read count ts s ≡ some (got (take n s), drop n s))
unfolding retry_read
retry_read_delivers count [] s p d = elim d [ ]
retry_read_delivers count (t ∷ ts) s p d =
    let go : (count == 0 || (t.expired || not t.ready)) ≡ false = ground arith in
    rw go (read_reply-Moves t.reply t.ready_again count s (retry_read count ts s) p d.2)

-- The stream that is left holds the terminator and no "-ERR".
record Promising (window s : Bytes) : Type 0 where
  short : length window ≤ 5
  nonul : NoNul (window ++ s)
  missing : contains terminator window ≡ false
  coming : contains terminator (window ++ s) ≡ true
  clean : contains (codes "-ERR") (window ++ s) ≡ false

abbrev pub Succeeds : Option Retrieved → Type 0
Succeeds none = ⊥
Succeeds (some r) = (n : ℕ) × (r.ret ≡ pos n)

not_in_suffix : (pat s t : Bytes) → contains pat (s ++ t) ≡ false → contains pat t ≡ false
not_in_suffix pat s t h = ground (arith, contains_suffix pat s t)

kept-Promising :
    (gone kept s : Bytes)
    → IsWindow gone kept
    → NoNul ((gone ++ kept) ++ s)
    → contains terminator (gone ++ kept) ≡ false
    → contains terminator ((gone ++ kept) ++ s) ≡ true
    → contains (codes "-ERR") ((gone ++ kept) ++ s) ≡ false
    → Promising kept s
kept-Promising gone kept s w nonul missing coming clean = record {
  short = ground arith;
  nonul = NoNul-right gone (kept ++ s) (rw (sym (append_assoc gone kept s)) nonul);
  missing = not_in_suffix terminator gone kept missing;
  coming = sym (window_enough gone kept s w missing) ∙ coming;
  clean = not_in_suffix (codes "-ERR") gone (kept ++ s) (rw (sym (append_assoc gone kept s)) clean);
}

module _ (onward : Bytes → Bytes → ℕ → Option Retrieved) (s : Bytes)
    (keep : (kept : Bytes) (n : ℕ) → Promising kept s → Succeeds (onward kept s n)) where
  conclude-Succeeds :
      (buffer : Bytes) (total bytesread : ℕ)
      → NoNul (buffer ++ s)
      → contains terminator (buffer ++ s) ≡ true
      → contains (codes "-ERR") (buffer ++ s) ≡ false
      → Succeeds (conclude (judge buffer) s total bytesread onward)
  unfolding conclude judge
  conclude-Succeeds buffer total bytesread nonul coming clean =
      rw (c_string-NoNul buffer (NoNul-left buffer s nonul))
        (elim (Bool-cases (contains terminator buffer)) [
          | inl there ↦ rw there (total, refl)
          | inr missing ↦ rw missing (elim (Bool-cases (starts_with (codes "-ERR") buffer)) [
            | inl bad ↦ absurd (
                ground (
                  arith,
                  contains-append (codes "-ERR") buffer s
                      (contains_prefix (codes "-ERR") buffer bad),
                ))
            | inr plain ↦
                let (gone, splits, w) = kept_lem buffer in
                rw plain (
                  keep _ bytesread (
                    kept-Promising gone _ s w (rw (sym splits) nonul) (rw (sym splits) missing)
                      (rw (sym splits) coming) (rw (sym splits) clean)))
          ])
        ])

after_read-Succeeds :
    (onward : Bytes → Bytes → ℕ → Option Retrieved) (window : Bytes) (c : ℕ) (s : Bytes)
    (bytesread n : ℕ)
    → ((m : ℕ) (kept : Bytes) (k : ℕ)
        → Promising kept (drop m s)
        → Succeeds (onward kept (drop m s) k))
    → 0 < n
    → Promising window (c ∷ s)
    → Succeeds (after_read window bytesread onward (some (got (take n (c ∷ s)), drop n (c ∷ s))))
unfolding after_read
after_read-Succeeds onward window c s bytesread zero keep p h = absurd (omega arith)
after_read-Succeeds onward window c s bytesread (suc m) keep p h =
    let same : (window ++ (c ∷ take m s)) ++ drop m s ≡ window ++ (c ∷ s) =
      append_assoc window (c ∷ take m s) (drop m s)
      ∙ ap (λ (t : Bytes). window ++ (c ∷ t)) (take-append-drop m s) in
    conclude-Succeeds onward (drop m s) (keep m) (window ++ (c ∷ take m s)) _ _ (rw same h.nonul)
      (rw same h.coming) (rw same h.clean)

retrieve-Succeeds :
    (rounds : List Round) (window s : Bytes) (bytesread : ℕ)
    → AllDeliver rounds
    → length s < length rounds
    → Promising window s
    → Succeeds (retrieve window rounds s bytesread)
unfolding retrieve
retrieve-Succeeds [] window s bytesread d room h = absurd (omega arith)
retrieve-Succeeds (r ∷ rs) window [] bytesread d room h =
    absurd (ground (arith, append-nil window, h.missing, h.coming))
retrieve-Succeeds (r ∷ rs) window (c ∷ s) bytesread d room h =
    let count = garbage_size - length window in
    let (n, p, e) = retry_read_delivers count r.turns (c ∷ s) (omega (arith, h.short)) d.0.1 in
    rw (d.0.0, e)
      (after_read-Succeeds (λ kept s' k. retrieve kept rs s' k) window c s bytesread n
        (λ m kept k good.
          retrieve-Succeeds rs kept (drop m s) k d.1 (omega (arith, length-drop m s)) good)
        p h)

-- `retrMsg` gets the message: if the stream has no NUL byte, holds the terminator and nowhere
-- "-ERR", and every round finds at least one byte in time, then a round for each byte of the stream
-- and one more are enough for it to return with success, however few bytes the rounds find.
pub retr_msg-Succeeds :
    (rounds : List Round) (s : Bytes)
    → AllDeliver rounds
    → length s < length rounds
    → NoNul s
    → contains terminator s ≡ true
    → contains (codes "-ERR") s ≡ false
    → Succeeds (retr_msg rounds s)
unfolding contains
retr_msg-Succeeds rounds s d room nonul coming clean =
    retrieve-Succeeds rounds [] s 0 d room (record {
      short = omega arith;
      nonul = nonul;
      missing = refl;
      coming = coming;
      clean = clean;
    })
