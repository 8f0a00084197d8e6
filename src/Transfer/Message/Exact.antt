-- ===== src/Transfer/Message/Exact.antt =====
-- `retrMsg` stops at the read that completes the terminator.
use mathlib.Core.List.{append_assoc, append-nil}
use mstone.Base.{
  ℕ, ◌+◌, ◌-◌, ◌<◌, ◌≡◌, refl, sym, ap, ◌∙◌, ◌⊎◌, inl, inr, false, List, [], ◌∷◌, ◌++◌, Option,
  none, some, arith, length, length-append, negsuc, Bytes, contains, starts_with, NoNul, NoNul-left,
  NoNul-right,
}
use mstone.Transfer.Reads.{Reads, retry_read-Reads}
use mstone.Transfer.{Round, ReadResult, got, failed, retry_read, InTime}
use mstone.Transfer.Message.{
  IsWindow, Completes, Ends, Ending, Retrieved, Verdict, complete, refused, more, judge, conclude,
  after_read, retrieve, retr_msg, terminator, garbage_size,
}
use mstone.Transfer.Message.Buffer.{Judged, judge-Judged, window_enough, IsWindow-append}

-- One more read in front of an ending.
outcome_cons :
    (read bs taken : Bytes) (r : Retrieved)
    → ((r.ret ≡ negsuc 0) × (contains terminator ((read ++ bs) ++ taken) ≡ false))
      ⊎ Completes (read ++ bs) taken r
    → ((r.ret ≡ negsuc 0) × (contains terminator (read ++ (bs ++ taken)) ≡ false))
      ⊎ Completes read (bs ++ taken) r
outcome_cons read bs taken r (inl (ret, missing)) =
    inl (ret, rw (← append_assoc read bs taken) missing)
outcome_cons read bs taken r (inr c) = inr (record {
  returned = c.returned;
  before = bs ++ c.before;
  last = c.last;
  ret_is = c.ret_is;
  splits = rw (append_assoc bs c.before c.last) (ap (◌++◌ bs) c.splits);
  not_before = rw (← append_assoc read bs c.before) c.not_before;
  then_there =
      rw (append_assoc bs c.before c.last, ← append_assoc read bs (c.before ++ c.last))
        c.then_there;
})

Ending-cons :
    (read bs s : Bytes) (bytesread : ℕ) (o : Option Retrieved)
    → Ending (read ++ bs) s (bytesread + length bs) o
    → Ending read (bs ++ s) bytesread o
Ending-cons read bs s bytesread none e = tt
Ending-cons read bs s bytesread (some r) e = record {
  taken = bs ++ e.taken;
  stream = rw (append_assoc bs e.taken r.unread) (ap (◌++◌ bs) e.stream);
  counted = omega (arith, e.counted, length-append bs e.taken);
  outcome = outcome_cons read bs e.taken r e.outcome;
}

fails_here :
    (read s : Bytes) (bytesread : ℕ)
    → contains terminator read ≡ false
    → Ends read s bytesread (record { ret = negsuc 0; bytesread = bytesread; unread = s })
fails_here read s bytesread missing = record {
  taken = [];
  stream = refl;
  counted = omega arith;
  outcome = inl (refl, rw (append-nil read) missing);
}

-- What the code does after `retrieve` has gone on.
abbrev Continues : (Bytes → Bytes → ℕ → Option Retrieved) → Type 0
Continues onward =
    (gone kept s : Bytes) (bytesread : ℕ)
    → IsWindow gone kept
    → contains terminator (gone ++ kept) ≡ false
    → NoNul (kept ++ s)
    → Ending (gone ++ kept) s bytesread (onward kept s bytesread)

module _ (onward : Bytes → Bytes → ℕ → Option Retrieved) (keep : Continues onward) where
  -- The buffer holds the window and the new bytes `bs`.
  conclude-Ending :
      (v : Verdict) (gone window bs s : Bytes) (total bytesread : ℕ)
      → 0 < length bs
      → IsWindow gone window
      → contains terminator (gone ++ window) ≡ false
      → contains terminator ((gone ++ window) ++ bs) ≡ contains terminator (window ++ bs)
      → NoNul ((window ++ bs) ++ s)
      → Judged (window ++ bs) v
      → Ending
          (gone ++ window)
          (bs ++ s)
          bytesread
          (conclude v s total (bytesread + length bs) onward)
  unfolding conclude
  conclude-Ending complete gone window bs s total bytesread new w missing same nonul j = record {
    taken = bs;
    stream = refl;
    counted = refl;
    outcome = inr (record {
      returned = total;
      before = [];
      last = bs;
      ret_is = refl;
      splits = refl;
      not_before = rw (append-nil (gone ++ window)) missing;
      then_there = same ∙ j;
    });
  }
  conclude-Ending refused gone window bs s total bytesread new w missing same nonul j = record {
    taken = bs;
    stream = refl;
    counted = refl;
    outcome = inl (refl, same ∙ j);
  }
  conclude-Ending (more kept) gone window bs s total bytesread new w missing same nonul j =
      let (gone', splits, w') = j.1 in
      let regrouped : (gone ++ window) ++ bs ≡ (gone ++ gone') ++ kept =
        append_assoc gone window bs ∙ ap (◌++◌ gone) splits ∙ sym (append_assoc gone gone' kept) in
      let rest : NoNul (kept ++ s) =
        NoNul-right gone' (kept ++ s) (rw (sym (append_assoc gone' kept s)) (rw splits at nonul)) in
      Ending-cons (gone ++ window) bs s bytesread (onward kept s (bytesread + length bs)) (
        rw regrouped (
          keep (gone ++ gone') kept s (bytesread + length bs)
            (IsWindow-append gone window bs gone' kept new w splits w')
            (rw (sym regrouped) (same ∙ j.0)) rest))

  after_read-Ending :
      (x : Option (ReadResult × Bytes)) (gone window s : Bytes) (count bytesread : ℕ)
      → IsWindow gone window
      → contains terminator (gone ++ window) ≡ false
      → NoNul (window ++ s)
      → Reads count s x
      → Ending (gone ++ window) s bytesread (after_read window bytesread onward x)
  unfolding after_read
  after_read-Ending none gone window s count bytesread w missing nonul reads = tt
  after_read-Ending (some (failed, s')) gone window s count bytesread w missing nonul reads =
      rw (sym reads) (fails_here (gone ++ window) s' bytesread missing)
  after_read-Ending (some (got [], s')) gone window s count bytesread w missing nonul reads =
      rw reads.0 (fails_here (gone ++ window) s' bytesread missing)
  after_read-Ending (some (got (b ∷ bs), s')) gone window s count bytesread w missing nonul reads =
      let buffer = window ++ (b ∷ bs) in
      let nonul' : NoNul (buffer ++ s') =
        rw (append_assoc window (b ∷ bs) s') (rw reads.0 at nonul) in
      rw reads.0 (
        conclude-Ending (judge buffer) gone window (b ∷ bs) s' (length buffer) bytesread
          (omega arith) w missing (window_enough gone window (b ∷ bs) w missing) nonul'
          (judge-Judged buffer (NoNul-left buffer s' nonul')))

retrieve-Ending :
    (rounds : List Round) (gone window s : Bytes) (bytesread : ℕ)
    → InTime rounds
    → IsWindow gone window
    → contains terminator (gone ++ window) ≡ false
    → NoNul (window ++ s)
    → Ending (gone ++ window) s bytesread (retrieve window rounds s bytesread)
unfolding retrieve
retrieve-Ending [] gone window s bytesread t w missing nonul = tt
retrieve-Ending (r ∷ rs) gone window s bytesread t w missing nonul =
    let count = garbage_size - length window in
    rw t.0 (
      after_read-Ending (λ kept s' n. retrieve kept rs s' n)
        (λ gone' kept s' n w' missing' nonul'.
          retrieve-Ending rs gone' kept s' n t.1 w' missing' nonul')
        (retry_read count r.turns s) gone window s count bytesread w missing nonul
        (retry_read-Reads count r.turns s))

-- `retrMsg`, wherever the network cuts a stream with no NUL byte and as long as the time does not
-- expire: what it takes off the stream is counted in `bytesread` and the rest is untouched; it
-- succeeds only at the first read by which the terminator has been received in full, and when it
-- fails the terminator has not been received.
pub retr_msg-Ending :
    (rounds : List Round) (s : Bytes) → InTime rounds → NoNul s → Ending [] s 0 (retr_msg rounds s)
unfolding contains starts_with
retr_msg-Ending rounds s t nonul =
    retrieve-Ending rounds [] [] s 0 t (inl (refl, omega arith)) refl nonul
