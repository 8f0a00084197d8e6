-- ===== src/Buffer/Discard.antt =====
-- src/sb.c, `sb_discard`: what it takes off the stream.
use mathlib.Core.List.{append_assoc, append-nil}
use mstone.Base.{
  ℕ, ◌+◌, ◌-◌, ◌≤◌, ◌<◌, ◌≡◌, refl, sym, ap, ◌∙◌, ◌⊎◌, inl, inr, true, if_cases, ltb, List, [], ◌∷◌,
  ◌++◌, Option, none, some, pos, negsuc, Bytes, length, take, drop, length-append, length-drop,
  take-append-drop, c_string, c_string-NoNul, NoNul, NoNul-left, NoNul-right, arith, subst,
}
use mstone.Transfer.{Turn}
use mstone.Buffer.{
  SocketBuffer, Served, refill, consume, find, Search, done, short, searched, search, go_on,
  refilled, resume_discard, sb_discard,
}
use mstone.Buffer.Refill.{content, Refills, refill-Refills, taken_lem, drop_all, taken_all}
use mstone.Buffer.Missed.{
  Missed, Missed-further, Missed-nearer, Missed-append, Missed-front, Missed-short, Found,
  find-Found,
}

-- What `sb_discard` leaves of `t`: it returns 0 and has taken what stands before the first
-- occurrence of the delimiter, and the delimiter; or it returns -1, the stream is at its end, and
-- all data was taken, in which the delimiter starts nowhere.
abbrev pub Discards : Bytes → Bytes → Option Served → Type 0
Discards pat t none = Unit {0}
Discards pat t (some r) =
    (gone : Bytes) × (t ≡ gone ++ content r.sb r.unread)
    × (((r.ret ≡ pos 0)
          × ((before : Bytes) × (gone ≡ before ++ pat)
              × Missed pat before (pat ++ content r.sb r.unread)))
        ⊎ ((r.ret ≡ negsuc 0) × (r.sb.eof ≡ true) × (r.sb.buf ≡ []) × Missed pat gone []))

Discards-append :
    (pat front t : Bytes) (o : Option Served)
    → Missed pat front t
    → Discards pat t o
    → Discards pat (front ++ t) o
Discards-append pat front t none m h = tt
Discards-append pat front t (some r) m (gone, f, inl (ret, (before, e, k))) =
    let rest = content r.sb r.unread in
    let splits : t ≡ before ++ (pat ++ rest) =
      f ∙ ap (λ l. l ++ rest) e ∙ append_assoc before pat rest in
    (
      front ++ gone,
      ap (◌++◌ front) f ∙ sym (append_assoc front gone rest),
      inl (
        ret,
        (
          front ++ before,
          ap (◌++◌ front) e ∙ sym (append_assoc front before pat),
          Missed-append pat front before (pat ++ rest) (subst (Missed pat front) splits m) k,
        ),
      ),
    )
Discards-append pat front t (some r) m (gone, f, inr (ret, eof, all, k)) =
    let rest = content r.sb r.unread in
    (
      front ++ gone,
      ap (◌++◌ front) f ∙ sym (append_assoc front gone rest),
      inr (
        ret,
        eof,
        all,
        Missed-append pat front gone []
            (subst (Missed pat front) (sym (append-nil gone))
              (Missed-nearer pat front gone rest (subst (Missed pat front) f m)))
            k,
      ),
    )

-- The end of a search: the first occurrence of the delimiter is consumed, or the data is cut down
-- to a part that is shorter than the delimiter, and it starts nowhere before.
abbrev Searched : Bytes → Bytes → Bytes → Search → Type 0
Searched pat t s (done sb) =
    (before : Bytes) × (t ≡ (before ++ pat) ++ content sb s)
    × Missed pat before (pat ++ content sb s)
Searched pat t s (short sb) =
    (gone : Bytes) × (t ≡ gone ++ content sb s)
    × Missed pat gone (content sb s)
    × (length sb.buf < length pat)

-- What is kept has all bytes but one of a delimiter that starts in it.
kept_Searched :
    (sb : SocketBuffer) (pat s : Bytes)
    → length pat ≤ length sb.buf
    → Missed pat sb.buf []
    → 0 < length pat
    → Searched pat (content sb s) s (searched sb pat none)
unfolding searched consume
kept_Searched sb pat s le m p =
    let k = length sb.buf - (length pat - 1) in
    let kept = drop k sb.buf in
    (
      take k sb.buf,
      taken_lem sb s k,
      Missed-further pat (take k sb.buf) kept s (omega (arith, length-drop k sb.buf, le, p)) (
          subst (Missed pat (take k sb.buf)) (append-nil kept) (
            Missed-front pat (take k sb.buf) kept []
              (subst (λ l. Missed pat l []) (sym (take-append-drop k sb.buf)) m))),
      omega (arith, length-drop k sb.buf, le, p),
    )

searched-Searched :
    (sb : SocketBuffer) (pat s : Bytes) (o : Option ℕ)
    → length pat ≤ length sb.buf
    → Found pat sb.buf o
    → Searched pat (content sb s) s (searched sb pat o)
unfolding searched consume
searched-Searched sb pat s none le (m, p) = kept_Searched sb pat s le m p
searched-Searched sb pat s (some n) le (before, f, m) =
    let rest = drop (n + length pat) sb.buf in
    (
      before,
      ap (λ l. l ++ s) f ∙ append_assoc (before ++ pat) rest s,
      subst (Missed pat before) (append_assoc pat rest s)
          (Missed-further pat before (pat ++ rest) s (omega (arith, length-append pat rest)) m),
    )

search-Searched :
    (sb : SocketBuffer) (pat s : Bytes)
    → NoNul (content sb s)
    → Searched pat (content sb s) s (search sb pat)
unfolding search
search-Searched sb pat s nonul =
    if_cases (Searched pat (content sb s) s) (ltb (length sb.buf) (length pat))
      (λ h. ([], refl, tt, ground (arith, h)))
      λ h. searched-Searched sb pat s (find pat (c_string sb.buf)) (ground (arith, h)) (
        subst (λ l. Found pat l (find pat (c_string sb.buf)))
          (c_string-NoNul sb.buf (NoNul-left sb.buf s nonul)) (find-Found pat (c_string sb.buf)))

refilled-Discards :
    (pat : Bytes) (sb : SocketBuffer) (s : Bytes) (o : Option Served)
    (onward : SocketBuffer → Bytes → Option Served)
    → length sb.buf < length pat
    → NoNul (content sb s)
    → Refills sb s o
    → ((sb' : SocketBuffer) (s' : Bytes)
        → NoNul (content sb' s')
        → Discards pat (content sb' s') (onward sb' s'))
    → Discards pat (content sb s) (refilled onward o)
unfolding refilled go_on consume
refilled-Discards pat sb s none onward few nonul h k = tt
refilled-Discards pat sb s (some r) onward few nonul (same, inl (i, ret)) k =
    rw (sym same) (rw ret (k r.sb r.unread (subst NoNul (sym same) nonul)))
refilled-Discards pat sb s (some r) onward few nonul (same, inr (i, ret, eof, still)) k = rw ret (
  r.sb.buf,
  sym same ∙ taken_all r.sb r.unread,
  inr (
    refl,
    eof,
    drop_all r.sb.buf,
    Missed-short pat r.sb.buf (subst (λ l. length l < length pat) (sym still) few),
  ),
)

discard-Discards :
    (x : Search) (pat t s : Bytes) (read : SocketBuffer → Option Served)
    → NoNul t
    → Searched pat t s x
    → ((sb : SocketBuffer)
        → length sb.buf < length pat
        → NoNul (content sb s)
        → Discards pat (content sb s) (read sb))
    → Discards pat t (resume_discard x s read)
unfolding resume_discard
discard-Discards (done sb) pat t s read nonul (before, e, m) k =
    (before ++ pat, e, inl (refl, (before, refl, m)))
discard-Discards (short sb) pat t s read nonul (gone, e, m, few) k = rw e (
    Discards-append pat gone (content sb s) (read sb) m
      (k sb few (NoNul-right gone (content sb s) (subst NoNul e nonul))))

-- Whatever the network does with a stream without NUL bytes, a call of `sb_discard` that returns 0
-- has taken what stands before the first occurrence of the delimiter in it, and the delimiter, first
-- from the buffer, and nothing behind, wherever the reads cut it; and one that returns -1 has
-- reached the end of the stream and left no data, and the delimiter starts nowhere in what it took.
pub sb_discard-Discards :
    (rounds : List (List Turn)) (sb : SocketBuffer) (pat s : Bytes)
    → NoNul (content sb s)
    → Discards pat (content sb s) (sb_discard rounds sb pat s)
unfolding sb_discard
sb_discard-Discards [] sb pat s nonul =
    discard-Discards (search sb pat) pat (content sb s) s (λ sb'. none) nonul
      (search-Searched sb pat s nonul) λ sb' few n. tt
sb_discard-Discards (turns ∷ rounds) sb pat s nonul =
    discard-Discards (search sb pat) pat (content sb s) s
      (λ sb'. refilled (λ sb'' s'. sb_discard rounds sb'' pat s') (refill turns sb' s)) nonul
      (search-Searched sb pat s nonul)
      λ sb' few n.
        refilled-Discards pat sb' s (refill turns sb' s) (λ sb'' s'. sb_discard rounds sb'' pat s')
          few n (refill-Refills turns sb' s) λ sb'' s' n'. sb_discard-Discards rounds sb'' pat s' n'
