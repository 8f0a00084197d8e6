-- ===== src/Transfer/Message/Buffer.antt =====
-- The scratch buffer of `retrMsg`, its tests and its shuffle.
use mathlib.Core.List.{append_assoc}
use mstone.Base.{
  ◌-◌, ◌<◌, ◌≡◌, refl, sym, ap, inl, inr, true, false, [], ◌++◌, arith, ltb, if◌then◌else◌, length,
  length-append, take, drop, length-drop, take-append-drop, Bool-cases, Bytes, codes, contains,
  contains_window, starts_with, c_string-NoNul, NoNul,
}
use mstone.Transfer.Message.{IsWindow, Verdict, complete, refused, more, judge, terminator}

abbrev pub Judged : Bytes → Verdict → Type 0
Judged buffer complete = contains terminator buffer ≡ true
Judged buffer refused = contains terminator buffer ≡ false
Judged buffer (more kept) =
    (contains terminator buffer ≡ false)
    × ((gone : Bytes) × (buffer ≡ gone ++ kept) × IsWindow gone kept)

pub kept_lem :
    (buffer : Bytes)
    → let kept = if ltb 5 (length buffer) then drop (length buffer - 5) buffer else buffer in
      (gone : Bytes) × (buffer ≡ gone ++ kept) × IsWindow gone kept
kept_lem buffer = elim (Bool-cases (ltb 5 (length buffer))) [
  | inl long ↦ rw long (
    take (length buffer - 5) buffer,
    sym (take-append-drop (length buffer - 5) buffer),
    inr (ground (arith, length-drop (length buffer - 5) buffer)),
  )
  | inr short ↦ rw short ([], refl, inl (refl, ground arith))
]

pub judge-Judged : (buffer : Bytes) → NoNul buffer → Judged buffer (judge buffer)
unfolding judge
judge-Judged buffer h =
    rw (c_string-NoNul buffer h) (elim (Bool-cases (contains terminator buffer)) [
      | inl there ↦ rw there there
      | inr missing ↦ rw missing (elim (Bool-cases (starts_with (codes "-ERR") buffer)) [
        | inl refusal ↦ rw refusal missing
        | inr plain ↦ rw plain (missing, kept_lem buffer)
      ])
    ])

-- Searching the window and the new bytes is as good as searching all that was read.
pub window_enough :
    (gone window bs : Bytes)
    → IsWindow gone window
    → contains terminator (gone ++ window) ≡ false
    → contains terminator ((gone ++ window) ++ bs) ≡ contains terminator (window ++ bs)
window_enough gone window bs (inl (start, short)) missing = rw start
window_enough gone window bs (inr full) missing =
    rw (append_assoc gone window bs)
      (contains_window terminator gone window bs (omega arith) missing)

-- The bytes that were given up grow with the window.
pub IsWindow-append :
    (gone window bs gone' kept : Bytes)
    → 0 < length bs
    → IsWindow gone window
    → window ++ bs ≡ gone' ++ kept
    → IsWindow gone' kept
    → IsWindow (gone ++ gone') kept
IsWindow-append gone window bs gone' kept new w e (inr full) = inr full
IsWindow-append gone window bs gone' kept new (inl (start, short)) e (inl (start', short')) =
    inl (rw (start, start'), short')
IsWindow-append gone window bs gone' kept new (inr full) e (inl (start', short')) = absurd (
    omega (arith, length-append window bs, ap length e, length-append gone' kept, ap length start'))
