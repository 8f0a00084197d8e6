-- ===== src/Multipop/Commands.antt =====
-- src/multipop.c: the commands of a check, from mpop_login to mpop_quit.
use mstone.Base.{
  ℕ, ◌+◌, Bool, true, false, List, [], ◌∷◌, ◌++◌, Option, none, some, if◌then◌else◌, ℤ, pos, negsuc,
  is_negative, lt_int, codes, c_string,
}
use mstone.Pish.{cmd, login, msgread, logout, Reply, timed, spoken}
use mstone.Pop3.Stat.{Matches, no_match, end_of_input, one, two, scan_stat, decimal}
use mstone.Multipop.Multiline.{Fetched, multiline}
use mstone.Multipop.{
  resplen, Verb, user, pass, uidl, retr, dele, quit, User, Session, Fetch, Visit, blamed, cmd_resp,
}

-- what PASS left
unfoldable pub pass_answered : Visit → Option (Reply Verb (List User)) → Option (Bool × Session)
unfolding timed blamed
pass_answered v none = none
pass_answered v (some r) =
    some
      (r.ok, timed login v.pass_call.expired (if r.ok then r.session else blamed login r.session))

-- What USER left. On an error `n` is the value of the comparison, 1: no error is counted, and the
-- value returned is that of a success.
unfoldable pub user_answered :
    Visit → User → Option (Reply Verb (List User)) → Option (Bool × Session)
unfolding pass_answered cmd_resp timed
user_answered v u none = none
user_answered v u (some r) =
    if r.ok
    then pass_answered v
        (cmd_resp v.pass_call pass (codes "PASS " ++ (u.passwd ++ codes "\r\n")) resplen r.session)
    else some (true, timed login v.user_call.expired r.session)

-- `mpop_login`, and whether it returns 0 or more
unfoldable pub mpop_login : Visit → User → Session → Option (Bool × Session)
unfolding user_answered cmd_resp
mpop_login v u w =
    user_answered v u
      (cmd_resp v.user_call user (codes "USER " ++ (u.login ++ codes "\r\n")) resplen w)

-- `msgs`, which is -1 at first
pub msgs_of : Matches → ℤ
msgs_of no_match = negsuc 0
msgs_of end_of_input = negsuc 0
msgs_of (one n) = n
msgs_of (two n size) = n

-- `mpop_stat`: the number of messages, and what follows it
unfoldable pub stat_answered :
    Visit
    → (ℤ → Session → Option (User × Session))
    → Option (Reply Verb (List User))
    → Option (User × Session)
unfolding timed blamed msgs_of
stat_answered v onward none = none
stat_answered v onward (some r) =
    let w = timed cmd v.stat_call.expired r.session in
    let msgs = if r.ok then msgs_of (scan_stat (c_string r.response)) else negsuc 0 in
    onward msgs (if is_negative msgs then blamed cmd w else w)

-- what DELE left
unfoldable pub deleted :
    Fetch
    → User
    → (User → Session → Option (User × Session))
    → Option (Reply Verb (List User))
    → Option (User × Session)
unfolding timed blamed
deleted f u onward none = none
deleted f u onward (some r) =
    let w = timed cmd f.dele_call.expired r.session in
    if r.ok then onward u w else some (u, blamed cmd w)

-- behind RETR: `mpop_dele`, or `old_msgs++`
unfoldable pub disposed :
    Fetch
    → User
    → ℕ
    → (User → Session → Option (User × Session))
    → Session
    → Option (User × Session)
unfolding deleted cmd_resp
disposed f u msgnum onward w =
    if u.leave_on_server
    then onward (record u { old_msgs = u.old_msgs + 1 }) w
    else deleted f u onward (
        cmd_resp f.dele_call (dele msgnum) (codes "DELE " ++ (decimal msgnum ++ codes "\r\n"))
          resplen w)

-- `mpop_retr`
unfoldable pub retrieved :
    Fetch
    → User
    → ℕ
    → (User → Session → Option (User × Session))
    → Session
    → Option Fetched
    → Option (User × Session)
unfolding timed blamed disposed spoken
retrieved f u msgnum onward w none = none
retrieved f u msgnum onward w (some x) =
    let w' = timed msgread f.retr_call.expired (spoken (retr msgnum) x.wire x.unread w) in
    if is_negative x.ret then some (u, blamed msgread w') else disposed f u msgnum onward w'

-- `for (i = mp->old_msgs; i < new_msgs; i++)`; the user comes back with the messages counted
unfoldable pub fetch_new : List Fetch → ℕ → ℤ → User → Session → Option (User × Session)
unfolding retrieved
fetch_new [] i new_msgs u w = if lt_int (pos i) new_msgs then none else some (u, w)
fetch_new (f ∷ fs) i new_msgs u w =
    let more =
      retrieved f u (i + 1) (λ u' w'. fetch_new fs (i + 1) new_msgs u' w') w
        (multiline f.retr_call (codes "RETR " ++ (decimal (i + 1) ++ codes "\r\n")) w.incoming) in
    if lt_int (pos i) new_msgs then more else some (u, w)

-- what `mpop_uidl` left
unfoldable pub listed :
    Visit → Session → Option Fetched → (Session → Option (User × Session)) → Option (User × Session)
unfolding timed blamed spoken
listed v w none onward = none
listed v w (some x) onward =
    let w' = timed cmd v.uidl_call.expired (spoken uidl x.wire x.unread w) in
    onward (if is_negative x.ret then blamed cmd w' else w')

-- `mpop_quit`, with `sample (dropRate)` as a flag
unfoldable pub quitted : Visit → Option (Reply Verb (List User)) → Option Session
unfolding timed blamed
quitted v none = none
quitted v (some r) =
    let w = timed logout v.quit_call.expired (record r.session { sock = false }) in
    some (if r.ok then w else blamed logout w)

unfoldable pub mpop_quit : Visit → Session → Option Session
unfolding quitted cmd_resp timed
mpop_quit v w =
    if v.drops
    then some (timed logout v.quit_call.expired (record w { sock = false }))
    else quitted v (cmd_resp v.quit_call quit (codes "QUIT\r\n") resplen w)
