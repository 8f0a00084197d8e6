-- ===== src/Multipop/Check.antt =====
-- src/multipop.c: MPopCheck, MPopCheckStart and MPopCheckEnd.
pub mod Memory
pub mod Safe
mod Examples
use mstone.Base.{
  ℕ, zero, suc, ◌+◌, ◌-◌, ◌*◌, Bool, true, false, ◌&&◌, not, List, [], ◌∷◌, ◌++◌, Option, none,
  some, ltb, ◌==◌, if◌then◌else◌, length, take, drop, ℤ, pos, negsuc, is_positive, is_negative,
  lt_int, Bytes, codes, starts_with, c_string, u64,
}
use mstone.Range.{Range, next}
use mstone.Transfer.{Round, Written, send_command}
use mstone.Transfer.Line.{Response, read_response}
use mstone.Transfer.Command.{Answer, do_command_response}
use mstone.Client.{Protocol}
use mstone.Pish.{
  Call, Tally, Timed, connect, banner, cmd, login, msgread, logout, Conversation, Reply, adjust,
  timed, counted, spoken, freed,
}
use mstone.Pop3.Stat.{Matches, no_match, end_of_input, one, two, scan_stat, decimal}
use mstone.Multipop.Multiline.{Fetched, multiline}
use mstone.Multipop.{
  resplen, Verb, user, pass, stat, uidl, retr, dele, quit, User, Session, Config, Fetch, Visit,
  blamed, is_ok, cut_at, answered, cmd_resp,
}
use mstone.Multipop.Commands.{
  pass_answered, user_answered, mpop_login, msgs_of, stat_answered, deleted, disposed, retrieved,
  fetch_new, listed, quitted, mpop_quit,
}

-- behind STAT: UIDL if messages are left on the server, and the new messages
pub counted_new : Visit → User → ℤ → Session → Option (User × Session)
unfolding listed fetch_new
counted_new v u new_msgs w =
    if is_negative new_msgs
    then some (u, w)
    else if lt_int (pos 0) new_msgs && u.leave_on_server
    then listed v w (multiline v.uidl_call (codes "UIDL\r\n") w.incoming)
        (λ w'. fetch_new v.messages u.old_msgs new_msgs u w')
    else fetch_new v.messages u.old_msgs new_msgs u w

-- behind `mpop_login`
pub entered : Visit → User → Option (Bool × Session) → Option (User × Session)
unfolding stat_answered cmd_resp counted_new
entered v u none = none
entered v u (some (false, w)) = some (u, w)
entered v u (some (true, w)) =
    stat_answered v (counted_new v u) (cmd_resp v.stat_call stat (codes "STAT\r\n") 511 w)

-- `checkdone`
pub check_done : Visit → Option (User × Session) → Option (User × Session)
check_done v none = none
check_done v (some (u, w)) = elim (mpop_quit v w) [ none ↦ none | some w' ↦ some (u, w') ]

-- what `mpop_connect` got as a banner; after an error the connection stays open
pub banner_read : Visit → User → Session → Option Response → Option (User × Session)
unfolding timed counted check_done entered mpop_login
banner_read v u w none = none
banner_read v u w (some r) =
    let w' = timed banner v.greeting.expired (record w { incoming = r.unread }) in
    if is_positive r.ret
    then check_done v (entered v u (mpop_login v u w'))
    else some (u, counted banner v.greeting.expired w')

-- `mpop_connect` and the check of a user
pub check_user : Visit → User → Session → Option Bytes → Option (User × Session)
unfolding banner_read timed counted
check_user v u w none = some (
  u,
  counted connect v.connecting.expired
      (timed connect v.connecting.expired (record w { sock = false })),
)
check_user v u w (some stream) =
    banner_read v u
      (timed connect v.connecting.expired (record w { sock = true; incoming = stream }))
      (read_response v.greeting.reads resplen [] stream)

pub with_user : User → Option (List User × Session) → Option (List User × Session)
with_user u none = none
with_user u (some (us, w)) = some (u ∷ us, w)

-- the rest of the list, behind a user
pub after_user :
    (Session → Option (List User × Session))
    → Option (User × Session)
    → Option (List User × Session)
unfolding with_user
after_user onward none = none
after_user onward (some (u, w)) = with_user u (onward w)

-- the loop of `MPopCheck`, with a script for each user
pub check_users : List User → List Visit → Session → Option (List User × Session)
unfolding after_user check_user
check_users [] vs w = some ([], w)
check_users (u ∷ us) [] w = none
check_users (u ∷ us) (v ∷ vs) w =
    after_user (λ w'. check_users us vs w') (check_user v u w v.connection)

-- `MPopCheck`
pub checked : Option (List User × Session) → Option Session
checked none = none
checked (some (us, w)) = some (record w { me = some us })

pub check_list : List Visit → Session → Option (List User) → Option Session
unfolding checked check_users
check_list vs w none = some (record w { fault = true })
check_list vs w (some us) = checked (check_users us vs w)

pub check : List Visit → Session → Option Session
unfolding check_list
check vs w = check_list vs w w.me

-- What the environment adds to a call: the script for each user, and the random numbers for the
-- identities.
pub record Env : Type 0 where
  pub visits : List Visit
  pub randoms : List (ℕ × ℕ)

-- a new user; `snprintf` cuts what is longer than the memory
pub new_user : Config → ℕ → ℕ → User
new_user c domain login_num = record {
  login = take c.login_size (c.login_format login_num domain);
  passwd = take c.passwd_size (c.passwd_format login_num);
  old_msgs = 0;
  leave_on_server = c.leave_mail_on_server;
}

pub with_login :
    Config
    → ℕ
    → (User → Session → Option (List User × Session))
    → Session
    → Option ℕ
    → Option (List User × Session)
unfolding new_user
with_login c domain onward w none = none
with_login c domain onward w (some login_num) =
    onward (new_user c domain login_num) (record w { last_login = login_num })

pub with_domain :
    Config
    → ℕ
    → (User → Session → Option (List User × Session))
    → Session
    → Option ℕ
    → Option (List User × Session)
unfolding with_login
with_domain c random onward w none = none
with_domain c random onward w (some domain) =
    with_login c domain onward (record w { last_domain = domain })
      (next c.login_range w.last_login random)

-- `for (i = 0; i < users; i++)`: each new user goes to the front of the list
pub identities : Config → ℕ → List (ℕ × ℕ) → List User → Session → Option (List User × Session)
unfolding with_domain
identities c zero rs mp w = some (mp, w)
identities c (suc users) [] mp w = none
identities c (suc users) ((d, r) ∷ rs) mp w =
    with_domain c r (λ u w'. identities c users rs (u ∷ mp) w') w
      (next c.domain_range w.last_domain d)

pub started : Option Session → Option (Bool × Session)
started none = none
started (some w) = some (true, w)

-- the first check, if there is a user
pub begun : Env → Option (List User × Session) → Option (Bool × Session)
unfolding started check
begun e none = none
begun e (some ([], w)) = some (false, w)
begun e (some (u ∷ us, w)) = started (check e.visits (record w { me = some (u ∷ us) }))

-- `MPopCheckStart`
pub start : Config → Env → Session → Option (Bool × Session)
unfolding begun identities
start c e w = begun e (
    identities c (c.active (u64 ((c.login_range.span + 1) * (c.domain_range.span + 1)))) e.randoms
      [] (record w { wire = []; said = [] }))

-- `MPopCheck` as `cmdLoop`
pub loop : Env → Session → Option (Bool × Session)
unfolding started check
loop e w = started (check e.visits w)

pub all_freed : Option Session → Option Session
unfolding freed
all_freed none = none
all_freed (some w) = some (freed w.me w)

-- `MPopCheckEnd`
pub end : Env → Session → Option Session
unfolding all_freed check
end e w = all_freed (check e.visits w)

-- `MPopRegister`
abbrev pub multipop : Config → Protocol Env Session
multipop c = record { cmd_start = start c; cmd_loop = some loop; cmd_end = some end }
