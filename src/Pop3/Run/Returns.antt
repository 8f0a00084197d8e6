-- ===== src/Pop3/Run/Returns.antt =====
-- src/pop3.c: the calls of the protocol come back when the time runs out.
use mstone.Base.{
  ℕ, ◌+◌, ◌≡◌, subst, Bool, true, not, ◌||◌, ◌==◌, [], Option, none, some, IsSome, if_cases, pos,
  is_positive, is_negative, lt_int, Bytes, c_string,
}
use mstone.Range.{Range, next}
use mstone.Range.Next.{IsValid, Lands, next-Lands}
use mstone.Transfer.{Written, send_command}
use mstone.Transfer.Line.{Response, read_response}
use mstone.Transfer.Command.{Answer, do_command_response}
use mstone.Transfer.Message.{Retrieved, retr_msg}
use mstone.Transfer.Expiry.{
  RunsOut, send_command-IsSome, read_response-IsSome, do_command_response-IsSome, retrieve-IsSome,
}
use mstone.Client.Returns.{Responds}
use mstone.Pish.{
  max_response_len, Call, Timed, banner, cmd, login, msgread, Reply, timed, abandon, spoken,
  after_reply,
}
use mstone.Pop3.{Env, Mailbox, Verb, user, pass, stat, retr, dele, quit, Session, Config, line}
use mstone.Pop3.Stat.{Matches, no_match, end_of_input, one, two, scan_stat}
use mstone.Pop3.Run.{
  judge_answer, command_response, exchange, stored, empty_mailbox, stat_mailbox, pop_login,
  draw_login, draw_domain, greeted, connected, start, delete, retrieved, sent, fetch, next_message,
  loop, quitted, end, pop3,
}

-- The rounds of a call find sooner or later that the time has expired, in its writes and its reads.
abbrev pub CallRunsOut : Call → Type 0
CallRunsOut c = RunsOut c.writes × RunsOut c.reads

-- So do those of every exchange of a call of the protocol.
pub record EnvRunsOut (e : Env) : Type 0 where
  pub greeting : RunsOut e.greeting.reads
  pub first : CallRunsOut e.first
  pub second : CallRunsOut e.second
  pub third : CallRunsOut e.third

-- The calls draw from ranges that have been set.
pub record HasRanges (c : Config) : Type 0 where
  pub domains : IsValid c.domain_range
  pub logins : IsValid c.login_range

Lands-IsSome : (r : Range) (o : Option ℕ) → Lands r o → IsSome o
Lands-IsSome r none h = absurd h
Lands-IsSome r (some n) h = tt

next-IsSome : (r : Range) (prev random : ℕ) → IsValid r → IsSome (next r prev random)
next-IsSome r prev random v = Lands-IsSome r (next r prev random) (next-Lands r prev random v)

abandon-IsSome : (t : Timed) (x : ℕ) (w : Session) → IsSome (abandon t x w)
unfolding abandon
abandon-IsSome t x w = tt

judge_answer-IsSome :
    (v : Verb) (w : Session) (o : Option Answer) → IsSome o → IsSome (judge_answer v w o)
unfolding judge_answer
judge_answer-IsSome v w none h = h
judge_answer-IsSome v w (some a) h = tt

command_response-IsSome :
    (k : Call) (v : Verb) (command : Bytes) (w : Session)
    → CallRunsOut k
    → IsSome (command_response k v command w)
unfolding command_response
command_response-IsSome k v command w (h, g) =
    judge_answer-IsSome v w
      (do_command_response k.writes k.reads command max_response_len w.incoming)
      (do_command_response-IsSome k.writes k.reads command max_response_len w.incoming h g)

after_reply-IsSome :
    (k : Call) (t blame : Timed) (onward : Bytes → Session → Option (Bool × Session))
    (o : Option (Reply Verb Mailbox))
    → IsSome o
    → ((r : Bytes) (w : Session) → IsSome (onward r w))
    → IsSome (after_reply k t blame onward o)
unfolding after_reply
after_reply-IsSome k t blame onward none h go = h
after_reply-IsSome k t blame onward (some r) h go =
    let w = timed t k.expired r.session in
    if_cases IsSome r.ok (λ ok. go r.response w) (λ bad. abandon-IsSome blame k.expired w)

exchange-IsSome :
    (k : Call) (t blame : Timed) (v : Verb) (command : Bytes)
    (onward : Bytes → Session → Option (Bool × Session)) (w : Session)
    → CallRunsOut k
    → ((r : Bytes) (w' : Session) → IsSome (onward r w'))
    → IsSome (exchange k t blame v command onward w)
unfolding exchange
exchange-IsSome k t blame v command onward w h go =
    after_reply-IsSome k t blame onward (command_response k v command w)
      (command_response-IsSome k v command w h) go

stored-IsSome : (k : Call) (x : Matches) (w : Session) (m : Mailbox) → IsSome (stored k x w m)
unfolding stored
stored-IsSome k no_match w m = abandon-IsSome cmd k.expired w
stored-IsSome k end_of_input w m = tt
stored-IsSome k (one n) w m = tt
stored-IsSome k (two n t) w m = tt

quitted-IsSome : (k : Call) (o : Option (Reply Verb Mailbox)) → IsSome o → IsSome (quitted k o)
unfolding quitted
quitted-IsSome k none h = h
quitted-IsSome k (some r) h = tt

module _ (c : Config) (e : Env) (g : EnvRunsOut e) where
  pop_login-IsSome :
      (domain_num login_num : ℕ) (w : Session) → IsSome (pop_login c e domain_num login_num w)
  unfolding pop_login stat_mailbox
  pop_login-IsSome d n w =
      exchange-IsSome e.first cmd login user (line c d n user) _ w g.first (λ _ w1.
        exchange-IsSome e.second login login pass (line c d n pass) _ w1 g.second (λ _ w2.
          exchange-IsSome e.third cmd cmd stat (line c d n stat) _ w2 g.third
            (λ r w3. stored-IsSome e.third (scan_stat (c_string r)) w3 empty_mailbox)))

  draw_login-IsSome :
      (d : ℕ) (w : Session) (o : Option ℕ) → IsSome o → IsSome (draw_login c e d w o)
  unfolding draw_login
  draw_login-IsSome d w none h = h
  draw_login-IsSome d w (some n) h = pop_login-IsSome d n (record w { last_login = n })

  draw_domain-IsSome :
      HasRanges c → (w : Session) (o : Option ℕ) → IsSome o → IsSome (draw_domain c e w o)
  unfolding draw_domain
  draw_domain-IsSome v w none h = h
  draw_domain-IsSome v w (some d) h =
      draw_login-IsSome d (record w { last_domain = d })
        (next c.login_range w.last_login e.random_login)
        (next-IsSome c.login_range w.last_login e.random_login v.logins)

  greeted-IsSome :
      HasRanges c → (w : Session) (o : Option Response) → IsSome o → IsSome (greeted c e w o)
  unfolding greeted
  greeted-IsSome v w none h = h
  greeted-IsSome v w (some r) h =
      let w' = timed banner e.greeting.expired (record w { incoming = r.unread }) in
      if_cases IsSome (is_positive r.ret)
        (λ ok.
          draw_domain-IsSome v w' (next c.domain_range w'.last_domain e.random_domain)
            (next-IsSome c.domain_range w'.last_domain e.random_domain v.domains))
        (λ bad. abandon-IsSome banner e.greeting.expired w')

  connected-IsSome : HasRanges c → (w : Session) (o : Option Bytes) → IsSome (connected c e w o)
  unfolding connected
  connected-IsSome v w none = tt
  connected-IsSome v w (some s) =
      greeted-IsSome v (record w { sock = true; incoming = s })
        (read_response e.greeting.reads max_response_len [] s)
        (read_response-IsSome e.greeting.reads max_response_len [] s g.greeting)

  start-IsSome : HasRanges c → (w : Session) → IsSome (start c e w)
  unfolding start
  start-IsSome v w = connected-IsSome v _ e.connection

  delete-IsSome : (n : ℕ) (w : Session) → IsSome (delete c e n w)
  unfolding delete
  delete-IsSome n w =
      if_cases IsSome (not c.leave_mail_on_server || e.leave_sample == 0)
        (λ gone.
          exchange-IsSome e.second cmd cmd (dele n) (line c 0 0 (dele n)) (λ _ w'. some (true, w'))
            w g.second (λ r w'. tt))
        (λ stays. tt)

  retrieved-IsSome :
      (n : ℕ) (w : Session) (o : Option Retrieved) → IsSome o → IsSome (retrieved c e n w o)
  unfolding retrieved
  retrieved-IsSome n w none h = h
  retrieved-IsSome n w (some r) h =
      let w' = timed msgread e.first.expired (record w { incoming = r.unread }) in
      if_cases IsSome (is_negative r.ret) (λ bad. abandon-IsSome msgread e.first.expired w')
        (λ ok. delete-IsSome n w')

  sent-IsSome : (n : ℕ) (w : Session) (o : Option Written) → IsSome o → IsSome (sent c e n w o)
  unfolding sent
  sent-IsSome n w none h = h
  sent-IsSome n w (some x) h =
      let w' = spoken (retr n) x.wire w.incoming w in
      if_cases IsSome (is_negative x.ret)
        (λ bad. abandon-IsSome msgread e.first.expired (timed msgread e.first.expired w'))
        (λ ok.
          retrieved-IsSome n w' (retr_msg e.first.reads w.incoming)
            (retrieve-IsSome [] e.first.reads w.incoming 0 g.first.1))

  next_message-IsSome : (w : Session) (o : Option Mailbox) → IsSome (next_message c e w o)
  unfolding next_message fetch
  next_message-IsSome w none = tt
  next_message-IsSome w (some m) =
      let n = m.msg_counter + 1 in
      if_cases IsSome (lt_int (pos m.msg_counter) m.num_msgs)
        (λ more.
          sent-IsSome n (record w { me = some (record m { msg_counter = n }) })
            (send_command e.first.writes (line c 0 0 (retr n)) 0 [])
            (send_command-IsSome e.first.writes (line c 0 0 (retr n)) 0 [] g.first.0))
        (λ done. tt)

  loop-IsSome : (w : Session) → IsSome (loop c e w)
  unfolding loop
  loop-IsSome w = next_message-IsSome w w.me

  end-IsSome : (w : Session) → IsSome (end c e w)
  unfolding end
  end-IsSome w =
      if_cases IsSome w.sock
        (λ up.
          quitted-IsSome e.first (command_response e.first quit (line c 0 0 quit) w)
            (command_response-IsSome e.first quit (line c 0 0 quit) w g.first))
        (λ down. tt)

same_loop :
    (c : Config) (f : Env → Session → Option (Bool × Session))
    → (pop3 c).cmd_loop ≡ some f
    → loop c ≡ f
same_loop c f e = cc

same_end : (c : Config) (f : Env → Session → Option Session) → (pop3 c).cmd_end ≡ some f → end c ≡ f
same_end c f e = cc

-- The calls of pop3 come back, in whatever state, when the time runs out in each of their exchanges.
pub pop3-Responds : (c : Config) → HasRanges c → Responds (pop3 c) EnvRunsOut
pop3-Responds c v = record {
  start = λ e g w. start-IsSome c e g v w;
  loop = λ f is e g w.
      subst (λ (f : Env → Session → Option (Bool × Session)). IsSome (f e w)) (same_loop c f is)
        (loop-IsSome c e g w);
  end = λ f is e g w.
      subst (λ (f : Env → Session → Option Session). IsSome (f e w)) (same_end c f is)
        (end-IsSome c e g w);
  has_end = λ e. absurd (cc);
}
