-- ===== src/Smtp/Run/Opening.antt =====
-- src/smtp.c: `sendSMTPStart` opens a session or leaves nothing behind.
use mstone.Base.{
  ℕ, ◌≡◌, refl, sym, subst, Bool, true, false, not, List, [], ◌∷◌, ◌++◌, Option, none, some,
  if_cases, is_positive, is_negative, leb, ltb, Bytes, codes,
}
use mstone.Transfer.{Written, send_command}
use mstone.Transfer.Line.{Response, read_response}
use mstone.Timer.{exit_fast}
use mstone.Pish.{max_response_len, Call, Timed, connect, banner, cmd, timed, counted, free_me}
use mstone.Pish.Open.{
  IsOpen, timed-IsOpen, spoken-IsOpen, Heard, freed-IsShut, abandon-Yields, after_reply-Yields,
}
use mstone.Smtp.{
  hello, Session, Greeting, helo, ehlo, lhlo, Config, is_smtp_response, is_smtp_response_ok,
}
use mstone.Smtp.Hello.{Hello, read_hello}
use mstone.Smtp.Exchange.{Env, succeeded}
use mstone.Smtp.Login.{authenticate}
use mstone.Smtp.Run.{
  hello_answered, hello_sent, extended, greet, banner_line, read_banner, connected, start,
}
use mstone.Smtp.Run.Order.{
  Talks, opened, greeted, Says, nothing, says_hello, IsClosed, IsLive, Goes, exchange-Goes,
}
use mstone.Smtp.Run.Authentication.{authenticate-Goes}

-- A state, and no connection yet.
record IsFresh (w : Session) : Type 0 where
  me_is : w.me ≡ some tt
  sound : w.fault ≡ false
  said_is : w.said ≡ []
  sock_is : w.sock ≡ false

timed-IsFresh : (t : Timed) (x : ℕ) (w : Session) → IsFresh w → IsFresh (timed t x w)
unfolding timed
timed-IsFresh t x w h =
    if_cases IsFresh (leb exit_fast x) (λ e. h)
      (λ e. record { me_is = h.me_is; sound = h.sound; said_is = h.said_is; sock_is = h.sock_is })

counted-IsFresh : (t : Timed) (x : ℕ) (w : Session) → IsFresh w → IsFresh (counted t x w)
unfolding counted
counted-IsFresh t x w h =
    if_cases IsFresh (ltb x exit_fast)
      (λ e. record { me_is = h.me_is; sound = h.sound; said_is = h.said_is; sock_is = h.sock_is })
      (λ e. h)

module _ (c : Config) (e : Env) where
  hello_answered-Heard :
      (wire : Bytes) (w : Session) (o : Option Hello)
      → IsOpen [] tt w
      → Heard (hello ∷ []) tt (hello_answered wire w o)
  unfolding hello_answered
  hello_answered-Heard wire w none h = tt
  hello_answered-Heard wire w (some x) h = spoken-IsOpen hello wire x.unread [] tt w h

  hello_sent-Heard :
      (w : Session) (o : Option Written) → IsOpen [] tt w → Heard (hello ∷ []) tt (hello_sent e w o)
  unfolding hello_sent
  hello_sent-Heard w none h = tt
  hello_sent-Heard w (some x) h =
      if_cases (Heard (hello ∷ []) tt) (is_negative x.ret)
        (λ bad. spoken-IsOpen hello x.wire w.incoming [] tt w h)
        (λ ok. hello_answered-Heard x.wire w (read_hello e.hello_reads e.left_over w.incoming) h)

  extended-Goes : (command : Bytes) (w : Session) → IsOpen [] tt w → Goes (extended c e command w)
  unfolding extended
  extended-Goes command w h =
      let o = send_command e.greeting.writes command 0 [] in
      after_reply-Yields Talks IsClosed IsLive (λ w closed. closed) e.greeting cmd cmd
        (authenticate c.authentication c e) (hello_sent e w o) (hello ∷ []) tt
        (greeted, says_hello nothing) (hello_sent-Heard w o h)
        (λ r w' h'.
          authenticate-Goes c e c.authentication r (hello ∷ []) w' (says_hello nothing) h')

  greet-Goes : (g : Greeting) (w : Session) → IsOpen [] tt w → Goes (greet g c e w)
  unfolding greet
  greet-Goes helo w h =
      exchange-Goes e.greeting cmd cmd succeeded hello
        (codes "HELO " ++ (c.hostname ++ codes "\r\n")) (authenticate c.authentication c e) w []
        (greeted, says_hello nothing) h
        (λ r w' h'.
          authenticate-Goes c e c.authentication r (hello ∷ []) w' (says_hello nothing) h')
  greet-Goes ehlo w h = extended-Goes (codes "EHLO " ++ (c.hostname ++ codes "\r\n")) w h
  greet-Goes lhlo w h = extended-Goes (codes "LHLO " ++ (c.hostname ++ codes "\r\n")) w h

  banner_line-Goes :
      (again : Session → Option (Bool × Session)) (b : Call) (w : Session) (o : Option Response)
      → IsOpen [] tt w
      → ((w' : Session) → IsOpen [] tt w' → Goes (again w'))
      → Goes (banner_line again c e b w o)
  unfolding banner_line
  banner_line-Goes again b w none h go = tt
  banner_line-Goes again b w (some r) h go =
      let w0 : Session = record w { incoming = r.unread } in
      let h0 : IsOpen [] tt w0 = record {
        sock_is = h.sock_is;
        me_is = h.me_is;
        sound = h.sound;
        said_is = h.said_is;
      } in
      let w' = timed banner b.expired w0 in
      let h' = timed-IsOpen banner b.expired [] tt w0 h0 in
      let gone =
        abandon-Yields Talks IsClosed IsLive (λ w closed. closed) banner b.expired [] tt w' h'
          (opened, nothing) in
      if_cases Goes (not (is_positive r.ret)) (λ bad. gone)
        (λ ok.
          if_cases Goes (is_smtp_response r.buffer)
            (λ last.
              if_cases Goes (is_smtp_response_ok r.buffer) (λ good. greet-Goes c.greeting w' h')
                (λ bad. gone))
            (λ more. go w0 h0))

  read_banner-Goes : (bs : List Call) (w : Session) → IsOpen [] tt w → Goes (read_banner c e bs w)
  unfolding read_banner
  read_banner-Goes [] w h = tt
  read_banner-Goes (b ∷ bs) w h =
      banner_line-Goes (λ w'. read_banner c e bs w') b w
        (read_response b.reads max_response_len [] w.incoming) h
        (λ w' h'. read_banner-Goes bs w' h')

  connected-Goes : (w : Session) (o : Option Bytes) → IsFresh w → Goes (connected c e w o)
  unfolding connected free_me
  connected-Goes w none h =
      let w' = counted connect e.connecting.expired w in
      let h' = counted-IsFresh connect e.connecting.expired w h in
      freed-IsShut Talks w'.me tt w' h'.me_is h'.sock_is h'.sound
        (opened, subst (λ l. Says l opened) (sym h'.said_is) nothing)
  connected-Goes w (some stream) h =
      read_banner-Goes e.banners (record w { sock = true; incoming = stream })
        (record { sock_is = refl; me_is = h.me_is; sound = h.sound; said_is = h.said_is })

  pub start-Goes : (w : Session) → IsClosed w → Goes (start c e w)
  unfolding start
  start-Goes w h =
      let w0 : Session = record w { me = some tt; wire = []; said = []; sock = false } in
      connected-Goes (timed connect e.connecting.expired w0) e.connection (
        timed-IsFresh connect e.connecting.expired w0
          (record { me_is = refl; sound = h.sound; said_is = refl; sock_is = refl }))
