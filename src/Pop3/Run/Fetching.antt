-- ===== src/Pop3/Run/Fetching.antt =====
-- src/pop3.c: `doPop3Loop` and `doPop3End` keep the order of the session and its memory.
use mstone.Base.{
  ℕ, ◌+◌, ◌≡◌, refl, subst, ◌⊎◌, inl, inr, true, false, ◌||◌, not, List, [], ◌∷◌, Option, none,
  some, if◌then◌else◌, ◌==◌, if_cases, true_not_false, ℤ, pos, is_negative, lt_int,
}
use mstone.Transfer.{Written, send_command}
use mstone.Transfer.Message.{Retrieved, retr_msg}
use mstone.Client.Contract.{Yields, Leaves}
use mstone.Pish.{Call, cmd, msgread, logout, Reply, timed, counted, spoken}
use mstone.Pish.Open.{
  IsOpen, timed-IsOpen, counted-IsOpen, spoken-IsOpen, Heard, exit-IsShut, abandon-Yields,
}
use mstone.Pop3.{Env, Mailbox, Verb, retr, dele, quit, Session, Config, line}
use mstone.Pop3.Run.{
  command_response, next_message, delete, retrieved, sent, fetch, loop, quitted, end,
}
use mstone.Pop3.Run.Dialogue.{
  Talks, closed, mailbox, removed, Says, says_retr, says_dele, says_next, says_quit, says_leave,
  AtMailbox, IsClosed, IsLive, IsLeft, command_response-Heard, exchange-Yields,
}

module _ (c : Config) (e : Env) where
  delete-Yields :
      (n : ℕ) (l : List Verb) (m : Mailbox) (w : Session)
      → Says l (mailbox m.num_msgs n)
      → m.msg_counter ≡ n
      → IsOpen l m w
      → Yields IsLeft IsLive (delete c e n w)
  unfolding delete
  delete-Yields n l m w k i h =
      if_cases (Yields IsLeft IsLive) (not c.leave_mail_on_server || e.leave_sample == 0)
        (λ gone.
          exchange-Yields IsLeft IsLive (λ v closed. inr closed) e.second cmd cmd (dele n)
            (line c 0 0 (dele n)) (λ _ w'. some (true, w')) w l m
            (removed m.num_msgs n, says_dele m.num_msgs n k) h
            (λ r w' h'. record {
              l = dele n ∷ l;
              m = m;
              is_open = h';
              at = inr (rw i (says_dele m.num_msgs n k));
            }))
        (λ kept. record { l = l; m = m; is_open = h; at = inl (rw i k) })

  retrieved-Yields :
      (n : ℕ) (l : List Verb) (m : Mailbox) (w : Session) (o : Option Retrieved)
      → Says l (mailbox m.num_msgs n)
      → m.msg_counter ≡ n
      → IsOpen l m w
      → Yields IsLeft IsLive (retrieved c e n w o)
  unfolding retrieved
  retrieved-Yields n l m w none k i h = tt
  retrieved-Yields n l m w (some r) k i h =
      let w0 : Session = record w { incoming = r.unread } in
      let w' = timed msgread e.first.expired w0 in
      let h' =
        timed-IsOpen msgread e.first.expired l m w0
          (record { sock_is = h.sock_is; me_is = h.me_is; sound = h.sound; said_is = h.said_is }) in
      if_cases (Yields IsLeft IsLive) (is_negative r.ret)
        (λ bad.
          abandon-Yields Talks IsLeft IsLive (λ v closed. inr closed) msgread e.first.expired l m w'
            h' (mailbox m.num_msgs n, k))
        (λ ok. delete-Yields n l m w' k i h')

  sent-Yields :
      (n : ℕ) (l : List Verb) (m : Mailbox) (w : Session) (o : Option Written)
      → Says (retr n ∷ l) (mailbox m.num_msgs n)
      → m.msg_counter ≡ n
      → IsOpen l m w
      → Yields IsLeft IsLive (sent c e n w o)
  unfolding sent
  sent-Yields n l m w none k i h = tt
  sent-Yields n l m w (some x) k i h =
      let w' = spoken (retr n) x.wire w.incoming w in
      let h' = spoken-IsOpen (retr n) x.wire w.incoming l m w h in
      if_cases (Yields IsLeft IsLive) (is_negative x.ret)
        (λ bad.
          abandon-Yields Talks IsLeft IsLive (λ v closed. inr closed) msgread e.first.expired
            (retr n ∷ l) m (timed msgread e.first.expired w')
            (timed-IsOpen msgread e.first.expired (retr n ∷ l) m w' h') (mailbox m.num_msgs n, k))
        (λ ok. retrieved-Yields n (retr n ∷ l) m w' (retr_msg e.first.reads w.incoming) k i h')

  Says-fetch :
      (l : List Verb) (total : ℤ) (n : ℕ)
      → lt_int (pos n) total ≡ true
      → AtMailbox l total n
      → Says (retr (n + 1) ∷ l) (mailbox total (n + 1))
  Says-fetch l total n lt (inl k) = says_retr total n lt k
  Says-fetch l total n lt (inr k) = says_next total n lt k

  fetch-Yields :
      (w : Session) (l : List Verb) (m : Mailbox)
      → AtMailbox l m.num_msgs m.msg_counter
      → IsOpen l m w
      → Yields IsLeft IsLive
          (if lt_int (pos m.msg_counter) m.num_msgs then fetch c e m w else some (false, w))
  unfolding fetch
  fetch-Yields w l m k h =
      if_cases (Yields IsLeft IsLive) (lt_int (pos m.msg_counter) m.num_msgs)
        (λ lt.
          let n = m.msg_counter + 1 in
          let m' : Mailbox = record m { msg_counter = n } in
          sent-Yields n l m' (record w { me = some m' })
            (send_command e.first.writes (line c 0 0 (retr n)) 0 [])
            (Says-fetch l m.num_msgs m.msg_counter lt k) refl
            (record { sock_is = h.sock_is; me_is = refl; sound = h.sound; said_is = h.said_is }))
        (λ ge. inl (record { l = l; m = m; is_open = h; at = k }))

  next_message-Yields :
      (w : Session) (o : Option Mailbox) (l : List Verb) (m : Mailbox)
      → o ≡ some m
      → AtMailbox l m.num_msgs m.msg_counter
      → IsOpen l m w
      → Yields IsLeft IsLive (next_message c e w o)
  unfolding next_message
  next_message-Yields w none l m is k h = absurd (cc)
  next_message-Yields w (some m') l m is k h =
      let same : m ≡ m' = cc in
      fetch-Yields w l m' (subst (λ m. AtMailbox l m.num_msgs m.msg_counter) same k)
        (subst (λ m. IsOpen l m w) same h)

  pub loop-Yields : (w : Session) → IsLive w → Yields IsLeft IsLive (loop c e w)
  unfolding loop
  loop-Yields w h = next_message-Yields w w.me h.l h.m h.is_open.me_is h.at h.is_open

  quitted-Leaves :
      (k : Call) (o : Option (Reply Verb Mailbox)) (l : List Verb) (m : Mailbox)
      → Says l closed
      → Heard l m o
      → Leaves IsClosed (quitted k o)
  unfolding quitted
  quitted-Leaves k none l m s h = tt
  quitted-Leaves k (some r) l m s h =
      let w = timed logout k.expired r.session in
      let o = timed-IsOpen logout k.expired l m r.session h in
      exit-IsShut Talks l m (if r.ok then w else counted logout k.expired w)
        (if_cases (IsOpen l m) r.ok (λ ok. o) (λ bad. counted-IsOpen logout k.expired l m w o))
        (closed, s)

  Says-end : (l : List Verb) (total : ℤ) (n : ℕ) → AtMailbox l total n → Says (quit ∷ l) closed
  Says-end l total n (inl k) = says_quit total n k
  Says-end l total n (inr k) = says_leave total n k

  said_end :
      (l : List Verb) (m : Mailbox) (w : Session)
      → IsOpen l m w
      → AtMailbox l m.num_msgs m.msg_counter
      → Leaves IsClosed (quitted e.first (command_response e.first quit (line c 0 0 quit) w))
  said_end l m w h k =
      quitted-Leaves e.first (command_response e.first quit (line c 0 0 quit) w) (quit ∷ l) m
        (Says-end l m.num_msgs m.msg_counter k)
        (command_response-Heard e.first quit (line c 0 0 quit) l m w h)

  end_live : (w : Session) → IsLive w → Leaves IsClosed (end c e w)
  unfolding end
  end_live w h =
      if_cases (Leaves IsClosed) w.sock (λ up. said_end h.l h.m w h.is_open h.at)
        (λ down. absurd (true_not_false w.sock h.is_open.sock_is down))

  pub end-Leaves : (w : Session) → IsLive w ⊎ IsLeft w → Leaves IsClosed (end c e w)
  unfolding end
  end-Leaves w (inl h) = end_live w h
  end-Leaves w (inr (inl h)) = end_live w h
  end-Leaves w (inr (inr h)) =
      if_cases (Leaves IsClosed) w.sock (λ up. absurd (true_not_false w.sock up h.sock_is))
        (λ down. h)
