-- ===== src/Bridge/Going/Reachable.antt =====
-- src/bridge/mod.rs: a link that is wanted is on its way, in every state that can be reached.
use Prim.Native.String.{String}
use kiss_tnc_bridge.Prelude.{
  ℕ, ◌+◌, if◌then◌else◌, Bool, true, false, not, ◌&&◌, List, [], ◌∷◌, ◌≡◌, refl, ◌∙◌, Option, some,
  arith, ltb, is_nil,
}
use kiss_tnc_bridge.Prelude.Text.{Bytes}
use kiss_tnc_bridge.Bridge.Channel.{Channel}
use kiss_tnc_bridge.Bridge.State.{
  Run, Pending, SessionId, Session, TncSettings, connected_link, is_idle, WriterMsg, AppEvent,
  opened, closed, app_frame, Hub, TncEvent, tnc_frame, tnc_closed, LinkEvent, link_up, link_failed,
  backoff_over,
}
use kiss_tnc_bridge.Bridge.Link.{wants_link, close, set_state, start_connect, is_always}
use kiss_tnc_bridge.Bridge.Apps.{on_app, uplink, uplink_on, count_dropped}
use kiss_tnc_bridge.Bridge.Tnc.{
  on_tnc, on_tnc_frame, on_link, on_link_up, send_pending, link_ready, send_all,
}
use kiss_tnc_bridge.Bridge.Run.{
  Read, Drained, Step, app_step, tnc_step, cmd_step, link_step, idle_step, writer_step,
  session_step, begin, initial,
}
use kiss_tnc_bridge.Bridge.Going.{
  is_going, HeedsCmd, is_nil-Drained, on_opened-going, on_closed-going, on_frame-going,
  on_cmd-going, on_tnc_closed-going, on_link_failed-going, on_backoff_over-going,
  on_idle_elapsed-going,
}

module _ {S : Type 0} (w : Channel WriterMsg) (now : ℕ) where
  uplink-kept :
      (content : Bytes) (from : Option SessionId) (r : Run S w.Sender)
      → r.link ≡ connected_link
      → ((uplink w now content from r).link ≡ connected_link)
        × (wants_link (uplink w now content from r) ≡ wants_link r)
  unfolding uplink uplink_on wants_link
  uplink-kept content from r e = rw e (ground arith)

  dropped-kept :
      (r : Run S w.Sender)
      → ((count_dropped r).link ≡ r.link) × (wants_link (count_dropped r) ≡ wants_link r)
  unfolding count_dropped wants_link
  dropped-kept r = (refl, refl)

  -- One round of the loop over the frames that waited.
  next-kept :
      (late : Bool) (p : Pending) (r : Run S w.Sender)
      → r.link ≡ connected_link
      → ((if late then count_dropped r else uplink w now p.content p.from r).link ≡ connected_link)
        × (wants_link (if late then count_dropped r else uplink w now p.content p.from r)
            ≡ wants_link r)
  next-kept true p r e = ((dropped-kept r).0 ∙ e, (dropped-kept r).1)
  next-kept false p r e = uplink-kept p.content p.from r e

  -- On a link that is up, the frames that waited change neither the link nor whether it is wanted.
  pub send_pending-kept :
      (ps : List Pending) (r : Run S w.Sender)
      → r.link ≡ connected_link
      → ((send_pending w now ps r).link ≡ connected_link)
        × (wants_link (send_pending w now ps r) ≡ wants_link r)
  unfolding send_pending
  send_pending-kept [] r e = (e, refl)
  send_pending-kept (p ∷ ps) r e =
      let (l, k) = next-kept (ltb (p.at + 5000) now) p r e in
      let (l', k') = send_pending-kept ps _ l in (l', k' ∙ k)

  unless_wanted-going :
      (u : Run S w.Sender) (none_waits : Bool)
      → u.link ≡ connected_link
      → is_going (if not (wants_link u) && none_waits then close w now u else u) ≡ true
  unfolding close wants_link is_idle
  unless_wanted-going u none_waits l = ground arith

  on_link_up-going :
      (exit_kiss : List Bytes) (r : Run S w.Sender) → is_going (on_link_up w now exit_kiss r) ≡ true
  unfolding on_link_up set_state
  on_link_up-going exit_kiss r =
      unless_wanted-going (send_pending w now r.pending (link_ready w now exit_kiss r)) _
        (send_pending-kept r.pending (link_ready w now exit_kiss r) refl).0

unless_idle :
    {S W : Type 0} (r : Run S W) → is_going r ≡ true → wants_link r ≡ true → is_idle r.link ≡ false
unless_idle r g wanted = ground arith

module _ (a : Channel Bytes) where
  is_nil-send_all :
      (content : Bytes) (m : List (SessionId × Session a.Sender)) (dropped : ℕ) (hub : Option Hub)
      → is_nil (send_all a content m dropped hub).sessions ≡ is_nil m
  unfolding send_all
  is_nil-send_all content [] dropped hub = refl
  is_nil-send_all content ((id, s) ∷ m) dropped hub = ground arith

  on_tnc_frame-going :
      {W : Type 0} (n : ℕ) (content : Bytes) (r : Run a.Sender W)
      → is_going r ≡ true
      → is_going (on_tnc_frame a n content r) ≡ true
  unfolding on_tnc_frame wants_link
  on_tnc_frame-going n content r g = ground (arith, is_nil-send_all content r.sessions)

module _ (a : Channel Bytes) (w : Channel WriterMsg) where
  -- The settings change only on a link that is not held up.
  abbrev pub Heeds : {r s : Run a.Sender w.Sender} → Step a w r s → Type 0
  Heeds {r} (cmd_step now c) = HeedsCmd r.held c
  Heeds _ = Unit {0}

  -- The states that such steps lead to.
  pub data Heedful (r : Run a.Sender w.Sender) : Run a.Sender w.Sender → Type 0 where
    begun : Heedful r r
    and_then :
        {s t : Run a.Sender w.Sender}
        → Heedful r s
        → (step : Step a w s t) → Heeds step
        → Heedful r t

  module _ (r : Run a.Sender w.Sender) (g : is_going r ≡ true) where
    on_app-going : (now : ℕ) (e : AppEvent a.Sender) → is_going (on_app w now e r) ≡ true
    unfolding on_app
    on_app-going now (opened id s) = on_opened-going w now r g id s
    on_app-going now (closed id) = on_closed-going w now r g id
    on_app-going now (app_frame id content) = on_frame-going w now r g id content

    on_tnc-going : (now : ℕ) (e : TncEvent) → is_going (on_tnc a now e r) ≡ true
    unfolding on_tnc
    on_tnc-going now (tnc_frame n content) = on_tnc_frame-going a n content r g
    on_tnc-going now (tnc_closed n) = on_tnc_closed-going a now r g n

    on_link-going : (now : ℕ) (e : LinkEvent) → is_going (on_link w now e r) ≡ true
    unfolding on_link
    on_link-going now (link_up exit_kiss) = on_link_up-going w now exit_kiss r
    on_link-going now (link_failed e) = on_link_failed-going w now r g e
    on_link-going now backoff_over = on_backoff_over-going w now r g

    Drained-going :
        (m : List (SessionId × Session a.Sender))
        → Drained (Read a) r.sessions m
        → is_going (record r { sessions = m }) ≡ true
    unfolding wants_link
    Drained-going m d = ground (arith, is_nil-Drained (Read a) r.sessions m d)

    writer-going : (s : w.Sender) → is_going (record r { writer_tx = some s }) ≡ true
    unfolding wants_link
    writer-going s = g

    Step-going : {s : Run a.Sender w.Sender} (step : Step a w r s) → Heeds step → is_going s ≡ true
    Step-going (app_step now e ready) h = on_app-going now e
    Step-going (tnc_step now e) h = on_tnc-going now e
    Step-going (cmd_step now c) h = on_cmd-going w now r g c h
    Step-going (link_step now e awaits) h = on_link-going now e
    Step-going (idle_step now t) h = on_idle_elapsed-going w now r g
    Step-going (writer_step s s' e read) h = writer-going s'
    Step-going (session_step m d) h = Drained-going m d

  Heedful-going :
      {r s : Run a.Sender w.Sender} → is_going r ≡ true → Heedful r s → is_going s ≡ true
  Heedful-going g begun = g
  Heedful-going g (and_then before step h) = Step-going _ (Heedful-going g before) step h

  begin-going :
      (start : ℕ) (connector : String) (settings : TncSettings) (hub : Option Hub)
      → is_going {W = w.Sender} (begin start (initial {S = a.Sender} connector settings hub start))
        ≡ true
  unfolding begin initial start_connect set_state wants_link is_idle is_always
  begin-going start connector settings hub = ground arith

  -- In every state that can be reached while the settings change only on a link that is not held
  -- up: a link that is wanted is connected, connecting or waiting for its next attempt.
  pub wanted-Heedful :
      (start : ℕ) (connector : String) (settings : TncSettings) (hub : Option Hub)
      {r : Run a.Sender w.Sender}
      → Heedful (begin start (initial connector settings hub start)) r
      → wants_link r ≡ true
      → is_idle r.link ≡ false
  wanted-Heedful start connector settings hub reach wanted =
      unless_idle _ (Heedful-going (begin-going start connector settings hub) reach) wanted
