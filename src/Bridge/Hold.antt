-- ===== src/Bridge/Hold.antt =====
-- src/bridge/mod.rs: `port.disconnect` holds the link down.
use Prim.Native.String.{String}
use kiss_tnc_bridge.Prelude.{ℕ, false, ◌≡◌, some, arith}
use kiss_tnc_bridge.Prelude.Text.{Bytes}
use kiss_tnc_bridge.Bridge.Channel.{Channel}
use kiss_tnc_bridge.Bridge.State.{
  Run, SessionId, idle_link, is_connected, WriterMsg, opened, closed, app_frame, TncEvent,
  tnc_frame, tnc_closed, BridgeCmd, new_settings, new_connector, kick, hold, snapshot,
}
use kiss_tnc_bridge.Bridge.Link.{wants_link, close, set_idle_timer}
use kiss_tnc_bridge.Bridge.Apps.{
  on_app, on_opened, on_closed, on_frame, let_go, uplink, uplink_on, count_dropped, is_held_down,
}
use kiss_tnc_bridge.Bridge.Commands.{on_connector, on_hold, on_cmd}
use kiss_tnc_bridge.Bridge.Tnc.{on_tnc, on_tnc_frame, on_tnc_closed, on_idle_elapsed}
use kiss_tnc_bridge.Bridge.Run.{
  Step, app_step, tnc_step, cmd_step, link_step, idle_step, writer_step, session_step,
}

-- Held down, with the link down.
pub record HeldDown {S W : Type 0} (r : Run S W) : Type 0 where
  pub told : r.held ≡ some false
  pub down : r.link ≡ idle_link

-- `port.connect`, `port.disconnect` and `port.release` decide anew, and settings may.
abbrev pub Leaves : BridgeCmd → Type 0
Leaves (new_settings s) = ⊥
Leaves (hold h) = ⊥
Leaves _ = Unit {0}

module _ {S : Type 0} (w : Channel WriterMsg) (r : Run S w.Sender) (h : HeldDown r) where
  unwanted : wants_link r ≡ false
  unfolding wants_link
  unwanted = ground (arith, h.told)

  on_opened-HeldDown : (now : ℕ) (id : SessionId) (s : S) → HeldDown (on_opened w now id s r)
  unfolding on_opened wants_link
  on_opened-HeldDown now id s = ground (arith, h.told, h.down)

  on_closed-HeldDown : (now : ℕ) (id : SessionId) → HeldDown (on_closed w now id r)
  unfolding on_closed wants_link let_go close set_idle_timer
  on_closed-HeldDown now id = ground (arith, h.told, h.down)

  on_frame-HeldDown :
      (now : ℕ) (id : SessionId) (content : Bytes) → HeldDown (on_frame w now id content r)
  unfolding on_frame uplink uplink_on count_dropped is_held_down
  on_frame-HeldDown now id content = ground (arith, h.told, h.down)

  on_connector-HeldDown : (now : ℕ) (c : String) → HeldDown (on_connector w now c r)
  unfolding on_connector wants_link close
  on_connector-HeldDown now c = ground (arith, h.told, h.down)

  on_idle_elapsed-HeldDown : (now : ℕ) → HeldDown (on_idle_elapsed w now r)
  unfolding on_idle_elapsed wants_link close
  on_idle_elapsed-HeldDown now = ground (arith, h.told, h.down)

module _ (a : Channel Bytes) {W : Type 0} (r : Run a.Sender W) (h : HeldDown r) where
  on_tnc-HeldDown : (now : ℕ) (e : TncEvent) → HeldDown (on_tnc a now e r)
  unfolding on_tnc on_tnc_frame on_tnc_closed is_connected
  on_tnc-HeldDown now (tnc_frame g content) = ground (arith, h.told, h.down)
  on_tnc-HeldDown now (tnc_closed g) = ground (arith, h.told, h.down)

-- `port.disconnect` takes the link down, whatever state it is in.
on_hold-HeldDown :
    {S : Type 0} (w : Channel WriterMsg) (now : ℕ) (r : Run S w.Sender)
    → HeldDown (on_hold w now (some false) r)
unfolding on_hold wants_link close
on_hold-HeldDown w now r = ground arith

module _ (a : Channel Bytes) (w : Channel WriterMsg) where
  abbrev pub IsQuiet : {r s : Run a.Sender w.Sender} → Step a w r s → Type 0
  IsQuiet (cmd_step now c) = Leaves c
  IsQuiet _ = Unit {0}

  -- Rounds of the select loop that bring no command to hold or release the link, and no settings.
  pub data Quietly (r : Run a.Sender w.Sender) : Run a.Sender w.Sender → Type 0 where
    start : Quietly r r
    then_quiet :
        {s t : Run a.Sender w.Sender} → Quietly r s → (st : Step a w s t) → IsQuiet st → Quietly r t

  Step-HeldDown :
      {r s : Run a.Sender w.Sender} → (st : Step a w r s) → IsQuiet st → HeldDown r → HeldDown s
  unfolding on_app on_cmd
  Step-HeldDown {r} (app_step now (opened id s) ready) q h = on_opened-HeldDown w r h now id s
  Step-HeldDown {r} (app_step now (closed id) ready) q h = on_closed-HeldDown w r h now id
  Step-HeldDown {r} (app_step now (app_frame id content) ready) q h =
      on_frame-HeldDown w r h now id content
  Step-HeldDown {r} (tnc_step now e) q h = on_tnc-HeldDown a r h now e
  Step-HeldDown {r} (cmd_step now (new_settings s)) q h = absurd q
  Step-HeldDown {r} (cmd_step now (new_connector c)) q h = on_connector-HeldDown w r h now c
  Step-HeldDown {r} (cmd_step now (kick id)) q h = record { told = h.told; down = h.down }
  Step-HeldDown {r} (cmd_step now (hold held)) q h = absurd q
  Step-HeldDown {r} (cmd_step now snapshot) q h = h
  Step-HeldDown {r} (link_step now e aw) q h = absurd (rw h.down at aw)
  Step-HeldDown {r} (idle_step now t) q h = on_idle_elapsed-HeldDown w r h now
  Step-HeldDown {r} (writer_step s s' e read) q h = record { told = h.told; down = h.down }
  Step-HeldDown {r} (session_step m d) q h = record { told = h.told; down = h.down }

  Quietly-HeldDown : {r s : Run a.Sender w.Sender} → Quietly r s → HeldDown r → HeldDown s
  Quietly-HeldDown start h = h
  Quietly-HeldDown (then_quiet p st q) h = Step-HeldDown st q (Quietly-HeldDown p h)

  -- After `port.disconnect` the link is down, whatever state it was in; and no event takes it up
  -- again, however many come: neither apps that come, go or send, nor late news of the old link,
  -- nor a new connector, nor the idle timer. Only the commands that hold and release the link, and
  -- new settings, are left out.
  pub on_hold-Quietly :
      (now : ℕ) (r : Run a.Sender w.Sender) {s : Run a.Sender w.Sender}
      → Quietly (on_hold w now (some false) r) s
      → HeldDown s
  on_hold-Quietly now r p = Quietly-HeldDown p (on_hold-HeldDown w now r)
