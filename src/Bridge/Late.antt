-- ===== src/Bridge/Late.antt =====
-- src/bridge/mod.rs: the generations of links, and news that comes from a link that was left.
use Prim.Native.String.{String}
use kiss_tnc_bridge.Prelude.{
  ℕ, zero, suc, ◌+◌, ◌*◌, ◌%◌, ◌^◌, ◌≤◌, ◌<◌, Bool, ltb, List, [], ◌∷◌, ◌≡◌, ◌≢◌, refl, sym, ◌∙◌,
  ◌⊎◌, inl, inr, arith, Option, Bool-cases,
}
use kiss_tnc_bridge.Prelude.Text.{Bytes}
use kiss_tnc_bridge.Bridge.Channel.{Channel}
use kiss_tnc_bridge.Bridge.State.{
  Run, TncSettings, SessionId, Pending, connected_link, is_connected, WriterMsg, inc64, TncEvent,
  tnc_frame, tnc_closed, Error, unpaired_error, device_absent, other_error, link_up, link_failed,
  backoff_over, opened, closed, app_frame, new_settings, new_connector, kick, hold, snapshot,
}
use kiss_tnc_bridge.Bridge.Link.{
  start_connect, start_wait, start_backoff, set_idle_timer, close, uplink_queue_age,
}
use kiss_tnc_bridge.Bridge.Apps.{
  on_app, on_opened, on_closed, on_frame, let_go, uplink, uplink_on, uplink_connected,
  queue_pending, count_dropped,
}
use kiss_tnc_bridge.Bridge.Commands.{apply_settings, change_policy, on_connector, on_hold, on_cmd}
use kiss_tnc_bridge.Bridge.Tnc.{
  on_tnc, on_tnc_frame, on_tnc_closed, send_pending, link_ready, on_link_up, on_link_failed, retry,
  give_up, on_backoff_over, on_link, on_idle_elapsed,
}
use kiss_tnc_bridge.Bridge.Run.{
  Step, app_step, tnc_step, cmd_step, link_step, idle_step, writer_step, session_step,
}

-- The generation of the link that an event comes from.
abbrev pub generation_of : TncEvent → ℕ
generation_of (tnc_frame g content) = g
generation_of (tnc_closed g) = g

on_tnc_stale :
    (a : Channel Bytes) {W : Type 0} (now : ℕ) (e : TncEvent) (r : Run a.Sender W)
    → generation_of e ≢ r.generation
    → on_tnc a now e r ≡ r
unfolding on_tnc on_tnc_frame on_tnc_closed
on_tnc_stale a now (tnc_frame g content) r h = ground arith
on_tnc_stale a now (tnc_closed g) r h = ground arith

-- One round of the loop leaves or makes two links at most.
abbrev Moved : ℕ → ℕ → Type 0
Moved g h = (h ≡ g) ⊎ ((h ≡ inc64 g) ⊎ (h ≡ inc64 (inc64 g)))

module _ {S : Type 0} (w : Channel WriterMsg) (now : ℕ) (r : Run S w.Sender) where
  close-Moved : (close w now r).generation ≡ inc64 r.generation
  unfolding close
  close-Moved = refl

  start_connect-Moved : (start_connect now r).generation ≡ inc64 r.generation
  unfolding start_connect
  start_connect-Moved = ground arith

  let_go-Moved : Moved r.generation (let_go w now r).generation
  unfolding let_go set_idle_timer
  let_go-Moved = ground (arith, close-Moved)

  uplink-Moved :
      (content : Bytes) (from : Option SessionId)
      → Moved r.generation (uplink w now content from r).generation
  unfolding uplink uplink_on uplink_connected queue_pending count_dropped start_connect
  uplink-Moved content from = ground arith

  on_opened-Moved :
      (id : SessionId) (s : S) → Moved r.generation (on_opened w now id s r).generation
  unfolding on_opened start_connect
  on_opened-Moved id s = ground arith

  on_closed-Moved : (id : SessionId) → Moved r.generation (on_closed w now id r).generation
  unfolding on_closed let_go set_idle_timer close
  on_closed-Moved id = ground arith

  on_frame-Moved :
      (id : SessionId) (content : Bytes)
      → Moved r.generation (on_frame w now id content r).generation
  unfolding on_frame uplink uplink_on uplink_connected queue_pending count_dropped start_connect
  on_frame-Moved id content = ground arith

  apply_settings-Moved :
      (new : TncSettings) → Moved r.generation (apply_settings w now new r).generation
  unfolding apply_settings change_policy let_go set_idle_timer close start_connect
  apply_settings-Moved new = ground arith

  on_connector-Moved : (c : String) → Moved r.generation (on_connector w now c r).generation
  unfolding on_connector close start_connect
  on_connector-Moved c = ground arith

  on_hold-Moved : (held : Option Bool) → Moved r.generation (on_hold w now held r).generation
  unfolding on_hold set_idle_timer close start_connect
  on_hold-Moved held = ground arith

  on_idle_elapsed-Moved : Moved r.generation (on_idle_elapsed w now r).generation
  unfolding on_idle_elapsed close
  on_idle_elapsed-Moved = ground arith

  on_link_failed-Moved : (e : Error) → Moved r.generation (on_link_failed w now e r).generation
  unfolding on_link_failed give_up retry start_wait start_backoff
  on_link_failed-Moved (unpaired_error why) = ground arith
  on_link_failed-Moved (device_absent why) = ground arith
  on_link_failed-Moved (other_error why) = ground arith

  on_backoff_over-Moved : Moved r.generation (on_backoff_over w now r).generation
  unfolding on_backoff_over give_up start_connect
  on_backoff_over-Moved = ground arith

  -- On a connected link the frames that waited leave the generation as it is.
  uplink-connected :
      (content : Bytes) (from : Option SessionId)
      → r.link ≡ connected_link
      → ((uplink w now content from r).link ≡ connected_link)
        × ((uplink w now content from r).generation ≡ r.generation)
  unfolding uplink uplink_on uplink_connected count_dropped
  uplink-connected content from l = ground arith

send_pending-generation :
    {S : Type 0} (w : Channel WriterMsg) (now : ℕ) (ps : List Pending) (r : Run S w.Sender)
    → r.link ≡ connected_link
    → (send_pending w now ps r).generation ≡ r.generation
unfolding send_pending count_dropped
send_pending-generation w now [] r l = refl
send_pending-generation w now (p ∷ ps) r l = elim (Bool-cases (ltb (p.at + uplink_queue_age) now)) [
  | inl old ↦ rw (old, send_pending) (send_pending-generation w now ps (count_dropped r) l)
  | inr new ↦
      let (same, kept) = uplink-connected w now r p.content p.from l in
      rw (new, send_pending)
        (send_pending-generation w now ps (uplink w now p.content p.from r) same ∙ kept)
]

on_link_up-Moved :
    {S : Type 0} (w : Channel WriterMsg) (now : ℕ) (steps : List Bytes) (r : Run S w.Sender)
    → Moved r.generation (on_link_up w now steps r).generation
unfolding on_link_up link_ready close
on_link_up-Moved w now steps r =
    ground (arith, send_pending-generation w now r.pending (link_ready w now steps r) refl)

module _ (a : Channel Bytes) {W : Type 0} (now : ℕ) (r : Run a.Sender W) where
  on_tnc-Moved : (e : TncEvent) → Moved r.generation (on_tnc a now e r).generation
  unfolding on_tnc on_tnc_frame on_tnc_closed is_connected start_backoff
  on_tnc-Moved (tnc_frame g content) = ground arith
  on_tnc-Moved (tnc_closed g) = ground arith

  lost-generation :
      r.link ≡ connected_link → (on_tnc_closed a now r.generation r).generation ≡ inc64 r.generation
  unfolding on_tnc_closed is_connected start_backoff
  lost-generation h = ground arith

-- The generation behind at most so many rounds, from the one behind `g`.
abbrev Later : ℕ → ℕ → ℕ → Type 0
Later g n h = (m : ℕ) × (m ≤ 2 * n) × (h ≡ (g + 1 + m) % 2 ^ 64)

inc64_later : (g m h : ℕ) → h ≡ (g + 1 + m) % 2 ^ 64 → inc64 h ≡ (g + 1 + (m + 1)) % 2 ^ 64
unfolding inc64
inc64_later g m h e = omega arith

Moved-Later : (g n h h' : ℕ) → Later g n h → Moved h h' → Later g (suc n) h'
Moved-Later g n h h' (m, l, e) (inl p) = (m, omega arith, p ∙ e)
Moved-Later g n h h' (m, l, e) (inr (inl p)) = (m + 1, omega arith, p ∙ inc64_later g m h e)
Moved-Later g n h h' (m, l, e) (inr (inr p)) =
    (m + 1 + 1, omega arith, p ∙ inc64_later g (m + 1) (inc64 h) (inc64_later g m h e))

Later-ne : (g n h : ℕ) → Later g n h → 2 * n + 1 < 2 ^ 64 → g ≢ h
Later-ne g n h (m, l, e) few p = omega arith

module _ (a : Channel Bytes) (w : Channel WriterMsg) where
  Step-Moved : {r s : Run a.Sender w.Sender} → Step a w r s → Moved r.generation s.generation
  unfolding on_app on_cmd on_link
  Step-Moved {r} (app_step now (opened id s) ready) = on_opened-Moved w now r id s
  Step-Moved {r} (app_step now (closed id) ready) = on_closed-Moved w now r id
  Step-Moved {r} (app_step now (app_frame id content) ready) = on_frame-Moved w now r id content
  Step-Moved {r} (tnc_step now e) = on_tnc-Moved a now r e
  Step-Moved {r} (cmd_step now (new_settings s)) = apply_settings-Moved w now r s
  Step-Moved {r} (cmd_step now (new_connector c)) = on_connector-Moved w now r c
  Step-Moved {r} (cmd_step now (kick id)) = inl refl
  Step-Moved {r} (cmd_step now (hold held)) = on_hold-Moved w now r held
  Step-Moved {r} (cmd_step now snapshot) = inl refl
  Step-Moved {r} (link_step now (link_up steps) aw) = on_link_up-Moved w now steps r
  Step-Moved {r} (link_step now (link_failed e) aw) = on_link_failed-Moved w now r e
  Step-Moved {r} (link_step now backoff_over aw) = on_backoff_over-Moved w now r
  Step-Moved {r} (idle_step now t) = on_idle_elapsed-Moved w now r
  Step-Moved {r} (writer_step s s' e read) = inl refl
  Step-Moved {r} (session_step m d) = inl refl

  -- How a link is left: it is closed on purpose, whatever state it is in, or a connected one is lost.
  pub data Leave (r : Run a.Sender w.Sender) : Run a.Sender w.Sender → Type 0 where
    on_purpose : (now : ℕ) → Leave r (close w now r)
    lost : (now : ℕ) → r.link ≡ connected_link → Leave r (on_tnc_closed a now r.generation r)

  -- So many rounds of the select loop.
  pub data Rounds (r : Run a.Sender w.Sender) : ℕ → Run a.Sender w.Sender → Type 0 where
    no_round : Rounds r zero r
    round : {n : ℕ} {s t : Run a.Sender w.Sender} → Rounds r n s → Step a w s t → Rounds r (suc n) t

  Leave-Later : {r s : Run a.Sender w.Sender} → Leave r s → Later r.generation 0 s.generation
  unfolding inc64
  Leave-Later {r} (on_purpose now) = (0, omega arith, close-Moved w now r ∙ omega arith)
  Leave-Later {r} (lost now l) = (0, omega arith, lost-generation a now r l ∙ omega arith)

  Rounds-Later :
      (g : ℕ) {r : Run a.Sender w.Sender} {n : ℕ} {s : Run a.Sender w.Sender}
      → Rounds r n s
      → Later g 0 r.generation
      → Later g n s.generation
  Rounds-Later g no_round h = h
  Rounds-Later g (round {n} {s} {t} p st) h =
      Moved-Later g n s.generation t.generation (Rounds-Later g p h) (Step-Moved st)

  -- Once a link is closed on purpose, or a connected one is lost, its own events, late frames and
  -- reports of its loss, change nothing: neither in the state then, nor in any that the select loop
  -- gets into afterwards in fewer than 2^63 rounds, whatever happens in them, also when there is
  -- another link.
  pub on_tnc-late :
      {n : ℕ} {r s t : Run a.Sender w.Sender} (later : ℕ) (e : TncEvent)
      → Leave r s
      → Rounds s n t
      → 2 * n + 1 < 2 ^ 64
      → generation_of e ≡ r.generation
      → on_tnc a later e t ≡ t
  on_tnc-late {n} {r} {s} {t} later e left rounds few h = on_tnc_stale a later e t (λ p.
      Later-ne r.generation n t.generation (Rounds-Later r.generation rounds (Leave-Later left)) few
        (sym h ∙ p))
