-- ===== src/Bridge/Run/Reachable.antt =====
-- src/bridge/mod.rs: every event keeps the invariant, so it holds of every state that can be reached.
use Prim.Native.String.{String}
use kiss_tnc_bridge.Prelude.{
  ℕ, suc, ◌+◌, Bool, true, List, [], ◌∷◌, ◌≡◌, refl, ap, sym, ◌∙◌, Option, none, ltb, ◌==◌, is_nil,
  length, arith, Bool-cases, inl, inr, Option-cases,
}
use kiss_tnc_bridge.Prelude.Text.{Bytes}
use kiss_tnc_bridge.Config.Settings.{ConnectPolicy, on_demand, always}
use kiss_tnc_bridge.Bridge.Channel.{Channel}
use kiss_tnc_bridge.Bridge.State.{
  Run, Pending, SessionId, Session, TncSettings, TncLink, connecting_link, backoff_link, is_waiting,
  is_connected, is_idle, WriterMsg, Hub, tnc_frame, tnc_closed, LinkEvent, link_up, link_failed,
  backoff_over, Error, unpaired_error, device_absent, other_error, BridgeCmd, new_settings,
  new_connector, kick, hold, snapshot,
}
use kiss_tnc_bridge.Bridge.Link.{
  start_connect, close, wants_link, set_idle_timer, start_wait, start_backoff, set_state,
}
use kiss_tnc_bridge.Bridge.Apps.{count_dropped, cancel, let_go}
use kiss_tnc_bridge.Bridge.Commands.{
  settings_eq, apply_settings, change_policy, on_connector, on_hold, on_cmd,
}
use kiss_tnc_bridge.Bridge.Tnc.{
  send_one, send_all, on_tnc_frame, on_tnc_closed, on_tnc, send_pending, link_ready, on_link_up,
  on_link_failed, on_backoff_over, on_link, on_idle_elapsed,
}
use kiss_tnc_bridge.Bridge.Run.{
  initial, begin, Awaits, Drained, Read, Step, app_step, tnc_step, cmd_step, link_step, idle_step,
  writer_step, session_step, Reach, here, then_step,
}
use kiss_tnc_bridge.Bridge.Run.Invariant.{
  Inv, close-Inv, let_go-Inv, uplink-Inv, on_app-Inv, nil_of_is_nil,
}

length-cancel :
    {S : Type 0} (id : SessionId) (m : List (SessionId × Session S))
    → length (cancel id m) ≡ length m
unfolding cancel
length-cancel id [] = refl
length-cancel id ((j, s) ∷ m) = ground (arith, length-cancel id m)

nil_of_length :
    {A B : Type 0} (xs : List A) (ys : List B) → length xs ≡ length ys → ys ≡ [] → xs ≡ []
nil_of_length [] ys h e = refl
nil_of_length (x ∷ xs) [] h e = absurd (omega (arith, h))
nil_of_length (x ∷ xs) (y ∷ ys) h e = cc

length-Drained :
    {S : Type 0} (P : S → S → Type 0) (m n : List (SessionId × Session S))
    → Drained P m n
    → length n ≡ length m
length-Drained P [] [] d = refl
length-Drained P [] (y ∷ n) d = elim d [ ]
length-Drained P ((i, s) ∷ m) [] d = elim d [ ]
length-Drained P ((i, s) ∷ m) ((j, t) ∷ n) d = ap suc (length-Drained P m n d.3)

module _ (a : Channel Bytes) where
  length-send_all :
      (content : Bytes) (m : List (SessionId × Session a.Sender)) (dropped : ℕ) (hub : Option Hub)
      → length (send_all a content m dropped hub).sessions ≡ length m
  unfolding send_all
  length-send_all content [] dropped hub = refl
  length-send_all content ((id, s) ∷ m) dropped hub = elim (Option-cases (send_one a content s)) [
    | inl e ↦ rw (e, send_all) (ap suc (length-send_all content m _ _))
    | inr (s', e) ↦ rw (e, send_all) (ap suc (length-send_all content m _ _))
  ]

-- The sessions may change as long as there are as many.
with_as_many :
    {S W : Type 0} (r : Run S W) (m : List (SessionId × Session S))
    → length m ≡ length r.sessions
    → Inv r
    → Inv (record r { sessions = m })
with_as_many r m e v = record {
  writer = v.writer;
  shown = v.shown;
  pending_fits = v.pending_fits;
  pending_waits = v.pending_waits;
  timer = λ t. nil_of_length m r.sessions e (v.timer t);
  counted = v.counted ∙ sym e;
}

module _ (a : Channel Bytes) {W : Type 0} (r : Run a.Sender W) where
  on_tnc_frame-Inv :
      (generation : ℕ) (content : Bytes) → Inv r → Inv (on_tnc_frame a generation content r)
  unfolding on_tnc_frame
  on_tnc_frame-Inv generation content v = elim (Bool-cases (generation == r.generation)) [
    | inl e ↦ rw e (record {
      writer = v.writer;
      shown = v.shown;
      pending_fits = v.pending_fits;
      pending_waits = v.pending_waits;
      timer =
          λ t. nil_of_length _ r.sessions (length-send_all a content r.sessions _ _) (v.timer t);
      counted = v.counted ∙ sym (length-send_all a content r.sessions _ _);
    })
    | inr e ↦ rw e v
  ]

  on_tnc_closed-Inv : (now generation : ℕ) → Inv r → Inv (on_tnc_closed a now generation r)
  unfolding on_tnc_closed start_backoff set_state is_connected is_waiting
  on_tnc_closed-Inv now generation v = ground arith

module _ {S : Type 0} (w : Channel WriterMsg) where
  send_pending-Inv :
      (now : ℕ) (ps : List Pending) (r : Run S w.Sender) → Inv r → Inv (send_pending w now ps r)
  unfolding send_pending
  send_pending-Inv now [] r v = v
  send_pending-Inv now (p ∷ ps) r v =
      send_pending-Inv now ps _ (elim (Bool-cases (ltb (p.at + 5000) now)) [
        | inl e ↦ rw e (unfold count_dropped in ground arith)
        | inr e ↦ rw e (uplink-Inv w r now p.content p.from v)
      ])

  link_ready-Inv :
      (now : ℕ) (exit_kiss : List Bytes) (r : Run S w.Sender)
      → Inv r
      → Inv (link_ready w now exit_kiss r)
  unfolding link_ready set_state is_connected
  link_ready-Inv now exit_kiss r v = ground arith

  on_link_up-Inv :
      (now : ℕ) (exit_kiss : List Bytes) (r : Run S w.Sender)
      → Inv r
      → Inv (on_link_up w now exit_kiss r)
  unfolding on_link_up
  on_link_up-Inv now exit_kiss r v =
      let u = send_pending-Inv now r.pending _ (link_ready-Inv now exit_kiss r v) in
      ground
        (arith, u, close-Inv w (send_pending w now r.pending (link_ready w now exit_kiss r)) now u)

  -- A link that no longer waits leaves no writer behind.
  on_link_failed-Inv :
      (now : ℕ) (e : Error) (r : Run S w.Sender)
      → is_waiting r.link ≡ true
      → Inv r
      → Inv (on_link_failed w now e r)
  unfolding on_link_failed set_state is_waiting is_connected start_wait start_backoff
  on_link_failed-Inv now (unpaired_error why) r l v = ground arith
  on_link_failed-Inv now (device_absent why) r l v = ground arith
  on_link_failed-Inv now (other_error why) r l v = ground arith

  on_backoff_over-Inv :
      (now : ℕ) (delay : ℕ) (r : Run S w.Sender)
      → r.link ≡ backoff_link delay
      → Inv r
      → Inv (on_backoff_over w now r)
  unfolding on_backoff_over set_state is_waiting is_connected start_connect
  on_backoff_over-Inv now delay r l v = ground arith

  on_link-Inv :
      (now : ℕ) (e : LinkEvent) (l : TncLink) (r : Run S w.Sender)
      → r.link ≡ l
      → Awaits l e
      → Inv r
      → Inv (on_link w now e r)
  unfolding on_link is_waiting
  on_link-Inv now (link_up exit_kiss) l r h aw v = on_link_up-Inv now exit_kiss r v
  on_link-Inv now (link_failed e) connecting_link r h aw v =
      on_link_failed-Inv now e r (rw h refl) v
  on_link-Inv now backoff_over (backoff_link delay) r h aw v = on_backoff_over-Inv now delay r h v
  on_link-Inv now _ _ r h aw v = absurd aw

  on_idle_elapsed-Inv : (now : ℕ) (r : Run S w.Sender) → Inv r → Inv (on_idle_elapsed w now r)
  unfolding on_idle_elapsed
  on_idle_elapsed-Inv now r v =
      ground (arith, close-Inv w (record r { idle_timer = none }) now (ground arith))

  let_go_changed :
      (now : ℕ) (r : Run S w.Sender) → is_nil r.sessions ≡ true → Inv r → Inv (let_go w now r)
  let_go_changed now r e v = let_go-Inv w r now (nil_of_is_nil r.sessions e) v

  change_policy-Inv :
      (old new : ConnectPolicy) (now : ℕ) (r : Run S w.Sender)
      → Inv r
      → Inv (change_policy w old new now r)
  unfolding change_policy start_connect is_waiting is_connected is_idle
  change_policy-Inv on_demand always now r v = ground arith
  change_policy-Inv always on_demand now r v = ground (arith, let_go_changed now r)
  change_policy-Inv on_demand on_demand now r v = v
  change_policy-Inv always always now r v = v

  apply_settings-Inv :
      (now : ℕ) (new : TncSettings) (r : Run S w.Sender) → Inv r → Inv (apply_settings w now new r)
  unfolding apply_settings
  apply_settings-Inv now new r v =
      let changed : Inv (record r { settings = new }) = ground arith in
      elim (Bool-cases (settings_eq r.settings new)) [
        | inl e ↦ rw e changed
        | inr e ↦ rw e (change_policy-Inv r.settings.connect new.connect now _ changed)
      ]

  on_connector-Inv :
      (now : ℕ) (connector : String) (r : Run S w.Sender)
      → Inv r
      → Inv (on_connector w now connector r)
  unfolding on_connector close start_connect is_waiting is_connected
  on_connector-Inv now connector r v = ground arith

  on_hold-Inv :
      (now : ℕ) (held : Option Bool) (r : Run S w.Sender) → Inv r → Inv (on_hold w now held r)
  unfolding on_hold close start_connect set_idle_timer is_waiting is_connected is_idle wants_link
  on_hold-Inv now held r v = ground (arith, nil_of_is_nil r.sessions)

  on_cmd-Inv : (now : ℕ) (c : BridgeCmd) (r : Run S w.Sender) → Inv r → Inv (on_cmd w now c r)
  unfolding on_cmd
  on_cmd-Inv now (new_settings new) r v = apply_settings-Inv now new r v
  on_cmd-Inv now (new_connector connector) r v = on_connector-Inv now connector r v
  on_cmd-Inv now (kick id) r v = with_as_many r _ (length-cancel id r.sessions) v
  on_cmd-Inv now (hold held) r v = on_hold-Inv now held r v
  on_cmd-Inv now snapshot r v = v

begin-Inv :
    {S W : Type 0} (connector : String) (settings : TncSettings) (hub : Option Hub) (wall now : ℕ)
    → Inv (begin {S = S} {W = W} now (initial connector settings hub wall))
unfolding begin initial start_connect is_connected is_waiting
begin-Inv connector settings hub wall now = ground arith

module _ (a : Channel Bytes) (w : Channel WriterMsg) where
  pub Step-Inv : {r s : Run a.Sender w.Sender} → Step a w r s → Inv r → Inv s
  unfolding on_tnc is_connected
  Step-Inv {r} (app_step now e ready) v = on_app-Inv w r now e v
  Step-Inv {r} (tnc_step now (tnc_frame generation content)) v =
      on_tnc_frame-Inv a r generation content v
  Step-Inv {r} (tnc_step now (tnc_closed generation)) v = on_tnc_closed-Inv a r now generation v
  Step-Inv {r} (cmd_step now c) v = on_cmd-Inv w now c r v
  Step-Inv {r} (link_step now e aw) v = on_link-Inv w now e r.link r refl aw v
  Step-Inv {r} (idle_step now t) v = on_idle_elapsed-Inv w now r v
  Step-Inv {r} (writer_step s s' e read) v = ground arith
  Step-Inv {r} (session_step m d) v = with_as_many r m (length-Drained (Read a) r.sessions m d) v

  Reach-Inv : {r s : Run a.Sender w.Sender} → Reach a w r s → Inv r → Inv s
  Reach-Inv here v = v
  Reach-Inv (then_step p st) v = Step-Inv st (Reach-Inv p v)

  -- Of every state that the bridge task can get into: there is a way to the writer exactly while
  -- the link is connected; the state shown is the link's; at most 32 frames wait, and none unless
  -- the link is on its way; the idle timer runs only with no session; the session counter is right.
  pub Reach-begin-Inv :
      (connector : String) (settings : TncSettings) (hub : Option Hub) (wall now : ℕ)
      {r : Run a.Sender w.Sender}
      → Reach a w (begin now (initial connector settings hub wall)) r
      → Inv r
  Reach-begin-Inv connector settings hub wall now p =
      Reach-Inv p (begin-Inv connector settings hub wall now)
