-- ===== src/Bridge/Run.antt =====
-- src/bridge/mod.rs: the bridge task as a whole. `Step` is one round of the select loop of `main`,
-- with the guards of its arms, or progress of a task at the other end of a queue.
pub mod Invariant
pub mod Reachable
use Prim.Native.String.{String}
use kiss_tnc_bridge.Prelude.{
  ℕ, Bool, true, false, List, [], ◌∷◌, ◌++◌, ◌≡◌, Option, none, some, ltb, if◌then◌else◌, is_some,
}
use kiss_tnc_bridge.Prelude.Text.{Bytes}
use kiss_tnc_bridge.Bridge.Channel.{Channel}
use kiss_tnc_bridge.Bridge.State.{
  Run, TncSettings, SessionId, Session, Hub, idle, idle_link, connecting_link, backoff_link,
  TncLink, is_waiting, WriterMsg, AppEvent, TncEvent, LinkEvent, link_up, link_failed, backoff_over,
  BridgeCmd,
}
use kiss_tnc_bridge.Bridge.Link.{start_connect, is_always, disconnect}
use kiss_tnc_bridge.Bridge.Apps.{on_app}
use kiss_tnc_bridge.Bridge.Commands.{on_cmd}
use kiss_tnc_bridge.Bridge.Tnc.{on_tnc, on_link, on_idle_elapsed}

module _ {S W : Type 0} where
  -- The state that `Bridge::run` begins with.
  unfoldable pub initial : String → TncSettings → Option Hub → ℕ → Run S W
  initial connector settings hub now = record {
    connector = connector;
    settings = settings;
    state = idle;
    state_since = now;
    counters = record {
      frames_up = 0;
      frames_down = 0;
      dropped = 0;
      sessions = 0;
      tnc_connects = 0;
    };
    sessions = [];
    next_seq = 0;
    link = idle_link;
    writer_tx = none;
    exit_kiss = [];
    generation = 0;
    attempt = 0;
    pending = [];
    idle_timer = none;
    waiting = none;
    link_start = (0, 0);
    hub = hub;
    held = none;
  }

  -- `main` before its loop.
  unfoldable pub begin : ℕ → Run S W → Run S W
  begin now r = if is_always r.settings.connect then start_connect now r else r

-- What `link_event` can give on each link.
abbrev pub Awaits : TncLink → LinkEvent → Type 0
Awaits connecting_link (link_up exit_kiss) = Unit {0}
Awaits connecting_link (link_failed e) = Unit {0}
Awaits (backoff_link delay) backoff_over = Unit {0}
Awaits _ _ = ⊥

-- The same sessions, some of whose queues were read from.
abbrev pub Drained :
    {S : Type 0}
    → (S → S → Type 0)
    → List (SessionId × Session S)
    → List (SessionId × Session S)
    → Type 0
Drained P [] [] = Unit {0}
Drained P ((i, s) ∷ m) ((j, t) ∷ n) =
    (j ≡ i) × (t ≡ record s { sender = t.sender }) × P s.sender t.sender × Drained P m n
Drained P _ _ = ⊥

-- The receiver of a queue has taken messages off its front.
abbrev pub Read : {A : Type 0} (c : Channel A) → c.Sender → c.Sender → Type 0
Read {A} c s s' = (taken : List A) × (c.queued s ≡ taken ++ c.queued s')

module _ (a : Channel Bytes) (w : Channel WriterMsg) where
  -- Whether an app event can be taken: the writer's queue is not full.
  unfoldable pub app_ready : Run a.Sender w.Sender → Bool
  app_ready r = elim r.writer_tx [ none ↦ true | some tx ↦ ltb 0 (w.capacity tx) ]

  pub data Step (r : Run a.Sender w.Sender) : Run a.Sender w.Sender → Type 0 where
    app_step : (now : ℕ) (e : AppEvent a.Sender) → app_ready r ≡ true → Step r (on_app w now e r)
    tnc_step : (now : ℕ) (e : TncEvent) → Step r (on_tnc a now e r)
    cmd_step : (now : ℕ) (c : BridgeCmd) → Step r (on_cmd w now c r)
    link_step : (now : ℕ) (e : LinkEvent) → Awaits r.link e → Step r (on_link w now e r)
    idle_step : (now : ℕ) → is_some r.idle_timer ≡ true → Step r (on_idle_elapsed w now r)
    writer_step :
        (s s' : w.Sender)
        → r.writer_tx ≡ some s
        → Read w s s'
        → Step r (record r { writer_tx = some s' })
    session_step :
        (m : List (SessionId × Session a.Sender))
        → Drained (Read a) r.sessions m
        → Step r (record r { sessions = m })

  pub data Reach (r : Run a.Sender w.Sender) : Run a.Sender w.Sender → Type 0 where
    here : Reach r r
    then_step : {s t : Run a.Sender w.Sender} → Reach r s → Step s t → Reach r t
