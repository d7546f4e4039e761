-- ===== src/Port/Server.antt =====
-- src/port/tcp_server.rs: the server of a TCP port, from its binding to the clients that it admits.
-- A time is in milliseconds. The sockets are outside: what they did is an event.
pub mod Admission
pub mod Refusals
use Prim.Native.String.{String}
use kiss_tnc_bridge.Prelude.{
  ℕ, zero, suc, ◌+◌, ◌-◌, ◌%◌, ◌^◌, ◌≤◌, Bool, true, false, not, List, [], ◌∷◌, Option, none, some,
  any_of, keep_if, ltb, leb, if◌then◌else◌, ◌≡◌, ◌⊎◌,
}
use kiss_tnc_bridge.Prelude.Decide.{equal}
use kiss_tnc_bridge.Config.Addresses.{IpAddr, IpAddr-discrete, SocketAddr}
use kiss_tnc_bridge.Config.Networks.{Networks, allowed}

pub data ServerState : Type 0 where
  starting stopped : ServerState
  listening : SocketAddr → ServerState
  waiting_for_interface failed : String → ServerState

pub record TcpLive (N : Type 0) : Type 0 where
  pub max_clients : Option ℕ
  pub allow : List N

-- Where `run` is: about to bind, in the pause before it binds again, in its loop, or behind it.
pub data Phase : Type 0 where
  binding pausing accepting ended : Phase

-- `tasks`: the sessions' tasks up to their `fetch_sub`, at either exit; `warnings`: those in the log,
-- the last one first.
pub record Server (N : Type 0) : Type 0 where
  pub live : TcpLive N
  pub phase : Phase
  pub state : ServerState
  pub sessions : ℕ
  pub tasks : ℕ
  pub rejections : List (IpAddr × ℕ)
  pub warnings : List (IpAddr × ℕ)

-- What `bind` returns; a bound socket with its local address, if it has one.
pub data BindResult : Type 0 where
  bound : Option SocketAddr → BindResult
  no_interface other_error : String → BindResult

-- `Rejections::QUIET`
abbrev pub quiet : ℕ
quiet = 60000

unfoldable pub is_recent : ℕ → IpAddr × ℕ → Bool
is_recent now e = ltb (now - e.1) quiet

unfoldable pub is_from : IpAddr → IpAddr × ℕ → Bool
unfolding equal IpAddr-discrete
is_from ip e = equal IpAddr-discrete e.0 ip

-- `Rejections::should_log`: the answer, and the map afterwards.
unfoldable pub should_log : ℕ → IpAddr → List (IpAddr × ℕ) → Bool × List (IpAddr × ℕ)
unfolding is_recent is_from
should_log now ip last =
    let kept = keep_if (is_recent now) last in
    if any_of (is_from ip) kept then (false, kept) else (true, (ip, now) ∷ kept)

-- `fetch_add(1)` and `fetch_sub(1)` of a 64-bit counter.
unfoldable pub fetch_add : ℕ → ℕ
fetch_add n = (n + 1) % 2 ^ 64

unfoldable pub fetch_sub : ℕ → ℕ
fetch_sub n = (n + (2 ^ 64 - 1)) % 2 ^ 64

unfoldable pub is_full : Option ℕ → ℕ → Bool
is_full none sessions = false
is_full (some max) sessions = leb max sessions

module _ {N : Type 0} where
  -- `TcpServerPort::spawn`
  unfoldable pub spawn : TcpLive N → Server N
  spawn live = record {
    live = live;
    phase = binding;
    state = starting;
    sessions = 0;
    tasks = 0;
    rejections = [];
    warnings = [];
  }

  unfoldable pub on_bind : BindResult → Server N → Server N
  on_bind (bound (some local)) s = record s { phase = accepting; state = listening local }
  on_bind (bound none) s = record s { phase = accepting }
  on_bind (no_interface name) s = record s { phase = pausing; state = waiting_for_interface name }
  on_bind (other_error e) s = record s { phase = ended; state = failed e }

  unfoldable pub on_shutdown : Server N → Server N
  on_shutdown s = record s { phase = ended; state = stopped }

  -- A connection that is refused, and whether the log has a warning of it.
  unfoldable pub refuse : ℕ → IpAddr → Server N → Server N
  unfolding should_log
  refuse now ip s =
      let logs = should_log now ip s.rejections in
      record s {
        rejections = logs.1;
        warnings = if logs.0 then (ip, now) ∷ s.warnings else s.warnings;
      }

  -- The end of a session's task: both ways out of it count it off.
  unfoldable pub session_ended : Server N → Server N
  unfolding fetch_sub
  session_ended s = record s { sessions = fetch_sub s.sessions; tasks = s.tasks - 1 }

module _ (n : Networks) where
  -- A connection that was accepted.
  unfoldable pub on_accept : ℕ → IpAddr → Server n.Net → Server n.Net
  unfolding refuse is_full fetch_add allowed
  on_accept now ip s =
      if not (allowed n s.live.allow ip)
      then refuse now ip s
      else if is_full s.live.max_clients s.sessions
      then refuse now ip s
      else record s { sessions = fetch_add s.sessions; tasks = suc s.tasks }

  -- The server, and the time of the last connection.
  pub record System : Type 0 where
    pub server : Server n.Net
    pub clock : ℕ

  -- The events of a server whose settings change to such as `P` admits.
  pub data ServerStep (P : TcpLive n.Net → Type 0) (s : System) : System → Type 0 where
    bind_step :
        (r : BindResult)
        → s.server.phase ≡ binding
        → ServerStep P s (record s { server = on_bind r s.server })
    retry_step :
        s.server.phase ≡ pausing
        → ServerStep P s (record s { server = record s.server { phase = binding } })
    shutdown_step :
        (s.server.phase ≡ pausing) ⊎ (s.server.phase ≡ accepting)
        → ServerStep P s (record s { server = on_shutdown s.server })
    accept_step :
        (now : ℕ) (ip : IpAddr)
        → s.clock ≤ now
        → s.server.phase ≡ accepting
        → ServerStep P s (record { server = on_accept now ip s.server; clock = now })
    end_step : 1 ≤ s.server.tasks → ServerStep P s (record s { server = session_ended s.server })
    reload_step :
        (live : TcpLive n.Net)
        → P live
        → ServerStep P s (record s { server = record s.server { live = live } })

  pub data ServerReach (P : TcpLive n.Net → Type 0) (s : System) : System → Type 0 where
    here : ServerReach P s s
    then_step : {t u : System} → ServerReach P s t → ServerStep P t u → ServerReach P s u

  unfoldable pub started_at : ℕ → TcpLive n.Net → System
  unfolding spawn
  started_at now live = record { server = spawn live; clock = now }
