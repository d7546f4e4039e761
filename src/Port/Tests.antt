-- ===== src/Port/Tests.antt =====
-- A server for one client, and clients that come and go.
mod Init
use kiss_tnc_bridge.Prelude.{◌≤◌, [], ◌∷◌, none, some, ◌≡◌, refl, arith}
use kiss_tnc_bridge.Prelude.Decide.{equal}
use kiss_tnc_bridge.Config.Addresses.{IpAddr, IpAddr-discrete, v4}
use kiss_tnc_bridge.Config.Networks.{Networks, allowed}
use kiss_tnc_bridge.Port.Server.{
  TcpLive, binding, bound, no_interface, on_bind, on_accept, refuse, should_log, is_recent, is_from,
  is_full, fetch_add, fetch_sub, session_ended, spawn, System, bind_step, retry_step, accept_step,
  end_step, ServerReach, here, then_step, started_at,
}
use kiss_tnc_bridge.Port.Server.Admission.{IsLimit, IsWithin, ServerReach-Counted}
use kiss_tnc_bridge.Port.Server.Refusals.{Spaced, Covered, ServerReach-Spaced}

-- A network is one address.
abbrev hosts : Networks
hosts = record {
  Net = IpAddr;
  Net-discrete = IpAddr-discrete;
  contains = λ n a. equal IpAddr-discrete n a;
  parse_ip = λ s. none;
}

abbrev one_client : TcpLive IpAddr
one_client = record { max_clients = some 1; allow = v4 7 ∷ v4 8 ∷ [] }

abbrev LimitOne : TcpLive IpAddr → Type 0
LimitOne = IsLimit 1

limit_one : LimitOne one_client
unfolding IsLimit IsWithin
limit_one = omega arith

-- The server waits for its interface, and then listens.
abbrev listening_server : System hosts
listening_server = record {
  server =
      on_bind (bound none)
        (record (on_bind (no_interface "wlan0") (spawn one_client)) { phase = binding });
  clock = 1000;
}

abbrev admitted : System hosts
admitted = record { server = on_accept hosts 2000 (v4 7) listening_server.server; clock = 2000 }

abbrev refused : System hosts
refused = record { server = on_accept hosts 3000 (v4 8) admitted.server; clock = 3000 }

abbrev gone : System hosts
gone = record refused { server = session_ended refused.server }

one_task : admitted.server.tasks ≡ 1
unfolding on_accept on_bind spawn allowed refuse is_full fetch_add native.Mathlib.Decide.ℕ_discrete
one_task = refl

one_warning : refused.server.warnings ≡ (v4 8, 3000) ∷ []
unfolding on_accept on_bind spawn allowed refuse is_full fetch_add should_log is_recent is_from
    native.Mathlib.Decide.ℕ_discrete
one_warning = refl

-- A second refusal within the minute is not warned of, and one behind it is.
later_warnings : (refuse 4000 (v4 8) refused.server).warnings ≡ (v4 8, 3000) ∷ []
unfolding on_accept on_bind spawn allowed refuse is_full fetch_add should_log is_recent is_from
    native.Mathlib.Decide.ℕ_discrete
later_warnings = refl

none_left : gone.server.sessions ≡ 0
unfolding session_ended fetch_sub on_accept on_bind spawn allowed refuse is_full fetch_add
    native.Mathlib.Decide.ℕ_discrete
none_left = refl

reach_refused : ServerReach hosts LimitOne (started_at hosts 1000 one_client) refused
unfolding started_at on_bind spawn on_accept allowed refuse is_full fetch_add should_log is_recent
    is_from native.Mathlib.Decide.ℕ_discrete
reach_refused =
    then_step
      (then_step
        (then_step
          (then_step (then_step here (bind_step (no_interface "wlan0") refl)) (retry_step refl))
          (bind_step (bound none) refl))
        (accept_step 2000 (v4 7) (omega arith) refl))
      (accept_step 3000 (v4 8) (omega arith) refl)

at_least_one : 1 ≤ refused.server.tasks
unfolding on_accept on_bind spawn allowed refuse is_full fetch_add native.Mathlib.Decide.ℕ_discrete
at_least_one = omega arith

reach_gone : ServerReach hosts LimitOne (started_at hosts 1000 one_client) gone
reach_gone = then_step reach_refused (end_step at_least_one)

ServerReach-Counted_example : (gone.server.sessions ≡ gone.server.tasks) × (gone.server.tasks ≤ 1)
ServerReach-Counted_example =
    ServerReach-Counted hosts 1 (omega arith) 1000 one_client limit_one gone reach_gone

ServerReach-Spaced_example :
    Spaced gone.server.warnings × Covered 64000 (v4 8) (refuse 64000 (v4 8) gone.server).warnings
ServerReach-Spaced_example =
    ServerReach-Spaced hosts LimitOne 1000 one_client gone reach_gone 64000 (v4 8) (omega arith)
