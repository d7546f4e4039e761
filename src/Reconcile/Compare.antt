-- ===== src/Reconcile/Compare.antt =====
-- src/reconcile.rs: `compare_port`, the comparison of a port before and after.
use Prim.Native.String.{String, compare}
use native.Mathlib.Decide.{ℕ_discrete}
use text.Mathlib.Text.{is_le}
use mathlib.Core.Bool.{Bool-discrete}
use kiss_tnc_bridge.Prelude.{
  ℕ, Bool, true, false, not, ◌&&◌, List, [], ◌∷◌, ◌++◌, Option, none, some, if◌then◌else◌, keep_if,
  is_nil,
}
use kiss_tnc_bridge.Prelude.Decide.{String-discrete, List-discrete, Option-discrete, equal}
use kiss_tnc_bridge.Config.Settings.{Role, tnc, app}
use kiss_tnc_bridge.Config.Addresses.{Mac-discrete, Listen-discrete}
use kiss_tnc_bridge.Config.Networks.{Networks}
use kiss_tnc_bridge.Config.Model.{
  Port, PortKind, tcp_client, tcp_server, ble_server, spp_client, ble_client, serial, TcpClient,
  TcpServer, BleServer, TncPort, Spp, Ble, SerialDevice, TncModel-discrete, Role-discrete,
  ConnectPolicy-discrete, SerialDevice-discrete,
}
use kiss_tnc_bridge.Bridge.State.{SessionId}
use kiss_tnc_bridge.Reconcile.Report.{Action, unchanged, updated, restarted, PortPlan}
use kiss_tnc_bridge.Prelude.Sorting.{sort_by}
use kiss_tnc_bridge.Reconcile.Ports.{
  Runtime, same_adapter, sessions_of, tnc_active, ids, newest_beyond, dedup, Noted, nothing,
  note_if, restart_if, is_barred,
}

abbrev pub OptionNat-discrete : Discrete (Option ℕ)
OptionNat-discrete = Option-discrete ℕ_discrete

unfoldable pub compare_tcp_client : TcpClient → TcpClient → Noted
compare_tcp_client o n =
    note_if (not (equal ℕ_discrete o.idle_timeout n.idle_timeout)) "idle_timeout" (
      note_if (not (equal ConnectPolicy-discrete o.connect n.connect)) "connect" (
        restart_if (not (equal String-discrete o.host n.host && equal ℕ_discrete o.port n.port))
          "address" nothing))

-- What the types of TNC ports have in common, behind the comparison of how the TNC is reached.
unfoldable pub compare_tnc : {T : Type 0} → Noted → TncPort T → TncPort T → Noted
compare_tnc reached o n =
    note_if (not (equal Bool-discrete o.exit_kiss_on_disconnect n.exit_kiss_on_disconnect))
      "exit_kiss_on_disconnect"
      (note_if (not (equal ℕ_discrete o.idle_timeout n.idle_timeout)) "idle_timeout" (
        note_if (not (equal ConnectPolicy-discrete o.connect n.connect)) "connect" (
          note_if (not (equal String-discrete o.tnc n.tnc)) "tnc"
            (restart_if (not (equal TncModel-discrete o.model n.model)) "model" reached))))

module _ (rt : Runtime) where
  unfoldable pub compare_spp : Spp → Spp → Noted
  compare_spp o n =
      if not
        (equal Mac-discrete o.address n.address && equal OptionNat-discrete o.channel n.channel)
      then restart_if true "spp" nothing
      else restart_if (not (same_adapter rt o.adapter n.adapter)) "spp.adapter" nothing

  unfoldable pub compare_ble : Ble → Ble → Noted
  compare_ble o n =
      if not (equal Mac-discrete o.address n.address)
      then restart_if true "ble" nothing
      else restart_if (not (same_adapter rt o.adapter n.adapter)) "ble.adapter" nothing

unfoldable pub compare_serial : SerialDevice → SerialDevice → Noted
compare_serial o n = restart_if (not (equal SerialDevice-discrete o n)) "serial" nothing

module _ (nets : Networks) (rt : Runtime) (bridge port : String) where
  -- `allow` and then `max_clients` of a TCP server that listens where it did.
  unfoldable pub compare_clients : TcpServer nets.Net → TcpServer nets.Net → Noted
  unfolding newest_beyond ids is_barred sessions_of
  compare_clients o n =
      let sessions = sessions_of rt bridge port in
      let allowing : Noted =
        if equal (List-discrete nets.Net-discrete) o.allow n.allow then nothing else record {
          changes = "allow" ∷ [];
          restart = false;
          kick = ids (keep_if (is_barred nets n.allow) sessions);
        } in
      if equal OptionNat-discrete o.max_clients n.max_clients then allowing else record allowing {
        changes = allowing.changes ++ "max_clients" ∷ [];
        kick = elim n.max_clients [
          | some max ↦ newest_beyond sessions max allowing.kick
          | none ↦ allowing.kick
        ];
      }

  unfoldable pub compare_tcp_server : TcpServer nets.Net → TcpServer nets.Net → Noted
  compare_tcp_server o n = note_if (not (equal Bool-discrete o.announce n.announce)) "announce" (
      if equal Listen-discrete o.listen n.listen
      then compare_clients o n
      else restart_if true "listen" nothing)

  unfoldable pub compare_ble_server : BleServer → BleServer → Noted
  unfolding newest_beyond sessions_of
  compare_ble_server o n =
      if not (same_adapter rt o.adapter n.adapter)
      then restart_if true "adapter" nothing
      else if equal ℕ_discrete o.max_clients n.max_clients
      then nothing
      else record {
        changes = "max_clients" ∷ [];
        restart = false;
        kick = newest_beyond (sessions_of rt bridge port) n.max_clients [];
      }

  -- Ports of the same role; a port of another type restarts.
  unfoldable pub compare_kind : PortKind nets.Net → PortKind nets.Net → Noted
  unfolding compare_tcp_client compare_tnc compare_spp compare_ble compare_serial compare_tcp_server
      compare_ble_server
  compare_kind (tcp_client o) (tcp_client n) = compare_tcp_client o n
  compare_kind (spp_client o) (spp_client n) = compare_tnc (compare_spp rt o.reach n.reach) o n
  compare_kind (ble_client o) (ble_client n) = compare_tnc (compare_ble rt o.reach n.reach) o n
  compare_kind (serial o) (serial n) = compare_tnc (compare_serial o.reach n.reach) o n
  compare_kind (tcp_server o) (tcp_server n) = compare_tcp_server o n
  compare_kind (ble_server o) (ble_server n) = compare_ble_server o n
  compare_kind _ _ = restart_if true "type" nothing

-- `kick.sort_by(…)` and `kick.dedup()`
unfoldable pub in_order : List SessionId → List SessionId
unfolding sort_by dedup
in_order kick = dedup (sort_by (λ a b. is_le (compare a.peer b.peer)) kick)

unfoldable pub is_tnc : Role → Bool
is_tnc tnc = true
is_tnc app = false

unfoldable pub action_of : Noted → Action
action_of n = if n.restart then restarted else if is_nil n.changes then unchanged else updated

module _ (nets : Networks) (rt : Runtime) (bridge : String) where
  unfoldable pub compare_noted : Port nets.Net → Port nets.Net → Noted
  compare_noted o n =
      if equal Role-discrete o.role n.role
      then compare_kind nets rt bridge o.id o.kind n.kind
      else restart_if true "role" nothing

  unfoldable pub compare_port : Port nets.Net → Port nets.Net → PortPlan
  unfolding in_order is_tnc action_of sessions_of tnc_active ids
  compare_port o n =
      let noted = compare_noted o n in
      record {
        id = n.id;
        action = action_of noted;
        changes = noted.changes;
        disconnects =
            if noted.restart
            then (if is_tnc n.role then [] else ids (sessions_of rt bridge o.id))
            else in_order noted.kick;
        drops_tnc_link = noted.restart && is_tnc n.role && tnc_active rt bridge;
      }
