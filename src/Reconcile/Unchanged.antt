-- ===== src/Reconcile/Unchanged.antt =====
-- src/reconcile.rs: which ports a reload reports as unchanged.
use Prim.Native.String.{String}
use native.Mathlib.Decide.{ℕ_discrete}
use mathlib.Core.Bool.{Bool-discrete}
use kiss_tnc_bridge.Prelude.{true, [], ◌≡◌, ◌↔◌, refl, ◌∙◌, none}
use kiss_tnc_bridge.Prelude.Decide.{
  String-discrete, List-discrete, equal_self, equal-eq-true, equal_of_eq,
}
use kiss_tnc_bridge.Config.Addresses.{
  AdapterSel, Mac-discrete, AdapterSel-discrete, Listen-discrete,
}
use kiss_tnc_bridge.Config.Networks.{Networks}
use kiss_tnc_bridge.Config.Model.{
  Port, PortKind, tcp_client, tcp_server, ble_server, spp_client, ble_client, serial, TcpClient,
  TncPort, TncModel-discrete, Role-discrete, ConnectPolicy-discrete, SerialDevice-discrete,
}
use kiss_tnc_bridge.Reconcile.Report.{is_unchanged}
use kiss_tnc_bridge.Reconcile.Ports.{Runtime, same_adapter, Noted, nothing, note_if, restart_if}
use kiss_tnc_bridge.Reconcile.Compare.{
  compare_port, compare_noted, compare_kind, compare_tcp_client, compare_tnc, compare_spp,
  compare_ble, compare_serial, compare_clients, compare_tcp_server, compare_ble_server, action_of,
  OptionNat-discrete,
}
use kiss_tnc_bridge.Reconcile.Quiet.{action_of-nil}
use kiss_tnc_bridge.Reconcile.Complete.{compare_kind-same, keep-quiet}

compare_tcp_client_self : (o : TcpClient) → compare_tcp_client o o ≡ nothing
unfolding compare_tcp_client note_if restart_if
compare_tcp_client_self o =
    rw
      (
        equal_self ℕ_discrete o.idle_timeout,
        equal_self ConnectPolicy-discrete o.connect,
        equal_self String-discrete o.host,
        equal_self ℕ_discrete o.port,
      )
      refl

compare_tnc_self : {T : Type 0} (m : Noted) (o : TncPort T) → compare_tnc m o o ≡ m
unfolding compare_tnc note_if restart_if
compare_tnc_self m o =
    rw
      (
        equal_self Bool-discrete o.exit_kiss_on_disconnect,
        equal_self ℕ_discrete o.idle_timeout,
        equal_self ConnectPolicy-discrete o.connect,
        equal_self String-discrete o.tnc,
        equal_self TncModel-discrete o.model,
      )
      refl

module _ (nets : Networks) (rt : Runtime) (bridge port : String) where
  same_adapter_self : (a : AdapterSel) → same_adapter rt a a ≡ true
  unfolding same_adapter
  same_adapter_self a = rw (equal_self AdapterSel-discrete a) refl

  compare_kind_self : (k : PortKind nets.Net) → compare_kind nets rt bridge port k k ≡ nothing
  unfolding compare_kind compare_spp compare_ble compare_serial compare_tcp_server compare_clients
      compare_ble_server note_if restart_if
  compare_kind_self (tcp_client o) = compare_tcp_client_self o
  compare_kind_self (spp_client o) = rw (compare_tnc_self _ o) (
      rw
        (
          equal_self Mac-discrete o.reach.address,
          equal_self OptionNat-discrete o.reach.channel,
          same_adapter_self o.reach.adapter,
        )
        refl)
  compare_kind_self (ble_client o) =
      rw (compare_tnc_self _ o)
        (rw (equal_self Mac-discrete o.reach.address, same_adapter_self o.reach.adapter) refl)
  compare_kind_self (serial o) =
      rw (compare_tnc_self _ o) (rw (equal_self SerialDevice-discrete o.reach) refl)
  compare_kind_self (tcp_server o) =
      rw
        (
          equal_self Bool-discrete o.announce,
          equal_self Listen-discrete o.listen,
          equal_self (List-discrete nets.Net-discrete) o.allow,
          equal_self OptionNat-discrete o.max_clients,
        )
        refl
  compare_kind_self (ble_server o) =
      rw (same_adapter_self o.adapter, equal_self ℕ_discrete o.max_clients) refl

module _ (nets : Networks) (rt : Runtime) (bridge : String) (o n : Port nets.Net) where
  compare_noted-same :
      (compare_noted nets rt bridge o n).changes ≡ []
      → rt.adapter_mac ≡ none
      → (o.role ≡ n.role) × (o.kind ≡ n.kind)
  unfolding compare_noted restart_if nothing
  compare_noted-same e blind =
      let (r, e1) = keep-quiet _ "role" [] _ _ _ e in
      (
        equal-eq-true Role-discrete o.role n.role r,
        compare_kind-same nets rt blind bridge o.id o.kind n.kind e1,
      )

  compare_noted_self :
      o.role ≡ n.role → o.kind ≡ n.kind → compare_noted nets rt bridge o n ≡ nothing
  unfolding compare_noted
  compare_noted_self r k = rw (equal_of_eq Role-discrete r) (
      (λ i. compare_kind nets rt bridge o.id (k i) n.kind)
      ∙ compare_kind_self nets rt bridge o.id n.kind)

  -- While no adapter can be looked up, a port is reported as unchanged exactly if its role and all
  -- its settings are the same: no setting is forgotten in the comparison, and none is noted that
  -- did not change.
  pub compare_port-unchanged :
      rt.adapter_mac ≡ none
      → (is_unchanged (compare_port nets rt bridge o n).action ≡ true)
        ↔ ((o.role ≡ n.role) × (o.kind ≡ n.kind))
  unfolding compare_port action_of is_unchanged nothing
  compare_port-unchanged blind = (
    (λ e. compare_noted-same (action_of-nil (compare_noted nets rt bridge o n) e) blind),
    (λ (r, k). rw (compare_noted_self r k) refl),
  )

  -- Whatever adapters can be looked up.
  pub unchanged_of_same :
      o.role ≡ n.role
      → o.kind ≡ n.kind
      → is_unchanged (compare_port nets rt bridge o n).action ≡ true
  unfolding compare_port action_of is_unchanged nothing
  unchanged_of_same r k = rw (compare_noted_self r k) refl
