-- ===== src/Reconcile/Quiet.antt =====
-- src/reconcile.rs: a plan that reports no change disturbs nobody.
use Prim.Native.String.{String}
use kiss_tnc_bridge.Prelude.{
  Bool, true, false, List, [], ◌∷◌, ◌++◌, ◌≡◌, refl, arith, is_nil, if◌then◌else◌,
}
use kiss_tnc_bridge.Config.Networks.{Networks}
use kiss_tnc_bridge.Config.Model.{
  Port, PortKind, tcp_client, tcp_server, ble_server, spp_client, ble_client, serial, TcpClient,
  TcpServer, BleServer, TncPort, Spp, Ble,
}
use kiss_tnc_bridge.Bridge.State.{SessionId}
use kiss_tnc_bridge.Reconcile.Report.{PortPlan, is_unchanged}
use kiss_tnc_bridge.Reconcile.Ports.{Runtime, Noted, nothing, note_if, restart_if}
use kiss_tnc_bridge.Reconcile.Compare.{
  compare_port, compare_noted, compare_kind, compare_tcp_client, compare_tnc, compare_spp,
  compare_ble, compare_serial, compare_clients, compare_tcp_server, compare_ble_server, in_order,
  action_of,
}

-- Nothing noted means nothing done.
record Honest (n : Noted) : Type 0 where
  pub steady : n.changes ≡ [] → n.restart ≡ false
  pub keeps : n.changes ≡ [] → n.kick ≡ []

nothing-Honest : Honest nothing
unfolding nothing
nothing-Honest = record { steady = λ e. refl; keeps = λ e. refl }

pub append-ne-nil : {A : Type 0} (xs : List A) (x : A) → xs ++ x ∷ [] ≡ [] → ⊥
append-ne-nil [] x e = cc (e)
append-ne-nil (y ∷ xs) x e = cc (e)

cons-Honest :
    (x : String) (xs : List String) (b : Bool) (k : List SessionId)
    → Honest (record { changes = x ∷ xs; restart = b; kick = k })
cons-Honest x xs b k = record { steady = λ e. cc (e); keeps = λ e. cc (e) }

append-Honest :
    (xs : List String) (x : String) (b : Bool) (k : List SessionId)
    → Honest (record { changes = xs ++ x ∷ []; restart = b; kick = k })
append-Honest xs x b k = record {
  steady = λ e. absurd (append-ne-nil xs x e);
  keeps = λ e. absurd (append-ne-nil xs x e);
}

note_if-Honest : (b : Bool) (name : String) (n : Noted) → Honest n → Honest (note_if b name n)
unfolding note_if
note_if-Honest true name n h = append-Honest n.changes name n.restart n.kick
note_if-Honest false name n h = h

restart_if-Honest : (b : Bool) (name : String) (n : Noted) → Honest n → Honest (restart_if b name n)
unfolding restart_if
restart_if-Honest true name n h = append-Honest n.changes name true n.kick
restart_if-Honest false name n h = h

compare_tcp_client-Honest : (o n : TcpClient) → Honest (compare_tcp_client o n)
unfolding compare_tcp_client
compare_tcp_client-Honest o n =
    note_if-Honest _ "idle_timeout" _
      (note_if-Honest _ "connect" _ (restart_if-Honest _ "address" _ nothing-Honest))

compare_tnc-Honest :
    {T : Type 0} (r : Noted) (o n : TncPort T) → Honest r → Honest (compare_tnc r o n)
unfolding compare_tnc
compare_tnc-Honest r o n h = note_if-Honest _ "exit_kiss_on_disconnect" _ (
    note_if-Honest _ "idle_timeout" _
      (note_if-Honest _ "connect" _ (note_if-Honest _ "tnc" _ (restart_if-Honest _ "model" _ h))))

if-Honest : (b : Bool) (m n : Noted) → Honest m → Honest n → Honest (if b then m else n)
if-Honest true m n h k = h
if-Honest false m n h k = k

module _ (rt : Runtime) where
  compare_spp-Honest : (o n : Spp) → Honest (compare_spp rt o n)
  unfolding compare_spp
  compare_spp-Honest o n = search (if-Honest, restart_if-Honest, nothing-Honest)

  compare_ble-Honest : (o n : Ble) → Honest (compare_ble rt o n)
  unfolding compare_ble
  compare_ble-Honest o n = search (if-Honest, restart_if-Honest, nothing-Honest)

module _ (nets : Networks) (rt : Runtime) (bridge port : String) where
  compare_clients-Honest :
      (o n : TcpServer nets.Net) → Honest (compare_clients nets rt bridge port o n)
  unfolding compare_clients
  compare_clients-Honest o n = search (if-Honest, cons-Honest, append-Honest, nothing-Honest)

  compare_ble_server-Honest :
      (o n : BleServer) → Honest (compare_ble_server nets rt bridge port o n)
  unfolding compare_ble_server
  compare_ble_server-Honest o n = search (if-Honest, cons-Honest, restart_if-Honest, nothing-Honest)

  compare_tcp_server-Honest :
      (o n : TcpServer nets.Net) → Honest (compare_tcp_server nets rt bridge port o n)
  unfolding compare_tcp_server
  compare_tcp_server-Honest o n =
      search (if-Honest, note_if-Honest, restart_if-Honest, nothing-Honest, compare_clients-Honest)

  compare_kind-Honest : (o n : PortKind nets.Net) → Honest (compare_kind nets rt bridge port o n)
  unfolding compare_kind compare_serial
  compare_kind-Honest (tcp_client o) (tcp_client n) = compare_tcp_client-Honest o n
  compare_kind-Honest (spp_client o) (spp_client n) =
      compare_tnc-Honest _ o n (compare_spp-Honest rt o.reach n.reach)
  compare_kind-Honest (ble_client o) (ble_client n) =
      compare_tnc-Honest _ o n (compare_ble-Honest rt o.reach n.reach)
  compare_kind-Honest (serial o) (serial n) =
      compare_tnc-Honest _ o n (restart_if-Honest _ "serial" _ nothing-Honest)
  compare_kind-Honest (tcp_server o) (tcp_server n) = compare_tcp_server-Honest o n
  compare_kind-Honest (ble_server o) (ble_server n) = compare_ble_server-Honest o n
  compare_kind-Honest _ _ = restart_if-Honest true "type" _ nothing-Honest

nil_of_is_nil : {A : Type 0} (xs : List A) → is_nil xs ≡ true → xs ≡ []
nil_of_is_nil [] e = refl
nil_of_is_nil (x ∷ xs) e = cc (e)

pub action_of-nil : (n : Noted) → is_unchanged (action_of n) ≡ true → n.changes ≡ []
unfolding action_of is_unchanged
action_of-nil n e = nil_of_is_nil n.changes (ground arith)

module _ (nets : Networks) (rt : Runtime) (bridge : String) where
  compare_noted-Honest : (o n : Port nets.Net) → Honest (compare_noted nets rt bridge o n)
  unfolding compare_noted
  compare_noted-Honest o n =
      search (if-Honest, restart_if-Honest, nothing-Honest, compare_kind-Honest)

-- A port that a plan leaves alone.
pub record Undisturbed (p : PortPlan) : Type 0 where
  pub stays : p.disconnects ≡ []
  pub linked : p.drops_tnc_link ≡ false

module _ (nets : Networks) (rt : Runtime) (bridge : String) where
  pub compare_port-Undisturbed :
      (o n : Port nets.Net)
      → is_unchanged (compare_port nets rt bridge o n).action ≡ true
      → Undisturbed (compare_port nets rt bridge o n)
  unfolding compare_port in_order
  compare_port-Undisturbed o n e =
      let none_noted = action_of-nil (compare_noted nets rt bridge o n) e in
      let h = compare_noted-Honest nets rt bridge o n in
      record {
        stays = rw (h.steady none_noted, h.keeps none_noted) refl;
        linked = rw (h.steady none_noted) refl;
      }
