-- ===== src/Reconcile/Complete.antt =====
-- src/reconcile.rs: `compare_port` forgets no setting.
use Prim.Native.String.{String}
use native.Mathlib.Decide.{ℕ_discrete}
use mathlib.Core.Bool.{Bool-discrete}
use kiss_tnc_bridge.Prelude.{
  Bool, true, false, not, ◌&&◌, List, [], ◌∷◌, ◌++◌, ◌≡◌, refl, ap, ◌∙◌, none, arith, Bool-cases,
  if◌then◌else◌, inl, inr,
}
use kiss_tnc_bridge.Prelude.Decide.{String-discrete, List-discrete, equal, equal-eq-true}
use kiss_tnc_bridge.Config.Addresses.{
  AdapterSel, Mac-discrete, AdapterSel-discrete, Listen-discrete,
}
use kiss_tnc_bridge.Config.Networks.{Networks}
use kiss_tnc_bridge.Config.Model.{
  PortKind, tcp_client, tcp_server, ble_server, spp_client, ble_client, serial, TcpClient,
  TcpServer, BleServer, TncPort, Spp, Ble, SerialDevice, TncModel-discrete, ConnectPolicy-discrete,
  SerialDevice-discrete,
}
use kiss_tnc_bridge.Bridge.State.{SessionId}
use kiss_tnc_bridge.Reconcile.Ports.{Runtime, same_adapter, Noted, nothing, note_if, restart_if}
use kiss_tnc_bridge.Reconcile.Compare.{
  compare_kind, compare_tcp_client, compare_tnc, compare_spp, compare_ble, compare_serial,
  compare_clients, compare_tcp_server, compare_ble_server, OptionNat-discrete,
}
use kiss_tnc_bridge.Reconcile.Quiet.{append-ne-nil}

module _ {A : Type 0} (d : Discrete A) (a b : A) (name : String) (m : Noted) where
  note_if-same : (note_if (not (equal d a b)) name m).changes ≡ [] → (a ≡ b) × (m.changes ≡ [])
  unfolding note_if
  note_if-same e = elim (Bool-cases (equal d a b)) [
    | inl q ↦ (equal-eq-true d a b q, ground (arith, e, q))
    | inr q ↦ absurd (append-ne-nil m.changes name (ground (arith, e, q)))
  ]

  restart_if-same :
      (restart_if (not (equal d a b)) name m).changes ≡ [] → (a ≡ b) × (m.changes ≡ [])
  unfolding restart_if
  restart_if-same e = elim (Bool-cases (equal d a b)) [
    | inl q ↦ (equal-eq-true d a b q, ground (arith, e, q))
    | inr q ↦ absurd (append-ne-nil m.changes name (ground (arith, e, q)))
  ]

compare_tnc-same :
    {T : Type 0} (m : Noted) (o n : TncPort T)
    → (compare_tnc m o n).changes ≡ []
    → (o ≡ record n { reach = o.reach }) × (m.changes ≡ [])
unfolding compare_tnc
compare_tnc-same m o n e =
    let (exit, e1) =
      note_if-same Bool-discrete o.exit_kiss_on_disconnect n.exit_kiss_on_disconnect
        "exit_kiss_on_disconnect" _ e in
    let (idle, e2) = note_if-same ℕ_discrete o.idle_timeout n.idle_timeout "idle_timeout" _ e1 in
    let (connect, e3) = note_if-same ConnectPolicy-discrete o.connect n.connect "connect" _ e2 in
    let (tnc, e4) = note_if-same String-discrete o.tnc n.tnc "tnc" _ e3 in
    let (model, e5) = restart_if-same TncModel-discrete o.model n.model "model" m e4 in
    (
      λ i. record {
        tnc = tnc i;
        model = model i;
        reach = o.reach;
        connect = connect i;
        idle_timeout = idle i;
        exit_kiss_on_disconnect = exit i;
      },
      e5,
    )

pub restart_if-quiet :
    (b : Bool) (name : String) (m : Noted) → (restart_if b name m).changes ≡ [] → b ≡ false
unfolding restart_if
restart_if-quiet true name m e = absurd (append-ne-nil m.changes name e)
restart_if-quiet false name m e = refl

not_and : (a b : Bool) → not (a && b) ≡ false → (a ≡ true) × (b ≡ true)
not_and true true e = (refl, refl)
not_and true false e = cc (e)
not_and false b e = cc (e)

if-quiet :
    (b : Bool) (name : String) (m : Noted)
    → (if b then restart_if true name nothing else m).changes ≡ []
    → (b ≡ false) × (m.changes ≡ [])
unfolding restart_if nothing
if-quiet true name m e = cc (e)
if-quiet false name m e = (refl, e)

pub keep-quiet :
    (b : Bool) (x : String) (xs : List String) (r : Bool) (k : List SessionId) (m : Noted)
    → (if b then m else record { changes = x ∷ xs; restart = r; kick = k }).changes ≡ []
    → (b ≡ true) × (m.changes ≡ [])
keep-quiet true x xs r k m e = (refl, e)
keep-quiet false x xs r k m e = cc (e)

keep_append-quiet :
    (b : Bool) (xs : List String) (x : String) (r : Bool) (k : List SessionId) (m : Noted)
    → (if b then m else record { changes = xs ++ x ∷ []; restart = r; kick = k }).changes ≡ []
    → (b ≡ true) × (m.changes ≡ [])
keep_append-quiet true xs x r k m e = (refl, e)
keep_append-quiet false xs x r k m e = absurd (append-ne-nil xs x e)

compare_tcp_client-same : (o n : TcpClient) → (compare_tcp_client o n).changes ≡ [] → o ≡ n
unfolding compare_tcp_client
compare_tcp_client-same o n e =
    let (idle, e1) = note_if-same ℕ_discrete o.idle_timeout n.idle_timeout "idle_timeout" _ e in
    let (connect, e2) = note_if-same ConnectPolicy-discrete o.connect n.connect "connect" _ e1 in
    let (h, p) = not_and _ _ (restart_if-quiet _ "address" nothing e2) in
    let host = equal-eq-true String-discrete o.host n.host h in
    let port = equal-eq-true ℕ_discrete o.port n.port p in
    λ i. record { host = host i; port = port i; connect = connect i; idle_timeout = idle i }

module _ (rt : Runtime) (blind : rt.adapter_mac ≡ none) where
  same_adapter-eq : (a b : AdapterSel) → not (same_adapter rt a b) ≡ false → a ≡ b
  unfolding same_adapter
  same_adapter-eq a b e = equal-eq-true AdapterSel-discrete a b (ground (arith, e, blind))

  compare_spp-same : (o n : Spp) → (compare_spp rt o n).changes ≡ [] → o ≡ n
  unfolding compare_spp
  compare_spp-same o n e =
      let (moved, e1) = if-quiet _ "spp" _ e in
      let (a, c) = not_and _ _ moved in
      let address = equal-eq-true Mac-discrete o.address n.address a in
      let channel = equal-eq-true OptionNat-discrete o.channel n.channel c in
      let adapter =
        same_adapter-eq o.adapter n.adapter (restart_if-quiet _ "spp.adapter" nothing e1) in
      λ i. record { address = address i; adapter = adapter i; channel = channel i }

  compare_ble-same : (o n : Ble) → (compare_ble rt o n).changes ≡ [] → o ≡ n
  unfolding compare_ble
  compare_ble-same o n e =
      let (moved, e1) = if-quiet (not (equal Mac-discrete o.address n.address)) "ble" _ e in
      let address = equal-eq-true Mac-discrete o.address n.address (ground (arith, moved)) in
      let adapter =
        same_adapter-eq o.adapter n.adapter (restart_if-quiet _ "ble.adapter" nothing e1) in
      λ i. record { address = address i; adapter = adapter i }

  compare_ble_server-same :
      (nets : Networks) (bridge port : String) (o n : BleServer)
      → (compare_ble_server nets rt bridge port o n).changes ≡ []
      → o ≡ n
  unfolding compare_ble_server
  compare_ble_server-same nets bridge port o n e =
      let (moved, e1) = if-quiet _ "adapter" _ e in
      let adapter = same_adapter-eq o.adapter n.adapter moved in
      let clients =
        equal-eq-true ℕ_discrete o.max_clients n.max_clients
          (keep-quiet _ "max_clients" [] _ _ _ e1).0 in
      λ i. record { adapter = adapter i; max_clients = clients i }

compare_serial-same : (o n : SerialDevice) → (compare_serial o n).changes ≡ [] → o ≡ n
unfolding compare_serial
compare_serial-same o n e = (restart_if-same SerialDevice-discrete o n "serial" nothing e).0

module _ (nets : Networks) (rt : Runtime) (bridge port : String) (o n : TcpServer nets.Net) where
  compare_clients-same :
      (compare_clients nets rt bridge port o n).changes ≡ []
      → (o.allow ≡ n.allow) × (o.max_clients ≡ n.max_clients)
  unfolding compare_clients nothing
  compare_clients-same e =
      let (c, e1) = keep_append-quiet _ _ "max_clients" _ _ _ e in
      let (a, e2) = keep-quiet _ "allow" [] _ _ _ e1 in
      (
        equal-eq-true (List-discrete nets.Net-discrete) o.allow n.allow a,
        equal-eq-true OptionNat-discrete o.max_clients n.max_clients c,
      )

  compare_tcp_server-same : (compare_tcp_server nets rt bridge port o n).changes ≡ [] → o ≡ n
  unfolding compare_tcp_server restart_if nothing
  compare_tcp_server-same e =
      let (announce, e1) = note_if-same Bool-discrete o.announce n.announce "announce" _ e in
      let (l, e2) = keep-quiet _ "listen" [] _ _ _ e1 in
      let listen = equal-eq-true Listen-discrete o.listen n.listen l in
      let (allow, clients) = compare_clients-same e2 in
      λ i. record {
        listen = listen i;
        max_clients = clients i;
        allow = allow i;
        announce = announce i;
      }

reached_same :
    {T : Type 0} (o n : TncPort T) → o ≡ record n { reach = o.reach } → o.reach ≡ n.reach → o ≡ n
reached_same o n p q = p ∙ λ i. record n { reach = q i }

module _ (nets : Networks) (rt : Runtime) (blind : rt.adapter_mac ≡ none)
    (bridge port : String) where
  pub compare_kind-same :
      (o n : PortKind nets.Net) → (compare_kind nets rt bridge port o n).changes ≡ [] → o ≡ n
  unfolding compare_kind compare_serial
  compare_kind-same (tcp_client o) (tcp_client n) e = ap tcp_client (compare_tcp_client-same o n e)
  compare_kind-same (spp_client o) (spp_client n) e =
      let (p, e1) = compare_tnc-same _ o n e in
      ap spp_client (reached_same o n p (compare_spp-same rt blind o.reach n.reach e1))
  compare_kind-same (ble_client o) (ble_client n) e =
      let (p, e1) = compare_tnc-same _ o n e in
      ap ble_client (reached_same o n p (compare_ble-same rt blind o.reach n.reach e1))
  compare_kind-same (serial o) (serial n) e =
      let (p, e1) = compare_tnc-same _ o n e in
      ap serial (reached_same o n p (compare_serial-same o.reach n.reach e1))
  compare_kind-same (tcp_server o) (tcp_server n) e =
      ap tcp_server (compare_tcp_server-same nets rt bridge port o n e)
  compare_kind-same (ble_server o) (ble_server n) e =
      ap ble_server (compare_ble_server-same rt blind nets bridge port o n e)
  compare_kind-same _ _ e = cc (restart_if-quiet true "type" nothing e)
