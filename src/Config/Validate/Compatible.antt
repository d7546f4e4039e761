-- ===== src/Config/Validate/Compatible.antt =====
-- src/config/validate.rs: no conflict is reported exactly if enabled bridges share nothing.
use Prim.Native.String.{String, ◌++◌ as append}
use kiss_tnc_bridge.Prelude.{
  true, false, not, List, [], ◌∷◌, ◌++◌, some, is_nil, flat_map, All, Pairwise, ◌≡◌, ◌≢◌, ◌↔◌, refl,
  sym, ap, ◌∙◌, arith, Bool-cases, Option-cases, inl, inr,
}
use kiss_tnc_bridge.Prelude.Decide.{String-discrete, equal, equal-eq-true, equal_of_eq}
use kiss_tnc_bridge.Config.Problem.{problem_if}
use kiss_tnc_bridge.Config.Addresses.{AdapterSel-discrete, conflicts_with}
use kiss_tnc_bridge.Config.Model.{
  Bridge, Port, PortKind, TcpServer, BleServer, tcp_client, tcp_server, ble_server, spp_client,
  ble_client, serial,
}
use kiss_tnc_bridge.Config.Ports.{tnc_id}
use kiss_tnc_bridge.Config.Problem.{Message, Problem, tnc_taken, listen_taken, adapter_taken}
use kiss_tnc_bridge.Config.Validate.Clashes.{
  tnc_clash, kind_clash, port_clash, bridge_clash, clashes,
}
use kiss_tnc_bridge.Config.Validate.Distinct.{is_nil-problem_if}

-- Ports of two bridges that can both be open.
pub record PortsApart {N : Type 0} (k l : PortKind N) : Type 0 where
  pub tncs : (t : String) → tnc_id k ≡ some t → tnc_id l ≢ some t
  pub listeners :
      (s t : TcpServer N)
      → k ≡ tcp_server s
      → l ≡ tcp_server t
      → conflicts_with s.listen t.listen ≡ false
  pub adapters : (s t : BleServer) → k ≡ ble_server s → l ≡ ble_server t → s.adapter ≢ t.adapter

-- Bridges that can both run.
pub record Compatible {N : Type 0} (a b : Bridge N) : Type 0 where
  pub names : a.public_name ≢ b.public_name
  pub ports : All (λ p. All (λ q. PortsApart p.kind q.kind) b.ports) a.ports

equal_of_ne : {A : Type 0} (d : Discrete A) (a b : A) → a ≢ b → equal d a b ≡ false
equal_of_ne d a b n = elim (Bool-cases (equal d a b)) [
  | inl e ↦ absurd (n (equal-eq-true d a b e))
  | inr e ↦ e
]

ne_of_nil :
    {A : Type 0} (d : Discrete A) (a b : A) (object : String) (m : Message)
    → is_nil (problem_if (equal d a b) object m) ≡ true
    → a ≢ b
ne_of_nil d a b object m e p =
    ground (arith, e, is_nil-problem_if (equal d a b) object m, equal_of_eq d p)

nil_of_ne :
    {A : Type 0} (d : Discrete A) (a b : A) (object : String) (m : Message)
    → a ≢ b
    → is_nil (problem_if (equal d a b) object m) ≡ true
nil_of_ne d a b object m n = is_nil-problem_if (equal d a b) object m ∙ ap not (equal_of_ne d a b n)

module _ {N : Type 0} (a : Bridge N) (p : Port N) (b : Bridge N) (q : Port N) where
  tnc_clash-nil :
      ((t : String) → tnc_id p.kind ≡ some t → tnc_id q.kind ≢ some t)
      → is_nil (tnc_clash a p b q) ≡ true
  unfolding tnc_clash
  tnc_clash-nil h = elim (Option-cases (tnc_id p.kind)) [
    | inl e ↦ rw (e, tnc_clash) refl
    | inr (s, e) ↦ elim (Option-cases (tnc_id q.kind)) [
      | inl f ↦ rw (e, tnc_clash, f) refl
      | inr (t, f) ↦
          rw (e, tnc_clash, f)
            (nil_of_ne String-discrete s t _ _ (λ x. h s e (f ∙ ap some (sym x))))
    ]
  ]

  tnc_clash-some :
      (s t : String)
      → tnc_id p.kind ≡ some s
      → tnc_id q.kind ≡ some t
      → tnc_clash a p b q
        ≡ problem_if
            (equal String-discrete s t)
            (append "bridge " (append b.id (append " port " q.id)))
            (tnc_taken t a.id p.id)
  unfolding tnc_clash
  tnc_clash-some s t e f = rw (e, tnc_clash, f) refl

  tnc_clash-apart :
      is_nil (tnc_clash a p b q) ≡ true
      → (t : String) → tnc_id p.kind ≡ some t
      → tnc_id q.kind ≢ some t
  tnc_clash-apart e t f g =
      ne_of_nil String-discrete t t _ _ (sym (ap is_nil (tnc_clash-some t t f g)) ∙ e) refl

module _ {N : Type 0} (object bridge port : String) where
  kind_clash-nil :
      (k l : PortKind N)
      → ((s t : TcpServer N)
          → k ≡ tcp_server s
          → l ≡ tcp_server t
          → conflicts_with s.listen t.listen ≡ false)
      → ((s t : BleServer) → k ≡ ble_server s → l ≡ ble_server t → s.adapter ≢ t.adapter)
      → is_nil (kind_clash k l object bridge port) ≡ true
  unfolding kind_clash problem_if
  kind_clash-nil (tcp_server s) (tcp_server t) d g = rw (d s t refl refl) refl
  kind_clash-nil (ble_server s) (ble_server t) d g =
      nil_of_ne AdapterSel-discrete s.adapter t.adapter _ _ (g s t refl refl)
  kind_clash-nil (tcp_server s) l d g = refl
  kind_clash-nil (ble_server s) l d g = refl
  kind_clash-nil (tcp_client s) l d g = refl
  kind_clash-nil (spp_client s) l d g = refl
  kind_clash-nil (ble_client s) l d g = refl
  kind_clash-nil (serial s) l d g = refl

  listener_clash :
      (k l : PortKind N) (s t : TcpServer N)
      → is_nil (kind_clash k l object bridge port) ≡ true
      → k ≡ tcp_server s
      → l ≡ tcp_server t
      → conflicts_with s.listen t.listen ≡ false
  unfolding kind_clash
  listener_clash k l s t e f g =
      let e' : is_nil (kind_clash (tcp_server s) (tcp_server t) object bridge port) ≡ true =
        (λ i. is_nil (kind_clash (sym f i) (sym g i) object bridge port)) ∙ e in
      ground (
        arith,
        e',
        is_nil-problem_if (conflicts_with s.listen t.listen) object
            (listen_taken t.listen bridge port s.listen),
      )

  adapter_clash :
      (k l : PortKind N) (s t : BleServer)
      → is_nil (kind_clash k l object bridge port) ≡ true
      → k ≡ ble_server s
      → l ≡ ble_server t
      → s.adapter ≢ t.adapter
  unfolding kind_clash
  adapter_clash k l s t e f g =
      ne_of_nil AdapterSel-discrete s.adapter t.adapter object (adapter_taken t.adapter bridge port)
        ((λ i. is_nil (kind_clash (sym f i) (sym g i) object bridge port)) ∙ e)

pub append_iff :
    {A P Q : Type 0} (xs ys : List A)
    → (is_nil xs ≡ true) ↔ P
    → (is_nil ys ≡ true) ↔ Q
    → (is_nil (xs ++ ys) ≡ true) ↔ (P × Q)
append_iff [] ys h k = (λ e. (h.0 refl, k.0 e), λ r. k.1 r.1)
append_iff (x ∷ xs) ys h k = (λ e. absurd (cc (e)), λ r. h.1 r.0)

-- A loop reports nothing exactly if no round of it does.
flat_map_iff :
    {A : Type 0} (f : A → List Problem) (P : A → Type 0)
    → ((x : A) → (is_nil (f x) ≡ true) ↔ P x)
    → (xs : List A) → (is_nil (flat_map f xs) ≡ true) ↔ All P xs
unfolding flat_map
flat_map_iff f P h [] = (λ e. tt, λ t. refl)
flat_map_iff f P h (x ∷ xs) = append_iff (f x) (flat_map f xs) (h x) (flat_map_iff f P h xs)

module _ {N : Type 0} (a b : Bridge N) where
  kind_clash_iff :
      (p q : Port N) (object : String)
      → (is_nil (kind_clash p.kind q.kind object a.id p.id) ≡ true) ↔ (
          ((s t : TcpServer N)
            → p.kind ≡ tcp_server s
            → q.kind ≡ tcp_server t
            → conflicts_with s.listen t.listen ≡ false)
          × ((s t : BleServer)
              → p.kind ≡ ble_server s
              → q.kind ≡ ble_server t
              → s.adapter ≢ t.adapter))
  kind_clash_iff p q object = (
    λ e. (
      λ s t. listener_clash object a.id p.id p.kind q.kind s t e,
      λ s t. adapter_clash object a.id p.id p.kind q.kind s t e,
    ),
    λ r. kind_clash-nil object a.id p.id p.kind q.kind r.0 r.1,
  )

  port_clash_iff : (p q : Port N) → (is_nil (port_clash a p b q) ≡ true) ↔ PortsApart p.kind q.kind
  unfolding port_clash
  port_clash_iff p q =
      let i =
        append_iff (tnc_clash a p b q) (kind_clash p.kind q.kind _ a.id p.id)
          (tnc_clash-apart a p b q, tnc_clash-nil a p b q) (kind_clash_iff p q _) in
      (
        λ e. (let r = i.0 e in record { tncs = r.0; listeners = r.1.0; adapters = r.1.1 }),
        λ d. i.1 (d.tncs, (d.listeners, d.adapters)),
      )

  bridge_clash_iff : (is_nil (bridge_clash a b) ≡ true) ↔ Compatible a b
  unfolding bridge_clash
  bridge_clash_iff =
      let i =
        append_iff (problem_if (equal String-discrete a.public_name b.public_name) _ _) _
          (
            ne_of_nil String-discrete a.public_name b.public_name _ _,
            nil_of_ne String-discrete a.public_name b.public_name _ _,
          )
          (flat_map_iff (λ p. flat_map (port_clash a p b) b.ports) _
            (λ p. flat_map_iff (port_clash a p b) _ (port_clash_iff p) b.ports) a.ports) in
      (λ e. (let r = i.0 e in record { names = r.0; ports = r.1 }), λ c. i.1 (c.names, c.ports))

pub clashes_iff :
    {N : Type 0} (bs : List (Bridge N)) → (is_nil (clashes bs) ≡ true) ↔ Pairwise Compatible bs
unfolding clashes
clashes_iff [] = (λ e. tt, λ t. refl)
clashes_iff (a ∷ bs) =
    append_iff (flat_map (bridge_clash a) bs) (clashes bs)
      (flat_map_iff (bridge_clash a) (Compatible a) (bridge_clash_iff a) bs) (clashes_iff bs)
