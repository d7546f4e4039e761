-- ===== src/Reconcile/Reload.antt =====
-- src/reconcile.rs: the plan of a reload that changes nothing.
use Prim.Native.String.{String}
use kiss_tnc_bridge.Prelude.{
  true, false, not, List, [], ◌∷◌, map, some, all_of, All, All-map, ◌≡◌, ◌≢◌, refl, sym,
  if◌then◌else◌,
}
use kiss_tnc_bridge.Prelude.Maps.{put, get}
use kiss_tnc_bridge.Prelude.Maps.Keys.{
  str_eq_self, str_eq_ne, KeysApart, found_in, put-All, put-KeysApart,
}
use kiss_tnc_bridge.Prelude.Decide.{String-discrete, equal, equal_self}
use kiss_tnc_bridge.Config.Networks.{Networks}
use kiss_tnc_bridge.Config.Model.{Port, Bridge, Config, AppParams-discrete}
use kiss_tnc_bridge.Config.Validate.Distinct.{Nodup}
use kiss_tnc_bridge.Config.Validate.Valid.{Valid, Sound}
use kiss_tnc_bridge.Reconcile.Report.{is_unchanged, is_noop}
use kiss_tnc_bridge.Reconcile.Ports.{Runtime}
use kiss_tnc_bridge.Reconcile.Bridges.{
  change_if, find_port, running, running_from, gone_ports, kept_ports, compare_bridge, stopping,
  staying, plan,
}
use kiss_tnc_bridge.Reconcile.Unchanged.{unchanged_of_same}

change_if_self :
    {A : Type 0} (d : Discrete A) (a : A) (name : String) → change_if (not (equal d a a)) name ≡ []
unfolding change_if
change_if_self d a name = rw (equal_self d a) refl

module _ {N : Type 0} where
  -- What the map of running bridges keeps while bridges with other ids, `bs`, are still to come.
  record Tidy (m : List (String × Bridge N)) (bs : List (Bridge N)) : Type 0 where
    pub apart : KeysApart m
    pub sound : All (λ e. Sound e.1) m
    pub ahead : All (λ e. All (λ i. e.0 ≢ i) (map (λ b. b.id) bs)) m

  put-Tidy :
      (b : Bridge N) (m : List (String × Bridge N)) (bs : List (Bridge N))
      → Sound b
      → All (λ i. b.id ≢ i) (map (λ b. b.id) bs)
      → Tidy m (b ∷ bs)
      → Tidy (put b.id b m) bs
  put-Tidy b m bs s n t = record {
    apart = put-KeysApart b.id b m (All-map _ _ (λ e h p. h.0 (sym p)) m t.ahead) t.apart;
    sound = put-All (λ e. Sound e.1) b.id b m s t.sound;
    ahead = put-All _ b.id b m n (All-map _ _ (λ e h. h.1) m t.ahead);
  }

  skip-Tidy :
      (b : Bridge N) (m : List (String × Bridge N)) (bs : List (Bridge N))
      → Tidy m (b ∷ bs)
      → Tidy m bs
  skip-Tidy b m bs t = record {
    apart = t.apart;
    sound = t.sound;
    ahead = All-map _ _ (λ e h. h.1) m t.ahead;
  }

  running_from-Tidy :
      (m : List (String × Bridge N)) (bs : List (Bridge N))
      → Nodup (map (λ b. b.id) bs)
      → All Sound bs
      → Tidy m bs
      → Tidy (running_from m bs) []
  unfolding running_from
  running_from-Tidy m [] n s t = t
  running_from-Tidy m (b ∷ bs) n s t =
      running_from-Tidy (if b.enabled then put b.id b m else m) bs n.1 s.1
        (elim b.enabled as (λ x. Tidy (if x then put b.id b m else m) bs) [
          | true ↦ put-Tidy b m bs s.0 n.0 t
          | false ↦ skip-Tidy b m bs t
        ])

  running-Tidy : (c : Config N) → Valid c → Tidy (running c) []
  unfolding running
  running-Tidy c v =
      running_from-Tidy [] c.bridges v.bridge_ids v.sound
        (record { apart = tt; sound = tt; ahead = tt })

  port_behind :
      (q : Port N) (m l : List (Port N))
      → All (λ i. q.id ≢ i) (map (λ p. p.id) l)
      → All (λ p. find_port p.id m ≡ some p) l
      → All (λ p. find_port p.id (q ∷ m) ≡ some p) l
  unfolding find_port
  port_behind q m [] n h = tt
  port_behind q m (p ∷ l) n h = (rw (str_eq_ne q.id p.id n.0) h.0, port_behind q m l n.1 h.1)

  ports_in :
      (ps : List (Port N)) → Nodup (map (λ p. p.id) ps) → All (λ p. find_port p.id ps ≡ some p) ps
  unfolding find_port
  ports_in [] n = tt
  ports_in (p ∷ ps) n = (rw (str_eq_self p.id) refl, port_behind p ps ps n.0 (ports_in ps n.1))

  none_gone :
      (rt : Runtime) (bridge : String) (l ps : List (Port N))
      → All (λ p. find_port p.id ps ≡ some p) l
      → gone_ports rt bridge l ps ≡ []
  unfolding gone_ports
  none_gone rt bridge [] ps h = refl
  none_gone rt bridge (p ∷ l) ps h = rw (h.0, none_gone rt bridge l ps h.1) refl

module _ (nets : Networks) (rt : Runtime) where
  none_stopping :
      (l m : List (String × Bridge nets.Net))
      → All (λ e. get e.0 m ≡ some e.1) l
      → stopping nets rt l m ≡ []
  unfolding stopping
  none_stopping [] m h = refl
  none_stopping (e ∷ l) m h = rw (h.0, none_stopping l m h.1) refl

  kept_unchanged :
      (bridge : String) (ps l : List (Port nets.Net))
      → All (λ p. find_port p.id ps ≡ some p) l
      → all_of (λ p. is_unchanged p.action) (kept_ports nets rt bridge ps l) ≡ true
  unfolding kept_ports
  kept_unchanged bridge ps [] h = refl
  kept_unchanged bridge ps (p ∷ l) h =
      rw (h.0, unchanged_of_same nets rt bridge p p refl refl, kept_unchanged bridge ps l h.1) refl

  bridge_unchanged :
      (b : Bridge nets.Net) → Sound b → is_unchanged (compare_bridge nets rt b b).action ≡ true
  unfolding compare_bridge is_unchanged
  bridge_unchanged b s =
      let found = ports_in b.ports s.port_ids in
      rw
        (
          change_if_self String-discrete b.name "name",
          change_if_self String-discrete b.public_name "public_name",
          change_if_self AppParams-discrete b.app_params "app_params",
          none_gone rt b.id b.ports b.ports found,
          kept_unchanged b.id b.ports b.ports found,
        )
        refl

  staying_unchanged :
      (m l : List (String × Bridge nets.Net))
      → All (λ e. Sound e.1) l
      → All (λ e. get e.0 m ≡ some e.1) l
      → all_of (λ b. is_unchanged b.action) (staying nets rt m l) ≡ true
  unfolding staying
  staying_unchanged m [] s h = refl
  staying_unchanged m (e ∷ l) s h =
      rw (h.0, bridge_unchanged e.1 s.0, staying_unchanged m l s.1 h.1) refl

  -- A reload of a valid config as it runs already has nothing to do, whatever sessions there are.
  pub reload-Valid : (c : Config nets.Net) → Valid c → is_noop (plan nets rt c c) ≡ true
  unfolding is_noop plan
  reload-Valid c v =
      let t = running-Tidy c v in
      let found = found_in (running c) t.apart in
      rw
        (
          change_if_self String-discrete c.global.log_level "log_level",
          change_if_self String-discrete c.control.group "control.group",
          none_stopping (running c) (running c) found,
          staying_unchanged (running c) (running c) t.sound found,
        )
        refl
