-- ===== src/Config/Validate/Valid.antt =====
-- src/config/validate.rs: what a config without errors is.
use kiss_tnc_bridge.Prelude.{
  Bool, true, false, not, ◌&&◌, ◌||◌, List, [], ◌∷◌, map, is_nil, all_of, All, Pairwise, ◌≡◌, ◌↔◌,
  refl, sym, ◌∙◌,
}
use kiss_tnc_bridge.Prelude.Decide.{String-discrete}
use kiss_tnc_bridge.Config.Addresses.{Mac-discrete}
use kiss_tnc_bridge.Config.Model.{Config, Bridge}
use kiss_tnc_bridge.Config.Ports.{incomplete}
use kiss_tnc_bridge.Config.Problem.{is_ok}
use kiss_tnc_bridge.Config.Validate.{errors_of, validate}
use kiss_tnc_bridge.Config.Validate.Duplicates.{
  Reach-discrete, adapter_errors, tnc_errors, bridge_errors, spp_key, ble_key, path_key,
}
use kiss_tnc_bridge.Config.Validate.Clashes.{clashes, enabled_bridges}
use kiss_tnc_bridge.Config.Validate.Warnings.{Host}
use kiss_tnc_bridge.Config.Validate.Distinct.{
  present, Nodup, apart-iff-Nodup, adapter_errors-apart, tnc_errors-apart,
}
use kiss_tnc_bridge.Config.Validate.Structure.{is_complete, is_sound, bridge_errors-apart}
use kiss_tnc_bridge.Config.Validate.Compatible.{Compatible, append_iff, clashes_iff}

-- A bridge in itself: its ports have ids of their own, and it is complete if it is enabled.
pub record Sound {N : Type 0} (b : Bridge N) : Type 0 where
  pub port_ids : Nodup (map (λ p. p.id) b.ports)
  pub complete : b.enabled ≡ true → incomplete b ≡ []

pub record Valid {N : Type 0} (c : Config N) : Type 0 where
  pub adapter_ids : Nodup (map (λ a. a.id) c.adapters)
  pub macs : Nodup (map (λ a. a.mac) c.adapters)
  pub tnc_ids : Nodup (map (λ t. t.id) c.tncs)
  pub spps : Nodup (present (map spp_key c.tncs))
  pub bles : Nodup (present (map ble_key c.tncs))
  pub paths : Nodup (present (map path_key c.tncs))
  pub bridge_ids : Nodup (map (λ b. b.id) c.bridges)
  pub names : Nodup (map (λ b. b.name) c.bridges)
  pub sound : All Sound c.bridges
  pub compatible : Pairwise Compatible (enabled_bridges c)

nil_iff :
    {A : Type 0} (e : Bool) (xs : List A) → ((not e || is_nil xs) ≡ true) ↔ (e ≡ true → xs ≡ [])
nil_iff true [] = (λ h e. refl, λ h. refl)
nil_iff true (x ∷ xs) = (λ h e. absurd (cc (h)), λ h. absurd (cc (h refl)))
nil_iff false xs = (λ h e. absurd (cc (e)), λ h. refl)

and_iff :
    {P Q : Type 0} (a b : Bool) → (a ≡ true) ↔ P → (b ≡ true) ↔ Q → ((a && b) ≡ true) ↔ (P × Q)
and_iff true b h k = (λ e. (h.0 refl, k.0 e), λ r. k.1 r.1)
and_iff false b h k = (λ e. absurd (cc (e)), λ r. h.1 r.0)

all_of_iff :
    {A : Type 0} (f : A → Bool) (P : A → Type 0)
    → ((x : A) → (f x ≡ true) ↔ P x)
    → (xs : List A) → (all_of f xs ≡ true) ↔ All P xs
all_of_iff f P h [] = (λ e. tt, λ t. refl)
all_of_iff f P h (x ∷ xs) = and_iff (f x) (all_of f xs) (h x) (all_of_iff f P h xs)

of_eq :
    {A P : Type 0} {b : Bool} (xs : List A)
    → is_nil xs ≡ b
    → (b ≡ true) ↔ P
    → (is_nil xs ≡ true) ↔ P
of_eq xs e h = (λ f. h.0 (sym e ∙ f), λ p. e ∙ h.1 p)

module _ {N : Type 0} where
  is_sound_iff : (b : Bridge N) → (is_sound b ≡ true) ↔ Sound b
  is_sound_iff b =
      let i =
        and_iff _ (is_complete b) (apart-iff-Nodup String-discrete (map (λ p. p.id) b.ports))
          (nil_iff b.enabled (incomplete b)) in
      (
        λ e. (let r = i.0 e in record { port_ids = r.0; complete = r.1 }),
        λ s. i.1 (s.port_ids, s.complete),
      )

  adapters_iff :
      (c : Config N)
      → (is_nil (adapter_errors [] [] c.adapters) ≡ true)
        ↔ (Nodup (map (λ a. a.id) c.adapters) × Nodup (map (λ a. a.mac) c.adapters))
  adapters_iff c = of_eq _ (adapter_errors-apart [] [] c.adapters) (
      and_iff _ _ (apart-iff-Nodup String-discrete (map (λ a. a.id) c.adapters))
        (apart-iff-Nodup Mac-discrete (map (λ a. a.mac) c.adapters)))

  tncs_iff :
      (c : Config N)
      → (is_nil (tnc_errors [] [] [] [] c.tncs) ≡ true) ↔ (
          ((Nodup (map (λ t. t.id) c.tncs) × Nodup (present (map spp_key c.tncs)))
            × Nodup (present (map ble_key c.tncs)))
          × Nodup (present (map path_key c.tncs)))
  tncs_iff c = of_eq _ (tnc_errors-apart [] [] [] [] c.tncs) (
      and_iff _ _
        (and_iff _ _
          (and_iff _ _ (apart-iff-Nodup String-discrete (map (λ t. t.id) c.tncs))
            (apart-iff-Nodup Reach-discrete (present (map spp_key c.tncs))))
          (apart-iff-Nodup Reach-discrete (present (map ble_key c.tncs))))
        (apart-iff-Nodup String-discrete (present (map path_key c.tncs))))

  bridges_iff :
      (c : Config N)
      → (is_nil (bridge_errors [] [] c.bridges) ≡ true) ↔ (
          (Nodup (map (λ b. b.id) c.bridges) × Nodup (map (λ b. b.name) c.bridges))
          × All Sound c.bridges)
  bridges_iff c = of_eq _ (bridge_errors-apart [] [] c.bridges) (
      and_iff _ _
        (and_iff _ _ (apart-iff-Nodup String-discrete (map (λ b. b.id) c.bridges))
          (apart-iff-Nodup String-discrete (map (λ b. b.name) c.bridges)))
        (all_of_iff is_sound Sound is_sound_iff c.bridges))

  errors_of_iff : (c : Config N) → (is_nil (errors_of c) ≡ true) ↔ Valid c
  unfolding errors_of
  errors_of_iff c =
      let i =
        append_iff _ (clashes (enabled_bridges c))
          (append_iff _ (bridge_errors [] [] c.bridges)
            (append_iff (adapter_errors [] [] c.adapters) (tnc_errors [] [] [] [] c.tncs)
              (adapters_iff c) (tncs_iff c))
            (bridges_iff c))
          (clashes_iff (enabled_bridges c)) in
      (
        λ e.
            (let (((a, t), b), k) = i.0 e in
              record {
                adapter_ids = a.0;
                macs = a.1;
                tnc_ids = t.0.0.0;
                spps = t.0.0.1;
                bles = t.0.1;
                paths = t.1;
                bridge_ids = b.0.0;
                names = b.0.1;
                sound = b.1;
                compatible = k;
              }),
        λ v. i.1 (
          (
            ((v.adapter_ids, v.macs), (((v.tnc_ids, v.spps), v.bles), v.paths)),
            ((v.bridge_ids, v.names), v.sound),
          ),
          v.compatible,
        ),
      )

-- A config passes, with or without a look at the host, exactly if adapters have their own ids and
-- MACs; TNCs have their own ids, their own pairs of an address and an adapter for SPP and for BLE,
-- and their own device paths; bridges have their own ids, names and port ids; each enabled bridge
-- is complete; and no two enabled bridges share a public name, a TNC, a listening socket or the
-- adapter of a BLE server.
pub validate-Valid :
    {N : Type 0} (h : Host) (c : Config N) (host_checks : Bool)
    → (is_ok (validate h c host_checks) ≡ true) ↔ Valid c
unfolding validate is_ok
validate-Valid h c host_checks = errors_of_iff c
