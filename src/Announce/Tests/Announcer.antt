-- ===== src/Announce/Tests/Announcer.antt =====
-- src/announce.rs: an announcer on a network where the name is taken.
use Prim.Native.String.{String}
use text.Mathlib.Text.{◌==◌ as str_eq}
use kiss_tnc_bridge.Prelude.{
  true, List, [], ◌∷◌, ◌≡◌, refl, Option, none, some, if◌then◌else◌, All, ◌⊎◌, inl, inr,
}
use kiss_tnc_bridge.Prelude.Results.{ok, err}
use kiss_tnc_bridge.Prelude.Maps.{get}
use kiss_tnc_bridge.Announce.Service.{Service, index, only_v4, any_iface, any_proto, distinct}
use kiss_tnc_bridge.Announce.Service.Apart.{Apart, Covered, distinct-Apart}
use kiss_tnc_bridge.Announce.Backend.{
  bridge, up, collision, publish, withdraw, BridgeAnn, Announcer, Backend, Input, cmd,
}
use kiss_tnc_bridge.Announce.Announcer.{serve, run, sync, new_announcer}
use kiss_tnc_bridge.Announce.Announcer.Groups.{got, given_back, times, IsFit, Kept}
use kiss_tnc_bridge.Announce.Announcer.Runs.{run-Kept}
use kiss_tnc_bridge.Announce.Announcer.Synced.{Synced, sync-Synced}

abbrev group_for : Option String → String
group_for none = "/group/1"
group_for (some g) = g

-- Another device has the name TH-D75.
abbrev lan : Backend
lan = record {
  answer =
      λ calls old name services. if str_eq name "TH-D75" then err collision else ok (group_for old);
  meanwhile = λ calls. [];
  can_write = λ calls s. true;
}

-- The same, where an operator gives the bridge a name while the second answer is awaited.
abbrev busy_lan : Backend
busy_lan = record lan {
  meanwhile =
      λ calls. elim calls [ [] ↦ [] | c ∷ [] ↦ [] | c ∷ d ∷ more ↦ ("ktbr0", "Shack") ∷ [] ];
}

abbrev wlan : Service
wlan = record { port = 8001; iface = index 2; proto = only_v4 }

abbrev everywhere : Service
everywhere = record { port = 8002; iface = any_iface; proto = any_proto }

abbrev day : List Input
day =
    cmd (bridge "ktbr0" "TH-D75" "TH-D75")
    ∷ cmd (up "ktbr0" "lan" wlan)
    ∷ cmd (up "ktbr0" "wan" everywhere)
    ∷ []

calls_of_day :
    (run lan day (new_announcer [] true)).calls
    ≡ withdraw "/group/1"
      ∷ publish (some "/group/1") "TH-D75 (2)" (wlan ∷ []) (ok "/group/1")
      ∷ publish none "TH-D75 (2)" (wlan ∷ []) (ok "/group/1")
      ∷ publish none "TH-D75" (wlan ∷ []) (err collision)
      ∷ []
unfolding run serve new_announcer
calls_of_day = refl

run-Kept_example :
    Kept "/group/1" (serve lan day (new_announcer [] true))
    × All IsFit (run lan day (new_announcer [] true)).calls
    × (times (got "/group/1") (run lan day (new_announcer [] true)).calls
        ≡ times (given_back "/group/1") (run lan day (new_announcer [] true)).calls)
run-Kept_example = run-Kept "/group/1" lan day [] true

abbrev known : BridgeAnn
known = record {
  configured = "TH-D75";
  name = "TH-D75";
  services = ("lan", wlan) ∷ ("wan", everywhere) ∷ [];
  group = none;
}

abbrev waiting : Announcer
waiting = record { bridges = ("ktbr0", known) ∷ []; store = []; available = true; calls = [] }

-- It is announced under the second name, and has the name that it was given.
left_on_lan :
    (sync busy_lan "ktbr0" waiting).calls
    ≡ publish none "TH-D75 (2)" (wlan ∷ []) (ok "/group/1")
      ∷ publish none "TH-D75" (wlan ∷ []) (err collision)
      ∷ []
unfolding sync
left_on_lan = refl

sync-Synced_example : Synced busy_lan "ktbr0" known [] (sync busy_lan "ktbr0" waiting)
unfolding get
sync-Synced_example = sync-Synced busy_lan "ktbr0" waiting known refl refl

abbrev IsHigh : Service → Type 0
IsHigh s = (s.port ≡ 8001) ⊎ (s.port ≡ 8002)

distinct-Apart_example :
    Apart (distinct known.services)
    × All (λ e. Covered (distinct known.services) e.1) known.services
    × All IsHigh (distinct known.services)
distinct-Apart_example = distinct-Apart IsHigh known.services (inl refl, (inr refl, tt))
