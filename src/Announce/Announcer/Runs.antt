-- ===== src/Announce/Announcer/Runs.antt =====
-- src/announce.rs: whatever arrives, the announcer loses no group, and at its end it has none.
use Prim.Native.String.{String}
use kiss_tnc_bridge.Prelude.{
  Bool, true, false, List, [], ◌∷◌, ◌≡◌, arith, Option-cases, inl, inr, All,
}
use kiss_tnc_bridge.Config.State.{State}
use kiss_tnc_bridge.Announce.Backend.{
  Cmd, bridge, forget, up, down, Event, established, collided, failed, server_up, server_down,
  Announcer, Backend, Input, cmd, event, renamed, withdraw_groups, bridge_for, quiet_ids,
}
use kiss_tnc_bridge.Announce.Announcer.{on_cmd, on_event, on_input, serve, run, new_announcer}
use kiss_tnc_bridge.Announce.Announcer.Groups.{
  got, given_back, times, IsFit, Kept, withdraw_groups-Kept, held-withdraw_groups,
}
use kiss_tnc_bridge.Announce.Announcer.Kept.{
  given_name-Kept, rename-Kept, on_bridge-Kept, on_forget-Kept, on_up-Kept, on_down-Kept,
  sync_all-Kept,
}

module _ (g : String) (backend : Backend) where
  on_cmd-Kept : (c : Cmd) (a : Announcer) → Kept g a → Kept g (on_cmd backend c a)
  unfolding on_cmd
  on_cmd-Kept (bridge id configured name) a k = on_bridge-Kept g backend id configured name a k
  on_cmd-Kept (forget id) a k = on_forget-Kept g backend id a k
  on_cmd-Kept (up id port service) a k = on_up-Kept g backend id port service a k
  on_cmd-Kept (down id port) a k = on_down-Kept g backend id port a k

  -- Whether Avahi is there makes no difference to the account.
  available-Kept : (now : Bool) (a : Announcer) → Kept g a → Kept g (record a { available = now })
  available-Kept now a k = record { balance = k.balance; fit = k.fit }

  on_event-Kept : (e : Event) (a : Announcer) → Kept g a → Kept g (on_event backend e a)
  unfolding on_event
  on_event-Kept (established h) a k = k
  on_event-Kept (collided h) a k = elim (Option-cases (bridge_for h a)) [
    | inl e ↦ rw (on_event, e) k
    | inr (found, e) ↦ rw (on_event, e) (rename-Kept g backend found.0 a k)
  ]
  on_event-Kept (failed h why) a k = k
  on_event-Kept server_up a k =
      sync_all-Kept g backend (quiet_ids a.bridges) (record a { available = true })
        (available-Kept true a k)
  on_event-Kept server_down a k =
      available-Kept false (withdraw_groups a) (withdraw_groups-Kept g a k)

  on_input-Kept : (x : Input) (a : Announcer) → Kept g a → Kept g (on_input backend x a)
  unfolding on_input
  on_input-Kept (cmd c) a k = on_cmd-Kept c a k
  on_input-Kept (event e) a k = on_event-Kept e a k
  on_input-Kept (renamed id name) a k = given_name-Kept g backend id name a k

  serve-Kept : (xs : List Input) (a : Announcer) → Kept g a → Kept g (serve backend xs a)
  unfolding serve
  serve-Kept [] a k = k
  serve-Kept (x ∷ xs) a k = serve-Kept xs (on_input backend x a) (on_input-Kept x a k)

  new_announcer-Kept : (store : State) (available : Bool) → Kept g (new_announcer store available)
  unfolding new_announcer
  new_announcer-Kept store available = record { balance = omega arith; fit = tt }

  -- Whatever commands, events and new names arrive, and whatever the backend answers, each group
  -- that the announcer got is held by a bridge or was given back to the backend, as often as it was
  -- got; every announcement has services, no two of which overlap; and behind the end of run every
  -- group was given back.
  pub run-Kept :
      (xs : List Input) (store : State) (available : Bool)
      → Kept g (serve backend xs (new_announcer store available))
        × All IsFit (run backend xs (new_announcer store available)).calls
        × (times (got g) (run backend xs (new_announcer store available)).calls
            ≡ times (given_back g) (run backend xs (new_announcer store available)).calls)
  unfolding run
  run-Kept xs store available =
      let k = serve-Kept xs (new_announcer store available) (new_announcer-Kept store available) in
      let left = serve backend xs (new_announcer store available) in
      let z = withdraw_groups-Kept g left k in
      (k, z.fit, omega (arith, z.balance, held-withdraw_groups g left))
