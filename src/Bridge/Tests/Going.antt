-- ===== src/Bridge/Tests/Going.antt =====
-- A link that always connects and whose first attempt fails.
use kiss_tnc_bridge.Prelude.{ℕ, ◌≤◌, true, false, [], ◌≡◌, refl, none}
use kiss_tnc_bridge.Config.Settings.{always}
use kiss_tnc_bridge.Bridge.State.{
  Run, TncSettings, connected_link, is_idle, link_failed, other_error,
}
use kiss_tnc_bridge.Bridge.Link.{start_connect, start_backoff, wants_link, is_always}
use kiss_tnc_bridge.Bridge.Tnc.{on_link}
use kiss_tnc_bridge.Bridge.Run.{initial, begin, link_step}
use kiss_tnc_bridge.Bridge.Going.Reachable.{Heedful, begun, and_then, wanted-Heedful}
use kiss_tnc_bridge.Bridge.Going.Attempts.{Attempts, Attempts-Heedful}
use kiss_tnc_bridge.Bridge.Tests.Setup.{to_app, to_link, settings}

abbrev keen : TncSettings
keen = record settings { connect = always }

abbrev failing : Run to_app.Sender to_link.Sender
failing =
    on_link to_link 10 (link_failed (other_error "no answer")) (begin 0 (initial "spp" keen none 0))

failing_reached : Heedful to_app to_link (begin 0 (initial "spp" keen none 0)) failing
unfolding begin initial start_connect is_always
failing_reached = and_then begun (link_step 10 (link_failed (other_error "no answer")) tt) tt

failing_wanted : wants_link failing ≡ true
unfolding begin initial start_connect is_always on_link wants_link start_backoff
failing_wanted = refl

wanted-Heedful_example : is_idle failing.link ≡ false
wanted-Heedful_example =
    wanted-Heedful to_app to_link 0 "spp" keen none failing_reached failing_wanted

Attempts-Heedful_example :
    (n : ℕ) × (s : Run to_app.Sender to_link.Sender) × (n ≤ 2)
    × Attempts to_link failing n s
    × (s.link ≡ connected_link)
Attempts-Heedful_example =
    Attempts-Heedful to_app to_link 0 "spp" keen none failing_reached failing_wanted 1010 []
