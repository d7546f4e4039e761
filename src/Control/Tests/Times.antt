-- ===== src/Control/Tests/Times.antt =====
-- src/control/protocol.rs: times.
use kiss_tnc_bridge.Prelude.{◌+◌, ◌≡◌, refl, none, some}
use kiss_tnc_bridge.Control.Times.{civil, rfc3339}
use kiss_tnc_bridge.Control.Times.Calendar.{IsDay}
use kiss_tnc_bridge.Control.Times.Dates.{civil-IsDay}

epoch : rfc3339 (some 0) ≡ "1970-01-01T00:00:00Z"
unfolding rfc3339
epoch = refl

before : rfc3339 none ≡ "1970-01-01T00:00:00Z"
unfolding rfc3339
before = refl

autumn : rfc3339 (some 1791813731) ≡ "2026-10-12T14:02:11Z"
unfolding rfc3339
autumn = refl

leap_day : rfc3339 (some 951782400) ≡ "2000-02-29T00:00:00Z"
unfolding rfc3339
leap_day = refl

-- The 29th of February 2000.
civil-IsDay_example : IsDay (11016 + 719528) (civil 11016)
civil-IsDay_example = civil-IsDay 11016
