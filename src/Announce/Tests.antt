-- ===== src/Announce/Tests.antt =====
-- src/announce.rs on small inputs.
mod Announcer
use Prim.Native.String.{String}
use kiss_tnc_bridge.Prelude.{◌≡◌, refl}
use kiss_tnc_bridge.Announce.Names.{next_name}

first : next_name "TH-D75" ≡ "TH-D75 (2)"
unfolding next_name
first = refl

second : next_name "TH-D75 (9)" ≡ "TH-D75 (10)"
unfolding next_name
second = refl

home : next_name "Shack (home)" ≡ "Shack (home) (2)"
unfolding next_name
home = refl

unclosed : next_name "Pi (2" ≡ "Pi (2 (2)"
unfolding next_name
unclosed = refl
