-- ===== src/Config/Networks.antt =====
-- src/port/listen.rs: which peers a TCP server accepts. Networks come from the crate ipnet, and the
-- addresses of peers are parsed by the standard library: both are parameters.
use Prim.Native.String.{String}
use kiss_tnc_bridge.Prelude.{Bool, true, List, Option, any_of, is_nil, if◌then◌else◌}
use kiss_tnc_bridge.Config.Addresses.{IpAddr, unmapped}

pub record Networks : Type 1 where
  -- `IpNet`, with its `PartialEq` and `contains`.
  pub Net : Type 0
  pub Net-discrete : Discrete Net
  pub contains : Net → IpAddr → Bool
  -- `peer.parse::<SocketAddr>().map(|a| a.ip()).ok()`
  pub parse_ip : String → Option IpAddr

module _ (n : Networks) where
  unfoldable pub allowed : List n.Net → IpAddr → Bool
  unfolding unmapped
  allowed allow peer =
      if is_nil allow then true else any_of (λ net. n.contains net (unmapped peer)) allow
