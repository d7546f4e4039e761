-- ===== src/Config/Addresses.antt =====
-- src/config/resolve.rs: adapters and the addresses that a TCP server listens on. The socket
-- addresses of the standard library are written out as far as they are used.
use Prim.Native.String.{String}
use native.Mathlib.Decide.{ℕ_discrete}
use kiss_tnc_bridge.Prelude.{ℕ, Bool, false, ◌/◌, ◌%◌, ◌^◌, ◌||◌, ◌==◌, if◌then◌else◌}
use kiss_tnc_bridge.Prelude.Decide.{String-discrete, equal}

-- The six octets.
pub record Mac : Type 0 where
  pub octets : ℕ × ℕ × ℕ × ℕ × ℕ × ℕ

pub data AdapterSel : Type 0 where
  default_adapter : AdapterSel
  mac : Mac → AdapterSel
  hci : String → AdapterSel

-- `IpAddr`: an address of four octets, or of sixteen, as a number.
pub data IpAddr : Type 0 where
  v4 v6 : ℕ → IpAddr

-- `SocketAddr`; the flow and the scope are those of an IPv6 address, and 0 otherwise.
pub record SocketAddr : Type 0 where
  pub ip : IpAddr
  pub port : ℕ
  pub flowinfo : ℕ
  pub scope_id : ℕ

pub data Listen : Type 0 where
  addr : SocketAddr → Listen
  interface : String → ℕ → Listen

unfoldable pub AdapterSel-discrete : Discrete AdapterSel
AdapterSel-discrete = hlevel (ℕ_discrete, String-discrete)

unfoldable pub Mac-discrete : Discrete Mac
Mac-discrete = hlevel (ℕ_discrete)

unfoldable pub IpAddr-discrete : Discrete IpAddr
IpAddr-discrete = hlevel (ℕ_discrete)

unfoldable pub Listen-discrete : Discrete Listen
Listen-discrete = hlevel (ℕ_discrete, String-discrete)

unfoldable pub listen_port : Listen → ℕ
listen_port (addr a) = a.port
listen_port (interface name port) = port

-- `IpAddr::is_loopback` and `is_unspecified`
unfoldable pub is_loopback_ip : IpAddr → Bool
is_loopback_ip (v4 n) = n / 2 ^ 24 == 127
is_loopback_ip (v6 n) = n == 1

unfoldable pub is_unspecified_ip : IpAddr → Bool
is_unspecified_ip (v4 n) = n == 0
is_unspecified_ip (v6 n) = n == 0

-- `to_ipv4_mapped`, where there is one: an address of ::ffff:0:0/96.
unfoldable pub unmapped : IpAddr → IpAddr
unmapped (v4 n) = v4 n
unmapped (v6 n) = if n / 2 ^ 32 == 0xFFFF then v4 (n % 2 ^ 32) else v6 n

unfoldable pub is_loopback : Listen → Bool
unfolding is_loopback_ip
is_loopback (addr a) = is_loopback_ip a.ip
is_loopback (interface name port) = false

unfoldable pub is_unspecified : Listen → Bool
unfolding is_unspecified_ip
is_unspecified (addr a) = is_unspecified_ip a.ip
is_unspecified (interface name port) = false

-- The `match` of `conflicts_with`, on two listeners of one port.
unfoldable pub same_place : Listen → Listen → Bool
unfolding is_unspecified_ip equal IpAddr-discrete String-discrete
same_place (addr a) (addr b) =
    equal IpAddr-discrete a.ip b.ip || is_unspecified_ip a.ip || is_unspecified_ip b.ip
same_place (interface a p) (interface b q) = equal String-discrete a b
same_place (interface n p) (addr a) = is_unspecified_ip a.ip
same_place (addr a) (interface n p) = is_unspecified_ip a.ip

unfoldable pub conflicts_with : Listen → Listen → Bool
unfolding same_place listen_port
conflicts_with a b = if listen_port a == listen_port b then same_place a b else false
