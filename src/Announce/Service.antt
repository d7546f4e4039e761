-- ===== src/Announce/Service.antt =====
-- src/announce.rs: `Service`, `for_listen`, `overlaps` and `distinct`. The lookups of
-- interfaces are parameters.
pub mod Apart
use Prim.Native.String.{String}
use native.Mathlib.Decide.{ℕ_discrete}
use kiss_tnc_bridge.Prelude.{
  ℕ, Bool, true, false, ◌&&◌, ◌||◌, List, [], ◌∷◌, ◌++◌, Option, none, some, if◌then◌else◌, any_of,
}
use kiss_tnc_bridge.Prelude.Decide.{equal}
use kiss_tnc_bridge.Config.Addresses.{
  IpAddr, v4, v6, SocketAddr, Listen, addr, interface, is_unspecified_ip,
}

pub data Iface : Type 0 where
  any_iface : Iface
  index : ℕ → Iface

pub data Proto : Type 0 where
  any_proto only_v4 only_v6 : Proto

pub record Service : Type 0 where
  pub port : ℕ
  pub iface : Iface
  pub proto : Proto

unfoldable pub Iface-discrete : Discrete Iface
Iface-discrete = hlevel (ℕ_discrete)

unfoldable pub Proto-discrete : Discrete Proto
Proto-discrete = hlevel

unfoldable pub Service-discrete : Discrete Service
unfolding Iface-discrete Proto-discrete
Service-discrete = hlevel (ℕ_discrete, Iface-discrete, Proto-discrete)

unfoldable pub is_ipv6 : IpAddr → Bool
is_ipv6 (v4 n) = false
is_ipv6 (v6 n) = true

-- `map_or(Iface::Any, Iface::Index)`
unfoldable pub iface_of : Option ℕ → Iface
iface_of none = any_iface
iface_of (some i) = index i

-- `if_index` and `iface_holding` are the lookups; `bound` has the port only.
unfoldable pub for_listen :
    (String → Option ℕ) → (IpAddr → Option ℕ) → Listen → SocketAddr → Service
unfolding is_ipv6 iface_of is_unspecified_ip
for_listen if_index iface_holding (interface name p) bound = record {
  port = bound.port;
  iface = iface_of (if_index name);
  proto = only_v4;
}
for_listen if_index iface_holding (addr a) bound =
    if is_unspecified_ip a.ip
    then record {
      port = bound.port;
      iface = any_iface;
      proto = if is_ipv6 a.ip then any_proto else only_v4;
    }
    else record {
      port = bound.port;
      iface = iface_of (iface_holding a.ip);
      proto = if is_ipv6 a.ip then only_v6 else only_v4;
    }

unfoldable pub overlaps : Service → Service → Bool
unfolding equal Iface-discrete Proto-discrete
overlaps s t =
    (equal Iface-discrete s.iface t.iface
      || equal Iface-discrete s.iface any_iface
      || equal Iface-discrete t.iface any_iface)
    && (equal Proto-discrete s.proto t.proto
        || equal Proto-discrete s.proto any_proto
        || equal Proto-discrete t.proto any_proto)

-- The loop of `distinct`, with what it has kept.
unfoldable pub distinct_from : List Service → List (String × Service) → List Service
unfolding overlaps
distinct_from out [] = out
distinct_from out ((port, s) ∷ services) =
    let kept = if any_of (λ t. overlaps t s) out then out else out ++ s ∷ [] in
    distinct_from kept services

unfoldable pub distinct : List (String × Service) → List Service
unfolding distinct_from
distinct services = distinct_from [] services
