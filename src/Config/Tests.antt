-- ===== src/Config/Tests.antt =====
-- Listeners, and a use of the theorem on them.
mod Resolve
use kiss_tnc_bridge.Prelude.{true, false, ◌&&◌, ◌==◌, ◌≡◌, refl}
use kiss_tnc_bridge.Config.Addresses.{
  Listen, addr, interface, v4, listen_port, is_unspecified, conflicts_with,
}
use kiss_tnc_bridge.Config.Conflicts.{conflicts_with_comm}

abbrev everywhere : Listen
everywhere = addr (record { ip = v4 0; port = 8001; flowinfo = 0; scope_id = 0 })

abbrev on_wifi : Listen
on_wifi = interface "wlan0" 8001

other_interface : conflicts_with on_wifi (interface "eth0" 8001) ≡ false
unfolding conflicts_with
other_interface = refl
