-- ===== src/Config/Problem.antt =====
-- src/config/mod.rs, resolve.rs and validate.rs: problems of a config. A message is given by what it
-- says and the values that it shows; the file that an object comes from is left out.
use Prim.Native.String.{String}
use kiss_tnc_bridge.Prelude.{ℕ, Bool, List, [], ◌∷◌, is_nil, if◌then◌else◌}
use kiss_tnc_bridge.Config.Addresses.{Mac, AdapterSel, Listen}
use kiss_tnc_bridge.Config.Values.{ValueError}

pub data Message : Type 0 where
  duplicate_adapter_id duplicate_tnc_id duplicate_bridge_id duplicate_port_id : Message
  mac_taken : Mac → String → Message
  spp_taken ble_taken : Mac → AdapterSel → String → Message
  path_taken name_taken : String → String → Message
  one_tnc_port_needed : ℕ → Message
  app_port_needed : Message
  public_name_taken : String → String → Message
  tnc_taken : String → String → String → Message
  listen_taken : Listen → String → String → Listen → Message
  adapter_taken : AdapterSel → String → String → Message
  long_public_name : String → ℕ → Message
  unstable_path absent_device : String → String → Message
  open_to_all : Listen → Message
  announced_loopback : Message
  absent_interface : String → Message
  no_bridge_enabled no_bridges : Message
  wrong_value : ValueError → Message
  wrong_setting : String → ValueError → Message
  unknown_adapter adapter_not_static unknown_tnc tnc_not_static : String → Message
  tnc_without : String → String → Message
  no_bridge_id empty_name empty_public_name no_clients no_clients_or_none : Message
  wrong_network : String → Message
  bad_channel : ℕ → Message
  relative_path : String → Message
  zero_baud no_transport reserved_id : Message

pub record Problem : Type 0 where
  pub object : String
  pub message : Message

pub record Report : Type 0 where
  pub errors : List Problem
  pub warnings : List Problem

unfoldable pub is_ok : Report → Bool
is_ok r = is_nil r.errors

unfoldable pub problem_if : Bool → String → Message → List Problem
problem_if found object message =
    if found then record { object = object; message = message } ∷ [] else []
