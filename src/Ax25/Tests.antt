-- ===== src/Ax25/Tests.antt =====
-- Frames with addresses, and a use of the theorem on them.
use kiss_tnc_bridge.Prelude.{true, false, [], ◌∷◌, ◌++◌, ◌≡◌, refl, some, none, inl, inr}
use kiss_tnc_bridge.Prelude.Text.{Bytes, codes}
use kiss_tnc_bridge.Ax25.{Address, Header, address, parse, header_of, printable, addresses, rounds}
use kiss_tnc_bridge.Ax25.Rounds.{addresses-rounds}
use native.Mathlib.Omega.{arith}
use kiss_tnc_bridge.Ax25.Decode.{decode}
use kiss_tnc_bridge.Ax25.Summary.{decode-AllPrintable}
use kiss_tnc_bridge.Ax25.Printable.{AllPrintable}
use kiss_tnc_bridge.Ax25.Station.{Station, IsStation, wire}
use kiss_tnc_bridge.Ax25.Wire.{parse-wire}

-- The callsign W1AW in a field, with SSID 9 and marked as the last, or with SSID 0.
abbrev last_field : Bytes
last_field = 0xAE ∷ 0x62 ∷ 0x82 ∷ 0xAE ∷ 0x40 ∷ 0x40 ∷ 0x73 ∷ []

abbrev first_field : Bytes
first_field = 0xAE ∷ 0x62 ∷ 0x82 ∷ 0xAE ∷ 0x40 ∷ 0x40 ∷ 0x60 ∷ []

abbrev last_address : Address
last_address = record { call = codes "W1AW-9"; is_last = true; repeated = false }

abbrev first_address : Address
first_address = record { call = codes "W1AW"; is_last = false; repeated = false }

-- A UI frame with the text "Hi" and a line feed.
abbrev hi : Bytes
hi = 0x03 ∷ 0xF0 ∷ 72 ∷ 105 ∷ 10 ∷ []

shown :
    parse (first_field ++ last_field ++ hi)
    ≡ some (
      record { source = codes "W1AW-9"; destination = codes "W1AW"; path = [] },
      72 ∷ 105 ∷ 10 ∷ [],
    )
unfolding parse kiss_tnc_bridge.Ax25.addresses kiss_tnc_bridge.Ax25.next_address address header_of
shown = refl

dotted : printable (72 ∷ 105 ∷ 10 ∷ []) ≡ codes "Hi."
unfolding printable
dotted = refl

-- An I frame of a radio with SSID 11 to W1AW, repeated by one station and not yet by another.
abbrev home : Station
home = record { call = codes "W1AW"; ssid = 0; repeated = false; spare = 3 }

abbrev radio : Station
radio = record { call = codes "N0CALL"; ssid = 11; repeated = false; spare = 3 }

abbrev hill : Station
hill = record { call = codes "WIDE1"; ssid = 1; repeated = true; spare = 3 }

home-IsStation : IsStation home
home-IsStation = record {
  named = omega arith;
  short = omega arith;
  chars = (
    inl (omega arith, omega arith),
    (
      inr (omega arith, omega arith),
      (inl (omega arith, omega arith), (inl (omega arith, omega arith), tt)),
    ),
  );
  ssid_fits = omega arith;
  spare_fits = omega arith;
}

radio-IsStation : IsStation radio
radio-IsStation = record {
  named = omega arith;
  short = omega arith;
  chars = ground arith;
  ssid_fits = omega arith;
  spare_fits = omega arith;
}

hill-IsStation : IsStation hill
hill-IsStation = record {
  named = omega arith;
  short = omega arith;
  chars = ground arith;
  ssid_fits = omega arith;
  spare_fits = omega arith;
}

parse-wire_example :
    (parse (wire (home ∷ radio ∷ hill ∷ home ∷ []) (0x12 ∷ 0xF0 ∷ 72 ∷ 105 ∷ []))
      ≡ some (
        record {
          source = codes "N0CALL-11";
          destination = codes "W1AW";
          path = codes "WIDE1-1*" ∷ codes "W1AW" ∷ [];
        },
        72 ∷ 105 ∷ [],
      ))
    × (parse (wire (home ∷ radio ∷ hill ∷ home ∷ []) []) ≡ none)
    × (parse (wire (home ∷ []) (0x12 ∷ 0xF0 ∷ 72 ∷ 105 ∷ [])) ≡ none)
unfolding kiss_tnc_bridge.Ax25.Decode.decimal
parse-wire_example =
    parse-wire home radio (hill ∷ home ∷ []) 0x12 (0xF0 ∷ 72 ∷ 105 ∷ []) home-IsStation
      radio-IsStation (hill-IsStation, (home-IsStation, tt)) (omega arith)

addresses-rounds_example :
    addresses rounds [] (first_field ++ last_field ++ hi)
    ≡ addresses 20 [] (first_field ++ last_field ++ hi)
addresses-rounds_example = addresses-rounds 20 (first_field ++ last_field ++ hi) (omega arith)

-- The same frame on channel 1, a command, and no frame at all.
decoded :
    ((decode (0x10 ∷ (first_field ++ (last_field ++ hi)))).summary ≡ codes "W1AW-9>W1AW:Hi.")
    × ((decode (0x10 ∷ (first_field ++ (last_field ++ hi)))).channel ≡ 1)
    × ((decode (1 ∷ 0x32 ∷ 0xAB ∷ [])).summary ≡ codes "KISS command 0x1: 32 AB")
    × ((decode (0 ∷ 0x41 ∷ 0x42 ∷ [])).summary ≡ codes "2 bytes, not AX.25")
    × ((decode []).summary ≡ codes "undecodable KISS frame (0 bytes)")
unfolding decode kiss_tnc_bridge.Ax25.addresses kiss_tnc_bridge.Ax25.next_address address header_of
decoded = (refl, refl, refl, refl, refl)

decode-AllPrintable_example : AllPrintable (decode (1 ∷ 0x32 ∷ 0xAB ∷ [])).summary
decode-AllPrintable_example = decode-AllPrintable (1 ∷ 0x32 ∷ 0xAB ∷ []) (omega arith)
