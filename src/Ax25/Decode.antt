-- ===== src/Ax25/Decode.antt =====
-- src/ax25.rs: `decode`, one line for a person on a frame.
use kiss_tnc_bridge.Prelude.{
  ℕ, zero, suc, ◌+◌, ◌-◌, ◌/◌, ◌%◌, List, [], ◌∷◌, ◌++◌, Option, none, some, ltb, ◌==◌,
  if◌then◌else◌, length,
}
use kiss_tnc_bridge.Prelude.Text.{Bytes, codes}
use kiss_tnc_bridge.Prelude.Results.{ok, err}
use kiss_tnc_bridge.Kiss.Frame.{decode as decode_kiss}
use kiss_tnc_bridge.Ax25.{Header, parse, printable}

pub record Decoded : Type 0 where
  pub channel : ℕ
  pub command : ℕ
  pub ax25 : Option Header
  pub summary : Bytes

unfoldable pub hex_char : ℕ → ℕ → ℕ
hex_char letters d = if ltb d 10 then 48 + d else letters + (d - 10)

-- A number in decimal digits; `n + 1` rounds are enough for `n`.
unfoldable pub digits : ℕ → ℕ → Bytes
digits zero n = []
digits (suc fuel) n =
    let more = digits fuel (n / 10) in (if ltb n 10 then [] else more) ++ (48 + n % 10) ∷ []

unfoldable pub decimal : ℕ → Bytes
unfolding digits
decimal n = digits (n + 1) n

-- `format!("{x:02X}")`
unfoldable pub hex_byte : ℕ → Bytes
unfolding hex_char
hex_byte x = hex_char 65 (x / 16) ∷ hex_char 65 (x % 16) ∷ []

-- `join`
unfoldable pub join : Bytes → List Bytes → Bytes
join sep [] = []
join sep (x ∷ []) = x
join sep (x ∷ y ∷ xs) = x ++ (sep ++ join sep (y ∷ xs))

unfoldable pub hex_bytes : Bytes → List Bytes
unfolding hex_byte
hex_bytes [] = []
hex_bytes (x ∷ xs) = hex_byte x ∷ hex_bytes xs

unfoldable pub hex : Bytes → Bytes
unfolding hex_bytes join
hex b = join (codes " ") (hex_bytes b)

-- The digipeaters in the line, each behind a comma.
unfoldable pub via : List Bytes → Bytes
unfolding join
via [] = []
via (x ∷ xs) = codes "," ++ join (codes ",") (x ∷ xs)

unfoldable pub line_of : Header → Bytes → Bytes
unfolding via printable
line_of header info =
    header.source
    ++ (codes ">" ++ (header.destination ++ (via header.path ++ (codes ":" ++ printable info))))

unfoldable pub decode_data : ℕ → Bytes → Decoded
unfolding parse line_of decimal
decode_data channel content = elim (parse content) [
  | some (header, info) ↦ record {
    channel = channel;
    command = 0;
    ax25 = some header;
    summary = line_of header info;
  }
  | none ↦ record {
    channel = channel;
    command = 0;
    ax25 = none;
    summary = decimal (length content) ++ codes " bytes, not AX.25";
  }
]

-- A command below 16 has one hexadecimal digit.
unfoldable pub decode_command : ℕ → ℕ → Bytes → Decoded
unfolding hex hex_char
decode_command channel command content = record {
  channel = channel;
  command = command;
  ax25 = none;
  summary = codes "KISS command 0x" ++ (hex_char 97 command ∷ (codes ": " ++ hex content));
}

unfoldable pub decode : Bytes → Decoded
unfolding decode_kiss decode_data decode_command decimal
decode raw = elim (decode_kiss raw) [
  | err e ↦ record {
    channel = 0;
    command = 0;
    ax25 = none;
    summary = codes "undecodable KISS frame (" ++ (decimal (length raw) ++ codes " bytes)");
  }
  | ok frame ↦
      if frame.command % 16 == 0
      then decode_data (frame.command / 16) frame.payload
      else decode_command (frame.command / 16) (frame.command % 16) frame.payload
]
