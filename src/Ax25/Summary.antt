-- ===== src/Ax25/Summary.antt =====
-- src/ax25.rs: the characters of a summary.
use kiss_tnc_bridge.Prelude.{
  ℕ, zero, suc, ◌+◌, ◌/◌, ◌%◌, ◌≤◌, ◌<◌, List, [], ◌∷◌, ◌++◌, ltb, ◌==◌, length, All, arith,
  Bool-cases, Option-cases, inl, inr,
}
use kiss_tnc_bridge.Prelude.Text.{Bytes, codes}
use kiss_tnc_bridge.Prelude.Results.{Result-cases}
use kiss_tnc_bridge.Kiss.Frame.{decode as decode_kiss}
use kiss_tnc_bridge.Kiss.Frame.Bounds.{AreBytes, decode-AreBytes}
use kiss_tnc_bridge.Ax25.{Header, parse}
use kiss_tnc_bridge.Ax25.Decode.{
  hex_char, digits, decimal, hex_byte, join, hex_bytes, hex, via, line_of, decode_data,
  decode_command, decode,
}
use kiss_tnc_bridge.Ax25.Printable.{
  IsPrintable, AllPrintable, and_then, printable-AllPrintable, Shown, parse-Shown,
}

digits-AllPrintable : (fuel n : ℕ) → AllPrintable (digits fuel n)
unfolding digits
digits-AllPrintable zero n = tt
digits-AllPrintable (suc fuel) n = elim (Bool-cases (ltb n 10)) [
  | inl t ↦ rw t (omega arith)
  | inr t ↦ rw t (
      and_then (digits fuel (n / 10)) ((48 + n % 10) ∷ []) (digits-AllPrintable fuel (n / 10))
        (omega arith))
]

decimal-AllPrintable : (n : ℕ) → AllPrintable (decimal n)
unfolding decimal
decimal-AllPrintable n = digits-AllPrintable (n + 1) n

hex_char-IsPrintable :
    (letters d : ℕ) → 65 ≤ letters → letters ≤ 97 → d < 16 → IsPrintable (hex_char letters d)
unfolding hex_char
hex_char-IsPrintable letters d h k l = ground arith

join-AllPrintable :
    (sep : Bytes) (xs : List Bytes)
    → AllPrintable sep
    → All AllPrintable xs
    → AllPrintable (join sep xs)
unfolding join
join-AllPrintable sep [] s h = tt
join-AllPrintable sep (x ∷ []) s h = h.0
join-AllPrintable sep (x ∷ y ∷ xs) s h =
    and_then x (sep ++ join sep (y ∷ xs)) h.0
      (and_then sep (join sep (y ∷ xs)) s (join-AllPrintable sep (y ∷ xs) s h.1))

hex_bytes-AllPrintable : (b : Bytes) → AreBytes b → All AllPrintable (hex_bytes b)
unfolding hex_bytes hex_byte
hex_bytes-AllPrintable [] h = tt
hex_bytes-AllPrintable (x ∷ xs) h = (
  (
    hex_char-IsPrintable 65 (x / 16) (omega arith) (omega arith) (omega (arith, h.0)),
    (hex_char-IsPrintable 65 (x % 16) (omega arith) (omega arith) (omega arith), tt),
  ),
  hex_bytes-AllPrintable xs h.1,
)

hex-AllPrintable : (b : Bytes) → AreBytes b → AllPrintable (hex b)
unfolding hex
hex-AllPrintable b h =
    join-AllPrintable (codes " ") (hex_bytes b) (omega arith) (hex_bytes-AllPrintable b h)

via-AllPrintable : (xs : List Bytes) → All AllPrintable xs → AllPrintable (via xs)
unfolding via
via-AllPrintable [] h = tt
via-AllPrintable (x ∷ xs) h = (omega arith, join-AllPrintable (codes ",") (x ∷ xs) (omega arith) h)

line_of-AllPrintable : (h : Header) (info : Bytes) → Shown h → AllPrintable (line_of h info)
unfolding line_of
line_of-AllPrintable h info s = and_then h.source _ s.source (
  omega arith,
  and_then h.destination _ s.destination (
      and_then (via h.path) _ (via-AllPrintable h.path s.path)
        (omega arith, printable-AllPrintable info)),
)

decode_data-AllPrintable :
    (channel : ℕ) (content : Bytes) → AllPrintable (decode_data channel content).summary
unfolding decode_data
decode_data-AllPrintable channel content = elim (Option-cases (parse content)) [
  | inl n ↦
      rw (n, decode_data)
        (and_then (decimal (length content)) _ (decimal-AllPrintable (length content))
          (omega arith))
  | inr (r, e) ↦ rw (e, decode_data) (line_of-AllPrintable r.0 r.1 (parse-Shown content r e))
]

decode_command-AllPrintable :
    (channel command : ℕ) (content : Bytes)
    → command < 16
    → AreBytes content
    → AllPrintable (decode_command channel command content).summary
unfolding decode_command
decode_command-AllPrintable channel command content h k =
    let shown : AllPrintable (codes ": " ++ hex content) =
      and_then (codes ": ") (hex content) (omega arith) (hex-AllPrintable content k) in
    and_then (codes "KISS command 0x") (hex_char 97 command ∷ (codes ": " ++ hex content))
      (omega arith) (hex_char-IsPrintable 97 command (omega arith) (omega arith) h, shown)

-- Whatever bytes come from a TNC, the summary has printable ASCII characters only.
pub decode-AllPrintable : (raw : Bytes) → AreBytes raw → AllPrintable (decode raw).summary
unfolding decode
decode-AllPrintable raw h = elim (Result-cases (decode_kiss raw)) [
  | inl (e, p) ↦
      rw (p, decode)
        (and_then (codes "undecodable KISS frame (") (decimal (length raw) ++ codes " bytes)")
          (omega arith)
          (and_then (decimal (length raw)) (codes " bytes)") (decimal-AllPrintable (length raw))
            (omega arith)))
  | inr (f, p) ↦
      let bytes = (decode-AreBytes raw f h p).1 in
      elim (Bool-cases (f.command % 16 == 0)) [
        | inl t ↦ rw (p, t, decode) (decode_data-AllPrintable (f.command / 16) f.payload)
        | inr t ↦
            rw (p, t, decode)
              (decode_command-AllPrintable (f.command / 16) (f.command % 16) f.payload (omega arith)
                bytes)
      ]
]
