-- ===== src/Kiss/Tests.antt =====
-- Runs of the KISS layer on inputs of the repository's tests, and uses of its theorems.
use kiss_tnc_bridge.Prelude.{List, [], ◌∷◌, ◌++◌, ◌≡◌, ◌≢◌, ◌↔◌, refl, arith, All, some, true}
use kiss_tnc_bridge.Prelude.Text.{Bytes}
use kiss_tnc_bridge.Prelude.Results.{ok, err}
use kiss_tnc_bridge.Kiss.Frame.{
  fend, fesc, tfend, tfesc, KissFrame, FrameError, truncated_escape, invalid_escape, decode, encode,
}
use kiss_tnc_bridge.Kiss.Frame.Stuffing.{NoFend}
use kiss_tnc_bridge.Kiss.Frame.RoundTrip.{decode-encode}
use kiss_tnc_bridge.Kiss.Buffer.{Reassembly, push, drain_frames}
use kiss_tnc_bridge.Kiss.Buffer.Chunks.{receive, IsValid, IsFrame, receive-IsValid, receive-append}
use kiss_tnc_bridge.Kiss.Stream.{reader_task, new_reader, link_closed}
use kiss_tnc_bridge.Kiss.Stream.Delivery.{reader_task-write_frame, stream}

abbrev plain : KissFrame
plain = record { command = 0; payload = 0xAA ∷ fend ∷ 0xBB ∷ fesc ∷ [] }

encode-plain : encode plain ≡ fend ∷ 0 ∷ 0xAA ∷ fesc ∷ tfend ∷ 0xBB ∷ fesc ∷ tfesc ∷ fend ∷ []
unfolding encode
encode-plain = refl

decode_errors :
    (decode [] ≡ err FrameError.empty_frame)
    × (decode (0 ∷ 0xAA ∷ fesc ∷ []) ≡ err truncated_escape)
    × (decode (0 ∷ 0xAA ∷ fesc ∷ 0 ∷ []) ≡ err (invalid_escape 0))
unfolding decode
decode_errors = (refl, refl, refl)

-- The command byte FEND is stuffed, and not unstuffed.
decode_stuffed_command :
    decode (fesc ∷ tfend ∷ 1 ∷ []) ≡ ok (record { command = fesc; payload = tfend ∷ 1 ∷ [] })
unfolding decode
decode_stuffed_command = refl

decode-encode_example :
    (inner : Bytes) × (encode plain ≡ fend ∷ (inner ++ fend ∷ []))
    × NoFend inner
    × ((decode inner ≡ ok plain) ↔ ((0 ≢ fend) × (0 ≢ fesc)))
decode-encode_example = decode-encode plain

abbrev half : Reassembly
half = record { buf = 0 ∷ 0xBB ∷ []; max_size = 10; in_frame = true }

two_frames :
    receive half (0xCC ∷ fend ∷ fend ∷ 7 ∷ fend ∷ 1 ∷ [])
    ≡ ((0 ∷ 0xBB ∷ 0xCC ∷ []) ∷ (7 ∷ []) ∷ [], record half { buf = 1 ∷ [] })
unfolding receive push drain_frames
two_frames = refl

half-IsValid : IsValid half
half-IsValid = omega arith

receive-IsValid_example :
    IsValid (receive half (0xCC ∷ fend ∷ [])).1 × All IsFrame (receive half (0xCC ∷ fend ∷ [])).0
receive-IsValid_example = receive-IsValid half (0xCC ∷ fend ∷ []) half-IsValid

receive-append_example :
    let first = receive half (0xCC ∷ fend ∷ []) in
    let second = receive first.1 (7 ∷ fend ∷ []) in
    (first.0 ++ second.0 ≡ (receive half (0xCC ∷ fend ∷ 7 ∷ fend ∷ [])).0)
    × (second.1 ≡ (receive half (0xCC ∷ fend ∷ 7 ∷ fend ∷ [])).1)
receive-append_example =
    receive-append half (0xCC ∷ fend ∷ []) (7 ∷ fend ∷ []) half-IsValid (omega arith)

abbrev cut : List Bytes
cut = (fend ∷ 0 ∷ []) ∷ (1 ∷ fend ∷ fend ∷ []) ∷ (7 ∷ fend ∷ []) ∷ []

reader_task-write_frame_example :
    reader_task 3 new_reader (stream cut) ≡ ((0 ∷ 1 ∷ []) ∷ (7 ∷ []) ∷ [], some link_closed)
unfolding kiss_tnc_bridge.Kiss.Stream.write_frame
reader_task-write_frame_example =
    reader_task-write_frame ((0 ∷ 1 ∷ []) ∷ (7 ∷ []) ∷ []) cut
      (
        ((λ e. ground arith, omega arith), omega arith),
        (((λ e. ground arith, omega arith), omega arith), tt),
      )
      (
        (λ e. ground arith, omega arith),
        ((λ e. ground arith, omega arith), ((λ e. ground arith, omega arith), tt)),
      )
      refl
