-- ===== src/Port/Tests/Init.antt =====
-- A radio that is found in KISS mode, hears two frames meanwhile, and is put into it again.
use Prim.Native.String.{String, slice, ◌++◌ as append}
use kiss_tnc_bridge.Prelude.{◌-◌, List, [], ◌∷◌, ◌++◌, some, ◌≡◌, refl, length, arith}
use kiss_tnc_bridge.Prelude.Text.{Bytes, codes}
use kiss_tnc_bridge.Prelude.Results.{ok, err}
use kiss_tnc_bridge.Kiss.Stream.{new_reader, reader_task, link_closed}
use kiss_tnc_bridge.Kiss.Stream.Delivery.{stream}
use kiss_tnc_bridge.Config.Model.{th_d7x}
use kiss_tnc_bridge.Port.Scan.{in_text, new_scanner}
use kiss_tnc_bridge.Port.Scan.Apart.{Item, frame_item, shared_item, line_item, frames_of, Fits}
use kiss_tnc_bridge.Port.Radio.{Radio, Arrival, arrived, silence, timed_out, no_answer}
use kiss_tnc_bridge.Port.Init.{InitOutcome, init}
use kiss_tnc_bridge.Port.Init.Heard.{init-frames_of}
use kiss_tnc_bridge.Port.Prefixed.{delimited, new_prefixed, read_prefix}
use kiss_tnc_bridge.Port.Prefixed.Handed.{reader_task-new_prefixed}

-- Texts of printable ASCII characters; another byte gives none.
abbrev ascii : String
ascii =
    " !\"#$%&'()*+,-./0123456789:;<=>?@ABCDEFGHIJKLMNOPQRSTUVWXYZ[\\]^_`abcdefghijklmnopqrstuvwxyz{|}~"

abbrev text_of : Bytes → String
text_of [] = ""
text_of (b ∷ bs) = append (slice ascii (b - 32) (b - 31)) (text_of bs)

abbrev line : String → Arrival
line s = arrived (codes s ++ 13 ∷ [])

-- A frame while the first probe stays without an answer, and one that shares its delimiter.
abbrev before_leaving : List Arrival
before_leaving = arrived (0xC0 ∷ 0 ∷ 1 ∷ []) ∷ arrived (2 ∷ 0xC0 ∷ 0 ∷ 9 ∷ 0xC0 ∷ []) ∷ silence ∷ []

abbrev answers : List Arrival
answers = line "BT" ∷ line "ID TH-D75" ∷ line "TN 1,1" ∷ line "TN 2,1" ∷ silence ∷ []

abbrev found : Radio
found = record {
  scanner = new_scanner;
  reads = before_leaving ++ answers;
  sent = [];
  takes = 20;
  write_error = timed_out;
}

abbrev outcome : InitOutcome
outcome = record {
  radio = some "TH-D75";
  frames = (0 ∷ 1 ∷ 2 ∷ []) ∷ (0 ∷ 9 ∷ []) ∷ [];
  exit_kiss = (0xC0 ∷ 0xFF ∷ 0xC0 ∷ []) ∷ [];
}

abbrev in_kiss_mode : Radio
in_kiss_mode = record {
  scanner = record new_scanner { frames = (0 ∷ 1 ∷ 2 ∷ []) ∷ (0 ∷ 9 ∷ []) ∷ [] };
  reads = [];
  sent =
      codes "BT\r"
      ∷ (0xC0 ∷ 0xFF ∷ 0xC0 ∷ [])
      ∷ codes "BT\r"
      ∷ codes "ID\r"
      ∷ codes "TN\r"
      ∷ codes "TN 2,1\r"
      ∷ codes "BT\r"
      ∷ [];
  takes = 13;
  write_error = timed_out;
}

from_kiss_mode : init text_of th_d7x found ≡ (ok outcome, in_kiss_mode)
unfolding init new_scanner
from_kiss_mode = refl

-- A TNC that does not answer is left with the way out of KISS mode and a second probe.
silent : init text_of th_d7x (record found { reads = [] }) ≡ (
  err no_answer,
  record in_kiss_mode {
    scanner = new_scanner;
    sent = codes "BT\r" ∷ (0xC0 ∷ 0xFF ∷ 0xC0 ∷ []) ∷ codes "BT\r" ∷ [];
    takes = 17;
  },
)
unfolding init new_scanner
silent = refl

abbrev items : List Item
items =
    frame_item (0 ∷ 1 ∷ 2 ∷ [])
    ∷ shared_item (0 ∷ 9 ∷ [])
    ∷ line_item (codes "BT")
    ∷ line_item (codes "ID TH-D75")
    ∷ line_item (codes "TN 1,1")
    ∷ line_item (codes "TN 2,1")
    ∷ []

items-Fits : Fits in_text items
items-Fits = (
  (
    omega arith,
    omega arith,
    (λ e. omega (arith, e), (λ e. omega (arith, e), (λ e. omega (arith, e), tt))),
  ),
  (
    refl,
    (omega arith, omega arith, (λ e. omega (arith, e), (λ e. omega (arith, e), tt))),
    omega arith,
    omega arith,
  ),
)

init-frames_of_example : outcome.frames ≡ frames_of items
init-frames_of_example =
    init-frames_of text_of found in_kiss_mode outcome (before_leaving ++ answers) items refl
      from_kiss_mode refl refl items-Fits

-- The frames of init in one read, and then one of the link's own.
reader_task-new_prefixed_example :
    reader_task 4 new_reader (
      stream (
        read_prefix (length (delimited outcome.frames)) (new_prefixed outcome.frames)
        ++ (0xC0 ∷ 7 ∷ []) ∷ (0xC0 ∷ []) ∷ []))
    ≡ (outcome.frames ++ (7 ∷ []) ∷ [], some link_closed)
unfolding kiss_tnc_bridge.Kiss.Stream.write_frame
reader_task-new_prefixed_example =
    reader_task-new_prefixed outcome.frames ((7 ∷ []) ∷ []) ((0xC0 ∷ 7 ∷ []) ∷ (0xC0 ∷ []) ∷ [])
      (
        (
          (
            λ e. ground arith,
            (λ e. omega (arith, e), (λ e. omega (arith, e), (λ e. omega (arith, e), tt))),
          ),
          omega arith,
        ),
        (
          ((λ e. ground arith, (λ e. omega (arith, e), (λ e. omega (arith, e), tt))), omega arith),
          tt,
        ),
      )
      (((λ e. ground arith, (λ e. omega (arith, e), tt)), omega arith), tt)
      ((λ e. ground arith, omega arith), ((λ e. ground arith, omega arith), tt)) refl
