-- ===== src/Port/Init/Heard.antt =====
-- src/port/tnc_init.rs: the frames that are heard while a TNC is put into KISS mode.
use Prim.Native.String.{String}
use mathlib.Core.List.{append_cancel_right}
use kiss_tnc_bridge.Prelude.{
  ℕ, Bool, true, false, List, [], ◌++◌, Option, none, some, if◌then◌else◌, is_some, ◌≡◌, refl, sym,
  ap, ◌∙◌, arith, inl, inr,
}
use kiss_tnc_bridge.Prelude.Text.{Bytes}
use kiss_tnc_bridge.Prelude.Results.{ok, Result-cases}
use kiss_tnc_bridge.Config.Model.{th_d7x}
use kiss_tnc_bridge.Port.Scan.{in_text, new_scanner, push_bytes}
use kiss_tnc_bridge.Port.Scan.Apart.{Item, wire_of, frames_of, Fits}
use kiss_tnc_bridge.Port.Scan.Items.{push_bytes-wire_of}
use kiss_tnc_bridge.Port.Radio.{
  M, ◌>>=◌, ◌>>◌, return, throw, Radio, Arrival, no_answer, not_accepted, send_raw, kiss_return,
  command,
}
use kiss_tnc_bridge.Port.Radio.Kept.{
  heard, bare, Kept, Kept-still, Keeps, Keeps-bind, Keeps-return, Keeps-throw, Keeps-send_raw,
  Keeps-command,
}
use kiss_tnc_bridge.Port.Init.{
  InitOutcome, outcome_of, accept, conclude, mode_before, mode_of, band_of, then_parse, tn_command,
  leave_kiss, probe, enter_kiss, identify, init_th_d7x, init, is_accepted,
}

-- Whoever succeeds gives the frames that the radio has.
abbrev GivesFrames : M InitOutcome → Type 0
GivesFrames m = (r : Radio) (o : InitOutcome) → (m r).0 ≡ ok o → o.frames ≡ (m r).1.scanner.frames

GivesFrames-bind :
    {A : Type 0} (m : M A) (f : A → M InitOutcome)
    → ((a : A) → GivesFrames (f a))
    → GivesFrames (m >>= f)
GivesFrames-bind m f h r o = elim (Result-cases (m r).0) [
  | inl (e, p) ↦ rw (p, ◌>>=◌) (λ q. cc (q))
  | inr (a, p) ↦ rw (p, ◌>>=◌) (h a (m r).1 o)
]

conclude-GivesFrames :
    (id : Option String) (mode : Option ℕ) (band : ℕ) (check : Option String)
    → GivesFrames (conclude id mode band check)
unfolding conclude outcome_of
conclude-GivesFrames id mode band none r o e = ground (arith, e)
conclude-GivesFrames id mode band (some s) r o e = cc (e)

module _ (lossy : Bytes → String) where
  enter_kiss-GivesFrames :
      (id : Option String) (mode : Option ℕ) (band : ℕ)
      → GivesFrames (enter_kiss lossy id mode band)
  unfolding enter_kiss
  enter_kiss-GivesFrames id mode band =
      let check : M InitOutcome = command lossy "BT" >>= conclude id mode band in
      GivesFrames-bind (command lossy (tn_command 2 band)) (λ a. accept band a >> check)
        (λ a.
          GivesFrames-bind (accept band a) (λ u. check)
            (λ u.
              GivesFrames-bind (command lossy "BT") (conclude id mode band)
                (conclude-GivesFrames id mode band)))

  identify-GivesFrames : (was : Bool) → GivesFrames (identify lossy was)
  unfolding identify
  identify-GivesFrames was =
      let enter : Option String → Option String → M InitOutcome = λ id tn.
        enter_kiss lossy id (mode_before was (mode_of (then_parse tn))) (band_of (then_parse tn)) in
      GivesFrames-bind (command lossy "ID") (λ id. command lossy "TN" >>= enter id)
        (λ id. GivesFrames-bind (command lossy "TN") (enter id) (λ tn.
          enter_kiss-GivesFrames id (mode_before was (mode_of (then_parse tn)))
            (band_of (then_parse tn))))

  init_th_d7x-GivesFrames : GivesFrames (init_th_d7x lossy)
  unfolding init_th_d7x
  init_th_d7x-GivesFrames = GivesFrames-bind (probe lossy) (identify lossy) identify-GivesFrames

  Keeps-if :
      {A : Type 0} (cond : Bool) (m k : M A)
      → Keeps lossy m
      → Keeps lossy k
      → Keeps lossy (if cond then m else k)
  Keeps-if true m k h j = h
  Keeps-if false m k h j = j

  leave_kiss-Keeps : Keeps lossy (leave_kiss lossy)
  unfolding leave_kiss
  leave_kiss-Keeps =
      let judge : Option String → M Bool =
        λ a. if is_some a then return true else throw no_answer in
      Keeps-bind lossy (send_raw kiss_return) (λ u. command lossy "BT" >>= judge)
        (Keeps-send_raw lossy kiss_return)
        (λ u. Keeps-bind lossy (command lossy "BT") judge (Keeps-command lossy "BT") (λ a.
          Keeps-if (is_some a) (return true) (throw no_answer) (Keeps-return lossy true)
            (Keeps-throw lossy Bool no_answer)))

  probe-Keeps : Keeps lossy (probe lossy)
  unfolding probe
  probe-Keeps =
      let judge : Option String → M Bool =
        λ a. if is_some a then return false else leave_kiss lossy in
      Keeps-bind lossy (command lossy "BT") judge (Keeps-command lossy "BT") (λ a.
        Keeps-if (is_some a) (return false) (leave_kiss lossy) (Keeps-return lossy false)
          leave_kiss-Keeps)

  accept-Keeps : (band : ℕ) (answer : Option String) → Keeps lossy (accept band answer)
  unfolding accept
  accept-Keeps band answer =
      Keeps-if (is_accepted answer) (return tt) (throw (not_accepted band answer))
        (Keeps-return lossy tt) (Keeps-throw lossy (Unit {0}) (not_accepted band answer))

  conclude-Keeps :
      (id : Option String) (mode : Option ℕ) (band : ℕ) (check : Option String)
      → Keeps lossy (conclude id mode band check)
  unfolding conclude outcome_of
  conclude-Keeps id mode band none r = Kept-still lossy r r refl refl
  conclude-Keeps id mode band (some s) r = Kept-still lossy r r refl refl

  enter_kiss-Keeps :
      (id : Option String) (mode : Option ℕ) (band : ℕ)
      → Keeps lossy (enter_kiss lossy id mode band)
  unfolding enter_kiss
  enter_kiss-Keeps id mode band =
      let check : M InitOutcome = command lossy "BT" >>= conclude id mode band in
      Keeps-bind lossy (command lossy (tn_command 2 band)) (λ a. accept band a >> check)
        (Keeps-command lossy (tn_command 2 band))
        (λ a.
          Keeps-bind lossy (accept band a) (λ u. check) (accept-Keeps band a)
            (λ u.
              Keeps-bind lossy (command lossy "BT") (conclude id mode band)
                (Keeps-command lossy "BT") (conclude-Keeps id mode band)))

  identify-Keeps : (was : Bool) → Keeps lossy (identify lossy was)
  unfolding identify
  identify-Keeps was =
      let enter : Option String → Option String → M InitOutcome = λ id tn.
        enter_kiss lossy id (mode_before was (mode_of (then_parse tn))) (band_of (then_parse tn)) in
      Keeps-bind lossy (command lossy "ID") (λ id. command lossy "TN" >>= enter id)
        (Keeps-command lossy "ID")
        (λ id. Keeps-bind lossy (command lossy "TN") (enter id) (Keeps-command lossy "TN") (λ tn.
          enter_kiss-Keeps id (mode_before was (mode_of (then_parse tn)))
            (band_of (then_parse tn))))

  init_th_d7x-Keeps : Keeps lossy (init_th_d7x lossy)
  unfolding init_th_d7x
  init_th_d7x-Keeps = Keeps-bind lossy (probe lossy) (identify lossy) probe-Keeps identify-Keeps

  -- If what init reads of a TH-D7x, up to where it succeeds, is whole frames and replies in any
  -- order that fit, then init gives just these frames to the bridge, in order and unchanged,
  -- however the reads cut them. A frame fits if it is not empty, has no delimiter and at most 8192
  -- bytes; it may share its first delimiter with the end of the frame before it, if it begins with
  -- a byte below 0x20, as frames of the first two channels do. A line fits if it is not empty and
  -- has at most 128 bytes, each from 0x20 to 0xBF.
  pub init-frames_of :
      (r t : Radio) (o : InitOutcome) (used : List Arrival) (is : List Item)
      → r.scanner ≡ new_scanner
      → init lossy th_d7x r ≡ (ok o, t)
      → r.reads ≡ used ++ t.reads
      → heard used ≡ wire_of is
      → Fits in_text is
      → o.frames ≡ frames_of is
  unfolding init new_scanner
  init-frames_of r t o used is fresh e split h f =
      let kept : Kept lossy r t = rw (← ap (λ x. x.1) e) (init_th_d7x-Keeps r) in
      let same : used ≡ kept.used =
        append_cancel_right used kept.used t.reads (sym split ∙ kept.split) in
      let scanned : bare (push_bytes lossy r.scanner (wire_of is)) ≡ bare t.scanner =
        ap (λ x. bare (push_bytes lossy r.scanner x)) (sym h ∙ ap heard same) ∙ kept.scanned in
      let items = push_bytes-wire_of lossy is in_text [] [] (λ x. cc (x)) f in
      let given : o.frames ≡ t.scanner.frames =
        init_th_d7x-GivesFrames r o (ap (λ x. x.0) e) ∙ ap (λ x. x.1.scanner.frames) e in
      given
      ∙ sym (ap (λ s. s.frames) scanned)
      ∙ ap (λ s. (push_bytes lossy s (wire_of is)).frames) fresh
      ∙ ap (λ s. s.frames) items
