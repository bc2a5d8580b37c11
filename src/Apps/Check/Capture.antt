-- ===== src/Apps/Check/Capture.antt =====
-- software/app/tprtest.cc: `frame_capture`, the client of the driver's queues. The queues change
-- while it runs: they are a function of the time, which goes on by one with each test of a loop.
use evr_card_g.Base.{
  ℕ, zero, suc, ◌+◌, ◌-◌, ◌*◌, ◌%◌, ◌^◌, Bool, not, ◌&&◌, List, [], ◌∷◌, ltb, leb, ◌==◌,
  if◌then◌else◌, Option, none, some, bit_and, bit_or,
}
use evr_card_g.Bus.{Bus}
use evr_card_g.Regs.Blocks.{channel}
use evr_card_g.Driver.Device.{Queues}
use evr_card_g.Driver.Queues.{max_tpr_allq, max_tpr_bsaq}
use evr_card_g.Apps.Dumps.{base_dump, csr_dump}
use evr_card_g.Apps.Check.Link.{TimingMode, is_lcls1}
use evr_card_g.Apps.Check.Frames.{
  Frame, BsaEvent, BsaControl, parse_frame, parse_bsa_event, parse_bsa_control,
}

-- The pulse that is to follow `prev`: for LCLS-I the lowest 17 bits are compared only.
unfoldable pub next_pulse : TimingMode → ℕ → ℕ → ℕ
next_pulse mode prev pulse =
    let following = (prev + 1) % 2 ^ 64 in
    if is_lcls1 mode
    then bit_or (bit_and pulse (2 ^ 64 - 2 ^ 17)) (bit_and following (2 ^ 17 - 1))
    else following

-- A line: the pulse, its time and PASS or FAIL.
pub record Verdict : Type 0 where
  pub frame : Frame
  pub pass : Bool

-- `allrp`, `nframes`, `pulseIdP`, and the lines, the last one first.
pub record FrameReader : Type 0 where
  pub allrp : ℕ
  pub nframes : ℕ
  pub pulse_prev : ℕ
  pub lines : List Verdict

-- `if (pulseIdP)`
unfoldable pub judge_frame : TimingMode → Frame → FrameReader → FrameReader
unfolding next_pulse
judge_frame mode f r =
    let judged = record r {
      lines =
          record { frame = f; pass = f.pulse_id == next_pulse mode r.pulse_prev f.pulse_id }
          ∷ r.lines;
      nframes = r.nframes + 1;
      pulse_prev = f.pulse_id;
    } in
    if r.pulse_prev == 0 then record r { pulse_prev = f.pulse_id } else judged

-- `q.allq[q.allrp[idx].idx[allrp&(MAX_TPR_ALLQ-1)]&(MAX_TPR_ALLQ-1)].word`
abbrev pub frame_words : ℕ → ℕ → Queues → List ℕ
frame_words idx rp q =
    let mask = max_tpr_allq - 1 in (q.allq (bit_and (q.allrp idx (bit_and rp mask)) mask)).word

-- One round of the inner loop.
unfoldable pub take_frame : TimingMode → ℕ → Queues → FrameReader → FrameReader
unfolding judge_frame
take_frame mode idx q r =
    let taken : FrameReader = elim (parse_frame (frame_words idx r.allrp q)) [
      | none ↦ r
      | some f ↦ judge_frame mode f r
    ] in
    record taken { allrp = r.allrp + 1 }

-- The two loops as one, on fuel for the tests: a frame is taken if one is there, else the loop ends
-- with ten frames, else `read` waits.
unfoldable pub capture :
    TimingMode → ℕ → (ℕ → Queues) → ℕ → ℕ → FrameReader → Option (FrameReader × ℕ)
unfolding take_frame
capture mode idx q zero t r = none
capture mode idx q (suc n) t r =
    let more = capture mode idx q n (t + 1) (take_frame mode idx (q t) r) in
    let wait = capture mode idx q n (t + 1) r in
    if ltb r.allrp ((q t).allwp idx) && ltb r.nframes 10
    then more
    else if leb 10 r.nframes
    then some (r, t)
    else wait

-- The loops over the BSA queue, in the same way.
pub data BsaLine : Type 0 where
  control_line : BsaControl → BsaLine
  event_line : BsaEvent → BsaLine

pub record BsaReader : Type 0 where
  pub bsarp : ℕ
  pub bsaframes : ℕ
  pub bsalines : List BsaLine

unfoldable pub note_control : List ℕ → BsaReader → BsaReader
note_control p r = elim (parse_bsa_control p) [
  | none ↦ r
  | some x ↦ record r { bsalines = control_line x ∷ r.bsalines }
]

unfoldable pub note_event : List ℕ → BsaReader → BsaReader
note_event p r = elim (parse_bsa_event p) [
  | none ↦ r
  | some x ↦ record r { bsalines = event_line x ∷ r.bsalines; bsaframes = r.bsaframes + 1 }
]

unfoldable pub take_bsa : Queues → BsaReader → BsaReader
unfolding note_control note_event
take_bsa q r =
    let p = (q.bsaq (bit_and r.bsarp (max_tpr_bsaq - 1))).word in
    let taken = note_event p (note_control p r) in record taken { bsarp = r.bsarp + 1 }

unfoldable pub capture_bsa : (ℕ → Queues) → ℕ → ℕ → BsaReader → Option (BsaReader × ℕ)
unfolding take_bsa
capture_bsa q zero t r = none
capture_bsa q (suc n) t r =
    let more = capture_bsa q n (t + 1) (take_bsa (q t) r) in
    let wait = capture_bsa q n (t + 1) r in
    if ltb r.bsarp (q t).bsawp && ltb r.bsaframes 10
    then more
    else if leb 10 r.bsaframes
    then some (r, t)
    else wait

-- What the capture prints.
pub record Captured : Type 0 where
  pub frames : List Verdict
  pub bsa : List BsaLine

abbrev pub nothing_captured : Captured
nothing_captured = record { frames = []; bsa = [] }

-- Whether the device of the channel can be opened, mapped, and opened once more.
pub record Channel : Type 0 where
  pub opens : Bool
  pub maps : Bool
  pub opens_again : Bool

-- Both captures, from the time 1 on; the queues at time 0 give the read pointers.
unfoldable pub capture_both : TimingMode → Bool → ℕ → (ℕ → Queues) → Option Captured
unfolding capture capture_bsa
capture_both mode check_bsa fuel q =
    elim (capture mode 0 q fuel 1
      (record { allrp = (q 0).allwp 0; nframes = 0; pulse_prev = 0; lines = [] })) [
        | none ↦ none
        | some (r, t) ↦
            let bsa : Option Captured =
              elim (capture_bsa q fuel t
                (record { bsarp = (q 0).bsawp; bsaframes = 0; bsalines = [] })) [
                  | none ↦ none
                  | some (b, t') ↦ some (record { frames = r.lines; bsa = b.bsalines })
                ] in
            if check_bsa then bsa else some (record { frames = r.lines; bsa = [] })
      ]

module _ {C : Type 0} (bus : Bus C) where
  open bus use {store, load, sleep_us}

  -- The selection of channel 0: the highest rate, for any destination.
  unfoldable pub capture_select : TimingMode → Bool → ℕ
  capture_select mode reversed =
      bit_or (2 ^ 17 * 2 ^ 13)
        (if is_lcls1 mode then bit_or (2 ^ 11) (0x3F * 2 ^ 3) else if reversed then 6 else 0)

  -- The channel is set up to the highest rate and enabled: its control word before, and the card.
  unfoldable pub enable_capture : TimingMode → Bool → C → ℕ × C
  unfolding capture_select
  enable_capture mode reversed c =
      let (control, c₁) = load (channel 0 0) c in
      let c₂ = base_dump bus (store (channel 0 0) 0 c₁) in
      let c₃ =
        store (channel 0 4) 1
          (store (channel 0 3) 0 (store (channel 0 1) (capture_select mode reversed) c₂)) in
      (control, store (channel 0 0) (bit_or control 5) c₃)

  -- The whole; `none` stands for a loop that goes on.
  unfoldable pub frame_capture :
      TimingMode → Bool → Bool → Channel → ℕ → (ℕ → Queues) → C → Option (Captured × C)
  unfolding enable_capture capture_both
  frame_capture mode reversed check_bsa ch fuel q c =
      let (control, c₁) = enable_capture mode reversed c in
      let c₂ = sleep_us (if is_lcls1 mode then 100000 else 20) (csr_dump bus c₁) in
      let done : Option (Captured × C) = elim (capture_both mode check_bsa fuel q) [
        | none ↦ none
        | some x ↦ some (x, store (channel 0 0) control c₂)
      ] in
      if not ch.opens
      then some (nothing_captured, c)
      else if not ch.maps
      then some (nothing_captured, c)
      else if not ch.opens_again
      then some (nothing_captured, c₁)
      else done
