-- ===== src/Apps/Check/Frames.antt =====
-- software/app/tprtest.cc: `parse_frame`, `parse_bsa_event` and `parse_bsa_control` on the words of
-- an entry of the queues. An entry has 32 words, so that none of the loads is out of range.
use evr_card_g.Base.{ℕ, ◌+◌, ◌*◌, ◌^◌, List, get_or, ◌==◌, if◌then◌else◌, Option, none, some}
use evr_card_g.Driver.Messages.{tag, event_tag, bsacntl_tag, bsaevnt_tag}

-- `pl[k]`, 64 bits from word `at` on, as a little endian machine loads them.
abbrev pub word64 : List ℕ → ℕ → ℕ → ℕ
word64 p at k = get_or p (at + 2 * k) 0 + 2 ^ 32 * get_or p (at + 2 * k + 1) 0

pub record Frame : Type 0 where
  pub pulse_id : ℕ
  pub time_stamp : ℕ

pub record BsaEvent : Type 0 where
  pub pulse_id : ℕ
  pub time_stamp : ℕ
  pub active : ℕ
  pub avg_done : ℕ
  pub update_mask : ℕ

pub record BsaControl : Type 0 where
  pub pulse_id : ℕ
  pub time_stamp : ℕ
  pub init : ℕ
  pub minor : ℕ
  pub major : ℕ

unfoldable pub parse_frame : List ℕ → Option Frame
parse_frame p =
    if tag (get_or p 0 0) == event_tag
    then some (record { pulse_id = word64 p 2 0; time_stamp = word64 p 2 1 })
    else none

unfoldable pub parse_bsa_event : List ℕ → Option BsaEvent
parse_bsa_event p =
    if tag (get_or p 0 0) == bsaevnt_tag
    then some (record {
      pulse_id = word64 p 1 0;
      active = word64 p 1 1;
      avg_done = word64 p 1 2;
      time_stamp = word64 p 1 3;
      update_mask = word64 p 1 4;
    })
    else none

unfoldable pub parse_bsa_control : List ℕ → Option BsaControl
parse_bsa_control p =
    if tag (get_or p 0 0) == bsacntl_tag
    then some (record {
      pulse_id = word64 p 1 0;
      time_stamp = word64 p 1 1;
      init = word64 p 1 2;
      minor = word64 p 1 3;
      major = word64 p 1 4;
    })
    else none
