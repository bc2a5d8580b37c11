-- ===== src/Prom/Padding.antt =====
-- The last, partly filled buffer of the write.
use evr_card_g.Base.{
  ℕ, zero, suc, ◌+◌, ◌-◌, ◌≤◌, ◌<◌, Bool, none, some, ◌≡◌, ◌≢◌, sym, refl, arith, Bool-cases,
  Option-cases, inl, inr, set, ◌∙◌,
}
use native.Mathlib.Decide.{ℕ_discrete}
use evr_card_g.Base.Outcome.{undefined}
use evr_card_g.Mcs.Reader.{data_at}
use evr_card_g.Mcs.Invariant.{data_at-set_ne}
use evr_card_g.Bus.{Bus}
use evr_card_g.Prom.Flash.{polled, read_flash, write_to_flash}
use evr_card_g.Prom.Program.{Words, load_buffer, send_buffer, buffered_program_command}
use evr_card_g.Prom.Boot.{pad, Writer, send_rest}

-- Whatever its rounds, the padding loop writes one element only: behind it each element but that
-- at the buffer's size holds what it held.
pub pad_keeps :
    (n size j : ℕ) (words : Words) → j ≢ size → data_at (pad n size words) j ≡ data_at words j
unfolding pad
pad_keeps zero size j words ne = refl
pad_keeps (suc n) size j words ne =
    pad_keeps n size j (set words size (some 0xFFFF)) ne
    ∙ data_at-set_ne words size j 0xFFFF (λ e. ne (sym e))

module _ {C : Type 0} (cycle : ℕ → ℕ → C → C) where
  -- The loop over the buffer reads each element, so an address that was never written makes it
  -- undefined.
  pub load_buffer_unset :
      (n i j : ℕ) (address words : Words) (c : C)
      → data_at address j ≡ none
      → i ≤ j
      → j < i + n
      → load_buffer cycle n i address words c ≡ some undefined
  unfolding load_buffer
  load_buffer_unset zero i j address words c u l h = absurd (omega arith)
  load_buffer_unset (suc n) i j address words c u l h = elim (ℕ_discrete i j) [
    | yes e ↦ rw (e, u)
    | no ne ↦ elim (Option-cases (data_at address i)) [
      | inl a ↦ rw a
      | inr (a, ea) ↦ elim (Option-cases (data_at words i)) [
        | inl w ↦ rw (ea, w)
        | inr (w, ew) ↦
            rw (ea, ew)
              (load_buffer_unset n (i + 1) j address words (cycle a w c) u (omega arith)
                (omega arith))
      ]
    ]
  ]

module _ {C : Type 0} (bus : Bus C) (legacy : Bool) (fuel : ℕ) where
  command_unset :
      (address words : Words) (c : C)
      → data_at address 255 ≡ none
      → buffered_program_command bus legacy fuel address words 256 c ≡ some undefined
  unfolding buffered_program_command send_buffer polled
  command_unset address words c u = elim (Option-cases (data_at address 0)) [
    | inl unset ↦ rw unset
    | inr (first, e) ↦ elim (Bool-cases legacy) [
      | inl old ↦ rw (
        e,
        old,
        load_buffer_unset (λ a w c. (read_flash bus a w c).1) 256 0 255 address words _ u
            (omega arith) (omega arith),
      )
      | inr new ↦ rw (
        e,
        new,
        load_buffer_unset (λ a w c. write_to_flash bus a 0 w c) 256 0 255 address words _ u
            (omega arith) (omega arith),
      )
    ]
  ]

  -- A write that ends before its first buffer was full, so that the last address of the array was
  -- never written: if any word is left, what is sent is undefined.
  pub send_rest_undefined :
      (w : Writer C)
      → w.buf_size ≢ 0
      → data_at w.buf_addr 255 ≡ none
      → send_rest bus legacy fuel w ≡ some undefined
  unfolding send_rest
  send_rest_undefined w ne u =
      ground
        (arith, command_unset w.buf_addr (pad (256 - w.buf_size) w.buf_size w.buf_data) w.card u)
