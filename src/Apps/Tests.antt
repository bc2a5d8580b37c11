-- ===== src/Apps/Tests.antt =====
-- The programs on small inputs: options, registers that are a function of the offset, and reals that
-- are natural numbers.
mod Receive
use evr_card_g.Base.{
  ℕ, suc, ◌+◌, ◌-◌, ◌*◌, ◌/◌, ◌%◌, ◌^◌, ◌<◌, ◌≢◌, true, false, not, ◌||◌, [], ◌∷◌, ◌≡◌, refl, arith,
  ◌==◌, ==_iff, leb, get_or, ◌&&◌, ap, if◌then◌else◌, some, none, has, ltb, length, inl, ◌⊎◌, ℤ,
}
use evr_card_g.Base.Outcome.{ok, undefined}
use evr_card_g.Base.Run.{done}
use evr_card_g.Base.Bits.{bit}
use evr_card_g.Bus.{Bus}
use evr_card_g.Text.Codes.{codes}
use evr_card_g.Text.Numbers.{digits}
use evr_card_g.Text.Decimal.{decimal, digits-decimal}
use evr_card_g.Regs.Layout.{offset_of}
use evr_card_g.Regs.Word.{test_bit, set_bit, put_bit}
use evr_card_g.Regs.Settings.{test-put}
use evr_card_g.Regs.Core.{csr}
use evr_card_g.Regs.Blocks.{channel, trigger, trigger_word}
use evr_card_g.Regs.Setup.{IsMemory}
use evr_card_g.Apps.Options.{Answer, System, End, parse, on_device, exit_usage, exit_ok}
use evr_card_g.Apps.Reals.{Reals, IsSpelled}
use evr_card_g.Apps.Evg.Registers.{evg_reg, control_base, ring_base}
use evr_card_g.Apps.Evg.Codes.{arm_codes, print_codes, arm_codes-Armed, arm_codes_overrun}
use evr_card_g.Apps.Trig.Config.{PulseConfig, pulse_text, seq_config, seq_config-text}
use evr_card_g.Apps.Trig.Rate.{
  select_seq, select_group, select_fixed, select_beam, fixed_names, rate_str, rate_str_selected,
}
use evr_card_g.Apps.Trig.Trigger.{set_trigger, set_trigger_words, whole_clocks, tap_of}
use evr_card_g.Apps.Trig.Main.{trig_main}
use evr_card_g.Apps.Trig.Refusal.{timing_refused}
use evr_card_g.Apps.Check.Link.{lcls1, lcls2, is_lcls1, is_lcls2, link_test}
use evr_card_g.Apps.Check.Settled.{KeepsBits, link_test_settings}
use evr_card_g.Apps.Check.Rates.{frame_rates}
use evr_card_g.Apps.Check.Judged.{IsCounting, Seven, nominal, selected, lines_of, frame_rates_lines}
use evr_card_g.Apps.Lock.Registers.{lock_core, app_base, core_nc_base, core_sc_base}

abbrev registers : Bus (ℕ → ℕ)
registers = record {
  store = λ offset v c o. if o == offset then v else c o;
  load = λ offset c. (c offset, c);
  sleep_us = λ n c. c;
}

registers-IsMemory : IsMemory registers
registers-IsMemory = record {
  load-store = λ o o' v c. refl;
  load-sleep_us = λ o n c. refl;
  load-load = λ o o' c. refl;
}

abbrev zeros : ℕ → ℕ
zeros o = 0

-- Reals that are natural numbers in decimal.
abbrev naturals : Reals
naturals = record {
  Real = ℕ;
  literal = λ s. 1;
  strtod = digits 10 0;
  narrowed = λ x. x;
  of_unsigned = λ n. n;
  to_unsigned = λ n. n;
  plus = λ a b. a + b;
  minus = λ a b. a - b;
  times = λ a b. a * b;
  over = λ a b. a;
  less = ltb;
}

naturals-IsSpelled : IsSpelled naturals decimal
naturals-IsSpelled = record { strtod_spell = λ x s. digits-decimal x (b',' ∷ s) (omega arith) }

arm_codes-Armed_example :
    let text = print_codes 5 (40 ∷ []) in
    (codes' : ℕ → ℕ) × (arm_codes (suc (length text)) text zeros ≡ done codes')
    × ((f : ℕ)
        → bit (f % 32) (codes' (f / 32))
          ≡ (if has f (5 ∷ 40 ∷ []) then 1 else bit (f % 32) (zeros (f / 32))))
arm_codes-Armed_example = arm_codes-Armed 5 (40 ∷ []) zeros (omega arith)

arm_codes_overrun_example :
    let text = print_codes 256 [] in arm_codes (suc (length text)) text zeros ≡ some undefined
arm_codes_overrun_example = arm_codes_overrun 256 256 [] zeros (omega arith) refl (omega arith)

seq_config-text_example :
    seq_config naturals
      (pulse_text naturals decimal 3 100 20 (decimal 17 (b',' ∷ decimal 4 (b',' ∷ decimal 1 []))))
    ≡ ok (record {
      the_pulse = record { output = 3; delay = 100; width = 20; polarity = 1 };
      seq = 17;
      bit = 4;
    })
seq_config-text_example =
    seq_config-text naturals decimal naturals-IsSpelled 3 17 4 1 100 20 (omega arith) (omega arith)
      (omega arith) (omega arith)

rate_str_selected_example :
    (rate_str (select_seq 17 4) ≡ b'S' ∷ decimal (17 % 32) (b'.' ∷ decimal (4 % 16) []))
    × (rate_str (select_group 5) ≡ b'G' ∷ decimal (5 % 16) [])
    × (rate_str (select_fixed 2) ≡ codes "100H")
    × (rate_str select_beam ≡ codes "Beam")
rate_str_selected_example = rate_str_selected 17 4 5 2 (omega arith) (omega arith)

abbrev a_pulse : PulseConfig ℕ
a_pulse = record { output = 3; delay = 100; width = 20; polarity = 1 }

set_trigger_words_example :
    (c' : ℕ → ℕ) × (set_trigger naturals registers a_pulse 7 zeros ≡ ok c')
    × ((o : ℕ)
        → (registers.load o c').0 ≡ (
            if o == trigger 3 0
            then trigger_word 3 (not (a_pulse.polarity == 0))
            else if o == trigger 3 2
            then whole_clocks naturals 20
            else if o == trigger 3 3
            then tap_of naturals 100
            else if o == trigger 3 1
            then whole_clocks naturals 100
            else if o == channel 3 0
            then 5
            else if o == channel 3 1
            then 7
            else (registers.load o zeros).0))
set_trigger_words_example =
    set_trigger_words naturals registers registers-IsMemory a_pulse 7 zeros (omega arith)

abbrev present : System
present = record { opened = λ c. true; mapped = λ c. true }

abbrev nc_timing : Answer
nc_timing = record { char = b'1'; optarg = [] }

refused_run :
    trig_main naturals registers present (nc_timing ∷ []) false zeros ≡ done (exit_usage, zeros)
unfolding trig_main parse on_device
refused_run = refl

timing_refused_example : (zeros ≡ zeros) × ((exit_usage ≡ exit_usage) ⊎ (exit_usage ≡ exit_ok))
timing_refused_example =
    timing_refused naturals registers present (nc_timing ∷ []) false zeros zeros exit_usage
      refused_run refl

-- A card whose control word has the link status as its bit 1, and whose counters go on with each
-- load: the control word and a time.
abbrev ticking : Bus (ℕ × ℕ)
ticking = record {
  store = λ offset v c. if offset == csr then (v, c.1 + 1) else (c.0, c.1 + 1);
  load = λ offset c. ((if offset == csr then set_bit 1 c.0 else c.1 % 2 ^ 32), (c.0, c.1 + 1));
  sleep_us = λ n c. (c.0, c.1 + n);
}

ticking-KeepsBits : KeepsBits ticking (λ j. j == 4)
unfolding set_bit put_bit
ticking-KeepsBits = record {
  load-store = λ j v c w. rw ((==_iff j 4).0 w) (test-put 4 1 v true (omega arith) (omega arith));
  load-load = λ j o c w. refl;
  load-sleep_us = λ j n c w. refl;
}

link_test_settings_example :
    test_bit 4 (ticking.load csr (link_test ticking naturals 1 1 lcls2 false (0, 0)).1).0 ≡ true
link_test_settings_example =
    link_test_settings ticking ticking-KeepsBits 4 refl (omega arith) naturals 1 1 lcls2 (0, 0)

-- The events of the machine in a second, by the selection of a fixed rate.
abbrev machine : ℕ → ℕ
machine select = get_or (nominal lcls2) (select % 8) 0

-- The registers, and the counts of the channels.
abbrev counting : Bus ((ℕ → ℕ) × (ℕ → ℕ))
counting = record {
  store = λ offset v c. ((λ o. if offset == o then v else c.0 o), c.1);
  load = λ offset c. (c.1 ((offset - 0x80008) / 0x1000), c);
  sleep_us = λ n c. (
    c.0,
    (λ i.
        if leb 2000000 n && (c.0 (channel i 0) % 2 == 1)
        then machine (c.0 (channel i 1))
        else c.1 i),
  );
}

abbrev counting-IsCounting : IsCounting counting machine
counting-IsCounting = record {
  control = λ i c. c.0 (channel i 0);
  select = λ i c. c.0 (channel i 1);
  count = λ i c. c.1 i;
  control-store = λ i o v c. refl;
  select-store = λ i o v c. refl;
  control-load = λ i o c. refl;
  select-load = λ i o c. refl;
  count-load = λ i o c. refl;
  control-sleep_us = λ i n c. refl;
  select-sleep_us = λ i n c. refl;
  load-count = λ i c. ap c.1 (omega arith);
  count-sleep_us = λ i n c l on.
      let long : leb 2000000 n ≡ true = ground arith in
      let odd : (c.0 (channel i 0) % 2 == 1) ≡ true = ground (arith, on) in rw (long, odd) refl;
}

frame_rates_lines_example :
    let (reversed, lines, c') = frame_rates counting lcls2 (zeros, zeros) in
    (reversed ≡ false)
    × (lines ≡ lines_of lcls2 (λ i. machine (selected lcls2 i)) 7 0)
    × Seven (λ i. (c'.0 (channel i 0) ≡ 0) × (c'.0 (channel i 1) ≡ selected lcls2 i))
frame_rates_lines_example =
    frame_rates_lines counting machine counting-IsCounting lcls2 (zeros, zeros)

-- The offsets that the models use are those of the structs; the ring stands behind the control words,
-- and not at 0x70000.
offsets_of_programs :
    (offset_of evg_reg "csr" ≡ some control_base)
    × (offset_of evg_reg "ring" ≡ some ring_base)
    × (offset_of lock_core "app" ≡ some app_base)
    × (offset_of lock_core "coreNC" ≡ some core_nc_base)
    × (offset_of lock_core "coreSC" ≡ some core_sc_base)
offsets_of_programs = (refl, refl, refl, refl, refl)
