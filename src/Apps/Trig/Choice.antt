-- ===== src/Apps/Trig/Choice.antt =====
-- software/app/tprtrig.cc: the options of `main`.
use evr_card_g.Base.{ℕ, ℤ, Bool, true, false, List, [], ◌∷◌, ◌++◌, ◌==◌, if◌then◌else◌, some}
use evr_card_g.Base.Outcome.{Outcome}
use evr_card_g.Base.Run.{Run, done, ◌>>=◌}
use evr_card_g.Apps.Options.{
  Answer, Parse, go, leave, Options, device_option, misused, with_settings,
}
use evr_card_g.Apps.Reals.{Reals}
use evr_card_g.Apps.Trig.Config.{
  FixedRateConfig, AcRateConfig, SeqConfig, BeamConfig, GroupConfig, fixed_rate_config,
  ac_rate_config, seq_config, beam_config, group_config,
}

pub record TrigSettings (R : Type 0) : Type 0 where
  pub fixed : List (FixedRateConfig R)
  pub ac : List (AcRateConfig R)
  pub seqs : List (SeqConfig R)
  pub beams : List (BeamConfig R)
  pub groups : List (GroupConfig R)
  pub reset_rx? : Bool
  pub clk_sel? : Bool
  pub verbose : Bool

abbrev pub trig_defaults : {R : Type 0} → TrigSettings R
trig_defaults = record {
  fixed = [];
  ac = [];
  seqs = [];
  beams = [];
  groups = [];
  reset_rx? = false;
  clk_sel? = true;
  verbose = false;
}

-- The cases of the switch. The first two are the numbers 1 and 2, not the digits.
pub data Kind : Type 0 where
  number_one number_two device fixed_rate ac_rate sequence readout_group on_beam : Kind
  be_verbose reset_receiver help unknown : Kind

unfoldable pub kind_of : ℕ → Kind
kind_of c =
    if c == 1
    then number_one
    else if c == 2
    then number_two
    else if c == b'd'
    then device
    else if c == b'f'
    then fixed_rate
    else if c == b'a'
    then ac_rate
    else if c == b's'
    then sequence
    else if c == b'g'
    then readout_group
    else if c == b'b'
    then on_beam
    else if c == b'v'
    then be_verbose
    else if c == b'R'
    then reset_receiver
    else if c == b'h'
    then help
    else unknown

module _ (reals : Reals) where
  open reals use {Real}

  abbrev pub trig_keep :
      {A : Type 0}
      → Outcome A
      → (A → TrigSettings Real)
      → Options (TrigSettings Real)
      → Run (Parse (Options (TrigSettings Real)))
  trig_keep read keep o = do x ← some read; done (go (with_settings (keep x) o))

  -- What the program does with an option of each kind.
  unfoldable pub trig_case :
      Kind → List ℕ → Options (TrigSettings Real) → Run (Parse (Options (TrigSettings Real)))
  trig_case number_one arg o = done (go (with_settings (record o.settings { clk_sel? = false }) o))
  trig_case number_two arg o = done (go (with_settings (record o.settings { clk_sel? = true }) o))
  trig_case device arg o = done (go (device_option arg o))
  trig_case fixed_rate arg o =
      trig_keep (fixed_rate_config reals arg)
        (λ x. record o.settings { fixed = o.settings.fixed ++ x ∷ [] }) o
  trig_case ac_rate arg o =
      trig_keep (ac_rate_config reals arg) (λ x. record o.settings { ac = o.settings.ac ++ x ∷ [] })
        o
  trig_case sequence arg o =
      trig_keep (seq_config reals arg) (λ x. record o.settings { seqs = o.settings.seqs ++ x ∷ [] })
        o
  trig_case readout_group arg o =
      trig_keep (group_config reals arg)
        (λ x. record o.settings { groups = o.settings.groups ++ x ∷ [] }) o
  trig_case on_beam arg o =
      trig_keep (beam_config reals arg)
        (λ x. record o.settings { beams = o.settings.beams ++ x ∷ [] }) o
  trig_case be_verbose arg o = done (go (with_settings (record o.settings { verbose = true }) o))
  trig_case reset_receiver arg o =
      done (go (with_settings (record o.settings { reset_rx? = true }) o))
  trig_case help arg o = done (leave (ℤ.pos 0))
  trig_case unknown arg o = done (go (misused o))

  -- The switch over getopt's answer.
  unfoldable pub trig_option :
      Answer → Options (TrigSettings Real) → Run (Parse (Options (TrigSettings Real)))
  unfolding trig_case kind_of
  trig_option a o = trig_case (kind_of a.char) a.optarg o
