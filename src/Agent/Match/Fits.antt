-- ===== src/Agent/Match/Fits.antt =====
-- When a workload fits a process, and what its score is: an independent description.
use vm_authn_scope.Prelude.{
  ℕ, ◌+◌, Bool, true, ◌&&◌, Option, none, some, [], arith, ◌≡◌, ◌==◌, option_text_eq, option_nat_eq,
}
use mathlib.Core.Option
use vm_authn_scope.Prelude.Text.{Text}
use vm_authn_scope.Proto.Wire.{UnixSelector, SystemdSelector, SelectorConfig}
use vm_authn_scope.Agent.Match.{
  Users, Process, unit_is, check_user, check_group, check_bin_path, check_unix, unitpath_holds,
  unitname_holds, check_systemd, check_workload, score_of,
}

-- A criterion that is not set holds.
abbrev holds : Option Text → (Text → Bool) → Bool
holds none test = true
holds (some t) test = test t

-- What a criterion adds to the score if it is set.
abbrev weight : Option Text → ℕ → ℕ
weight none w = 0
weight (some t) w = w

module _ (users : Users) (proc : Process) where
  fits_unix : Option UnixSelector → Bool
  fits_unix none = true
  fits_unix (some u) =
      holds u.user (λ t. users.uid_of t == some proc.uid)
      && (holds u.group (λ t. users.gid_of t == some proc.gid)
          && holds u.bin_path (λ t. some t == proc.bin_path))

  fits_systemd : Option SystemdSelector → Bool
  fits_systemd none = true
  fits_systemd (some s) =
      holds s.unitpath (λ t. some t == proc.unitpath)
      && holds s.unitname (λ t. unit_is t (Option.get_or proc.unitname []))

  -- All criteria that are set hold.
  unfoldable pub fits : SelectorConfig → Bool
  unfolding fits_unix fits_systemd
  fits c = fits_unix c.unix && fits_systemd c.systemd

-- A systemd criterion weighs 100, the path of the binary 10, the user and the group 1 each.
weigh_unix : Option UnixSelector → ℕ
weigh_unix none = 0
weigh_unix (some u) = weight u.bin_path 10 + weight u.user 1 + weight u.group 1

abbrev weigh_units : Option Text → Option Text → ℕ
weigh_units none none = 0
weigh_units none (some t) = 100
weigh_units (some t) _ = 100

weigh_systemd : Option SystemdSelector → ℕ
weigh_systemd none = 0
weigh_systemd (some s) = weigh_units s.unitpath s.unitname

unfoldable pub specificity : SelectorConfig → ℕ
unfolding weigh_unix weigh_systemd
specificity c = weigh_systemd c.systemd + weigh_unix c.unix

module _ (users : Users) (proc : Process) where
  pub matches-fits :
      (c : SelectorConfig) → (check_workload users proc c).matches ≡ fits users proc c
  unfolding check_workload check_unix check_systemd check_user check_group check_bin_path
      unitpath_holds unitname_holds fits
  matches-fits c = ground arith

  -- A workload that fits is scored by what its selector asks for.
  pub score-fits :
      (c : SelectorConfig)
      → fits users proc c ≡ true
      → score_of (check_workload users proc c) ≡ specificity c
  unfolding check_workload check_unix check_systemd check_user check_group check_bin_path
      unitpath_holds unitname_holds fits specificity score_of
  score-fits c h = ground arith
