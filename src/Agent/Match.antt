-- ===== src/Agent/Match.antt =====
-- apps/rust-apps/authn-scope-agent/src/client.rs: `match_workload`, which finds the workload that a
-- process belongs to. The user database (`uzers`) is a parameter.
pub mod Fits
pub mod Sorted
pub mod Best
pub mod Hosted
pub mod Order
use vm_authn_scope.Prelude.{
  ℕ, ◌+◌, Bool, true, false, not, ◌&&◌, ◌||◌, Option, none, some, List, [], ◌∷◌, ltb, if◌then◌else◌,
  ◌==◌, ◌!=◌, text_eq, option_text_eq, option_nat_eq,
}
use mathlib.Core.Option
use vm_authn_scope.Prelude.Text.{Text, lit, first, strip_suffix}
use vm_authn_scope.Prelude.Dict.{Dict}
use vm_authn_scope.Proto.Wire.{UnixSelector, SystemdSelector, SelectorConfig, WorkloadConfig}

-- `uzers::get_user_by_name` and `get_group_by_name`, as the ids of what they find.
pub record Users : Type 0 where
  pub uid_of : Text → Option ℕ
  pub gid_of : Text → Option ℕ

-- What the agent has found out about the process at the other end of the socket.
pub record Process : Type 0 where
  pub uid : ℕ
  pub gid : ℕ
  pub bin_path : Option Text
  pub unitpath : Option Text
  pub unitname : Option Text

-- The flags of one round of the loop.
pub record Flags : Type 0 where
  pub matches : Bool
  pub systemd_matched : Bool
  pub bin_path_matched : Bool
  pub uid_matched : Bool
  pub gid_matched : Bool

abbrev initial : Flags
initial = record {
  matches = true;
  systemd_matched = false;
  bin_path_matched = false;
  uid_matched = false;
  gid_matched = false;
}

-- "service-a.service" and "service-a" both name the unit of the process.
unfoldable pub unit_is : Text → Text → Bool
unit_is wl_unitname proc_name =
    let stripped = Option.get_or (strip_suffix (lit ".service") proc_name) proc_name in
    not (wl_unitname != proc_name && wl_unitname != stripped)

-- The candidates: score and name.
pub record Candidate : Type 0 where
  pub score : ℕ
  pub name : Text

-- The priority scoring.
pub score_of : Flags → ℕ
score_of f =
    (if f.systemd_matched then 100 else 0)
    + (if f.bin_path_matched then 10 else 0)
    + (if f.uid_matched then 1 else 0)
    + (if f.gid_matched then 1 else 0)

module _ (users : Users) (proc : Process) where
  check_user : Option Text → Flags → Flags
  check_user none f = f
  check_user (some wl_user) f =
      if users.uid_of wl_user != some proc.uid
      then record f { matches = false }
      else record f { uid_matched = true }

  check_group : Option Text → Flags → Flags
  check_group none f = f
  check_group (some wl_group) f =
      if users.gid_of wl_group != some proc.gid
      then record f { matches = false }
      else record f { gid_matched = true }

  check_bin_path : Option Text → Flags → Flags
  check_bin_path none f = f
  check_bin_path (some wl_bin_path) f =
      if some wl_bin_path != proc.bin_path
      then record f { matches = false }
      else record f { bin_path_matched = true }

  check_unix : Option UnixSelector → Flags → Flags
  check_unix none f = f
  check_unix (some unix) f =
      check_bin_path unix.bin_path (check_group unix.group (check_user unix.user f))

  -- A criterion: whether it is set, and whether it holds if it is.
  unitpath_holds : Option Text → Bool
  unitpath_holds none = true
  unitpath_holds (some wl_unitpath) = not (some wl_unitpath != proc.unitpath)

  unitname_holds : Option Text → Bool
  unitname_holds none = true
  unitname_holds (some wl_unitname) = unit_is wl_unitname (Option.get_or proc.unitname [])

  abbrev is_set : Option Text → Bool
  is_set none = false
  is_set (some t) = true

  check_systemd : Option SystemdSelector → Flags → Flags
  check_systemd none f = f
  check_systemd (some systemd) f =
      let has_sysd_selector = is_set systemd.unitpath || is_set systemd.unitname in
      let sysd_matches = unitpath_holds systemd.unitpath && unitname_holds systemd.unitname in
      if has_sysd_selector
      then (if sysd_matches
          then record f { systemd_matched = true }
          else record f { matches = false })
      else f

  pub check_workload : SelectorConfig → Flags
  check_workload selector = check_systemd selector.systemd (check_unix selector.unix initial)

  push_candidate : Text → Flags → List Candidate → List Candidate
  push_candidate name f rest =
      if f.matches then record { score = score_of f; name = name } ∷ rest else rest

  candidates : Dict WorkloadConfig → List Candidate
  candidates [] = []
  candidates ((name, config) ∷ workloads) =
      push_candidate name (check_workload config.selector) (candidates workloads)

-- `sort_by(|a, b| b.0.cmp(&a.0))` is stable: a candidate goes behind those of the same score.
insert_sorted : List Candidate → Candidate → List Candidate
insert_sorted [] c = c ∷ []
insert_sorted (d ∷ sorted) c =
    let later = d ∷ insert_sorted sorted c in if ltb d.score c.score then c ∷ d ∷ sorted else later

pub sort : List Candidate → List Candidate → List Candidate
sort sorted [] = sorted
sort sorted (c ∷ cs) = sort (insert_sorted sorted c) cs

unfoldable pub match_workload : Users → Process → Dict WorkloadConfig → Option Text
unfolding candidates push_candidate check_workload check_unix check_systemd sort insert_sorted
    score_of check_user check_group check_bin_path unitpath_holds unitname_holds
match_workload users proc workloads =
    Option.map (λ (c : Candidate). c.name) (first (sort [] (candidates users proc workloads)))
