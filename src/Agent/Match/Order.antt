-- ===== src/Agent/Match/Order.antt =====
-- Whether the order in which the map is iterated matters.
use mathlib.Core.List.{Mem, mem-cons, not-mem-nil}
use mathlib.Core.Logic.Or
use mathlib.Core.Path.{subst}
use native.Mathlib.Bridge.{le_prop}
use vm_authn_scope.Prelude.{
  ℕ, ◌≤◌, true, false, some, List, [], ◌∷◌, arith, ◌≡◌, ◌↔◌, inl, inr, sym, All, Option-cases,
  if◌then◌else◌,
}
use vm_authn_scope.Prelude.Text.{Text}
use vm_authn_scope.Prelude.Dict.{Dict}
use vm_authn_scope.Proto.Wire.{WorkloadConfig}
use vm_authn_scope.Agent.Match.{Users, Process, match_workload}
use vm_authn_scope.Agent.Match.Fits.{fits, specificity}
use vm_authn_scope.Agent.Match.Best.{
  NoneAbove, NoneFits, match_workload-none, match_workload-best, match_workload_first,
}

module _ {A : Type 0} (P : A → Type 0) (prop : (a : A) → IsProp (P a)) where
  pub All-Mem : {a : A} (xs : List A) → All P xs → Mem a xs → P a
  All-Mem [] h m = absurd (not-mem-nil m)
  All-Mem {a} (x ∷ xs) (px, h) m =
      Or.elim (prop a) (mem-cons.0 m) (λ e. subst P (sym e) px) (All-Mem xs h)

module _ (users : Users) (proc : Process) where
  -- No two workloads that fit the process have the same score.
  abbrev pub NoTies : Dict WorkloadConfig → Type 0
  NoTies ws =
      (n n' : Text) (c c' : WorkloadConfig)
      → Mem (n, c) ws
      → Mem (n', c') ws
      → fits users proc c.selector ≡ true
      → fits users proc c'.selector ≡ true
      → specificity c.selector ≡ specificity c'.selector
      → n ≡ n'

  above :
      {n : ℕ} {name : Text} {c : WorkloadConfig} (ws : Dict WorkloadConfig)
      → NoneAbove users proc n ws
      → Mem (name, c) ws
      → fits users proc c.selector ≡ true
      → specificity c.selector ≤ n
  above {c} ws h m good =
      let top : (if fits users proc c.selector then specificity c.selector else 0) ≤ _ =
        All-Mem _ (λ e. le_prop) ws h m in
      rw good at top

  unfit :
      {name : Text} {c : WorkloadConfig} (ws : Dict WorkloadConfig)
      → NoneFits users proc ws
      → Mem (name, c) ws
      → fits users proc c.selector ≡ false
  unfit ws h m =
      All-Mem (λ (e : Text × WorkloadConfig). fits users proc e.1.selector ≡ false) (λ e. hlevel) ws
        h m

  abbrev Subset : Dict WorkloadConfig → Dict WorkloadConfig → Type 0
  Subset ws ws' = (e : Text × WorkloadConfig) → Mem e ws → Mem e ws'

  -- On two lists of the same workloads in any order match_workload returns the same, if any
  -- two that fit the process with the same score have the same name.
  pub match_workload-order :
      (ws ws' : Dict WorkloadConfig)
      → ((e : Text × WorkloadConfig) → Mem e ws ↔ Mem e ws')
      → NoTies ws
      → match_workload users proc ws ≡ match_workload users proc ws'
  match_workload-order ws ws' same ties = elim (Option-cases (match_workload users proc ws)) [
    | inl e ↦ elim (Option-cases (match_workload users proc ws')) [
      | inl e' ↦ cc
      | inr (n', e') ↦
          let (c', mem', good', top') = match_workload-best users proc ws' e' in
          absurd (
            cc (good', unfit ws ((match_workload-none users proc ws).0 e) ((same (n', c')).1 mem')))
    ]
    | inr (n, e) ↦
        let (c, mem, good, top) = match_workload-best users proc ws e in
        elim (Option-cases (match_workload users proc ws')) [
          | inl e' ↦ absurd (
              cc
                (good, unfit ws' ((match_workload-none users proc ws').0 e') ((same (n, c)).0 mem)))
          | inr (n', e') ↦
              let (c', mem', good', top') = match_workload-best users proc ws' e' in
              let m = (same (n', c')).1 mem' in
              let named : n ≡ n' =
                ties n n' c c' mem m good good' (
                  omega (arith, above ws top m good', above ws' top' ((same (n, c)).0 mem) good)) in
              cc (e, e', named)
        ]
  ]

  -- Of two workloads that fit a process with the same score, match_workload returns the one
  -- that comes first in the list of the map's entries.
  pub match_workload_tie :
      (n n' : Text) (c c' : WorkloadConfig)
      → fits users proc c.selector ≡ true
      → fits users proc c'.selector ≡ true
      → specificity c.selector ≡ specificity c'.selector
      → (match_workload users proc ((n, c) ∷ (n', c') ∷ []) ≡ some n)
        × (match_workload users proc ((n', c') ∷ (n, c) ∷ []) ≡ some n')
  match_workload_tie n n' c c' good good' equal = (
    match_workload_first users proc n n' c c' good good' (omega arith),
    match_workload_first users proc n' n c' c good' good (omega arith),
  )
