-- ===== src/Agent/Match/Best.antt =====
-- The best candidate is found, and which one that is.
use mathlib.Core.List.{Mem, mem-cons_self, mem-cons_of_mem}
use mathlib.Core.Path.{subst}
use vm_authn_scope.Prelude.{
  ℕ, ◌≤◌, true, false, Option, none, some, List, [], ◌∷◌, arith, ◌≡◌, ◌⊎◌, ◌↔◌, inl, inr, refl,
  if◌then◌else◌, ltb, All, Bool-cases,
}
use vm_authn_scope.Prelude.Text.{Text, first}
use vm_authn_scope.Prelude.Dict.{Dict}
use vm_authn_scope.Proto.Wire.{WorkloadConfig}
use vm_authn_scope.Agent.Match.{
  Users, Process, Candidate, candidates, push_candidate, check_workload, sort, match_workload,
}
use vm_authn_scope.Agent.Match.Fits.{fits, specificity, matches-fits, score-fits}
use vm_authn_scope.Agent.Match.Sorted.{better, best, first-sort, map-eq-none, map-eq-some}

module _ (users : Users) (proc : Process) where
  abbrev candidate : Text → WorkloadConfig → Candidate
  candidate name config = record { score = specificity config.selector; name = name }

  push_fits :
      (name : Text) (config : WorkloadConfig) (rest : List Candidate)
      → fits users proc config.selector ≡ true
      → push_candidate users proc name (check_workload users proc config.selector) rest
        ≡ candidate name config ∷ rest
  unfolding push_candidate
  push_fits name config rest h =
      ground
        (arith, matches-fits users proc config.selector, h, score-fits users proc config.selector h)

  push_unfit :
      (name : Text) (config : WorkloadConfig) (rest : List Candidate)
      → fits users proc config.selector ≡ false
      → push_candidate users proc name (check_workload users proc config.selector) rest ≡ rest
  unfolding push_candidate
  push_unfit name config rest h = rw (matches-fits users proc config.selector, h)

  abbrev Entry : Type 0
  Entry = Text × WorkloadConfig

  -- All workloads that fit score at most so much.
  abbrev pub NoneAbove : ℕ → Dict WorkloadConfig → Type 0
  NoneAbove n = All (λ (e : Text × WorkloadConfig).
      (if fits users proc e.1.selector then specificity e.1.selector else 0) ≤ n)

  abbrev AtMost : ℕ → Option Candidate → Type 0
  AtMost n none = Unit
  AtMost n (some d) = d.score ≤ n

  -- The workload behind a candidate.
  abbrev Behind : Candidate → Dict WorkloadConfig → Type 0
  Behind m ws =
      (config : WorkloadConfig) × Mem (m.name, config) ws
      × (fits users proc config.selector ≡ true)
      × (m.score ≡ specificity config.selector)

  record Best (o : Option Candidate) (ws : Dict WorkloadConfig) (m : Candidate) : Type 0 where
    origin : (o ≡ some m) ⊎ Behind m ws
    above_list : NoneAbove m.score ws
    above_start : AtMost m.score o

  AtMost-self : (o : Option Candidate) {m : Candidate} → o ≡ some m → AtMost m.score o
  AtMost-self none e = tt
  AtMost-self (some d) e = ground arith

  Behind-cons :
      (e : Entry) (ws : Dict WorkloadConfig) {m : Candidate} → Behind m ws → Behind m (e ∷ ws)
  Behind-cons e ws (config, mem, good, score) = (config, mem-cons_of_mem e mem, good, score)

  Behind-head :
      (name : Text) (config : WorkloadConfig) (ws : Dict WorkloadConfig) {m : Candidate}
      → fits users proc config.selector ≡ true
      → candidate name config ≡ m
      → Behind m ((name, config) ∷ ws)
  Behind-head name config ws good e =
      subst (λ k. Behind k ((name, config) ∷ ws)) e (config, mem-cons_self, good, refl)

  Best-fits :
      (name : Text) (config : WorkloadConfig) (ws : Dict WorkloadConfig) (o : Option Candidate)
      {m : Candidate}
      → fits users proc config.selector ≡ true
      → Best (better o (candidate name config)) ws m
      → Best o ((name, config) ∷ ws) m
  Best-fits name config ws none good b = record {
    origin = elim b.origin [
      | inl e ↦ inr (Behind-head name config ws good (cc e))
      | inr w ↦ inr (Behind-cons (name, config) ws w)
    ];
    above_list = (rw good b.above_start, b.above_list);
    above_start = tt;
  }
  Best-fits name config ws (some d) good b =
      elim (Bool-cases (ltb d.score (specificity config.selector))) [
        | inl higher ↦
            let b' : Best (some (candidate name config)) ws _ = rw higher at b in
            record {
              origin = elim b'.origin [
                | inl e ↦ inr (Behind-head name config ws good (cc e))
                | inr w ↦ inr (Behind-cons (name, config) ws w)
              ];
              above_list = (rw good b'.above_start, b'.above_list);
              above_start = ground (arith, b'.above_start);
            }
        | inr lower ↦
            let b' : Best (some d) ws _ = rw lower at b in
            record {
              origin = elim b'.origin [
                | inl e ↦ inl e
                | inr w ↦ inr (Behind-cons (name, config) ws w)
              ];
              above_list = (rw good (ground (arith, b'.above_start)), b'.above_list);
              above_start = b'.above_start;
            }
      ]

  best-Best :
      (o : Option Candidate) (ws : Dict WorkloadConfig) {m : Candidate}
      → best o (candidates users proc ws) ≡ some m
      → Best o ws m
  unfolding candidates
  best-Best o [] e = record { origin = inl e; above_list = tt; above_start = AtMost-self o e }
  best-Best o ((name, config) ∷ ws) e = elim (Bool-cases (fits users proc config.selector)) [
    | inl good ↦ Best-fits name config ws o good (
        best-Best (better o (candidate name config)) ws
          (rw (push_fits name config (candidates users proc ws) good) at e))
    | inr bad ↦
        let b = best-Best o ws (rw (push_unfit name config (candidates users proc ws) bad) at e) in
        record {
          origin = elim b.origin [ inl e ↦ inl e | inr w ↦ inr (Behind-cons (name, config) ws w) ];
          above_list = (rw bad (omega arith), b.above_list);
          above_start = b.above_start;
        }
  ]

  best-some : (d : Candidate) (cs : List Candidate) → (m : Candidate) × (best (some d) cs ≡ some m)
  best-some d [] = (d, refl)
  best-some d (c ∷ cs) = elim (Bool-cases (ltb d.score c.score)) [
    | inl higher ↦ let (m, e) = best-some c cs in (m, rw higher e)
    | inr lower ↦ let (m, e) = best-some d cs in (m, rw lower e)
  ]

  abbrev pub NoneFits : Dict WorkloadConfig → Type 0
  NoneFits = All (λ (e : Text × WorkloadConfig). fits users proc e.1.selector ≡ false)

  best-none :
      (ws : Dict WorkloadConfig) → (best none (candidates users proc ws) ≡ none) ↔ NoneFits ws
  unfolding candidates
  best-none [] = (λ _. tt, λ _. refl)
  best-none ((name, config) ∷ ws) = elim (Bool-cases (fits users proc config.selector)) [
    | inl good ↦
        let (m, e) = best-some (candidate name config) (candidates users proc ws) in
        (
          λ h. absurd (cc (rw (push_fits name config (candidates users proc ws) good) at h, e)),
          λ h. absurd (cc (h.0, good)),
        )
    | inr bad ↦
        rw (push_unfit name config (candidates users proc ws) bad)
          (λ h. (bad, (best-none ws).0 h), λ h. (best-none ws).1 h.1)
  ]

  -- match_workload returns nothing exactly if no configured workload fits the process.
  pub match_workload-none :
      (ws : Dict WorkloadConfig) → (match_workload users proc ws ≡ none) ↔ NoneFits ws
  unfolding match_workload
  match_workload-none ws = (
    λ h. (best-none ws).0 (rw (first-sort [] (candidates users proc ws)) at (map-eq-none _ _ h)),
    λ h. rw (first-sort [] (candidates users proc ws), (best-none ws).1 h),
  )

  from_origin :
      (ws : Dict WorkloadConfig) (m : Candidate) {name : Text}
      → m.name ≡ name
      → NoneAbove m.score ws
      → (◌≡◌ {A = Option Candidate} none (some m)) ⊎ Behind m ws
      → (config : WorkloadConfig) × Mem (name, config) ws
        × (fits users proc config.selector ≡ true)
        × NoneAbove (specificity config.selector) ws
  from_origin ws m named above (inl e) = absurd (cc)
  from_origin ws m named above (inr (config, mem, good, score)) = (
    config,
    subst (λ n. Mem (n, config) ws) named mem,
    good,
    subst (λ n. NoneAbove n ws) score above,
  )

  -- The workload that match_workload returns is one of those configured, all criteria that
  -- its selector sets hold of the process, and no configured workload of which that is true
  -- has a higher score.
  pub match_workload-best :
      (ws : Dict WorkloadConfig) {name : Text}
      → match_workload users proc ws ≡ some name
      → (config : WorkloadConfig) × Mem (name, config) ws
        × (fits users proc config.selector ≡ true)
        × NoneAbove (specificity config.selector) ws
  unfolding match_workload
  match_workload-best ws e =
      let (m, found, named) = map-eq-some _ (first (sort [] (candidates users proc ws))) e in
      let b = best-Best none ws (rw (first-sort [] (candidates users proc ws)) at found) in
      from_origin ws m named b.above_list b.origin

  -- Of two workloads that fit, the first is taken unless the second scores higher.
  pub match_workload_first :
      (n n' : Text) (c c' : WorkloadConfig)
      → fits users proc c.selector ≡ true
      → fits users proc c'.selector ≡ true
      → specificity c'.selector ≤ specificity c.selector
      → match_workload users proc ((n, c) ∷ (n', c') ∷ []) ≡ some n
  unfolding match_workload candidates
  match_workload_first n n' c c' good good' lower =
      rw (first-sort [] (candidates users proc ((n, c) ∷ (n', c') ∷ []))) (
        rw (push_fits n c (candidates users proc ((n', c') ∷ [])) good, push_fits n' c' [] good')
          (ground arith))
