-- ===== src/Agent/Match/Sorted.antt =====
-- What stands at the head of the sorted candidates.
use mathlib.Core.Option
use vm_authn_scope.Prelude.{Option, none, some, List, [], ◌∷◌, arith, ◌≡◌, refl, if◌then◌else◌, ltb}
use vm_authn_scope.Prelude.Text.{first}
use vm_authn_scope.Agent.Match.{Candidate, insert_sorted, sort}

-- The head of the sorted list changes only for a higher score.
abbrev pub better : Option Candidate → Candidate → Option Candidate
better none c = some c
better (some d) c = if ltb d.score c.score then some c else some d

abbrev pub best : Option Candidate → List Candidate → Option Candidate
best o [] = o
best o (c ∷ cs) = best (better o c) cs

first-insert_sorted :
    (sorted : List Candidate) (c : Candidate)
    → first (insert_sorted sorted c) ≡ better (first sorted) c
unfolding insert_sorted
first-insert_sorted [] c = refl
first-insert_sorted (d ∷ sorted) c = ground arith

pub first-sort : (sorted cs : List Candidate) → first (sort sorted cs) ≡ best (first sorted) cs
unfolding sort
first-sort sorted [] = refl
first-sort sorted (c ∷ cs) =
    rw (← first-insert_sorted sorted c) (first-sort (insert_sorted sorted c) cs)

pub map-eq-none : {A B : Type 0} (f : A → B) (o : Option A) → Option.map f o ≡ none → o ≡ none
map-eq-none f none e = refl
map-eq-none f (some a) e = absurd (cc)

pub map-eq-some :
    {A B : Type 0} (f : A → B) (o : Option A) {b : B}
    → Option.map f o ≡ some b
    → (a : A) × (o ≡ some a) × (f a ≡ b)
map-eq-some f none e = absurd (cc)
map-eq-some f (some a) e = (a, refl, cc)
