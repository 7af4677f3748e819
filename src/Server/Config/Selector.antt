-- ===== src/Server/Config/Selector.antt =====
-- What a selector that was accepted looks like.
use mathlib.Core.Path.{subst}
use vm_authn_scope.Prelude.{
  Bool, true, false, ◌&&◌, ◌||◌, Option, none, some, List, [], ◌∷◌, ◌≡◌, ◌≢◌, ◌⊎◌, inl, inr, refl,
  arith, Bool-cases, if◌then◌else◌, ◌==◌, text_eq,
}
use vm_authn_scope.Prelude.Result.{ok, >>=-eq-ok}
use vm_authn_scope.Prelude.Text.{Text, trim, split, splitn, is_some, is_none}
use vm_authn_scope.Proto.Wire.{UnixSelector, SystemdSelector, SelectorConfig}
use vm_authn_scope.Server.Config.{
  Field, unix_user, unix_group, unix_bin, systemd_unitname, systemd_unitpath, Parsing, start, field,
  assign, assign_known, subparts, component, components, finish, parse_text,
}

-- A part that is present selects by something.
abbrev pub UnixSelects : UnixSelector → Type 0
UnixSelects u = (u.user ≢ none) ⊎ ((u.group ≢ none) ⊎ (u.bin_path ≢ none))

abbrev pub SystemdSelects : SystemdSelector → Type 0
SystemdSelects s = (s.unitpath ≢ none) ⊎ (s.unitname ≢ none)

-- A path to a binary comes with a user and a group.
abbrev pub IsAttached : UnixSelector → Type 0
IsAttached u = (u.bin_path ≡ none) ⊎ ((u.user ≢ none) × (u.group ≢ none))

abbrev pub UnixIsValid : Option UnixSelector → Type 0
UnixIsValid none = Unit
UnixIsValid (some u) = UnixSelects u × IsAttached u

abbrev pub SystemdIsValid : Option SystemdSelector → Type 0
SystemdIsValid none = Unit
SystemdIsValid (some s) = SystemdSelects s

pub record IsValid (c : SelectorConfig) : Type 0 where
  pub unix : UnixIsValid c.unix
  pub systemd : SystemdIsValid c.systemd

-- The flags say whether a field was set.
record Tracks (p : Parsing) : Type 0 where
  unix_set : p.has_unix ≡ true → UnixSelects p.unix
  systemd_set : p.has_systemd ≡ true → SystemdSelects p.systemd

assign-Tracks : (f : Field) (value : Text) {p : Parsing} → Tracks p → Tracks (assign f value p)
unfolding assign
assign-Tracks unix_user value t = record { unix_set = λ _. inl (cc); systemd_set = t.systemd_set }
assign-Tracks unix_group value t = record {
  unix_set = λ _. inr (inl (cc));
  systemd_set = t.systemd_set;
}
assign-Tracks unix_bin value t = record {
  unix_set = λ _. inr (inr (cc));
  systemd_set = t.systemd_set;
}
assign-Tracks systemd_unitname value t = record {
  unix_set = t.unix_set;
  systemd_set = λ _. inr (cc);
}
assign-Tracks systemd_unitpath value t = record {
  unix_set = t.unix_set;
  systemd_set = λ _. inl (cc);
}

assign_known-Tracks :
    (part : Text) (f : Option Field) (value : Text) {p q : Parsing}
    → Tracks p
    → assign_known part f value p ≡ ok q
    → Tracks q
unfolding assign_known
assign_known-Tracks part none value t e = absurd (cc)
assign_known-Tracks part (some f) value {p} {q} t e =
    let same : assign f value p ≡ q = cc in rw same at (assign-Tracks f value t)

subparts-Tracks :
    (part : Text) (pieces : List Text) {p q : Parsing}
    → Tracks p
    → subparts part pieces p ≡ ok q
    → Tracks q
unfolding subparts
subparts-Tracks part (domain ∷ key ∷ value ∷ _) t e =
    assign_known-Tracks part (field domain key) value t e
subparts-Tracks part _ t e = absurd (cc)

component-Tracks : (raw : Text) {p q : Parsing} → Tracks p → component raw p ≡ ok q → Tracks q
unfolding component
component-Tracks raw {p} {q} t e = elim (Bool-cases (trim raw == [])) [
  | inl blank ↦ let same : p ≡ q = cc (blank, e) in rw same at t
  | inr full ↦ subparts-Tracks (trim raw) (splitn 3 b':' (trim raw)) t (rw full at e)
]

components-Tracks :
    (parts : List Text) {p q : Parsing} → Tracks p → components parts p ≡ ok q → Tracks q
unfolding components
components-Tracks [] {p} {q} t e = let same : p ≡ q = cc in rw same at t
components-Tracks (raw ∷ rest) {p} t e =
    let (p', first, later) = >>=-eq-ok (component raw p) (λ p'. components rest p') e in
    components-Tracks rest (component-Tracks raw t first) later

abbrev unattached : UnixSelector → Bool
unattached u = is_some u.bin_path && (is_none u.user || is_none u.group)

unattached-false : (u : UnixSelector) → unattached u ≡ false → IsAttached u
unattached-false u e = ground arith

unix_part :
    (b : Bool) (u : UnixSelector)
    → (b ≡ true → UnixSelects u)
    → unattached u ≡ false
    → UnixIsValid (if b then some u else none)
unix_part true u set e = (set refl, unattached-false u e)
unix_part false u set e = tt

systemd_part :
    (b : Bool) (s : SystemdSelector)
    → (b ≡ true → SystemdSelects s)
    → SystemdIsValid (if b then some s else none)
systemd_part true s set = set refl
systemd_part false s set = tt

finish-IsValid : (p : Parsing) {c : SelectorConfig} → Tracks p → finish p ≡ ok c → IsValid c
unfolding finish
finish-IsValid p {c} t e = elim (Bool-cases (unattached p.unix)) [
  | inl bad ↦ absurd (cc (bad, e))
  | inr good ↦
      let valid : IsValid (record {
        unix = if p.has_unix then some p.unix else none;
        systemd = if p.has_systemd then some p.systemd else none;
      }) =
        record {
          unix = unix_part p.has_unix p.unix t.unix_set good;
          systemd = systemd_part p.has_systemd p.systemd t.systemd_set;
        } in
      subst IsValid (cc (good, e)) valid
]

start-Tracks : Tracks start
start-Tracks = record { unix_set = λ e. absurd (cc); systemd_set = λ e. absurd (cc) }

-- A selector that parse_selector returns has a unix part only with a user, a group or a path to
-- a binary, such a path only with both a user and a group, and a systemd part only with a
-- unit's path or name.
pub parse_text-IsValid : (s : Text) {c : SelectorConfig} → parse_text s ≡ ok c → IsValid c
unfolding parse_text
parse_text-IsValid s e =
    let (p, parsed, done) = >>=-eq-ok (components (split b',' s) start) finish e in
    finish-IsValid p (components-Tracks (split b',' s) start-Tracks parsed) done
