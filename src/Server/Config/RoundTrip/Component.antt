-- ===== src/Server/Config/RoundTrip/Component.antt =====
-- One field written as a component is read as that field.
use mathlib.Core.List.{reverse, reverse-append, reverse-reverse}
use vm_authn_scope.Prelude.{
  ℕ, ◌≤◌, false, Option, none, some, [], ◌∷◌, ◌++◌, ◌≡◌, ◌≢◌, refl, ap, arith, ◌==◌, text_eq,
  text_dec, nat_eq, ℕ_discrete, All, append_assoc, length,
}
use vm_authn_scope.Prelude.Result.{ok}
use vm_authn_scope.Prelude.Text.{Text, lit, trim, trim_start, split, splitn}
use vm_authn_scope.Server.Config.{
  Field, unix_user, unix_group, unix_bin, systemd_unitname, systemd_unitpath, Parsing, field,
  assign, assign_known, subparts, component,
}

abbrev pub Lacks : ℕ → Text → Type 0
Lacks c = All (λ d. d ≢ c)

-- A value that can stand in a component: no comma, and no white space at its end.
pub record IsTidy (v : Text) : Type 0 where
  pub no_comma : Lacks b',' v
  pub trimmed : trim_start (reverse v) ≡ reverse v

abbrev pub AllTidy : Option Text → Type 0
AllTidy none = Unit
AllTidy (some v) = IsTidy v

length-trim_start-le : (s : Text) → length (trim_start s) ≤ length s
unfolding trim_start
length-trim_start-le [] = omega arith
length-trim_start-le (c ∷ s) = ground (arith, length-trim_start-le s)

trim_start-ne : (c : ℕ) (w : Text) → trim_start w ≢ c ∷ w
trim_start-ne c w e = omega (arith, length-trim_start-le w, ap (λ (t : Text). length t) e)

-- Trimming stops where it stopped before, whatever follows a character that is no white space.
trim_start-append :
    (w rest : Text) → trim_start w ≡ w → trim_start (w ++ b':' ∷ rest) ≡ w ++ b':' ∷ rest
unfolding trim_start ℕ_discrete
trim_start-append [] rest h = refl
trim_start-append (c ∷ w) rest h = ground (arith, trim_start-ne c w)

pub split-append :
    (w rest : Text) → Lacks b',' w → split b',' (w ++ b',' ∷ rest) ≡ w ∷ split b',' rest
unfolding split
split-append [] rest h = ground arith
split-append (c ∷ w) rest h = ground (arith, split-append w rest h.1)

-- How a field is written in front of its value.
unfoldable pub prefix : Field → Text
prefix unix_user = lit "unix:user:"
prefix unix_group = lit "unix:group:"
prefix unix_bin = lit "unix:bin:"
prefix systemd_unitname = lit "systemd:unitname:"
prefix systemd_unitpath = lit "systemd:unitpath:"

pub prefix-Lacks : (f : Field) → Lacks b',' (prefix f)
unfolding prefix
prefix-Lacks unix_user = omega arith
prefix-Lacks _ = omega arith

reverse-split : (q v : Text) → reverse (q ++ b':' ∷ v) ≡ reverse v ++ b':' ∷ reverse q
reverse-split q v =
    rw (reverse-append q (b':' ∷ v), reverse-append (b':' ∷ []) v) (append_assoc (reverse v) _ _)

trim-append :
    (q : Text) {v : Text}
    → trim_start (q ++ b':' ∷ v) ≡ q ++ b':' ∷ v
    → IsTidy v
    → trim (q ++ b':' ∷ v) ≡ q ++ b':' ∷ v
trim-append q {v} h tidy =
    unfold trim in
    rw h (
      rw (reverse-split q v) (
        rw (trim_start-append (reverse v) (reverse q) tidy.trimmed)
          (rw (← reverse-split q v) (reverse-reverse _))))

trim-written : (f : Field) {v : Text} → IsTidy v → trim (prefix f ++ v) ≡ prefix f ++ v
unfolding trim_start prefix ℕ_discrete
trim-written unix_user h = trim-append (lit "unix:user") refl h
trim-written unix_group h = trim-append (lit "unix:group") refl h
trim-written unix_bin h = trim-append (lit "unix:bin") refl h
trim-written systemd_unitname h = trim-append (lit "systemd:unitname") refl h
trim-written systemd_unitpath h = trim-append (lit "systemd:unitpath") refl h

subparts-written :
    (f : Field) (part v : Text) (p : Parsing)
    → subparts part (splitn 3 b':' (prefix f ++ v)) p ≡ ok (assign f v p)
unfolding subparts prefix splitn assign_known field text_dec ℕ_discrete
subparts-written unix_user part v p = refl
subparts-written unix_group part v p = refl
subparts-written unix_bin part v p = refl
subparts-written systemd_unitname part v p = refl
subparts-written systemd_unitpath part v p = refl

prefix-ne-nil : (f : Field) (v : Text) → (prefix f ++ v == []) ≡ false
unfolding prefix text_dec
prefix-ne-nil unix_user v = refl
prefix-ne-nil unix_group v = refl
prefix-ne-nil unix_bin v = refl
prefix-ne-nil systemd_unitname v = refl
prefix-ne-nil systemd_unitpath v = refl

pub component-written :
    (f : Field) {v : Text} (p : Parsing)
    → IsTidy v
    → component (prefix f ++ v) p ≡ ok (assign f v p)
unfolding component
component-written f {v} p h =
    rw (trim-written f h) (rw (prefix-ne-nil f v) (subparts-written f _ v p))

-- A field as a component behind which a comma stands, or nothing.
unfoldable pub written : Field → Option Text → Text
written f none = []
written f (some v) = prefix f ++ (v ++ (b',' ∷ []))
