-- ===== src/Prelude/Io.antt =====
-- Code with effects that can fail: the state after the call comes back beside the error too.
use mathlib.Core.Path.{◌≡◌, refl}
use vm_authn_scope.Prelude.Result.{Result, ok, err}

abbrev pub Io : Type 0 → Type 0 → Type 0 → Type 0
Io S E A = S → Result E A × S

module _ {S E : Type 0} where
  abbrev pub pure : {A : Type 0} → A → Io S E A
  pure a s = (ok a, s)

  abbrev pub fail : {A : Type 0} → E → Io S E A
  fail e s = (err e, s)

  abbrev pub lift : {A : Type 0} → Result E A → Io S E A
  lift r s = (r, s)

  abbrev pub continue : {A B : Type 0} → (A → Io S E B) → Result E A × S → Result E B × S
  continue f (ok a, s) = f a s
  continue f (err e, s) = (err e, s)

  infixl 5 ◌>>=◌ ◌>>◌
  abbrev pub ◌>>=◌ : {A B : Type 0} → Io S E A → (A → Io S E B) → Io S E B
  ◌>>=◌ m f s = continue f (m s)

  abbrev pub ◌>>◌ : {A B : Type 0} → Io S E A → Io S E B → Io S E B
  ◌>>◌ m n s = continue (λ _. n) (m s)

-- `map_err` and `context`: the error is replaced, the state is not.
abbrev pub relabel : {E F A : Type 0} → (E → F) → Result E A → Result F A
relabel f (ok a) = ok a
relabel f (err e) = err (f e)

abbrev pub on_err : {S E F A : Type 0} → (E → F) → Io S E A → Io S F A
on_err f m s = let (r, s') = m s in (relabel f r, s')

-- A call whose error is dropped by `let _ =`.
abbrev pub ignoring : {S E F A : Type 0} → Io S E A → Io S F (Unit {0})
ignoring m s = let (r, s') = m s in (ok tt, s')

-- A result behind `?` comes from a result in front of it.
pub continue-eq-ok :
    {S E A B : Type 0} (f : A → Io S E B) (p : Result E A × S) {b : B}
    → (continue f p).0 ≡ ok b
    → (a : A) × (p.0 ≡ ok a) × ((f a p.1).0 ≡ ok b)
continue-eq-ok f (ok a, s) e = (a, refl, e)
continue-eq-ok f (err x, s) e = absurd (cc)

pub continue-eq :
    {S E A B : Type 0} (f : A → Io S E B) (p : Result E A × S) {b : B} {s : S}
    → continue f p ≡ (ok b, s)
    → (a : A) × (p.0 ≡ ok a) × (f a p.1 ≡ (ok b, s))
continue-eq f (ok a, s) e = (a, refl, e)
continue-eq f (err x, s) e = absurd (cc)

pub relabel-eq-ok :
    {E F A : Type 0} (f : E → F) (r : Result E A) {a : A} → relabel f r ≡ ok a → r ≡ ok a
relabel-eq-ok f (ok b) h = cc
relabel-eq-ok f (err e) h = absurd (cc)

pub relabel-eq :
    {S E F A : Type 0} (f : E → F) (p : Result E A × S) {a : A} {t : S}
    → on_err f (λ (_ : S). p) p.1 ≡ (ok a, t)
    → p ≡ (ok a, t)
relabel-eq f (ok b, s) h = cc
relabel-eq f (err e, s) h = absurd (cc)
