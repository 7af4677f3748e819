-- ===== src/Server/Config/RoundTrip.antt =====
-- A selector written as text is parsed to itself.
pub mod Component
use mathlib.Core.List.{reverse, reverse-append, reverse-reverse}
use vm_authn_scope.Prelude.{
  ℕ, ◌≤◌, true, false, Option, none, some, [], ◌∷◌, ◌++◌, ◌≡◌, ◌≢◌, refl, ap, ◌∙◌, arith, ◌==◌,
  text_eq, text_dec, nat_eq, ℕ_discrete, All, All-append, append_assoc, append-nil, length,
}
use vm_authn_scope.Prelude.Result.{ok}
use vm_authn_scope.Prelude.Text.{Text, lit, trim, trim_start, split, splitn}
use vm_authn_scope.Proto.Wire.{UnixSelector, SystemdSelector, SelectorConfig}
use vm_authn_scope.Server.Config.{
  Field, unix_user, unix_group, unix_bin, systemd_unitname, systemd_unitpath, Parsing, start, field,
  assign, assign_known, subparts, component, components, finish, parse_text,
}
use vm_authn_scope.Server.Config.Selector.{IsValid, UnixIsValid, SystemdIsValid}
use vm_authn_scope.Server.Config.RoundTrip.Component.{
  AllTidy, split-append, prefix, prefix-Lacks, component-written, written,
}

-- The text of a selector.
abbrev write_unix : Option UnixSelector → Text
write_unix none = []
write_unix (some u) =
    written unix_user u.user ++ (written unix_group u.group ++ written unix_bin u.bin_path)

abbrev write_systemd : Option SystemdSelector → Text
write_systemd none = []
write_systemd (some s) = written systemd_unitname s.unitname ++ written systemd_unitpath s.unitpath

unfoldable pub write_selector : SelectorConfig → Text
unfolding written prefix
write_selector c = write_unix c.unix ++ write_systemd c.systemd

abbrev assign_option : Field → Option Text → Parsing → Parsing
assign_option f none p = p
assign_option f (some v) p = assign f v p

written_some :
    (f : Field) (v rest : Text)
    → (prefix f ++ (v ++ (b',' ∷ []))) ++ rest ≡ (prefix f ++ v) ++ b',' ∷ rest
written_some f v rest = simp append_assoc

components-written :
    (f : Field) (o : Option Text) (rest : Text) (p : Parsing)
    → AllTidy o
    → components (split b',' (written f o ++ rest)) p
      ≡ components (split b',' rest) (assign_option f o p)
unfolding written
components-written f none rest p h = refl
components-written f (some v) rest p h = rw (written_some f v rest) (
    rw (split-append (prefix f ++ v) rest (All-append _ _ _ (prefix-Lacks f) h.no_comma))
      (unfold components in rw (component-written f p h)))

components-unix :
    (u : UnixSelector) (rest : Text) (p : Parsing)
    → AllTidy u.user
    → AllTidy u.group
    → AllTidy u.bin_path
    → components (split b',' (write_unix (some u) ++ rest)) p
      ≡ components (split b',' rest) (
          assign_option unix_bin u.bin_path
            (assign_option unix_group u.group (assign_option unix_user u.user p)))
components-unix u rest p hu hg hb = rw (append_assoc (written unix_user u.user) _ rest) (
    rw (append_assoc (written unix_group u.group) _ rest) (
      components-written unix_user u.user _ p hu
      ∙ (components-written unix_group u.group _ _ hg
          ∙ components-written unix_bin u.bin_path rest _ hb)))

components-systemd :
    (s : SystemdSelector) (rest : Text) (p : Parsing)
    → AllTidy s.unitname
    → AllTidy s.unitpath
    → components (split b',' (write_systemd (some s) ++ rest)) p
      ≡ components
          (split b',' rest)
          (assign_option systemd_unitpath s.unitpath (assign_option systemd_unitname s.unitname p))
components-systemd s rest p hn hp = rw (append_assoc (written systemd_unitname s.unitname) _ rest) (
    components-written systemd_unitname s.unitname _ p hn
    ∙ components-written systemd_unitpath s.unitpath rest _ hp)

-- All values of a selector can be written.
abbrev pub UnixTidy : Option UnixSelector → Type 0
UnixTidy none = Unit
UnixTidy (some u) = AllTidy u.user × AllTidy u.group × AllTidy u.bin_path

abbrev pub SystemdTidy : Option SystemdSelector → Type 0
SystemdTidy none = Unit
SystemdTidy (some s) = AllTidy s.unitname × AllTidy s.unitpath

-- What the loop leaves after the fields of a part.
abbrev with_unix : Option UnixSelector → Parsing → Parsing
with_unix none p = p
with_unix (some u) p = record p { unix = u; has_unix = true }

abbrev with_systemd : Option SystemdSelector → Parsing → Parsing
with_systemd none p = p
with_systemd (some s) p = record p { systemd = s; has_systemd = true }

assigned_unix :
    (a b c : Option Text)
    → UnixIsValid (some (record { user = a; group = b; bin_path = c }))
    → assign_option unix_bin c (assign_option unix_group b (assign_option unix_user a start))
      ≡ with_unix (some (record { user = a; group = b; bin_path = c })) start
unfolding assign
assigned_unix a b c h = ground arith

assigned_systemd :
    (a b : Option Text) (u : Option UnixSelector)
    → SystemdIsValid (some (record { unitpath = b; unitname = a }))
    → assign_option systemd_unitpath b (assign_option systemd_unitname a (with_unix u start))
      ≡ with_systemd (some (record { unitpath = b; unitname = a })) (with_unix u start)
unfolding assign
assigned_systemd a b u h = ground arith

parsed_unix :
    (o : Option UnixSelector) (rest : Text)
    → UnixIsValid o
    → UnixTidy o
    → components (split b',' (write_unix o ++ rest)) start
      ≡ components (split b',' rest) (with_unix o start)
parsed_unix none rest v t = refl
parsed_unix (some u) rest v (hu, hg, hb) =
    components-unix u rest start hu hg hb ∙ rw (assigned_unix u.user u.group u.bin_path v)

parsed_systemd :
    (o : Option SystemdSelector) (u : Option UnixSelector)
    → SystemdIsValid o
    → SystemdTidy o
    → components (split b',' (write_systemd o ++ [])) (with_unix u start)
      ≡ ok (with_systemd o (with_unix u start))
unfolding components component split trim trim_start text_dec
parsed_systemd none u v t = refl
parsed_systemd (some s) u v (hn, hp) =
    components-systemd s [] (with_unix u start) hn hp
    ∙ rw (assigned_systemd s.unitname s.unitpath u v)

finish_with :
    (u : Option UnixSelector) (s : Option SystemdSelector)
    → UnixIsValid u
    → finish (with_systemd s (with_unix u start)) ≡ ok (record { unix = u; systemd = s })
unfolding finish
finish_with u s v = ground arith

-- A valid selector whose values contain no comma and do not end in white space is read back
-- from the text that write_selector gives it.
pub parse_text-write_selector :
    (c : SelectorConfig)
    → IsValid c
    → UnixTidy c.unix
    → SystemdTidy c.systemd
    → parse_text (write_selector c) ≡ ok c
unfolding parse_text write_selector
parse_text-write_selector c v tu ts = rw (← append-nil (write_systemd c.systemd)) (
    rw (parsed_unix c.unix _ v.unix tu)
      (rw (parsed_systemd c.systemd c.unix v.systemd ts) (finish_with c.unix c.systemd v.unix)))
