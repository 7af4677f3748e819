-- ===== src/Agent/Conn/Peer.antt =====
-- What `observe` finds out: the process behind the peer's credentials, and no other.
use mathlib.Core.Option.{Option, none, some}
use vm_authn_scope.Prelude.{◌≡◌, inl, inr, refl, true, List, [], ◌∷◌, ◌++◌, Bool-cases}
use vm_authn_scope.Prelude.Text.{Text, lit, show, split, last, lines, contains}
use vm_authn_scope.Agent.Match.{Process}
use vm_authn_scope.Agent.Conn.{
  PeerCred, Surroundings, observe, service_path, or_next, first_unit, and_then, proc_file,
}

-- The third field of a line of a cgroup file, if it has ".service" in it.
pub record UnitOf (line path : Text) : Type 0 where
  pub number : Text
  pub controller : Text
  pub rest : List Text
  pub fields : split b':' line ≡ number ∷ controller ∷ path ∷ rest
  pub is_service : contains (lit ".service") path ≡ true

-- The unit of the first line that has one.
pub data FirstUnit : List Text → Option Text → Type 0 where
  no_line : FirstUnit [] none
  this_line :
      (line path : Text) (rest : List Text) → UnitOf line path → FirstUnit (line ∷ rest) (some path)
  other_line :
      (line : Text) (rest : List Text) (unit : Option Text)
      → ((path : Text) → ¬ (UnitOf line path))
      → FirstUnit rest unit
      → FirstUnit (line ∷ rest) unit

-- The unit that a cgroup file names, if it can be read.
unfoldable pub UnitIn : Option Text → Option Text → Type 0
UnitIn none unit = unit ≡ none
UnitIn (some content) unit = FirstUnit (lines content) unit

unfoldable pub NameOf : Option Text → Option Text → Type 0
NameOf none name = name ≡ none
NameOf (some path) name = name ≡ last (split b'/' path)

-- The process with these credentials, as /proc shows it under its process id.
pub record IsPeer (around : Surroundings) (cred : PeerCred) (proc : Process) : Type 0 where
  pub own_uid : proc.uid ≡ cred.uid
  pub own_gid : proc.gid ≡ cred.gid
  pub own_bin : proc.bin_path ≡ around.read_link (lit "/proc/" ++ (show cred.pid ++ lit "/exe"))
  pub own_unit :
      UnitIn
        (around.read_to_string (lit "/proc/" ++ (show cred.pid ++ lit "/cgroup")))
        proc.unitpath
  pub own_name : NameOf proc.unitpath proc.unitname

first_unit-cons :
    (line : Text) (rest parts : List Text)
    → split b':' line ≡ parts
    → FirstUnit rest (first_unit rest)
    → FirstUnit (line ∷ rest) (or_next (service_path parts) (first_unit rest))
unfolding service_path
first_unit-cons line rest [] e later =
    other_line line rest _ (λ path u. absurd (cc (u.fields, e))) later
first_unit-cons line rest (a ∷ []) e later =
    other_line line rest _ (λ path u. absurd (cc (u.fields, e))) later
first_unit-cons line rest (a ∷ b ∷ []) e later =
    other_line line rest _ (λ path u. absurd (cc (u.fields, e))) later
first_unit-cons line rest (a ∷ b ∷ path ∷ more) e later =
    elim (Bool-cases (contains (lit ".service") path)) [
      | inl service ↦ rw service (
          this_line line path rest
            (record { number = a; controller = b; rest = more; fields = e; is_service = service }))
      | inr other ↦ rw other (
          other_line line rest _
            (λ p u.
              let same : p ≡ path = cc (u.fields, e) in absurd (cc (u.is_service, same, other)))
            later)
    ]

first_unit-FirstUnit : (ls : List Text) → FirstUnit ls (first_unit ls)
unfolding first_unit
first_unit-FirstUnit [] = no_line
first_unit-FirstUnit (line ∷ rest) =
    first_unit-cons line rest (split b':' line) refl (first_unit-FirstUnit rest)

unit_in : (content : Option Text) → UnitIn content (and_then content (λ c. first_unit (lines c)))
unfolding UnitIn
unit_in none = refl
unit_in (some content) = first_unit-FirstUnit (lines content)

name_of : (unit : Option Text) → NameOf unit (and_then unit (λ path. last (split b'/' path)))
unfolding NameOf
name_of none = refl
name_of (some path) = refl

-- What observe finds out about a peer is the user and group of its credentials, the target of
-- the link /proc/PID/exe under its process id, and as its unit the third field of the first
-- line of /proc/PID/cgroup that has such a field with .service in it, if the file can be read
-- and there is one, with what stands behind the last slash of that as the unit's name.
pub observe-IsPeer :
    (around : Surroundings) (cred : PeerCred) → IsPeer around cred (observe around cred)
unfolding observe
observe-IsPeer around cred = record {
  own_uid = refl;
  own_gid = refl;
  own_bin = refl;
  own_unit = unit_in (around.read_to_string (proc_file cred.pid (lit "/cgroup")));
  own_name = name_of _;
}
