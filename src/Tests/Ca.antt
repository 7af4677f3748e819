-- ===== src/Tests/Ca.antt =====
-- The authority and the evaluator at concrete inputs.
use vm_authn_scope.Prelude.Ip.{parse_ip}
use vm_authn_scope.Prelude.{
  ℕ_discrete, ◌≡◌, ◌≢◌, ◌↔◌, refl, ap, length, List, Option, none, some, [], ◌∷◌, false,
  if◌then◌else◌, ◌==◌, text_eq, arith,
}
use vm_authn_scope.Prelude.Result.{ok, err}
use vm_authn_scope.Prelude.Text.{Text, lit}
use vm_authn_scope.Prelude.Errors.{IoError, other}
use vm_authn_scope.Ca.Errors.{CaError}
use vm_authn_scope.Ca.Errors
use vm_authn_scope.Ca.Files.{
  Fs, Call, read, remove, create_parent, write, set_mode, bind, create_parent_dir, write_file,
  set_permissions,
}
use vm_authn_scope.Ca.Rcgen.{PemRoundTrips, DnType, common_name, organization_name}
use vm_authn_scope.Ca.Authority.{init, load, ca_params, rcgen_cert}
use vm_authn_scope.Ca.Authority.Stored.{IsStored, init-load, init-exposed}
use vm_authn_scope.Ca.Signing.{SigningRequest, sign_csr}
use vm_authn_scope.Ca.Signing.Issued.{Issued, sign_csr_iff}
use vm_authn_scope.Evaluator.{from_cert_pem, first_name}
use vm_authn_scope.Evaluator.Accepted.{Verified, from_cert_pem_iff}
use vm_authn_scope.Evaluator.Issued.{common_names, Interop, Authentic, from_cert_pem-sign_csr}
use vm_authn_scope.Tests.World.{params_for, rcgen, x509, subject, made, vm_a, web}

abbrev cert_path : Text
cert_path = lit "c"

abbrev key_path : Text
key_path = lit "key"

distinct : cert_path ≢ key_path
distinct e = omega (arith, ap (λ (t : Text). length t) e)

abbrev empty_fs : Fs
empty_fs = record { file = λ p. none; refuses = λ c. none; new_mode = 0o644; socket_mode = 0o755 }

round_trips : PemRoundTrips rcgen 3 (lit "authn-scope-ca")
round_trips = record { key = refl; cert = refl }

abbrev made_fs : Fs
made_fs = (init rcgen (ok 3) cert_path key_path false empty_fs).1

init-load_example :
    IsStored cert_path key_path made empty_fs made_fs
    × (load rcgen cert_path key_path made_fs ≡ (ok made, made_fs))
unfolding init ca_params create_parent_dir write_file set_permissions
init-load_example =
    init-load rcgen cert_path key_path distinct 3 (lit "authn-scope-ca") empty_fs refl round_trips
      refl refl refl

-- A system that grants everything but the change of the key's mode.
refuse_mode : Call → Option IoError
refuse_mode (set_mode path) = if path == key_path then some (other 1) else none
refuse_mode _ = none

abbrev strict_fs : Fs
strict_fs = record {
  file = λ p. none;
  refuses = refuse_mode;
  new_mode = 0o644;
  socket_mode = 0o755;
}

refuse_mode_others : (call : Call) → call ≢ set_mode key_path → refuse_mode call ≡ none
unfolding refuse_mode
refuse_mode_others (set_mode path) h = ground arith
refuse_mode_others (read path) h = refl
refuse_mode_others (remove path) h = refl
refuse_mode_others (create_parent path) h = refl
refuse_mode_others (write path) h = refl
refuse_mode_others (bind path) h = refl

refuse_mode_key : refuse_mode (set_mode key_path) ≡ some (other 1)
unfolding refuse_mode
refuse_mode_key = ground arith

init-exposed_example :
    ((init rcgen (ok 3) cert_path key_path false strict_fs).0 ≡ err (Errors.io (other 1)))
    × ((init rcgen (ok 3) cert_path key_path false strict_fs).1.file key_path
        ≡ some (record { content = lit "key"; mode = 0o644 }))
unfolding ca_params
init-exposed_example =
    init-exposed rcgen cert_path key_path distinct 3 (lit "authn-scope-ca") strict_fs (other 1) refl
      refuse_mode_key refuse_mode_others

abbrev request : SigningRequest
request = record {
  csr_pem = lit "someone";
  identity = web;
  vm_name = vm_a;
  cid = 3;
  ip = some (lit "10.0.0.1");
  validity_seconds = 60;
}

sign_csr_iff_example :
    (sign_csr rcgen made 100 request ≡ ok (lit "someone"))
    ↔ Issued rcgen made 100 request (lit "someone")
sign_csr_iff_example = sign_csr_iff rcgen made 100 request (lit "someone")

from_cert_pem_iff_example :
    (from_cert_pem x509 web made.cert_pem ≡ ok (record { identity = web }))
    ↔ Verified x509 web made.cert_pem web
from_cert_pem_iff_example = from_cert_pem_iff x509 web made.cert_pem web

-- The two small libraries agree on the subject.
pub subject-common_names :
    (dn : List (DnType × Text)) {name : Text}
    → subject dn ≡ ok name
    → some name ∷ [] ≡ common_names dn
unfolding common_names
subject-common_names [] e = absurd (cc)
subject-common_names ((common_name, text) ∷ []) e = cc
subject-common_names ((common_name, text) ∷ (organization_name, o) ∷ []) e = cc
subject-common_names ((common_name, text) ∷ (common_name, o) ∷ dn) e = absurd (cc)
subject-common_names ((common_name, text) ∷ (organization_name, o) ∷ x ∷ dn) e = absurd (cc)
subject-common_names ((organization_name, text) ∷ dn) e = absurd (cc)

abbrev pub interop : Interop rcgen x509
interop = record {
  key_of = λ k. k;
  reads = λ csr issuer key leaf h. (leaf, (leaf, refl, refl), refl, subject-common_names _ h);
}

pub authentic : Authentic rcgen x509 interop made
authentic = record {
  key = 3;
  cert = made.cert_pem;
  key_read = refl;
  cert_read = (made.cert_pem, refl, refl);
  same_key = refl;
}

from_cert_pem-sign_csr_example :
    from_cert_pem x509 (lit "someone") made.cert_pem ≡ ok (record { identity = lit "someone" })
unfolding sign_csr rcgen_cert common_names first_name parse_ip ℕ_discrete
from_cert_pem-sign_csr_example =
    from_cert_pem-sign_csr rcgen x509 interop made authentic 100 request
      (record { params = params_for ((common_name, lit "someone") ∷ []); public_key = 5 }) refl refl
      refl
