-- ===== src/Tests/World.antt =====
-- Small libraries that stand for the parameters: PEM texts are the subject's name, and every
-- certificate comes from one key.
use vm_authn_scope.Prelude.{ℕ, ◌*◌, none, some, List, [], ◌∷◌, length}
use vm_authn_scope.Prelude.Result.{Result, ok, err}
use vm_authn_scope.Prelude.Int.{pos}
use vm_authn_scope.Prelude.Text.{Text, lit}
use vm_authn_scope.Prelude.Errors.{Bytes, IoError}
use vm_authn_scope.Proto.Wire.{
  AgentRequest, handshake, cert_request, AgentResponse, handshake_ok, cert_ok, error,
}
use vm_authn_scope.Proto.Codec.{Json, Stream}
use vm_authn_scope.Ca.Rcgen.{Rcgen, CertParams, DnType, common_name, organization_name, no_ca}
use vm_authn_scope.Ca.Authority.{CertificateAuthority}
use vm_authn_scope.X509.{X509}
use vm_authn_scope.Agent.Kernel.{Kernel}
use vm_authn_scope.Agent.Config.{AgentConfig}
use vm_authn_scope.Agent.Request.{World}

abbrev pub params_for : List (DnType × Text) → CertParams Text
params_for dn = record {
  distinguished_name = dn;
  is_ca = no_ca;
  key_usages = [];
  extended_key_usages = [];
  subject_alt_names = [];
  not_before = 0;
  not_after = 0;
}

-- A request or certificate needs exactly one name, or the authority's two.
abbrev pub subject : List (DnType × Text) → Result Text Text
subject [] = err (lit "no name")
subject ((common_name, text) ∷ []) = ok text
subject ((common_name, text) ∷ (organization_name, _) ∷ []) = ok text
subject (_ ∷ _) = err (lit "bad name")

abbrev pub rcgen : Rcgen
rcgen = record {
  Key = ℕ;
  PublicKey = ℕ;
  Certificate = Text;
  Ia5 = Text;
  public_key = λ k. k;
  key_from_pem = λ pem. ok (length pem);
  key_to_pem = λ k. lit "key";
  key_to_der = λ k. lit "key";
  default_params = params_for [];
  date_time_ymd = λ y m d. y * 31536000;
  csr_from_pem =
      λ pem. ok (record { params = params_for ((common_name, pem) ∷ []); public_key = 5 });
  csr_to_pem = λ params key. subject params.distinguished_name;
  params_from_ca_cert_pem = λ pem. ok (params_for ((common_name, pem) ∷ []));
  self_signed = λ params key. subject params.distinguished_name;
  signed_by = λ csr issuer key. subject csr.params.distinguished_name;
  cert_to_pem = λ cert. cert;
  cert_to_der = λ cert. cert;
  ia5_string = λ text. ok text;
  certs = λ pem. some pem ∷ [];
}

abbrev pub x509 : X509
x509 = record {
  Cert = Text;
  PublicKey = ℕ;
  parse_x509_pem = λ pem. ok pem;
  parse_x509_certificate = λ contents. ok contents;
  public_key = λ cert. 3;
  verify_signature = λ cert key. ok tt;
  common_names = λ cert. some cert ∷ [];
  not_before = λ cert. pos 0;
  not_after = λ cert. pos 3600;
}

abbrev pub made : CertificateAuthority
made = record {
  key_pem = lit "key";
  cert_pem = lit "authn-scope-ca";
  cert_der = lit "authn-scope-ca";
  key_der = lit "key";
}

-- A request for a certificate is sent as its signing request, and read as one for an identity.
abbrev pub vm_a : Text
vm_a = lit "vm-a"

abbrev pub web : Text
web = lit "web"

abbrev request_bytes : AgentRequest → Result Text Bytes
request_bytes (handshake version vm_name) = ok vm_name
request_bytes (cert_request version vm_name identity csr_pem) = ok csr_pem

abbrev pub request_json : Json AgentRequest
request_json = record {
  to_vec = request_bytes;
  from_slice = λ payload. ok (cert_request 1 vm_a web payload);
}

abbrev response_bytes : AgentResponse → Result Text Bytes
response_bytes (handshake_ok workloads) = ok []
response_bytes (cert_ok cert_pem ca_cert_pem) = ok cert_pem
response_bytes (error msg) = ok msg

abbrev pub response_json : Json AgentResponse
response_json = record {
  to_vec = response_bytes;
  from_slice = λ payload. ok (cert_ok payload (lit "authn-scope-ca"));
}

abbrev pub io_text : IoError → Text
io_text e = lit "io error"

abbrev pub empty_stream : Stream
empty_stream = record { incoming = []; outgoing = []; room = 1000 }

-- A kernel that grants everything; the host answers with what it was sent.
abbrev pub kernel : Kernel
kernel = record {
  socket = λ t. ok 3;
  bind = λ t. ok tt;
  connect = λ t. ok tt;
  register = λ t. ok tt;
  listen = λ t. ok tt;
  room = λ t. 1000;
  reply = λ t sent. sent;
  clock = λ t. 5;
}

abbrev pub world : World rcgen
world = record {
  request_json = request_json;
  response_json = response_json;
  io_text = io_text;
  kernel = kernel;
  env = none;
  generated = λ t. ok 3;
}

abbrev pub agent_config : AgentConfig
agent_config = record {
  vm_name = vm_a;
  server_port = 900;
  client_port = 901;
  workload_api_socket = none;
}
