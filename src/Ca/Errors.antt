-- ===== src/Ca/Errors.antt =====
-- libs/rust-libs/authn-scope-ca/src/error.rs: `CaError` and its texts.
use vm_authn_scope.Prelude.{◌++◌}
use vm_authn_scope.Prelude.Text.{Text, lit}
use vm_authn_scope.Prelude.Errors.{IoError}

pub data CaError : Type 0 where
  -- path, source
  key_not_found : Text → IoError → CaError
  cert_not_found : Text → IoError → CaError
  key_parse_failed : Text → CaError
  cert_parse_failed : Text → CaError
  rcgen_error : Text → CaError
  ring_error : Text → CaError
  io : IoError → CaError

-- The `#[error]` texts. Those of I/O errors are the system's.
unfoldable pub to_string : (IoError → Text) → CaError → Text
to_string io_text (key_not_found path e) =
    lit "CA key file not found at " ++ (path ++ (lit ": " ++ io_text e))
to_string io_text (cert_not_found path e) =
    lit "CA cert file not found at " ++ (path ++ (lit ": " ++ io_text e))
to_string io_text (key_parse_failed t) = lit "failed to parse CA key PEM: " ++ t
to_string io_text (cert_parse_failed t) = lit "failed to parse CA cert PEM: " ++ t
to_string io_text (rcgen_error t) = lit "certificate generation error: " ++ t
to_string io_text (ring_error t) = lit "ring crypto error: " ++ t
to_string io_text (io e) = lit "I/O error: " ++ io_text e
