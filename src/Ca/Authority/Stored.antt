-- ===== src/Ca/Authority/Stored.antt =====
-- What `init` leaves on disk, and that `load` finds it.
use vm_authn_scope.Prelude.{
  true, false, ◌||◌, Option, none, some, ◌≡◌, ◌≢◌, ◌∙◌, arith, if◌then◌else◌, ◌==◌, text_eq,
}
use vm_authn_scope.Prelude.Result.{Result, ok, err}
use vm_authn_scope.Prelude.Io.{continue, pure}
use vm_authn_scope.Prelude.Text.{Text}
use vm_authn_scope.Prelude.Errors.{IoError}
use vm_authn_scope.Ca.Errors.{CaError}
use vm_authn_scope.Ca.Files.{
  File, Fs, Call, read, remove, create_parent, write, set_mode, read_to_string, remove_file,
  create_parent_dir, write_file, set_permissions,
}
use vm_authn_scope.Ca.Rcgen.{Rcgen, PemRoundTrips}
use vm_authn_scope.Ca.Authority.{
  CertificateAuthority, store, made_from, remove_existing, generate, ca_params, init, load,
  set_mode_600,
}

abbrev pub content_of : Option File → Option Text
content_of none = none
content_of (some f) = some f.content

-- The files after a successful `init`, from those before.
pub record IsStored (cert_path key_path : Text) (made : CertificateAuthority) (s t : Fs)
    : Type 0 where
  pub key_file : t.file key_path ≡ some (record { content = made.key_pem; mode = 0o600 })
  pub cert_file : content_of (t.file cert_path) ≡ some made.cert_pem
  pub others :
      (p : Text) → t.file p ≡ (if p == cert_path || p == key_path then t.file p else s.file p)
  pub same_refuses : (c : Call) → t.refuses c ≡ s.refuses c

module _ (rc : Rcgen) (cert_path key_path : Text) (distinct : cert_path ≢ key_path) where
  store-IsStored :
      (made : CertificateAuthority) (s : Fs) {t : Fs}
      → store rc cert_path key_path made s ≡ (ok tt, t)
      → IsStored cert_path key_path made s t
  unfolding store create_parent_dir write_file set_permissions
  store-IsStored made s e = record {
    key_file = ground arith;
    cert_file = ground arith;
    others = λ p. ground arith;
    same_refuses = λ c. ground arith;
  }

  -- Removing the old files touches no other file, and does not fail.
  record Cleared (s t : Fs) : Type 0 where
    others :
        (p : Text) → t.file p ≡ (if p == cert_path || p == key_path then t.file p else s.file p)
    same_refuses : (c : Call) → t.refuses c ≡ s.refuses c

  removed : Fs → Fs
  removed s = (remove_existing rc key_path (remove_existing rc cert_path s).1).1

  removed-Cleared : (s : Fs) → Cleared s (removed s)
  unfolding removed remove_existing remove_file
  removed-Cleared s = record { others = λ p. ground arith; same_refuses = λ c. ground arith }

  remove_existing-ok :
      (p : Text) (s : Fs) → remove_existing rc p s ≡ (ok tt, (remove_existing rc p s).1)
  unfolding remove_existing remove_file
  remove_existing-ok p s = ground arith

  then_pure :
      {A : Type 0} (a : A) (r : Result CaError (Unit {0}) × Fs) {b : A} {t : Fs}
      → continue (λ _. pure a) r ≡ (ok b, t)
      → (r ≡ (ok tt, t)) × (a ≡ b)
  then_pure a (ok u, s) e = (cc, cc)
  then_pure a (err x, s) e = absurd (cc)

  generate-store :
      (k : rc.Key) (c : rc.Certificate) (s : Fs) {t : Fs} {made : CertificateAuthority}
      → rc.self_signed (ca_params rc) k ≡ ok c
      → generate rc (ok k) cert_path key_path false s ≡ (ok made, t)
      → (store rc cert_path key_path (made_from rc k c) (removed s) ≡ (ok tt, t))
        × (made_from rc k c ≡ made)
  unfolding generate removed
  generate-store k c s signed e = then_pure (made_from rc k c) _ (
      rw
        (
          remove_existing-ok cert_path s,
          remove_existing-ok key_path (remove_existing rc cert_path s).1,
          signed,
        )
        at e)

  IsStored-from :
      {made : CertificateAuthority} {s r t : Fs}
      → Cleared s r
      → IsStored cert_path key_path made r t
      → IsStored cert_path key_path made s t
  IsStored-from before after = record {
    key_file = after.key_file;
    cert_file = after.cert_file;
    others = λ p. ground (arith, after.others p, before.others p);
    same_refuses = λ c. after.same_refuses c ∙ before.same_refuses c;
  }

  load_stored :
      (k : rc.Key) (c : rc.Certificate) {s t : Fs}
      → PemRoundTrips rc k c
      → t.refuses (read cert_path) ≡ none
      → t.refuses (read key_path) ≡ none
      → IsStored cert_path key_path (made_from rc k c) s t
      → load rc cert_path key_path t ≡ (ok (made_from rc k c), t)
  unfolding load read_to_string made_from
  load_stored k c round cert_readable key_readable stored =
      ground (arith, round.key, round.cert, stored.key_file, stored.cert_file)

  -- If init makes a new authority at two distinct paths, the key and the certificate written
  -- as PEM are read back by the libraries and the system lets both files be read, then the
  -- key's file has mode 0600 and the key, the certificate's file the certificate, no other
  -- file changed, and load returns the same authority.
  pub init-load :
      (k : rc.Key) (c : rc.Certificate) (s : Fs) {t : Fs} {made : CertificateAuthority}
      → rc.self_signed (ca_params rc) k ≡ ok c
      → PemRoundTrips rc k c
      → s.refuses (read cert_path) ≡ none
      → s.refuses (read key_path) ≡ none
      → init rc (ok k) cert_path key_path false s ≡ (ok made, t)
      → IsStored cert_path key_path made s t × (load rc cert_path key_path t ≡ (ok made, t))
  unfolding init
  init-load k c s signed round cert_readable key_readable e =
      let (stored, same) = generate-store k c s signed e in
      let is_stored =
        IsStored-from (removed-Cleared s) (store-IsStored (made_from rc k c) (removed s) stored) in
      rw (← same) (
        is_stored,
        load_stored k c round (is_stored.same_refuses (read cert_path) ∙ cert_readable)
            (is_stored.same_refuses (read key_path) ∙ key_readable) is_stored,
      )

  -- If init makes a new authority at two distinct paths, the key and the certificate written
  -- as PEM are read back by the libraries and the system lets both files be read, then an
  -- idempotent init after that changes nothing and returns the same authority.
  pub init-init :
      (k : rc.Key) (c : rc.Certificate) (s : Fs) {t : Fs} {made : CertificateAuthority}
      (generated : Result Text rc.Key)
      → rc.self_signed (ca_params rc) k ≡ ok c
      → PemRoundTrips rc k c
      → s.refuses (read cert_path) ≡ none
      → s.refuses (read key_path) ≡ none
      → init rc (ok k) cert_path key_path false s ≡ (ok made, t)
      → init rc generated cert_path key_path true t ≡ (ok made, t)
  init-init k c s {t} {made} generated signed round cert_readable key_readable e =
      let (stored, loaded) = init-load k c s signed round cert_readable key_readable e in
      unfold init in ground (arith, stored.key_file, stored.cert_file)

  -- If the certificate can be signed, the two paths are distinct, the change of the key's
  -- mode is refused and every other call is granted, an init that is not idempotent fails
  -- with that error and leaves the key behind in a file with the mode of a new file.
  pub init-exposed :
      (k : rc.Key) (c : rc.Certificate) (s : Fs) (x : IoError)
      → rc.self_signed (ca_params rc) k ≡ ok c
      → s.refuses (set_mode key_path) ≡ some x
      → ((call : Call) → call ≢ set_mode key_path → s.refuses call ≡ none)
      → (init rc (ok k) cert_path key_path false s).0 ≡ err (CaError.io x)
        × ((init rc (ok k) cert_path key_path false s).1.file key_path
            ≡ some (record { content = rc.key_to_pem k; mode = s.new_mode }))
  unfolding init generate store set_mode_600 remove_existing remove_file create_parent_dir
      write_file set_permissions made_from
  init-exposed k c s x signed refused others = ground (
    arith,
    others (remove cert_path) (λ e. cc),
    others (remove key_path) (λ e. cc),
    others (create_parent cert_path) (λ e. cc),
    others (create_parent key_path) (λ e. cc),
    others (write cert_path) (λ e. cc),
    others (write key_path) (λ e. cc),
  )
