-- ===== src/Evaluator/Main.antt =====
-- libs/rust-libs/authn-scope-evaluator/src/bin/authn-scope-eval-test.rs: the command line that
-- checks a certificate. The error is the exit code, which is 101 for a panic.
use vm_authn_scope.Prelude.{
  ℕ, ◌≡◌, ◌↔◌, refl, ap, ◌∙◌, List, [], ◌∷◌, if◌then◌else◌, ◌==◌, text_eq, arith, Bool-cases, inl,
  inr, ==-eq-true,
}
use vm_authn_scope.Prelude.Result.{Result, ok, err, ◌>>=◌, >>=-eq-ok}
use vm_authn_scope.Prelude.Io.{relabel, relabel-eq-ok}
use vm_authn_scope.Prelude.Text.{Text, lit}
use vm_authn_scope.Prelude.Errors.{IoError}
use vm_authn_scope.X509.{X509}
use vm_authn_scope.Evaluator.{from_cert_pem}
use vm_authn_scope.Evaluator.Accepted.{Verified, from_cert_pem_iff}

-- `expect`
abbrev or_panic : {E A : Type 0} → Result E A → Result ℕ A
or_panic r = relabel (λ _. 101) r

abbrev expected : Text
expected = lit "service-a"

module _ (xp : X509) (read : Text → Result IoError Text) where
  unfoldable pub check_files : Text → Text → Result ℕ (Unit {0})
  check_files peer_path ca_path = do
    peer_cert_pem ← or_panic (read peer_path)
    ca_cert_pem ← or_panic (read ca_path)
    eval ← or_panic (from_cert_pem xp peer_cert_pem ca_cert_pem)
    if eval.identity == expected then ok tt else err 101

  unfoldable pub main : List Text → Result ℕ (Unit {0})
  unfolding check_files
  main (_ ∷ peer_path ∷ ca_path ∷ []) = check_files peer_path ca_path
  main _ = err 1

  -- Both files can be read, and the certificate in the first is one of "service-a" by the second.
  abbrev pub Passes : Text → Text → Type 0
  Passes peer_path ca_path =
      (peer_pem ca_pem : Text) × (read peer_path ≡ ok peer_pem)
      × (read ca_path ≡ ok ca_pem)
      × Verified xp peer_pem ca_pem expected

  check_files-Passes :
      (peer_path ca_path : Text) → check_files peer_path ca_path ≡ ok tt → Passes peer_path ca_path
  unfolding check_files
  check_files-Passes peer_path ca_path h =
      let (peer_pem, read1, h1) = >>=-eq-ok (or_panic (read peer_path)) _ h in
      let (ca_pem, read2, h2) = >>=-eq-ok (or_panic (read ca_path)) _ h1 in
      let (eval, verified, h3) = >>=-eq-ok (or_panic (from_cert_pem xp peer_pem ca_pem)) _ h2 in
      elim (Bool-cases (eval.identity == expected)) [
        | inl same ↦
            let named : eval.identity ≡ expected = ==-eq-true eval.identity expected same in
            let is_eval : eval ≡ record { identity = expected } =
              ap (λ t. record { identity = t }) named in
            (
              peer_pem,
              ca_pem,
              relabel-eq-ok _ (read peer_path) read1,
              relabel-eq-ok _ (read ca_path) read2,
              (from_cert_pem_iff xp peer_pem ca_pem expected).0
                  (relabel-eq-ok _ (from_cert_pem xp peer_pem ca_pem) verified ∙ ap ok is_eval),
            )
        | inr other ↦ absurd (cc (rw other at h3))
      ]

  Passes-check_files :
      (peer_path ca_path : Text) → Passes peer_path ca_path → check_files peer_path ca_path ≡ ok tt
  unfolding check_files
  Passes-check_files peer_path ca_path (peer_pem, ca_pem, read1, read2, verified) =
      rw (read1, read2, (from_cert_pem_iff xp peer_pem ca_pem expected).1 verified) (ground arith)

  -- The evaluator's command line exits with 0 exactly if it is given two paths, both files
  -- can be read, and the first holds a certificate that verifies under the key of the
  -- second's and has the first common name service-a.
  pub main_iff :
      (args : List Text)
      → (main args ≡ ok tt) ↔ (
          (name peer_path ca_path : Text) × (args ≡ name ∷ peer_path ∷ ca_path ∷ [])
          × Passes peer_path ca_path)
  unfolding main
  main_iff (name ∷ peer_path ∷ ca_path ∷ []) = (
    λ h. (name, peer_path, ca_path, refl, check_files-Passes peer_path ca_path h),
    λ (n, p, c, same, passes).
        let peer : peer_path ≡ p = cc (same) in
        let ca : ca_path ≡ c = cc (same) in
        Passes-check_files peer_path ca_path (rw (peer, ca) passes),
  )
  main_iff [] = (λ h. absurd (cc), λ (n, p, c, same, passes). absurd (cc (same)))
  main_iff (a ∷ []) = (λ h. absurd (cc), λ (n, p, c, same, passes). absurd (cc (same)))
  main_iff (a ∷ b ∷ []) = (λ h. absurd (cc), λ (n, p, c, same, passes). absurd (cc (same)))
  main_iff (a ∷ b ∷ c ∷ d ∷ rest) =
      (λ h. absurd (cc), λ (n, p, c', same, passes). absurd (cc (same)))
