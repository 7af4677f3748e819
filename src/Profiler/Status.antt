-- ===== src/Profiler/Status.antt =====
-- The number in the status of a process.
use vm_authn_scope.Prelude.{
  ℕ, ◌<◌, ◌^◌, ◌≡◌, refl, true, Option, none, some, List, [], ◌∷◌, ◌++◌, All, ℕ_discrete,
}
use vm_authn_scope.Prelude.Text.{
  Text, lit, show, lines, words, strip_prefix, is_some, split, parse_unsigned,
}
use vm_authn_scope.Prelude.Text.Digits.{parse_unsigned-show}
use vm_authn_scope.Profiler.{second_or, kb_in, kb_of, get_rss_kb}

kb_in-append :
    (prefix : Text) (before after : List Text) (line label : Text) (more : List Text) (n : ℕ)
    → All (λ l. strip_prefix prefix l ≡ none) before
    → is_some (strip_prefix prefix line) ≡ true
    → words line ≡ label ∷ show n ∷ more
    → n < 2 ^ 64
    → kb_in prefix (before ++ line ∷ after) ≡ some n
unfolding kb_in second_or
kb_in-append prefix [] after line label more n others starts split small =
    rw (starts, split) (parse_unsigned-show (2 ^ 64) n small)
kb_in-append prefix (l ∷ before) after line label more n (other, others) starts split small =
    rw other (kb_in-append prefix before after line label more n others starts split small)

-- The first line that starts with the label decides: the number written in it is returned.
pub get_rss_kb-show :
    (read : Text → Option Text) (status : Text) (before after : List Text) (line label : Text)
    (more : List Text) (n : ℕ)
    → read (lit "/proc/self/status") ≡ some status
    → lines status ≡ before ++ line ∷ after
    → All (λ l. strip_prefix (lit "VmRSS:") l ≡ none) before
    → is_some (strip_prefix (lit "VmRSS:") line) ≡ true
    → words line ≡ label ∷ show n ∷ more
    → n < 2 ^ 64
    → get_rss_kb read ≡ some n
unfolding get_rss_kb kb_of
get_rss_kb-show read status before after line label more n reads splits others starts split small =
    rw (reads, splits)
      (kb_in-append (lit "VmRSS:") before after line label more n others starts split small)

status_sample :
    get_rss_kb (λ path. some (lit "Name:\tprofiler\nVmSize:\t    5544 kB\nVmRSS:\t    1234 kB\n"))
    ≡ some 1234
unfolding get_rss_kb kb_of kb_in second_or lines words split strip_prefix parse_unsigned ℕ_discrete
status_sample = refl
