-- ===== src/Config/Checked.antt =====
-- What the checks of inengine-core/src/config/validate.rs and the declared ranges of
-- constraints.rs give the settings that load.
use mathlib.Core.Path.{subst}
use in_engine_net.Prelude.{
  ltb, ℕ, ◌*◌, ◌≤◌, ◌^◌, ◌<◌, ◌≡◌, refl, ap, Bool, true, false, ◌&&◌, not, Option, some, [], ◌∷◌,
  ◌++◌, arith,
}
use in_engine_net.Config.{ℤ, pos, Report, Issue, has_errors}
use in_engine_net.Config.Validate.{
  MailSpec, Checks, plain, encryption_of, is_empty, is_loopback_host, issue_if, check_for,
  check_encryption, validate_mail,
}
use in_engine_net.Config.Lower.{bytes_per_mib, mib_to_bytes, i64_to_u8}

has_errors-error :
    (report : Report) (issue : Issue)
    → has_errors (issue ∷ []) ≡ true
    → has_errors (report ++ issue ∷ []) ≡ true
has_errors-error [] issue h = h
has_errors-error (first ∷ report) issue h = ground (arith, has_errors-error report issue h)

module _ (checks : Checks) (mail : MailSpec) where
  issue_if-quiet :
      (b : Bool) (issue : Issue) (report : Report)
      → has_errors (issue ∷ []) ≡ true
      → has_errors (issue_if b issue report) ≡ false
      → b ≡ false
  issue_if-quiet true issue report h k = ground (arith, has_errors-error report issue h)
  issue_if-quiet false issue report h k = refl

  check_encryption-quiet :
      (has_username : Bool) (report : Report)
      → has_username ≡ true
      → encryption_of mail.encryption ≡ some plain
      → has_errors (check_encryption checks mail has_username report) ≡ false
      → is_loopback_host checks mail.host ≡ true
  unfolding check_encryption
  check_encryption-quiet has_username report u e h =
      let quiet =
        issue_if-quiet (has_username && not (is_loopback_host checks mail.host)) _ report refl
          (subst (λ x. has_errors (check_for checks x mail has_username report) ≡ false) e h) in
      ground arith

  -- Mail settings with a user name and no encryption, on which the checks report no error, name a
  -- loopback host: the password does not cross the network in plain text.
  pub validate_mail_loopback :
      (report : Report)
      → is_empty mail.username ≡ false
      → encryption_of mail.encryption ≡ some plain
      → has_errors (validate_mail checks mail report) ≡ false
      → is_loopback_host checks mail.host ≡ true
  unfolding validate_mail
  validate_mail_loopback report u e h = check_encryption-quiet _ _ (ap not u) e h

module _ (i64_to_usize : ℤ → Report → Option ℕ × Report)
    (narrows : (n : ℕ) (report : Report)
      → n < 2 ^ 63
      → i64_to_usize (pos n) report ≡ (some n, report)) where
  -- A memory limit in the declared range of 16 to 4096 MiB becomes its number of bytes, which fits
  -- in a `usize`, with no issue.
  pub mib_to_bytes_fits :
      (n : ℕ) (report : Report)
      → n ≤ 4096
      → (mib_to_bytes i64_to_usize (pos n) report ≡ (some (n * bytes_per_mib), report))
        × (n * bytes_per_mib < 2 ^ 64)
  unfolding mib_to_bytes
  mib_to_bytes_fits n report h =
      let fits : ltb (n * bytes_per_mib) (2 ^ 64) ≡ true = ground arith in
      (rw (narrows n report (omega arith)) (rw fits refl), omega arith)

-- A database number in the declared range of 0 to 255 is kept, with no issue.
pub i64_to_u8_fits :
    (n : ℕ) (report : Report) → n ≤ 255 → i64_to_u8 (pos n) report ≡ (some n, report)
unfolding i64_to_u8
i64_to_u8_fits n report h = ground arith
