-- ===== src/Config/Validate.antt =====
-- inengine-core/src/config/validate.rs, constraints.rs and vocabulary.rs: the checks of each
-- table. Addresses are parsed by lettre and by the standard library, and the file system says
-- which paths exist.
use in_engine_net.Prelude.{
  ℕ, ◌+◌, Bool, true, false, ◌||◌, ◌&&◌, not, Option, none, some, List, [], ◌∷◌, ◌++◌, Bytes, codes,
  leb, ◌==◌, bytes_eq, if◌then◌else◌,
}
use in_engine_net.Std.Text.{trim}
use in_engine_net.Config.{
  ℤ, is_number, at_least, number_text, Report, Issue, error_issue, warning_issue,
}

pub data MailEncryption : Type 0 where
  plain : MailEncryption
  start_tls : MailEncryption
  tls : MailEncryption

-- `MailEncryption::try_from`
unfoldable pub encryption_of : Bytes → Option MailEncryption
encryption_of text =
    if bytes_eq text (codes "none")
    then some plain
    else if bytes_eq text (codes "starttls")
    then some start_tls
    else if bytes_eq text (codes "tls")
    then some tls
    else none

abbrev is_letter : ℕ → Bool
is_letter b = leb b'A' b && leb b b'Z' || leb b'a' b && leb b b'z'

abbrev is_name_byte : ℕ → Bool
is_name_byte b = is_letter b || (leb b'0' b && leb b b'9') || b == b'_' || b == b'-'

abbrev all_name_bytes : Bytes → Bool
all_name_bytes [] = true
all_name_bytes (b ∷ bs) = is_name_byte b && all_name_bytes bs

abbrev pub is_empty : Bytes → Bool
is_empty [] = true
is_empty (b ∷ bs) = false

-- `QueueName::check`; a character of more than one byte has no ASCII byte.
unfoldable pub check_queue_name : Bytes → Bool
check_queue_name value = not (is_empty value) && all_name_bytes value

abbrev lower_byte : ℕ → ℕ
lower_byte b = if leb b'A' b && leb b b'Z' then b + 32 else b

abbrev eq_ignore_ascii_case : Bytes → Bytes → Bool
eq_ignore_ascii_case [] [] = true
eq_ignore_ascii_case [] (c ∷ cs) = false
eq_ignore_ascii_case (b ∷ bs) [] = false
eq_ignore_ascii_case (b ∷ bs) (c ∷ cs) = lower_byte b == lower_byte c && eq_ignore_ascii_case bs cs

pub record MailSpec : Type 0 where
  pub host : Bytes
  pub port : ℤ
  pub from : Bytes
  pub username : Bytes
  pub password : Bytes
  pub encryption : Bytes

pub record Checks : Type 0 where
  pub is_mailbox : Bytes → Bool
  pub is_loopback_address : Bytes → Bool
  pub path_exists : Bytes → Bool

abbrev pub issue_if : Bool → Issue → Report → Report
issue_if true issue report = report ++ issue ∷ []
issue_if false issue report = report

module _ (checks : Checks) where
  unfoldable pub is_loopback_host : Bytes → Bool
  is_loopback_host host =
      eq_ignore_ascii_case host (codes "localhost") || checks.is_loopback_address host

  abbrev port_text : ℤ → Bytes
  port_text port =
      codes "mail port "
      ++ number_text port
      ++ codes " usually expects \"starttls\" or \"none\", not \"tls\""

  abbrev pub check_for : Option MailEncryption → MailSpec → Bool → Report → Report
  check_for none mail has_username report = report
  check_for (some plain) mail has_username report =
      issue_if (has_username && not (is_loopback_host mail.host))
        (error_issue (codes "the mail password would cross the network in plain text")) report
  check_for (some tls) mail has_username report =
      issue_if (is_number mail.port 25 || is_number mail.port 587)
        (warning_issue (port_text mail.port)) report
  check_for (some start_tls) mail has_username report =
      issue_if (is_number mail.port 465)
        (warning_issue (codes "mail port 465 usually expects \"tls\", not \"starttls\"")) report

  unfoldable pub check_encryption : MailSpec → Bool → Report → Report
  unfolding is_loopback_host encryption_of number_text
  check_encryption mail has_username report =
      check_for (encryption_of mail.encryption) mail has_username report

  -- `MailSpec::validate`
  unfoldable pub validate_mail : MailSpec → Report → Report
  unfolding check_encryption
  validate_mail mail report =
      let has_username = not (is_empty mail.username) in
      let has_password = not (is_empty mail.password) in
      let sender =
        issue_if (not (is_empty mail.from) && not (checks.is_mailbox mail.from))
          (error_issue (b'"' ∷ mail.from ++ codes "\" is not a valid sender address")) report in
      let unauthenticated =
        issue_if (has_username && not has_password)
          (warning_issue (codes "a mail user name is set without a password")) sender in
      check_encryption mail has_username (
        issue_if (has_password && not has_username)
          (warning_issue (codes "the mail password is ignored because no user name is set"))
          unauthenticated)

  -- `QueueSpec::validate`
  unfoldable pub validate_queue : ℤ → ℤ → Report → Report
  validate_queue primary secondary report =
      issue_if (is_number primary 0 && is_number secondary 0)
        (warning_issue (codes "the server starts no queue consumers")) report

  -- `RedisSpec::validate`
  unfoldable pub validate_redis : ℤ → Report → Report
  unfolding number_text
  validate_redis database report =
      issue_if (at_least database 16)
        (warning_issue (
          codes "database "
          ++ number_text database
          ++ codes " is outside the 16 databases a default Redis server provides"))
        report

  unfoldable pub check_path_entry : Bytes → Bytes → Report → Report
  unfolding trim
  check_path_entry label path report =
      if is_empty (trim path)
      then report ++ error_issue (label ++ codes " has an empty path") ∷ []
      else issue_if (not (checks.path_exists path))
          (warning_issue
            (label ++ codes " points to \"" ++ path ++ codes "\", which does not exist"))
          report

  abbrev plugin_label : Bytes → Bytes
  plugin_label name = codes "plugin \"" ++ name ++ b'"' ∷ []

  abbrev whitelist_label : Bytes → Bytes
  whitelist_label name = codes "exec whitelist entry \"" ++ name ++ b'"' ∷ []

  unfoldable pub validate_plugins : List (Bytes × Bytes) → Report → Report
  unfolding check_path_entry
  validate_plugins [] report = report
  validate_plugins ((name, dir) ∷ plugins) report = validate_plugins plugins (
      check_path_entry (plugin_label name) dir (
        issue_if (bytes_eq name (codes "inengine-core"))
          (error_issue (codes "the plugin name 'inengine-core' is reserved for built-in commands"))
          report))

  unfoldable pub validate_whitelist : List (Bytes × Bytes) → Report → Report
  unfolding check_path_entry
  validate_whitelist [] report = report
  validate_whitelist ((name, path) ∷ entries) report =
      validate_whitelist entries (check_path_entry (whitelist_label name) path report)

  -- `SettingsSpec::validate`
  unfoldable pub validate_settings : List (Bytes × Bytes) → List (Bytes × Bytes) → Report → Report
  unfolding validate_plugins validate_whitelist
  validate_settings plugins exec_whitelist report =
      validate_whitelist exec_whitelist (validate_plugins plugins report)
