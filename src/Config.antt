-- ===== src/Config.antt =====
-- inengine-core/src/config: the checks of the configuration and its loading. The library confval
-- parses the file, checks the declared constraints and narrows the numbers; the model takes these
-- as parameters. The places in the text that an issue points to are left out.
pub mod Validate
pub mod Lower
pub mod Checked
mod Examples
use in_engine_net.Prelude.{
  ℕ, suc, ◌≤◌, Bool, true, false, ◌||◌, ◌&&◌, not, Option, none, some, List, [], ◌∷◌, ◌++◌, Bytes,
  codes, Result, ok, err, leb, ◌==◌, if◌then◌else◌,
}
use in_engine_net.Error.{IoError, not_found}
use in_engine_net.Exec.Pipe.{decimal}

-- An `i64`: `pos n` is n, and `negsuc n` is -(n + 1).
pub data ℤ : Type 0 where
  pos : ℕ → ℤ
  negsuc : ℕ → ℤ

abbrev pub is_number : ℤ → ℕ → Bool
is_number (pos n) m = n == m
is_number (negsuc n) m = false

abbrev pub at_least : ℤ → ℕ → Bool
at_least (pos n) m = leb m n
at_least (negsuc n) m = false

unfoldable pub number_text : ℤ → Bytes
unfolding decimal
number_text (pos n) = decimal 20 n
number_text (negsuc n) = b'-' ∷ decimal 20 (suc n)

pub data Severity : Type 0 where
  error : Severity
  warning : Severity

pub record Issue : Type 0 where
  pub severity : Severity
  pub message : Bytes

abbrev pub Report : Type 0
Report = List Issue

abbrev pub error_issue : Bytes → Issue
error_issue message = record { severity = error; message = message }

abbrev pub warning_issue : Bytes → Issue
warning_issue message = record { severity = warning; message = message }

abbrev is_error : Severity → Bool
is_error error = true
is_error warning = false

abbrev pub has_errors : Report → Bool
has_errors [] = false
has_errors (issue ∷ issues) = is_error issue.severity || has_errors issues

-- `check_and_lower`: the checks extend the report, and so does the lowering of a report without
-- errors.
module _ {Spec Settings : Type 0} (validate_all : Spec → Report → Report)
    (lower : Spec → Report → Option Settings × Report) where
  unfoldable pub check_and_lower : Spec → Report → Option Settings × Report
  check_and_lower spec report =
      let checked = validate_all spec report in
      if has_errors checked then (none, checked) else lower spec checked

  abbrev parsed : Option Spec × Report → Option Settings × Report
  parsed (none, report) = (none, report)
  parsed (some spec, report) = check_and_lower spec report

  -- `from_text`, with what confval parses of the text.
  unfoldable pub from_text : (Bytes → Option Spec × Report) → Bytes → Option Settings × Report
  unfolding check_and_lower
  from_text parse_toml text = parsed (parse_toml text)

  unfoldable pub from_spec : Spec → Option Settings × Report
  unfolding check_and_lower
  from_spec spec = check_and_lower spec []

pub data ConfigError : Type 0 where
  file_not_found : Bytes → ConfigError
  invalid : Bytes → ConfigError
  io : Bytes → IoError → ConfigError

abbrev read_error : Bytes → IoError → ConfigError
read_error path not_found = file_not_found path
read_error path e = io path e

module _ {Settings : Type 0} (from_text : Bytes → Option Settings × Report) where
  abbrev loaded : Bytes → Result IoError Bytes → Result ConfigError (Option Settings × Report)
  loaded path (ok text) = ok (from_text text)
  loaded path (err e) = err (read_error path e)

  -- `load`, with what the file system reads at the path.
  unfoldable pub load : Bytes → Result IoError Bytes → Result ConfigError (Option Settings × Report)
  load path read = loaded path read

  abbrev settings_or_invalid :
      (Report → Bytes) → Result ConfigError (Option Settings × Report) → Result ConfigError Settings
  settings_or_invalid render_plain (err e) = err e
  settings_or_invalid render_plain (ok (some settings, report)) = ok settings
  settings_or_invalid render_plain (ok (none, report)) = err (invalid (render_plain report))

  -- `Settings::load`
  unfoldable pub load_settings :
      (Report → Bytes) → Bytes → Result IoError Bytes → Result ConfigError Settings
  unfolding load
  load_settings render_plain path read = settings_or_invalid render_plain (load path read)
