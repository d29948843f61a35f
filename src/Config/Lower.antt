-- ===== src/Config/Lower.antt =====
-- inengine-core/src/config/runtime.rs: the numbers that the settings narrow by themselves.
-- `i64_to_usize` of confval is a parameter: it gives a number that is not negative.
use in_engine_net.Prelude.{
  ℕ, ◌*◌, ◌^◌, ltb, Bool, false, Option, none, some, [], ◌∷◌, ◌++◌, codes, if◌then◌else◌,
}
use in_engine_net.Exec.Pipe.{decimal}
use in_engine_net.Config.{ℤ, pos, negsuc, number_text, Report, error_issue}

abbrev pub bytes_per_mib : ℕ
bytes_per_mib = 1024 * 1024

abbrev pub checked_mul : ℕ → ℕ → Option ℕ
checked_mul a b = if ltb (a * b) (2 ^ 64) then some (a * b) else none

abbrev multiplied : ℕ → Report → Option ℕ → Option ℕ × Report
multiplied mib report (some bytes) = (some bytes, report)
multiplied mib report none = (
  none,
  report
      ++ error_issue (
          decimal 20 mib
          ++ codes " MiB does not fit in memory on this platform, so a validation rule is missing")
        ∷ [],
)

abbrev narrowed : Option ℕ × Report → Option ℕ × Report
narrowed (none, report) = (none, report)
narrowed (some mib, report) = multiplied mib report (checked_mul mib bytes_per_mib)

unfoldable pub mib_to_bytes : (ℤ → Report → Option ℕ × Report) → ℤ → Report → Option ℕ × Report
unfolding decimal
mib_to_bytes i64_to_usize value report = narrowed (i64_to_usize value report)

abbrev u8_or_error : ℤ → Bool → ℕ → Report → Option ℕ × Report
u8_or_error value fits n report = if fits then (some n, report) else (
  none,
  report
      ++ error_issue (
          codes "value "
          ++ number_text value
          ++ codes " is out of range for u8, so a validation rule is missing")
        ∷ [],
)

unfoldable pub i64_to_u8 : ℤ → Report → Option ℕ × Report
unfolding number_text
i64_to_u8 (pos n) report = u8_or_error (pos n) (ltb n 256) n report
i64_to_u8 (negsuc n) report = u8_or_error (negsuc n) false 0 report
