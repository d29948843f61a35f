-- ===== src/Output.antt =====
-- inengine-core/src/output.rs: the buffer that a command writes to. The terminal codes are
-- crossterm's and the progress bar is indicatif's, so both are parameters.
pub mod Plain
pub mod Examples
use in_engine_net.Prelude.{
  ℕ, zero, suc, Bool, true, false, Option, none, some, [], ◌∷◌, ◌++◌, Bytes, if◌then◌else◌,
}
use in_engine_net.Std.Lossy.{from_utf8_lossy}

pub record Terminal : Type 1 where
  pub Color : Type 0
  pub green : Color
  pub yellow : Color
  pub red : Color
  pub set_foreground : Color → Bytes
  pub reset : Bytes
  pub ProgressBar : Type 0
  pub new_bar : ℕ → ProgressBar
  pub hidden : ProgressBar
  pub set_position : ProgressBar → ℕ → ProgressBar

abbrev pub newline_bytes : ℕ → Bytes
newline_bytes zero = []
newline_bytes (suc n) = b'\n' ∷ newline_bytes n

module _ (t : Terminal) where
  pub record Output : Type 0 where
    pub buffer : Bytes
    pub use_color : Bool
    pub progress_bar : Option t.ProgressBar

  unfoldable pub new : Bool → Output
  new use_color = record { buffer = []; use_color = use_color; progress_bar = none }

  unfoldable pub uses_color : Output → Bool
  uses_color o = o.use_color

  abbrev newline_if : Bool → Bytes
  newline_if true = b'\n' ∷ []
  newline_if false = []

  abbrev pub in_color : Option t.Color → Bytes → Bytes
  in_color none text = text
  in_color (some c) text = t.set_foreground c ++ text ++ t.reset

  unfoldable pub write_colored : Output → Bytes → Option t.Color → Bool → Output
  write_colored o text color with_newline = record o {
    buffer =
        (o.buffer ++ (if o.use_color then in_color color text else text))
        ++ newline_if with_newline;
  }

  unfoldable pub line : Output → Bytes → Output
  line o text = write_colored o text none true

  unfoldable pub info_line : Output → Bytes → Output
  info_line o text = write_colored o text (some t.green) true

  unfoldable pub warning_line : Output → Bytes → Output
  warning_line o text = write_colored o text (some t.yellow) true

  unfoldable pub error_line : Output → Bytes → Output
  error_line o text = write_colored o text (some t.red) true

  unfoldable pub text : Output → Bytes → Output
  text o s = write_colored o s none false

  unfoldable pub info : Output → Bytes → Output
  info o s = write_colored o s (some t.green) false

  unfoldable pub warning : Output → Bytes → Output
  warning o s = write_colored o s (some t.yellow) false

  unfoldable pub error : Output → Bytes → Output
  error o s = write_colored o s (some t.red) false

  unfoldable pub newlines : Output → ℕ → Output
  newlines o count = record o { buffer = o.buffer ++ newline_bytes count }

  unfoldable pub colored_line : Output → Bytes → t.Color → Output
  colored_line o s color = write_colored o s (some color) true

  unfoldable pub colored_text : Output → Bytes → t.Color → Output
  colored_text o s color = write_colored o s (some color) false

  unfoldable pub set_progress_max : Output → ℕ → Output
  set_progress_max o max = record o {
    progress_bar = some (if o.use_color then t.new_bar max else t.hidden);
  }

  abbrev moved_to : Option t.ProgressBar → ℕ → Option t.ProgressBar
  moved_to none current = none
  moved_to (some bar) current = some (t.set_position bar current)

  unfoldable pub update_progress : Output → ℕ → Output
  update_progress o current = record o { progress_bar = moved_to o.progress_bar current }

  unfoldable pub take_buffer : Output → Bytes × Output
  take_buffer o = (from_utf8_lossy o.buffer, record o { buffer = [] })

  -- The bytes go to standard output; an empty buffer writes nothing.
  unfoldable pub print : Output → Bytes × Output
  print o = (o.buffer, record o { buffer = [] })
