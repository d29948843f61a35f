-- ===== src/Output/Examples.antt =====
-- A run of the output buffer of inengine-core/src/output.rs.
use in_engine_net.Prelude.{ℕ, ◌≡◌, refl, true, false, List, [], ◌∷◌, codes}
use in_engine_net.Std.Utf8.{is_utf8}
use in_engine_net.Output
use in_engine_net.Output.{Terminal}
use in_engine_net.Output.Plain.{
  Write, info_line, text, newlines, perform_all, plain_all, take_buffer-perform_all,
}

abbrev pub terminal : Terminal
terminal = record {
  Color = ℕ;
  green = 2;
  yellow = 3;
  red = 1;
  set_foreground = λ c. 27 ∷ c ∷ [];
  reset = 27 ∷ [];
  ProgressBar = ℕ;
  new_bar = λ n. 0;
  hidden = 0;
  set_position = λ bar n. n;
}

abbrev writes : List (Write terminal)
writes = info_line (codes "done") ∷ newlines 1 ∷ text (codes "bye") ∷ []

writes-is_utf8 : is_utf8 (plain_all terminal writes) ≡ true
unfolding is_utf8
writes-is_utf8 = refl

take_buffer-perform_all_example :
    ((Output.take_buffer terminal (perform_all terminal (Output.new terminal false) writes)).0
      ≡ plain_all terminal writes)
    × ((Output.take_buffer terminal (perform_all terminal (Output.new terminal false) writes)).1
        ≡ Output.new terminal false)
    × ((Output.print terminal (perform_all terminal (Output.new terminal false) writes)).0
        ≡ plain_all terminal writes)
take_buffer-perform_all_example = take_buffer-perform_all terminal writes writes-is_utf8
