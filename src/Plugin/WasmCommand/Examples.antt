-- ===== src/Plugin/WasmCommand/Examples.antt =====
-- Runs of inengine-core/src/plugin/wasm_command.rs.
use in_engine_net.Prelude.{◌≡◌, refl, true, false, some, List, [], ◌∷◌, codes, ok, err}
use in_engine_net.Error
use in_engine_net.Command
use in_engine_net.Command.{CommandDeadline}
use in_engine_net.Output
use in_engine_net.Output.Examples.{terminal}
use in_engine_net.Plugin.WasmCommand.{WasmCommand, Epoch, returned, run}
use in_engine_net.Plugin.WasmCommand.Interrupts.{Explained, Explained-run}

abbrev command : WasmCommand
command = record {
  plugin_name = codes "tools";
  command_name = codes "greet";
  args_json = codes "{}";
  limits = record { timeout = 900_000; memory_bytes = 1_000_000 };
}

abbrev deadline : CommandDeadline
deadline = record { at = 2_000; timeout = 1_500 }

abbrev epochs : List Epoch
epochs = (false, 1_990) ∷ (false, 2_000) ∷ (true, 2_010) ∷ []

Explained-run_example :
    Explained
      (some deadline)
      epochs
      (run terminal 10_000_000 500 epochs
        (returned (ok (codes "hi")))
        command
        (some deadline)
        (Output.new terminal false)).0
Explained-run_example =
    Explained-run terminal command (some deadline) epochs 10_000_000 500
      (returned (ok (codes "hi"))) (Output.new terminal false)

-- The deadline passes before the token fires.
times_out :
    (run terminal 10_000_000 500 epochs
      (returned (ok (codes "hi")))
      command
      (some deadline)
      (Output.new terminal false)).0
    ≡ err (Error.timeout 1)
unfolding run Command.instant_after
times_out = refl
