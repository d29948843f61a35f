-- ===== src/Commands/Examples.antt =====
-- Runs of inengine-core/src/commands/chain.rs and echo.rs.
use in_engine_net.Prelude.{◌≡◌, refl, [], ◌∷◌, codes, err, false}
use in_engine_net.Error.{interrupted}
use in_engine_net.Output
use in_engine_net.Output.{Output}
use in_engine_net.Output.Examples.{terminal}
use in_engine_net.Commands.{Command, Chained, run_chain, run_chain-Chained, echo}

abbrev stop : Command (Output terminal)
stop = record { name = codes "stop"; run = λ output. (err interrupted, output) }

abbrev output : Output terminal
output = Output.new terminal false

run_chain-Chained_example :
    Chained
      (echo terminal (codes "a") ∷ stop ∷ echo terminal (codes "b") ∷ [])
      output
      (run_chain (echo terminal (codes "a") ∷ stop ∷ echo terminal (codes "b") ∷ []) output)
run_chain-Chained_example =
    run_chain-Chained (echo terminal (codes "a") ∷ stop ∷ echo terminal (codes "b") ∷ []) output

-- The chain stops at its first error.
stops :
    run_chain (echo terminal (codes "a") ∷ stop ∷ echo terminal (codes "b") ∷ []) output
    ≡ (err interrupted, Output.line terminal output (codes "a"))
unfolding run_chain echo
stops = refl
