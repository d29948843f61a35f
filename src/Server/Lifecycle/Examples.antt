-- ===== src/Server/Lifecycle/Examples.antt =====
-- A scheduled command of inengine-core/src/server/lifecycle.rs whose calls all succeed. The state
-- counts the calls.
use in_engine_net.Prelude.{ℕ, suc, ◌≡◌, refl, none, some, [], codes, ok}
use in_engine_net.Server.Lifecycle.{World, LifecycleOptions, LifecycleHooks, run_with_lifecycle}
use in_engine_net.Server.Lifecycle.Outcome.{Succeeded, run_with_lifecycle_ok}

abbrev counting : World ℕ
counting = record {
  ping = λ url s. (ok tt, suc s);
  run_blocking = λ timeout s. (ok (ok tt, codes "out"), suc s);
  write_file = λ p text s. (ok tt, suc s);
  append_file = λ p text s. (ok tt, suc s);
  send_email = λ address subject body s. (ok tt, suc s);
  describe_error_chain = λ e. [];
}

abbrev options : LifecycleOptions
options = record {
  ping_before_url = some (codes "http://a");
  ping_after_url = none;
  write_output_to = some (codes "/tmp/out");
  append_output_to = none;
  email_output_to = none;
  timeout = some 5;
}

abbrev hooks : LifecycleHooks ℕ
hooks = record { before_run = none; after_run = some (λ s. suc s) }

all_ok : run_with_lifecycle counting options hooks (codes "echo") 0 ≡ (ok tt, 4)
unfolding run_with_lifecycle
all_ok = refl

run_with_lifecycle_ok_example : Succeeded counting options hooks (codes "echo") 0 4
run_with_lifecycle_ok_example =
    run_with_lifecycle_ok counting options hooks (codes "echo") 0 4 all_ok
