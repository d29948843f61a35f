-- ===== src/Server/Consumers/Examples.antt =====
-- A settle, and a whole consumer, of inengine-core/src/server/consumers.rs on a driver whose moves
-- fail.
use in_engine_net.Prelude.{
  arith, leb, ◌==◌, if◌then◌else◌, ℕ, suc, ◌≡◌, refl, Bool, true, false, inl, none, some, [], ◌∷◌,
  ok, err,
}
use in_engine_net.Error.{io, other}
use in_engine_net.Queue.Types.{primary}
use in_engine_net.Queue.Delivery.{Delivery, Receipt, AttemptKind, interrupted}
use in_engine_net.Queue.Sample.{sample}
use in_engine_net.Queue.Api.{Driver, file}
use in_engine_net.Server.Consumers.{Ending, settle_until_done}
use in_engine_net.Queue.Examples.{codecs, one_command, echo_delivery}
use in_engine_net.Server.Consumers.Starting.{Opening, abandoned, opened, open_with_retry}
use in_engine_net.Server.Consumers.Running.{Token, run_consumer}
use in_engine_net.Server.Consumers.Stopping.{EndsWithin, Served, run_consumer-EndsWithin}
use in_engine_net.Server.Consumers.Settling.{settle_until_done_ends}

-- The state counts the moves that were tried.
abbrev broken : Driver ℕ
broken = record {
  lane = primary;
  publish = λ e s. (ok tt, s);
  dequeue = λ wait s. (ok none, s);
  acknowledge = λ name s. (ok true, s);
  move_claimed = λ name e target s. (err (io (other 5)), suc s);
  recover = λ s. (ok 0, s);
  lengths = λ s. (ok (record { pending = 0; in_progress = 1; failed = 0 }), s);
  clear = λ stage s. (ok 0, s);
  peek = λ stage first last s. (ok [], s);
  republish_failed = λ limit s. (ok 0, s);
}

abbrev delivery : Delivery
delivery = record { envelope = sample 7 9 3; lane = primary; receipt = Receipt.file (b'a' ∷ []) }

abbrev never : ℕ → Bool
never n = false

settle_until_done_ends_example :
    (e : Ending) × ((settle_until_done 4
        (file broken)
        AttemptKind.interrupted
        never
        0
        (err (interrupted delivery (io (other 5))))
        1).0
      ≡ some e)
settle_until_done_ends_example =
    settle_until_done_ends (file broken) AttemptKind.interrupted never 3
      (err (interrupted delivery (io (other 5)))) 1 (inl (refl, refl))

-- One message again and again: its acknowledgement is lost.
abbrev repeating : Driver ℕ
repeating = record broken {
  dequeue = λ wait s. (ok (some echo_delivery), suc s);
  acknowledge = λ name s. (ok false, s);
}

-- The token fires before the second round.
abbrev token : Token
token = record {
  fired = λ n. leb 2 n;
  fired_before_run = λ n. leb 2 n;
  sleep_fired = λ n. leb 2 n;
  settle_fired = λ i n. leb 3 n;
}

abbrev first_opens : ℕ → ℕ → Opening ℕ × ℕ
first_opens n s = if n == 0 then (opened (ok (file repeating)), s) else (abandoned, s)

run_consumer-EndsWithin_example :
    EndsWithin
      (Served codecs one_command
        (λ i c s. ((ok tt, false), s))
        token
        3
        2
        (open_with_retry first_opens never 2 0 0))
      2
      (run_consumer codecs one_command
        (λ i c s. ((ok tt, false), s))
        token
        4
        first_opens
        never
        2
        3
        0)
run_consumer-EndsWithin_example =
    run_consumer-EndsWithin codecs one_command (λ i c s. ((ok tt, false), s)) token 3 2 1
      first_opens never 0 (omega arith) (λ i. refl) refl (λ s. refl)
