-- ===== src/QueueAdmin/Management/Examples.antt =====
-- A `Clear` of inengine-core/src/queue_admin/management.rs on the Redis driver and a sample server.
use in_engine_net.Prelude.{refl, true, false, [], ◌∷◌, Bytes, ok, none}
use in_engine_net.Output
use in_engine_net.Output.{Output}
use in_engine_net.Output.Examples.{terminal}
use in_engine_net.Queue.Types.{primary, QueueDriver}
use in_engine_net.Queue.Sample.{sample_json}
use in_engine_net.Queue.Spec.{Stages}
use in_engine_net.Queue.Api
use in_engine_net.Queue.Api.{Driver, open_queue}
use in_engine_net.RedisQueue.Driver.{
  publish as redis_publish, acknowledge as redis_acknowledge, move_claimed as redis_move_claimed,
  lengths as redis_lengths, clear as redis_clear,
}
use in_engine_net.RedisQueue.Represents.{Represents}
use in_engine_net.RedisQueue.Represents.Requests.{Answers-clear}
use in_engine_net.RedisQueue.Sample.{Lists, server, server-IsRedis}
use in_engine_net.QueueAdmin.Management.{Opener, clear}
use in_engine_net.QueueAdmin.Management.Clearing.{Opens, Cleared, flagged, clear_lem}

abbrev name : Bytes
name = b'q' ∷ []

-- The driver's requests that a clear does not make are those of an empty queue.
abbrev driver : Driver Lists
driver = record {
  lane = primary;
  publish = redis_publish server sample_json name primary;
  dequeue = λ wait s. (ok none, s);
  acknowledge = redis_acknowledge server sample_json name primary;
  move_claimed = redis_move_claimed server sample_json name primary;
  recover = λ s. (ok 0, s);
  lengths = redis_lengths server sample_json name primary;
  clear = redis_clear server sample_json name primary;
  peek = λ stage first last s. (ok [], s);
  republish_failed = λ limit s. (ok 0, s);
}

abbrev opener : Opener Lists
opener = record {
  queue_driver = QueueDriver.redis;
  open_file = λ lane s. (ok driver, s);
  open_redis = λ lane s. (ok driver, s);
}

abbrev no_lists : Lists
no_lists k = []

abbrev no_stages : Stages
no_stages = record { pending = []; in_progress = []; failed = [] }

no_lists-Represents : Represents server name primary no_lists no_stages
no_lists-Represents = record { pending_is = refl; in_progress_is = refl; failed_is = refl }

redis-Opens :
    Opens terminal (Represents server name primary) no_stages (
      open_queue opener.queue_driver
        (opener.open_file primary)
        (opener.open_redis primary)
        no_lists)
unfolding open_queue Api.clear
redis-Opens = (
  λ stage s q h. Answers-clear server sample_json name primary server-IsRedis stage s q h,
  no_lists-Represents,
)

clear_lem_example :
    Cleared terminal
      (Represents server name primary)
      (flagged true false true)
      no_stages
      (Output.new terminal false)
      (clear terminal opener true false true primary (no_lists, Output.new terminal false))
clear_lem_example =
    clear_lem terminal (Represents server name primary) opener true false true primary no_lists
      no_stages (Output.new terminal false) no_lists-Represents redis-Opens
