-- ===== src/Tests/Programs.antt =====
-- The whole server at concrete runs: its console beside its clients.
use s.Prelude.{◌≡◌, refl, true, false, none, some, List, [], ◌∷◌, ◌++◌, replicate, arith}
use s.Prelude.Int.{pos, ◌+ℤ◌}
use s.Clib.{codes, text_eq}
use s.Outcome.{ok, err, invalid_parameter}
use s.Server.Messages.{kept_bytes, is_kept}
use s.Server.Sqlite.{sqlite_ok}
use s.Server.Startup.{Running}
use s.Server.Status.{runtime_of, runtime_text, level_of, usage_text}
use s.Server.Status.Reports.{LevelMeans}
use s.Server.Console.{shutdown}
use s.Server.Main.{Output, reported}
use s.Server.Listen.{admit, happens, listen_once, nearly_full, hundredths}
use s.Server.System.{connects, act, started_system}
use s.Server.Program.{
  Moment, acts_on, enters, interrupts, Program, moment, moments, started_program,
}
use s.Server.Program.Statistics.{IsTime, program-stat, program-stat_crash}
use s.Tests.Memory.{memory}
use s.Tests.Systems.{client, nobody, running}

abbrev crowded : Running memory
crowded = record running { num_threads = 100 }

abbrev arrival : Moment
arrival = acts_on (connects (some client))

-- A hundred clients connect to a hundred threads, none of which has begun its job.
abbrev crowd : Program memory
crowd = record {
  system = record {
    listener = record {
      c_count = pos 100;
      params = client;
      queued = 100;
      started = [];
      sent = [];
      stopped = false;
    };
    db = [];
    sessions = [];
    returned = [];
  };
  command = [];
  outputs = [];
  exit = none;
}

crowd-arrives :
    moments 100 9
      (shutdown sqlite_ok true true)
      (replicate 100 arrival)
      (started_program nobody crowded)
    ≡ ok crowd
unfolding moments moment act started_program started_system happens listen_once admit nearly_full
    hundredths ◌+ℤ◌
crowd-arrives = refl

program-stat_crash_example :
    moments 100 9
      (shutdown sqlite_ok true true)
      (replicate 100 arrival ++ enters (some (codes "stat")) 60 ∷ interrupts ∷ [])
      (started_program nobody crowded)
    ≡ err invalid_parameter
unfolding started_program
program-stat_crash_example =
    program-stat_crash crowded nobody 9 (shutdown sqlite_ok true true) (replicate 100 arrival) crowd
      crowd-arrives refl (codes "stat") (omega arith) (unfold kept_bytes is_kept text_eq in refl) 60
      (interrupts ∷ []) (omega arith) (omega arith) (omega arith)

-- One client connects.
abbrev greeted : Program memory
greeted = record crowd {
  system = record crowd.system {
    listener = record crowd.system.listener { c_count = pos 1; queued = 1 };
  };
}

client-arrives :
    moments 64 9 (shutdown sqlite_ok true true) (arrival ∷ []) (started_program nobody running)
    ≡ ok greeted
unfolding moments moment act started_program started_system happens listen_once admit nearly_full
    hundredths ◌+ℤ◌
client-arrives = refl

abbrev report : Output
report = reported (record {
  runtime = runtime_text (runtime_of 60);
  level = level_of (pos 1) 64;
  usage = usage_text (level_of (pos 1) 64) (pos 1) 64;
})

abbrev asked_stat : List Moment
asked_stat = arrival ∷ enters (some (codes "stat")) 60 ∷ []

program-stat_example :
    (moments 64 9 (shutdown sqlite_ok true true) asked_stat (started_program nobody running)
      ≡ ok (record greeted { command = codes "stat"; outputs = report ∷ [] }))
    × (IsTime 60 (runtime_of 60) × LevelMeans 1 64 (level_of (pos 1) 64))
unfolding kept_bytes is_kept
program-stat_example =
    program-stat running nobody 9 (shutdown sqlite_ok true true) (arrival ∷ []) greeted
      client-arrives refl (codes "stat") (omega arith) (unfold text_eq in refl) 60 (omega arith)
      (omega arith) (omega arith)
