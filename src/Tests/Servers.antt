-- ===== src/Tests/Servers.antt =====
-- The theorems about the server outside its sessions.
use s.Prelude.{◌≡◌, refl, true, false, some, [], ◌∷◌}
use s.Prelude.Int.{pos}
use s.Clib.{Text, codes}
use s.Outcome.{Holds}
use s.Server.Options.{defaults, parse_options}
use s.Server.Options.Limits.{IfRuns, started, started_within_limits}
use s.Server.Listen.{Params, Listener, events}
use s.Server.Listen.Handing.{in_turn, burst_from, events-started}
use s.Tests.Memory.{memory}

abbrev line : Text
line = codes "ADD a b 7"

started_within_limits_example :
    Holds
      (λ p.
        IfRuns memory
          (started memory p (some []) (record { makes = true; binds = true; assigned = 49152 })))
      (parse_options (codes "-p" ∷ codes "9000" ∷ codes "-t" ∷ codes "8" ∷ []) defaults)
started_within_limits_example =
    started_within_limits memory (codes "-p" ∷ codes "9000" ∷ codes "-t" ∷ codes "8" ∷ []) (some [])
      (record { makes = true; binds = true; assigned = 49152 })

abbrev first_client : Params
first_client = record { fd = 5; ipaddr = codes "10.0.0.7" }

abbrev second_client : Params
second_client = record { fd = 6; ipaddr = codes "10.0.0.8" }

abbrev idle : Listener
idle = record {
  c_count = pos 2;
  params = first_client;
  queued = 0;
  started = [];
  sent = [];
  stopped = false;
}

events-started_example :
    ((events 2 (in_turn (first_client ∷ second_client ∷ [])) idle).started
      ≡ first_client ∷ second_client ∷ [])
    × ((events 2 (burst_from (first_client ∷ second_client ∷ []) 0) idle).started
        ≡ second_client ∷ second_client ∷ [])
events-started_example = events-started 2 (first_client ∷ second_client ∷ []) idle refl refl
