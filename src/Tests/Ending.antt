-- ===== src/Tests/Ending.antt =====
-- The whole process (src/main.rs) with one collector, from loading to a signal.
use blazebee.Base.{ℕ, ◌+◌, Bool, true, false, none, some, List, [], ◌∷◌, ok}
use blazebee.Base.Text.{Text, codes, text_eq}
use blazebee.Collectors.Registry.{Kind}
use blazebee.Connection.{connecting, connected}
use blazebee.Connection.Handle.{result}
use blazebee.Settings.{Settings, Filters, default_logger}
use blazebee.Settings.Tree.{string}
use blazebee.Settings.Loading.{Host}
use blazebee.Scheduler.{Collect, Ticker}
use blazebee.Scheduler.Run.{tick, changed}
use blazebee.Agent.Running.{Process, Fate, main}
use blazebee.Agent.Exits.{Exits, main-Exits}
use blazebee.Tests.Fixtures.{Bounded, client, codecs, queue, endpoint, settings, sample}

abbrev bee : Settings
bee = record {
  logger = default_logger;
  metrics = record {
    collection_interval = 2;
    collectors = record { enabled = record { name = codes "cpu"; metadata = endpoint } ∷ [] };
  };
  transport = settings;
  source = [];
}

abbrev host : Host ℕ Text
host = record {
  var_os = λ name. some (codes "bee.toml");
  var = λ name. some (codes "bee.toml");
  is_file = λ path. false;
  read_to_string = λ path. ok (codes "name = \"cpu\"");
  gethostname = none;
  from_str = λ text. ok (string text);
  try_into = λ tree. ok bee;
}

abbrev filters : Filters
filters = record { try_new = λ s. ok tt; is_level = λ s. text_eq s (codes "info") }

abbrev built : Text → Bool
built name = true

abbrev bees : Collect (List ℕ)
bees = record { Collector = Kind; collect = λ c. (c, some (ok sample)) }

abbrev clock : Ticker
clock = record { Interval = ℕ; ticked = λ n. n + 1; restarted = λ n. 0 }

-- It connects, samples twice, and is told to stop.
abbrev process : Process Kind Bounded ℕ ℕ
process = record {
  make = λ k. k;
  registry = record { rust_log = none; journald = ok tt; free = true };
  build_runtime = ok tt;
  has_roots = true;
  fs_read = λ path. ok [];
  open_queue = λ n. queue n;
  ticker = 0;
  wakes = tick connecting 0 ∷ changed connected 1 ∷ tick connected 1 ∷ [];
  signalled = true;
  joined = some (result (ok tt));
}

abbrev fate : Fate
fate = main codecs client bees clock host filters built process

main-Exits_example : Exits codecs client bees clock host filters built process fate
main-Exits_example = main-Exits codecs client bees clock host filters built process
