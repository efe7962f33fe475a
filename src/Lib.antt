-- ===== src/Lib.antt =====
-- Verification of Blazebee, an agent that samples the interfaces of the Linux kernel and publishes the samples to an MQTT
-- broker.
--
-- The parts of the program, and how they work together. src/main.rs loads the configuration (src/config), connects the
-- transport (crates/mqtt/v3/src/connection.rs) and runs the scheduler (src/core/scheduler.rs). At each tick while the
-- connection is up the scheduler calls every collector (src/core/collectors) and hands its sample to the publisher
-- (crates/mqtt/v3/src/publisher.rs), which serializes and compresses it (serializer.rs), splits it into frames where that is
-- set (framer.rs), and puts the packets into the bounded queue of the MQTT client. The driver task of the transport polls the
-- client's event loop, waits between attempts to reconnect (backoff.rs), and announces the connection's state, which the
-- scheduler reads.
--
-- Which file models what. Each file's first lines name its code.
--   Base          lists, texts, results, UTF-8 and tests on numbers
--   Error         crates/mqtt/v3/src/error.rs, and the errors of rumqttc and std that the code tells apart
--   Config        crates/mqtt/v3/src/config.rs: `validate`, `validate_endpoint`, `validate_tls`, the defaults
--   Framer        crates/mqtt/v3/src/framer.rs: `encode`, `decode`, `frames`
--   Serializer    crates/mqtt/v3/src/serializer.rs: `encode`, `compress`; Serializer.Reading is a consumer's half of it, which the
--                 repository does not have, as Framer.Reassembly is for the frames and Publisher.Received for both
--   Publisher     crates/mqtt/v3/src/publisher.rs: `publish` is cut into `prepare` (up to the encoded payload) and `dispatch`
--                 (the rest); `join_topic`, `publish_overhead`
--   Floats        what the code uses of `f64`
--   Backoff       crates/mqtt/v3/src/backoff.rs: `next_delay`, `random_unit`, `reset`
--   Connection    crates/mqtt/v3/src/connection.rs: the states and `is_fatal`; Connection.Driver is the task (`Driver::run` and
--                 `disconnect`), one step for each await; Connection.Handle is `Transport`
--   Collectors    src/core/collectors: the registry, the helpers of procfs.rs (Procfs, Procfs.Reading, Parsing), and a module for
--                 each collector, of its name; entropy.rs stands in Conntrack. Filesys has the mounts, Filesys.Usage `statvfs`,
--                 and Filesys.Calls the calls that hang. Sysfs has the directories that edac, hwmon, powerstat and thermal walk,
--                 Search and Maps the searches in texts and the hash maps of std
--   Scheduler     src/core/scheduler.rs: `run_entry`, one cycle, and the loop, one step for each wake
--   Settings      src/config: `validate` with its sections; Settings.Expand is `expand` of env.rs, Settings.Tree `expand_value`,
--                 and Settings.Loading `load`, `from_path`, `parse` and `hostname`
--   Logging       src/logger.rs: `init`, with a layer as its settings
--   Agent         src/main.rs: the entries that the scheduler gets; Agent.Running is `main` and `run`
--   Tests         the theorems at concrete inputs
--
-- State is a record that a function takes and returns; an error is a `Result`. A u8, u32 or u64 is a natural number whose
-- wrap-around or saturation is written out; `usize` has 64 bits and its sums of lengths are not bounded. A text is the list of its
-- code points, whose bytes `utf8_len` counts, and a byte slice is a list of numbers.
--
-- What is an argument: the MQTT client's queue (`Client`, whose law `Behaves` says that a request is taken at the end or
-- refused, and `Room` that it is taken while there is room), the serializers and compressors (`Codecs`, whose inverses are
-- `Inverts`), `f64` (`Floats`, with `Lawful` for the facts of IEEE 754 that the delays need, and `F64` and `Reals` for what the collectors
-- parse and compute), the parsing and the types of TOML (`Host`), collectors, the ticker, what the event loop returns, files
-- and directories, environment variables, the subscriber of tracing, and the answers of `statvfs`, `adjtimex`, `gethostname`
-- and systemctl, and whether the certificates of the system's roots can be loaded, without which the default TLS
-- configuration of rumqttc panics. For the filesystem collector the argument also says, at each mount, which of the earlier calls have returned
-- and whether the wait ends in time, at its deadline, or with the future dropped.
--
-- Loops are structural, on inputs, lines, bytes or the reads of a file, except for two on fuel. `chunks` has the payload's length
-- as its fuel, and each chunk takes at least one byte. `expand_loop` has one more than the text's length, and each round drops at
-- least one character.
--
-- Not modelled: deserialization (serde, TOML), opening files, signals and the writing of log lines, which are input and output; the
-- `collect` of a collector that only reads its file and hands it to its parser. Log lines are modelled in the scheduler, as far as
-- they tell failures apart. Failed allocations and the capacity of buffers are left out.
pub mod Base
pub mod Error
pub mod Config
pub mod Framer
pub mod Serializer
pub mod Publisher
pub mod Floats
pub mod Backoff
pub mod Connection
pub mod Collectors
pub mod Scheduler
pub mod Settings
pub mod Logging
pub mod Agent
pub mod Tests
