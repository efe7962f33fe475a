-- ===== src/Collectors/Filesys/Calls.antt =====
-- `FilesystemCollector` of src/core/collectors/filesys.rs: the calls of statvfs on blocking threads, the deadline of
-- each, and the mounts that are remembered as stuck. A call has a number. It is parked until its thread returns. What
-- it returns is an argument, where `none` is a thread that panicked. The scheduler's own time limit drops the future
-- of `collect` at the wait that it is in, and with it the handle of that call.
pub mod Loose
pub mod Parked
pub mod Hanging
pub mod Dropped
use blazebee.Base.{
  ℕ, ◌+◌, ◌==◌, Bool, true, false, not, ◌||◌, Option, none, some, List, [], ◌∷◌, ◌++◌, Result, ok,
  err, if◌then◌else◌,
}
use blazebee.Base.Text.{Text}
use blazebee.Error.{IoError}
use blazebee.Collectors.Maps.{get, put, remove}
use blazebee.Collectors.Filesys.{Mount}
use blazebee.Collectors.Filesys.Usage.{Usage}

-- `stuck` of the collector, the threads that are parked, and the number of the next call.
pub record Calls : Type 0 where
  pub stuck : List (Text × ℕ)
  pub parked : List (ℕ × Text)
  pub next : ℕ

abbrev pub start : Calls
start = record { stuck = []; parked = []; next = 0 }

abbrev pub is_parked : ℕ → List (ℕ × Text) → Bool
is_parked id [] = false
is_parked id ((i, p) ∷ ps) = i == id || is_parked id ps

abbrev pub has_id : ℕ → List ℕ → Bool
has_id id [] = false
has_id id (i ∷ is) = i == id || has_id id is

-- Those that are still parked when some have returned.
abbrev pub still : List ℕ → List (ℕ × Text) → List (ℕ × Text)
still is [] = []
still is ((i, p) ∷ ps) = let rest = still is ps in if has_id i is then rest else (i, p) ∷ rest

-- How the wait for a new call ends: in time, at the deadline, or with the future dropped.
pub data Answer : Type 0 where
  in_time late dropped : Answer

-- What happens around a mount's turn: the calls that have returned before it, and the answer.
pub record Turn : Type 0 where
  pub returned : List ℕ
  pub answer : Answer

pub data Progress : Type 0 where
  value : Option (Result IoError Usage) → Progress
  cut : Progress

pub record FilesystemStats : Type 0 where
  pub device : Text
  pub mount_point : Text
  pub fs_type : Text
  pub usage : Usage

-- A cycle's end: dropped at the wait for a mount, or with the statistics.
pub data Collected : Type 0 where
  cut_at : Text → Collected
  stats : List FilesystemStats → Collected

abbrev pub with_usage : Mount → Option (Result IoError Usage) → List FilesystemStats
with_usage m none = []
with_usage m (some (err e)) = []
with_usage m (some (ok u)) =
    record { device = m.device; mount_point = m.mount_point; fs_type = m.fs_type; usage = u } ∷ []

abbrev pub return_calls : List ℕ → Calls → Calls
return_calls is c = record c { parked = still is c.parked }

-- STATVFS_TIMEOUT, in seconds.
abbrev pub statvfs_timeout : ℕ
statvfs_timeout = 2

module _ (results : ℕ → Option (Result IoError Usage)) where
  -- The part of `usage` that starts a call.
  unfoldable pub start_call : Calls → Text → Answer → Calls × Progress
  start_call c p in_time = (record c { next = c.next + 1 }, value (results c.next))
  start_call c p late = (
    record { stuck = put p c.next c.stuck; parked = (c.next, p) ∷ c.parked; next = c.next + 1 },
    value none,
  )
  start_call c p dropped = (record c { parked = (c.next, p) ∷ c.parked; next = c.next + 1 }, cut)

  unfoldable pub usage : Calls → Text → Answer → Calls × Progress
  usage c p answer = elim (get p c.stuck) [
    | none ↦ start_call c p answer
    | some id ↦
        if is_parked id c.parked
        then (c, value none)
        else (record c { stuck = remove p c.stuck }, value (results id))
  ]

  unfoldable pub take_turn : Turn → Calls → Text → Calls × Progress
  take_turn t c p = usage (return_calls t.returned c) p t.answer

  -- The loop of `collect` over the mounts, with the turn of each.
  unfoldable pub measure :
      (Text → Turn) → Calls → List Mount → List FilesystemStats → Calls × Collected
  measure turn c [] acc = (c, stats acc)
  measure turn c (m ∷ ms) acc =
      let done = take_turn (turn m.mount_point) c m.mount_point in
      elim done.1 [
        | cut ↦ (done.0, cut_at m.mount_point)
        | value r ↦ measure turn done.0 ms (acc ++ with_usage m r)
      ]

  -- One cycle after another: the mounts of each, with their turns.
  unfoldable pub run : Calls → List (List Mount × (Text → Turn)) → Calls × List Collected
  run c [] = (c, [])
  run c ((ms, turn) ∷ cs) =
      let cycle = measure turn c ms [] in let later = run cycle.0 cs in (later.0, cycle.1 ∷ later.1)
