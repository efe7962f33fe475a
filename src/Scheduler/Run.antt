-- ===== src/Scheduler/Run.antt =====
-- The loop of src/core/scheduler.rs: one step for each wake.
use blazebee.Base.{
  ℕ, ◌+◌, ◌-◌, ◌%◌, ◌^◌, Bool, true, false, not, Option, none, some, List, [], ◌∷◌, ◌++◌, length,
  ltb, ◌==◌, if◌then◌else◌,
}
use blazebee.Base.Text.{Text}
use blazebee.Config.{EndpointMetadata}
use blazebee.Connection.{ConnectionState, is_connected, is_fatal_state}
use blazebee.Scheduler.{
  Publish, Collect, Ticker, Entry, Line, Note, lost, waiting, started, restored, complete, overrun,
  entries_of, cycle,
}

-- What ends a wait of the loop, with the link's state that it then reads and the time that a
-- cycle takes, should there be one.
pub data Wake (F : Type 0) : Type 0 where
  tick changed : ConnectionState F → ℕ → Wake F
  gone : Wake F

-- The loop's variables, and what it has logged.
pub record Looping (Sink Collector Interval : Type 0) : Type 0 where
  pub ticker : Interval
  pub entries : List (Entry Collector)
  pub publisher : Sink
  pub paused : Bool
  pub ever_connected : Bool
  pub skipped : ℕ
  pub lines : List Line
  pub notes : List Note

module _ {Sink Collector Interval : Type 0} where
  abbrev pub note : Note → Looping Sink Collector Interval → Looping Sink Collector Interval
  note n l = record l { notes = l.notes ++ (n ∷ []) }

  abbrev pub noted_if :
      Bool → Note → Looping Sink Collector Interval → Looping Sink Collector Interval
  noted_if true n l = note n l
  noted_if false n l = l

  -- Not connected: the first wake pauses, and each is counted.
  unfoldable pub skip : Looping Sink Collector Interval → Looping Sink Collector Interval
  skip l =
      let l' =
        if l.paused
        then l
        else record (note (if l.ever_connected then lost else waiting) l) { paused = true } in
      record l' { skipped = (l'.skipped + 1) % 2 ^ 64 }

  unfoldable pub resume : Looping Sink Collector Interval → Looping Sink Collector Interval
  resume l =
      record (if l.paused
        then record (note (if l.ever_connected then restored l.skipped else started) l) {
          paused = false;
          skipped = 0;
        }
        else l) { ever_connected = true }

module _ (p : Publish) (c : Collect p.Value) (t : Ticker) (interval : ℕ) where
  abbrev pub Scheduling : Type 0
  Scheduling = Looping p.Sink c.Collector t.Interval

  -- Scheduler::new, and the variables before the loop.
  abbrev pub new : t.Interval → List (Text × c.Collector × EndpointMetadata) → p.Sink → Scheduling
  new ticker entries publisher = record {
    ticker = ticker;
    entries = entries_of entries;
    publisher = publisher;
    paused = false;
    ever_connected = false;
    skipped = 0;
    lines = [];
    notes = [];
  }

  -- Scheduler::run up to its loop: `tokio::time::interval` panics on a period of zero, which is `none`.
  unfoldable pub launch :
      t.Interval → List (Text × c.Collector × EndpointMetadata) → p.Sink → Option Scheduling
  launch ticker entries publisher =
      if interval == 0 then none else some (new ticker entries publisher)

  -- A cycle: every entry once, and the summary.
  unfoldable pub collect_all : Scheduling → ℕ → Scheduling
  collect_all l elapsed =
      let done = cycle p c l.publisher l.entries in
      noted_if (ltb interval elapsed) (overrun elapsed interval) (
        note (complete done.published (length done.entries - done.published) done.bytes) (record l {
          entries = done.entries;
          publisher = done.sink;
          lines = l.lines ++ done.lines;
        }))

  -- The body of the loop after a wake; `true` is a return.
  unfoldable pub observe : {F : Type 0} → Scheduling → ConnectionState F → ℕ → Scheduling × Bool
  observe l state elapsed =
      if is_fatal_state state
      then (l, true)
      else if not (is_connected state)
      then (skip l, false)
      else (collect_all (resume l) elapsed, false)

  -- Only a paused loop listens to the link.
  unfoldable pub step : {F : Type 0} → Scheduling → Wake F → Scheduling × Bool
  step l (tick state elapsed) = observe (record l { ticker = t.ticked l.ticker }) state elapsed
  step l (changed state elapsed) =
      if l.paused
      then observe (record l { ticker = t.restarted l.ticker }) state elapsed
      else (l, false)
  step l gone = (l, l.paused)

  unfoldable pub run : {F : Type 0} → Scheduling → List (Wake F) → Scheduling × Bool
  run l [] = (l, false)
  run l (w ∷ ws) = elim (step l w).1 [ true ↦ ((step l w).0, true) | false ↦ run (step l w).0 ws ]
