-- ===== src/Collectors/Filesys/Calls/Parked.antt =====
-- How many threads the filesystem collector of src/core/collectors/filesys.rs keeps parked at a mount point.
use blazebee.Base.{
  ℕ, ◌+◌, ◌≤◌, Option, List, [], ◌∷◌, Result, arith, Bool-cases, Option-cases, inl, inr,
}
use blazebee.Base.Text.{Text}
use blazebee.Error.{IoError}
use blazebee.Collectors.Maps.{get}
use blazebee.Collectors.Filesys.{Mount}
use blazebee.Collectors.Filesys.Usage.{Usage}
use blazebee.Collectors.Filesys.Calls.{
  Calls, start, is_parked, Answer, Turn, Collected, cut_at, stats, FilesystemStats, return_calls,
  usage, take_turn, measure, run,
}
use blazebee.Collectors.Filesys.Calls.Loose.{
  parked_at, loose, here, cut_here, IsKept, parked_at-le, return_calls-IsKept, forget-IsKept,
  start_call-IsKept, weaken, Progress-cases,
}

abbrev pub cuts_of : Text → Collected → ℕ
cuts_of p (stats s) = 0
cuts_of p (cut_at q) = here q p

-- The waits at the mount point that were dropped.
unfoldable pub cuts : Text → List Collected → ℕ
cuts p [] = 0
cuts p (o ∷ os) = cuts_of p o + cuts p os

module _ (results : ℕ → Option (Result IoError Usage)) where
  usage-IsKept :
      (c : Calls) (d : Text → ℕ) (q : Text) (a : Answer)
      → IsKept c d
      → let (c', r) = usage results c q a in IsKept c' (λ p. d p + cut_here q r p)
  unfolding usage
  usage-IsKept c d q a k = elim (Option-cases (get q c.stuck)) [
    | inl e ↦ rw (usage, e) (start_call-IsKept results c d q a k e)
    | inr (id, e) ↦ elim (Bool-cases (is_parked id c.parked)) [
      | inl e' ↦ rw (usage, e, e') (weaken c d _ k (λ p. omega arith))
      | inr e' ↦ rw (usage, e, e') (weaken _ d _ (forget-IsKept c d q id k e e') (λ p. omega arith))
    ]
  ]

  take_turn-IsKept :
      (t : Turn) (c : Calls) (d : Text → ℕ) (q : Text)
      → IsKept c d
      → let (c', r) = take_turn results t c q in IsKept c' (λ p. d p + cut_here q r p)
  unfolding take_turn
  take_turn-IsKept t c d q k =
      usage-IsKept (return_calls t.returned c) d q t.answer (return_calls-IsKept t.returned c d k)

  measure-IsKept :
      (turn : Text → Turn) (c : Calls) (d : Text → ℕ) (ms : List Mount) (acc : List FilesystemStats)
      → IsKept c d
      → let (c', o) = measure results turn c ms acc in IsKept c' (λ p. d p + cuts_of p o)
  unfolding measure
  measure-IsKept turn c d [] acc k = weaken c d _ k (λ p. omega arith)
  measure-IsKept turn c d (m ∷ ms) acc k =
      let q = m.mount_point in
      let done = take_turn results (turn q) c q in
      let kept = take_turn-IsKept (turn q) c d q k in
      elim (Progress-cases done.1) [
        | inl e ↦ rw (measure, e) (weaken _ _ _ kept (λ p. rw e (omega arith)))
        | inr (r, e) ↦
            rw (measure, e)
              (measure-IsKept turn done.0 d ms _ (weaken _ _ _ kept (λ p. rw e (omega arith))))
      ]

  run-IsKept :
      (c : Calls) (d : Text → ℕ) (cs : List (List Mount × (Text → Turn)))
      → IsKept c d
      → let (c', os) = run results c cs in IsKept c' (λ p. d p + cuts p os)
  unfolding run cuts
  run-IsKept c d [] k = weaken c d _ k (λ p. omega arith)
  run-IsKept c d ((ms, turn) ∷ cs) k =
      let first = measure-IsKept turn c d ms [] k in
      weaken _ _ _ (run-IsKept (measure results turn c ms []).0 _ cs first) (λ p. omega arith)

  -- After any cycles from a new collector, with calls that return or never do: at most one thread is parked at a
  -- mount point, and one more for each time that the time limit of the scheduler dropped the wait for that mount
  -- point.
  pub run-parked :
      (p : Text) (cs : List (List Mount × (Text → Turn)))
      → let (c, os) = run results start cs in parked_at p c.parked ≤ 1 + cuts p os
  unfolding loose
  run-parked p cs =
      let k = run-IsKept start (λ p. 0) cs (record { below = tt; loose_le = λ p. omega arith }) in
      let c = (run results start cs).0 in
      omega (arith, parked_at-le p c.next (get p c.stuck) c.parked k.below, k.loose_le p)
