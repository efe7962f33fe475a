-- ===== src/Collectors/Filesys/Calls/Hanging.antt =====
-- The cycles of src/core/collectors/filesys.rs in which every call hangs: the waits come one after the other.
use blazebee.Base.{
  ℕ, ◌-◌, ◌≤◌, ◌≡◌, refl, ap, ◌∙◌, true, false, Option, none, some, List, [], ◌∷◌, ◌++◌, append-nil,
  Result, All, inl, inr, ◌⊎◌,
}
use blazebee.Base.Text.{Text, text_eq}
use blazebee.Error.{IoError}
use blazebee.Collectors.Maps.{get}
use blazebee.Collectors.Filesys.{Mount}
use blazebee.Collectors.Filesys.Usage.{Usage}
use blazebee.Collectors.Filesys.Calls.{
  Calls, still, is_parked, Answer, late, dropped, Turn, Progress, value, cut, Collected, cut_at,
  FilesystemStats, statvfs_timeout, start_call, usage, take_turn, measure, with_usage,
}
use blazebee.Collectors.Filesys.Calls.Loose.{parked_at, Progress-cases}

still_all : (ps : List (ℕ × Text)) → still [] ps ≡ ps
still_all [] = refl
still_all ((i, p) ∷ ps) = rw (still_all ps)

-- Nothing returns before a mount's turn.
abbrev pub hangs : Answer → Turn
hangs a = record { returned = []; answer = a }

-- The mount points differ.
abbrev pub Separate : List Mount → Type 0
Separate [] = Unit
Separate (m ∷ ms) =
    All (λ (n : Mount). text_eq m.mount_point n.mount_point ≡ false) ms × Separate ms

-- The collector remembers a call at the mount point that has not returned.
abbrev pub Stuck : Calls → Text → Type 0
Stuck c p = (id : ℕ) × (get p c.stuck ≡ some id) × (is_parked id c.parked ≡ true)

abbrev pub Fresh : Calls → Mount → Type 0
Fresh c m = (get m.mount_point c.stuck ≡ none) × (parked_at m.mount_point c.parked ≡ 0)

module _ (results : ℕ → Option (Result IoError Usage)) where
  -- Every call hangs, and the scheduler drops the cycle when the time that is left, in seconds, is over. A mount that
  -- is remembered takes no time. The wait for another one takes STATVFS_TIMEOUT if that much time is left, and is
  -- dropped otherwise; where exactly that much is left, either may come first.
  abbrev pub Hung : (Text → Turn) → Calls → ℕ → List Mount → Type 0
  Hung turn c left [] = Unit
  Hung turn c left (m ∷ ms) = elim (get m.mount_point c.stuck) [
    | some id ↦
        (is_parked id c.parked ≡ true) × (turn m.mount_point ≡ hangs late) × Hung turn c left ms
    | none ↦
        ((turn m.mount_point ≡ hangs late)
          × (statvfs_timeout ≤ left)
          × Hung turn (start_call results c m.mount_point late).0 (left - statvfs_timeout) ms)
        ⊎ ((turn m.mount_point ≡ hangs dropped) × (left ≤ statvfs_timeout))
  ]

  -- A turn before which nothing returns.
  take_turn-hangs :
      (turn : Text → Turn) (c : Calls) (q : Text) (a : Answer)
      → turn q ≡ hangs a
      → take_turn results (turn q) c q ≡ usage results c q a
  unfolding take_turn
  take_turn-hangs turn c q a e =
      ap (λ x. take_turn results x c q) e
      ∙ ap (λ ps. usage results (record c { parked = ps }) q a) (still_all c.parked)

  new_call :
      (turn : Text → Turn) (c : Calls) (q : Text) (a : Answer)
      → get q c.stuck ≡ none
      → turn q ≡ hangs a
      → take_turn results (turn q) c q ≡ start_call results c q a
  unfolding usage
  new_call turn c q a e t = take_turn-hangs turn c q a t ∙ rw (usage, e) refl

  remembered_call :
      (turn : Text → Turn) (c : Calls) (q : Text)
      → Stuck c q
      → turn q ≡ hangs late
      → take_turn results (turn q) c q ≡ (c, value none)
  unfolding usage
  remembered_call turn c q (id, e, parked) t =
      take_turn-hangs turn c q late t ∙ rw (usage, e, parked) refl

  -- What the loop does after a mount's turn.
  abbrev resumed :
      (Text → Turn)
      → Mount
      → List Mount
      → List FilesystemStats
      → Calls × Progress
      → Calls × Collected
  resumed turn m ms acc (c, cut) = (c, cut_at m.mount_point)
  resumed turn m ms acc (c, value r) = measure results turn c ms (acc ++ with_usage m r)

  measure-cons :
      (turn : Text → Turn) (c : Calls) (m : Mount) (ms : List Mount) (acc : List FilesystemStats)
      → measure results turn c (m ∷ ms) acc
        ≡ resumed turn m ms acc (take_turn results (turn m.mount_point) c m.mount_point)
  unfolding measure
  measure-cons turn c m ms acc =
      elim (Progress-cases (take_turn results (turn m.mount_point) c m.mount_point).1) [
        | inl e ↦ rw (measure, e) refl
        | inr (r, e) ↦ rw (measure, e) refl
      ]

  pub measure-late :
      (turn : Text → Turn) (c : Calls) (m : Mount) (ms : List Mount) (acc : List FilesystemStats)
      → get m.mount_point c.stuck ≡ none
      → turn m.mount_point ≡ hangs late
      → measure results turn c (m ∷ ms) acc
        ≡ measure results turn (start_call results c m.mount_point late).0 ms acc
  unfolding start_call
  measure-late turn c m ms acc e t =
      measure-cons turn c m ms acc
      ∙ ap (resumed turn m ms acc) (new_call turn c m.mount_point late e t)
      ∙ ap (measure results turn _ ms) (append-nil acc)

  pub measure-dropped :
      (turn : Text → Turn) (c : Calls) (m : Mount) (ms : List Mount) (acc : List FilesystemStats)
      → get m.mount_point c.stuck ≡ none
      → turn m.mount_point ≡ hangs dropped
      → measure results turn c (m ∷ ms) acc
        ≡ ((start_call results c m.mount_point dropped).0, cut_at m.mount_point)
  unfolding start_call
  measure-dropped turn c m ms acc e t =
      measure-cons turn c m ms acc
      ∙ ap (resumed turn m ms acc) (new_call turn c m.mount_point dropped e t)

  pub measure-remembered :
      (turn : Text → Turn) (c : Calls) (m : Mount) (ms : List Mount) (acc : List FilesystemStats)
      → Stuck c m.mount_point
      → turn m.mount_point ≡ hangs late
      → measure results turn c (m ∷ ms) acc ≡ measure results turn c ms acc
  measure-remembered turn c m ms acc s t =
      measure-cons turn c m ms acc
      ∙ ap (resumed turn m ms acc) (remembered_call turn c m.mount_point s t)
      ∙ ap (measure results turn c ms) (append-nil acc)
