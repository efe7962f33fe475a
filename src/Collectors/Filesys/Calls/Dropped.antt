-- ===== src/Collectors/Filesys/Calls/Dropped.antt =====
-- What COLLECT_TIMEOUT of src/core/scheduler.rs does to the filesystem collector of src/core/collectors/filesys.rs when
-- many mounts hang: the waits for them come one after the other.
use blazebee.Base.{
  ℕ, ◌+◌, ◌-◌, ◌*◌, ◌<◌, ◌≤◌, ◌≡◌, refl, sym, ap, subst, ◌∙◌, false, Option, none, some,
  Option-cases, List, [], ◌∷◌, length, Result, All, arith, inl, inr, ◌⊎◌,
}
use blazebee.Base.Text.{Text, text_eq, text_eq_refl}
use blazebee.Error.{IoError}
use blazebee.Scheduler.{collect_timeout}
use blazebee.Collectors.Maps.{get, get-put, text_eq_swap}
use blazebee.Collectors.Filesys.{Mount}
use blazebee.Collectors.Filesys.Usage.{Usage}
use blazebee.Collectors.Filesys.Calls.{
  Calls, start, Answer, in_time, late, dropped, Turn, Collected, cut_at, FilesystemStats,
  statvfs_timeout, start_call, measure, run,
}
use blazebee.Collectors.Filesys.Calls.Loose.{parked_at}
use blazebee.Collectors.Filesys.Calls.Hanging.{
  Separate, Fresh, Hung, measure-late, measure-dropped, measure-remembered,
}

module _ (results : ℕ → Option (Result IoError Usage)) where
  -- What a new call at another mount point leaves as it is.
  record Keeps (q : Text) (c c' : Calls) : Type 0 where
    same_stuck : get q c'.stuck ≡ get q c.stuck
    same_count : parked_at q c'.parked ≡ parked_at q c.parked

  Keeps-refl : (q : Text) (c : Calls) → Keeps q c c
  Keeps-refl q c = record { same_stuck = refl; same_count = refl }

  Keeps-trans : (q : Text) (c d e : Calls) → Keeps q c d → Keeps q d e → Keeps q c e
  Keeps-trans q c d e k l = record {
    same_stuck = l.same_stuck ∙ k.same_stuck;
    same_count = l.same_count ∙ k.same_count;
  }

  start_call-Keeps :
      (q : Text) (c : Calls) (p : Text) (a : Answer)
      → text_eq q p ≡ false
      → Keeps q c (start_call results c p a).0
  unfolding start_call parked_at
  start_call-Keeps q c p in_time other = record { same_stuck = refl; same_count = refl }
  start_call-Keeps q c p late other =
      let swapped = text_eq_swap p q ∙ other in
      record {
        same_stuck = get-put p q c.next c.stuck ∙ rw swapped refl;
        same_count = rw swapped (omega arith);
      }
  start_call-Keeps q c p dropped other =
      let swapped = text_eq_swap p q ∙ other in
      record { same_stuck = refl; same_count = rw swapped (omega arith) }

  abbrev Apart : Text → List Mount → Type 0
  Apart q ms = All (λ (n : Mount). text_eq q n.mount_point ≡ false) ms

  measure-Keeps :
      (q : Text) (turn : Text → Turn) (c : Calls) (left : ℕ) (ms : List Mount)
      (acc : List FilesystemStats)
      → Apart q ms
      → Hung results turn c left ms
      → Keeps q c (measure results turn c ms acc).0
  unfolding measure
  measure-Keeps q turn c left [] acc apart h = Keeps-refl q c
  measure-Keeps q turn c left (m ∷ ms) acc apart h =
      let new = λ (a : Answer). start_call-Keeps q c m.mount_point a apart.0 in
      elim (Option-cases (get m.mount_point c.stuck)) [
        | inr (id, e) ↦
            let (parked, t, rest) = rw (Hung, e) at h in
            rw (measure-remembered results turn c m ms acc ((id, e, parked)) t)
              (measure-Keeps q turn c left ms acc apart.1 rest)
        | inl e ↦ elim (rw (Hung, e) at h) [
          | inl (t, _, rest) ↦
              let c₁ = (start_call results c m.mount_point late).0 in
              rw (measure-late results turn c m ms acc e t) (
                Keeps-trans q c c₁ _ (new late)
                  (measure-Keeps q turn c₁ (left - statvfs_timeout) ms acc apart.1 rest))
          | inr (t, _) ↦ rw (measure-dropped results turn c m ms acc e t) (new dropped)
        ]
      ]

  -- The cycle was cut at the mount point: those before it are remembered, and its own parked call is not.
  abbrev CutIn : Calls → Text → List Mount → Type 0
  CutIn c p [] = ⊥
  CutIn c p (m ∷ ms) =
      ((m.mount_point ≡ p) × (get p c.stuck ≡ none) × (parked_at p c.parked ≡ 1))
      ⊎ (((id : ℕ) × (get m.mount_point c.stuck ≡ some id)) × CutIn c p ms)

  Fresh-Keeps : (c c' : Calls) (m : Mount) → Keeps m.mount_point c c' → Fresh c m → Fresh c' m
  Fresh-Keeps c c' m k (e, n) = (k.same_stuck ∙ e, k.same_count ∙ n)

  all-Fresh :
      (c : Calls) (p : Text) (a : Answer) (ms : List Mount)
      → Apart p ms
      → All (Fresh c) ms
      → All (Fresh (start_call results c p a).0) ms
  all-Fresh c p a [] apart fresh = tt
  all-Fresh c p a (m ∷ ms) apart fresh = (
    Fresh-Keeps c _ m
        (start_call-Keeps m.mount_point c p a (text_eq_swap m.mount_point p ∙ apart.0)) fresh.0,
    all-Fresh c p a ms apart.1 fresh.1,
  )

  parked_new :
      (c : Calls) (p : Text) (id n : ℕ)
      → parked_at p c.parked ≡ n
      → parked_at p ((id, p) ∷ c.parked) ≡ 1 + n
  unfolding parked_at
  parked_new c p id n e = rw (text_eq_refl p) (omega (arith, e))

  late_call : (c : Calls) (p : Text) → get p (start_call results c p late).0.stuck ≡ some c.next
  unfolding start_call
  late_call c p = get-put p p c.next c.stuck ∙ rw (text_eq_refl p) refl

  abbrev IsCut : List Mount → Calls × Collected → Type 0
  IsCut ms (c, end) = (p : Text) × (end ≡ cut_at p) × CutIn c p ms

  -- When the mounts take more time than is left.
  measure-CutIn :
      (turn : Text → Turn) (c : Calls) (left : ℕ) (ms : List Mount) (acc : List FilesystemStats)
      → Separate ms
      → All (Fresh c) ms
      → left < statvfs_timeout * length ms
      → Hung results turn c left ms
      → IsCut ms (measure results turn c ms acc)
  unfolding start_call
  measure-CutIn turn c left [] acc sep fresh short h = absurd (omega (arith, short))
  measure-CutIn turn c left (m ∷ ms) acc sep fresh short h =
      let q = m.mount_point in
      elim (rw (Hung, fresh.0.0) at h) [
        | inl (t, fits, rest) ↦
            let c₁ = (start_call results c q late).0 in
            let (p, ends, found) =
              measure-CutIn turn c₁ (left - statvfs_timeout) ms acc sep.1
                (all-Fresh c q late ms sep.0 fresh.1) (omega (arith, short, fits)) rest in
            let kept = measure-Keeps q turn c₁ (left - statvfs_timeout) ms acc sep.0 rest in
            subst (IsCut (m ∷ ms)) (sym (measure-late results turn c m ms acc fresh.0.0 t))
              ((p, ends, inr ((c.next, kept.same_stuck ∙ late_call c q), found)))
        | inr (t, _) ↦
            subst (IsCut (m ∷ ms)) (sym (measure-dropped results turn c m ms acc fresh.0.0 t))
              ((q, refl, inl ((refl, fresh.0.0, parked_new c q c.next 0 fresh.0.1))))
      ]

  -- The mount at which the cycle before was cut gets a second call.
  measure_again :
      (turn : Text → Turn) (c : Calls) (left : ℕ) (ms : List Mount) (acc : List FilesystemStats)
      (p : Text)
      → Separate ms
      → statvfs_timeout < left
      → CutIn c p ms
      → Hung results turn c left ms
      → parked_at p (measure results turn c ms acc).0.parked ≡ 2
  unfolding start_call
  measure_again turn c left [] acc p sep enough found h = absurd found
  measure_again turn c left (m ∷ ms) acc p sep enough (inr ((id, e), found)) h =
      let (parked, t, rest) = rw (Hung, e) at h in
      rw (measure-remembered results turn c m ms acc ((id, e, parked)) t)
        (measure_again turn c left ms acc p sep.1 enough found rest)
  measure_again turn c left (m ∷ ms) acc p sep enough (inl (same, new, one)) h =
      let q = m.mount_point in
      let e : get q c.stuck ≡ none = rw same new in
      elim (rw (Hung, e) at h) [
        | inr (_, over) ↦ omega (arith, enough, over)
        | inl (t, _, rest) ↦
            let c₁ = (start_call results c q late).0 in
            let kept = measure-Keeps q turn c₁ (left - statvfs_timeout) ms acc sep.0 rest in
            let two = kept.same_count ∙ parked_new c q c.next 1 (rw same one) in
            rw (measure-late results turn c m ms acc e t)
              (subst (λ x. parked_at x (measure results turn c₁ ms acc).0.parked ≡ 2) same two)
      ]

  all_new : (ms : List Mount) → All (Fresh start) ms
  unfolding get parked_at
  all_new [] = tt
  all_new (m ∷ ms) = ((refl, refl), all_new ms)

  -- Let six or more mounts hang in two cycles from a new collector, with no call that returns. The time limit of a
  -- collection ends the first cycle at one of them, and after the second cycle two threads are parked at that mount
  -- point.
  pub run-dropped :
      (first second : Text → Turn) (ms : List Mount)
      → Separate ms
      → 6 ≤ length ms
      → Hung results first start collect_timeout ms
      → Hung results second (run results start ((ms, first) ∷ [])).0 collect_timeout ms
      → (p : Text) × ((run results start ((ms, first) ∷ [])).1 ≡ cut_at p ∷ [])
        × (parked_at p (run results start ((ms, first) ∷ (ms, second) ∷ [])).0.parked ≡ 2)
  unfolding run
  run-dropped first second ms sep many h h' =
      let (p, ends, found) =
        measure-CutIn first start collect_timeout ms [] sep (all_new ms) (omega (arith, many)) h in
      (
        p,
        ap (λ (o : Collected). o ∷ []) ends,
        measure_again second (measure results first start ms []).0 collect_timeout ms [] p sep
            (omega arith) found h',
      )
