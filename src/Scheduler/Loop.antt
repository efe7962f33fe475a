-- ===== src/Scheduler/Loop.antt =====
-- The loop of src/core/scheduler.rs over a sequence of wakes.
use blazebee.Base.{
  ℕ, zero, suc, ◌≡◌, refl, sym, ◌∙◌, ap, Bool, true, false, List, [], ◌∷◌, map, if◌then◌else◌,
  arith, Bool-cases, inl, inr,
}
use mathlib.Core.List.{map-id, map-map}
use blazebee.Connection.{ConnectionState, is_connected, is_fatal_state}
use blazebee.Scheduler.{Publish, Collect, Ticker}
use blazebee.Scheduler.Run.{
  Wake, tick, changed, gone, Scheduling, run, step, observe, skip, resume, collect_all,
}
use blazebee.Scheduler.Cycles.{next, cycle-IsPass}

-- The loop without its data: whether it is paused, and what a wake makes it do.
pub data Act : Type 0 where
  ignore stop wait sample : Act

abbrev pub act_on : {F : Type 0} → ConnectionState F → Act
act_on s = if is_fatal_state s then stop else if is_connected s then sample else wait

unfoldable pub act : {F : Type 0} → Bool → Wake F → Act
act paused (tick s elapsed) = act_on s
act paused (changed s elapsed) = if paused then act_on s else ignore
act paused gone = if paused then stop else ignore

abbrev pub paused_after : Bool → Act → Bool
paused_after b ignore = b
paused_after b stop = b
paused_after b wait = true
paused_after b sample = false

-- How many cycles a sequence of wakes gives, and whether it ends the loop.
unfoldable pub cycles_in : {F : Type 0} → Bool → List (Wake F) → ℕ
cycles_in paused [] = 0
cycles_in paused (w ∷ ws) =
    let rest = cycles_in (paused_after paused (act paused w)) ws in
    elim (act paused w) [ ignore ↦ rest | stop ↦ 0 | wait ↦ rest | sample ↦ suc rest ]

unfoldable pub stops_in : {F : Type 0} → Bool → List (Wake F) → Bool
stops_in paused [] = false
stops_in paused (w ∷ ws) =
    let rest = stops_in (paused_after paused (act paused w)) ws in
    elim (act paused w) [ ignore ↦ rest | stop ↦ true | wait ↦ rest | sample ↦ rest ]

abbrev pub iterate {ℓ} : {A : Type ℓ} → ℕ → (A → A) → A → A
iterate zero f a = a
iterate (suc n) f a = iterate n f (f a)

module _ (p : Publish) (c : Collect p.Value) (t : Ticker) (interval : ℕ) where
  abbrev pub collectors : Scheduling p c t interval → List c.Collector
  collectors l = map (λ e. e.collector) l.entries

  -- What an act makes of the loop; without a cycle no collector is called and nothing is published.
  abbrev IsIdle : Scheduling p c t interval → Scheduling p c t interval → Type 0
  IsIdle l l' = (l'.entries ≡ l.entries) × (l'.publisher ≡ l.publisher)

  abbrev Does : Scheduling p c t interval → Act → Scheduling p c t interval × Bool → Type 0
  Does l ignore (l', over) = (over ≡ false) × (l'.paused ≡ l.paused) × IsIdle l l'
  Does l stop (l', over) = (over ≡ true) × (l'.paused ≡ l.paused) × IsIdle l l'
  Does l wait (l', over) = (over ≡ false) × (l'.paused ≡ true) × IsIdle l l'
  Does l sample (l', over) =
      (over ≡ false) × (l'.paused ≡ false) × (collectors l' ≡ map (next p c) (collectors l))

  collect_all_lem :
      (l : Scheduling p c t interval) (elapsed : ℕ)
      → let l' = collect_all p c t interval l elapsed in
        (l'.paused ≡ l.paused) × (collectors l' ≡ map (next p c) (collectors l))
  unfolding collect_all
  collect_all_lem l elapsed = ground (arith, (cycle-IsPass p c l.publisher l.entries).collected)

  resume_lem : (l : Scheduling p c t interval) → (resume l).paused ≡ false × IsIdle l (resume l)
  unfolding resume
  resume_lem l = ground arith

  skip_lem : (l : Scheduling p c t interval) → (skip l).paused ≡ true × IsIdle l (skip l)
  unfolding skip
  skip_lem l = ground arith

  observe-Does :
      {F : Type 0} (l : Scheduling p c t interval) (s : ConnectionState F) (elapsed : ℕ)
      → Does l (act_on s) (observe p c t interval l s elapsed)
  unfolding observe
  observe-Does l s elapsed = elim (Bool-cases (is_fatal_state s)) [
    | inl e ↦ rw e ((refl, refl, (refl, refl)))
    | inr e ↦ elim (Bool-cases (is_connected s)) [
      | inl e' ↦
          rw (e, e')
            ((
              refl,
              (collect_all_lem (resume l) elapsed).0 ∙ (resume_lem l).0,
              (collect_all_lem (resume l) elapsed).1 ∙ rw ((resume_lem l).1.0) refl,
            ))
      | inr e' ↦ rw (e, e') ((refl, (skip_lem l).0, (skip_lem l).1))
    ]
  ]

  step-Does :
      {F : Type 0} (l : Scheduling p c t interval) (w : Wake F)
      → Does l (act l.paused w) (step p c t interval l w)
  unfolding step act
  step-Does l (tick s elapsed) = observe-Does (record l { ticker = t.ticked l.ticker }) s elapsed
  step-Does l (changed s elapsed) = elim (Bool-cases l.paused) [
    | inl e ↦
        rw e (observe-Does (record l { ticker = t.restarted l.ticker; paused = true }) s elapsed)
    | inr e ↦ rw e ((refl, refl, (refl, refl)))
  ]
  step-Does l gone = elim (Bool-cases l.paused) [
    | inl e ↦ rw e ((refl, refl, (refl, refl)))
    | inr e ↦ rw e ((refl, refl, (refl, refl)))
  ]

  run-next :
      {F : Type 0} (l : Scheduling p c t interval) (w : Wake F) (ws : List (Wake F))
      → (step p c t interval l w).1 ≡ false
      → run p c t interval l (w ∷ ws) ≡ run p c t interval (step p c t interval l w).0 ws
  unfolding run
  run-next l w ws e = rw (run, e) refl

  run-over :
      {F : Type 0} (l : Scheduling p c t interval) (w : Wake F) (ws : List (Wake F))
      → (step p c t interval l w).1 ≡ true
      → run p c t interval l (w ∷ ws) ≡ ((step p c t interval l w).0, true)
  unfolding run
  run-over l w ws e = rw (run, e) refl

  abbrev pub Counts :
      {F : Type 0}
      → Scheduling p c t interval
      → List (Wake F)
      → Scheduling p c t interval × Bool
      → Type 0
  Counts l ws (l', over) =
      (over ≡ stops_in l.paused ws)
      × (collectors l' ≡ map (iterate (cycles_in l.paused ws) (next p c)) (collectors l))

  run-act_cons :
      {F : Type 0} (l : Scheduling p c t interval) (w : Wake F) (ws : List (Wake F)) (a : Act)
      → act l.paused w ≡ a
      → Counts (step p c t interval l w).0 ws (run p c t interval (step p c t interval l w).0 ws)
      → Counts l (w ∷ ws) (run p c t interval l (w ∷ ws))
  unfolding cycles_in stops_in
  run-act_cons {F = F} l w ws ignore e ih =
      let (d, f, (g, h)) = rw e at (step-Does {F = F} l w) in
      rw (run-next l w ws d, stops_in, cycles_in, e, e) (simp (f, g) at ih)
  run-act_cons {F = F} l w ws stop e ih =
      let (d, f, (g, h)) = rw e at (step-Does {F = F} l w) in
      rw (run-over l w ws d, stops_in, cycles_in, e) ((refl, rw g (sym (map-id (collectors l)))))
  run-act_cons {F = F} l w ws wait e ih =
      let (d, f, (g, h)) = rw e at (step-Does {F = F} l w) in
      rw (run-next l w ws d, stops_in, cycles_in, e, e) (simp (f, g) at ih)
  run-act_cons {F = F} l w ws sample e ih =
      let (d, f, g) = rw e at (step-Does {F = F} l w) in
      rw (run-next l w ws d, stops_in, cycles_in, e, e)
        ((
          ih.0 ∙ ap (λ b. stops_in b ws) f,
          ih.1
              ∙ (simp (f, g)
                  (map-map (iterate (cycles_in false ws) (next p c)) (next p c) (collectors l))),
        ))

  -- Over any sequence of wakes the loop calls each collector once for each cycle that the wakes give, and
  -- it returns exactly when they end it.
  pub run-act :
      {F : Type 0} (l : Scheduling p c t interval) (ws : List (Wake F))
      → Counts l ws (run p c t interval l ws)
  unfolding run cycles_in stops_in
  run-act l [] = (refl, sym (map-id (collectors l)))
  run-act l (w ∷ ws) =
      run-act_cons l w ws (act l.paused w) refl (run-act (step p c t interval l w).0 ws)

  run-IsIdle_cons :
      {F : Type 0} (l : Scheduling p c t interval) (w : Wake F) (ws : List (Wake F)) (a : Act)
      → act l.paused w ≡ a
      → (let l' = (step p c t interval l w).0 in
          cycles_in l'.paused ws ≡ 0 → IsIdle l' (run p c t interval l' ws).0)
      → cycles_in l.paused (w ∷ ws) ≡ 0
      → IsIdle l (run p c t interval l (w ∷ ws)).0
  unfolding cycles_in
  run-IsIdle_cons {F = F} l w ws ignore e ih none =
      let (d, f, (g, h)) = rw e at (step-Does {F = F} l w) in
      let (i, j) = ih (ap (λ b. cycles_in b ws) f ∙ (rw (cycles_in, e, e) at none)) in
      rw (run-next l w ws d) ((i ∙ g, j ∙ h))
  run-IsIdle_cons {F = F} l w ws stop e ih none =
      let (d, f, (g, h)) = rw e at (step-Does {F = F} l w) in rw (run-over l w ws d) ((g, h))
  run-IsIdle_cons {F = F} l w ws wait e ih none =
      let (d, f, (g, h)) = rw e at (step-Does {F = F} l w) in
      let (i, j) = ih (ap (λ b. cycles_in b ws) f ∙ (rw (cycles_in, e, e) at none)) in
      rw (run-next l w ws d) ((i ∙ g, j ∙ h))
  run-IsIdle_cons {F = F} l w ws sample e ih none = ground (arith, rw (cycles_in, e) at none)

  -- Wakes that give no cycle, such as all those before the broker is connected, leave the entries and what
  -- is published as they are.
  pub run-idle :
      {F : Type 0} (l : Scheduling p c t interval) (ws : List (Wake F))
      → cycles_in l.paused ws ≡ 0
      → ((run p c t interval l ws).0.entries ≡ l.entries)
        × ((run p c t interval l ws).0.publisher ≡ l.publisher)
  unfolding run
  run-idle l [] none = (refl, refl)
  run-idle l (w ∷ ws) none =
      run-IsIdle_cons l w ws (act l.paused w) refl (run-idle (step p c t interval l w).0 ws) none
