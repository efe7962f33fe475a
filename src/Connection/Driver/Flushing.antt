-- ===== src/Connection/Driver/Flushing.antt =====
-- The wait for the DISCONNECT in `Driver::disconnect` of crates/mqtt/v3/src/connection.rs.
use blazebee.Base.{◌≡◌, refl, ap, ◌∙◌, List, [], ◌∷◌, ◌++◌, ok, All}
use blazebee.Floats.{Floats}
use blazebee.Publisher.{Client}
use blazebee.Connection.Driver.{
  Driver, Phase, polling, sleeping, flushing, done, Input, shutdown, slept, polled, deadline,
  conn_ack, disconnect_sent, other_event, failed, on_flush, finish, step, run,
}

-- The task still runs.
abbrev pub IsRunning : Phase → Type 0
IsRunning polling = Unit {0}
IsRunning (sleeping delay) = Unit {0}
IsRunning flushing = Unit {0}
IsRunning _ = ⊥

-- What the task passes over while it flushes.
abbrev pub IsPassed : Input → Type 0
IsPassed (polled disconnect_sent) = ⊥
IsPassed (polled (failed e)) = ⊥
IsPassed deadline = ⊥
IsPassed _ = Unit {0}

-- The DISCONNECT is written, the connection is lost, or the grace period is over.
abbrev pub IsLast : Input → Type 0
IsLast (polled disconnect_sent) = Unit {0}
IsLast (polled (failed e)) = Unit {0}
IsLast deadline = Unit {0}
IsLast _ = ⊥

module _ (fl : Floats) (client : Client) where
  pub done_absorbs :
      (d : Driver fl client) (r : _) (is : List Input) → run fl client (d, done r) is ≡ (d, done r)
  unfolding run step
  done_absorbs d r [] = refl
  done_absorbs d r (shutdown ∷ is) = done_absorbs d r is
  done_absorbs d r (_ ∷ is) = done_absorbs d r is

  step_passed :
      (d : Driver fl client) (i : Input)
      → IsPassed i
      → step fl client (d, flushing) i ≡ (d, flushing)
  unfolding step on_flush
  step_passed d shutdown h = refl
  step_passed d slept h = refl
  step_passed d (polled (conn_ack code)) h = refl
  step_passed d (polled other_event) h = refl
  step_passed d (polled disconnect_sent) h = absurd h
  step_passed d (polled (failed e)) h = absurd h
  step_passed d deadline h = absurd h

  step_last :
      (d : Driver fl client) (i : Input)
      → IsLast i
      → step fl client (d, flushing) i ≡ finish fl client d
  unfolding step on_flush
  step_last d shutdown h = absurd h
  step_last d slept h = absurd h
  step_last d (polled (conn_ack code)) h = absurd h
  step_last d (polled other_event) h = absurd h
  step_last d (polled disconnect_sent) h = refl
  step_last d (polled (failed e)) h = refl
  step_last d deadline h = refl

  pub run_flushing :
      (d : Driver fl client) (passed : List Input)
      → All IsPassed passed
      → run fl client (d, flushing) passed ≡ (d, flushing)
  unfolding run
  run_flushing d [] h = refl
  run_flushing d (i ∷ is) h =
      ap (λ (s : Driver fl client × Phase). run fl client s is) (step_passed d i h.0)
      ∙ run_flushing d is h.1

  pub flushed :
      (d : Driver fl client) (passed : List Input) (last : Input) (later : List Input)
      → All IsPassed passed
      → IsLast last
      → run fl client (d, flushing) (passed ++ (last ∷ later)) ≡ finish fl client d
  unfolding run finish
  flushed d [] last later h end =
      ap (λ (s : Driver fl client × Phase). run fl client s later) (step_last d last end)
      ∙ done_absorbs (finish fl client d).0 (ok tt) later
  flushed d (i ∷ is) last later h end =
      ap (λ (s : Driver fl client × Phase). run fl client s (is ++ (last ∷ later)))
        (step_passed d i h.0)
      ∙ flushed d is last later h.1 end
