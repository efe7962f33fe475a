-- ===== src/Connection/Driver/Closing.antt =====
-- How the driver task ends, and the status messages it queues (crates/mqtt/v3/src/connection.rs).
use blazebee.Base.{
  ◌≡◌, ◌⊎◌, inl, inr, refl, sym, ap, subst, ◌∙◌, true, List, [], ◌∷◌, ◌++◌, append-nil, Result, ok,
  err, Result-cases, Bool-cases, All,
}
use blazebee.Base.Text.{Text, codes}
use blazebee.Error.{ClientError, success}
use blazebee.Floats.{Floats}
use blazebee.Backoff.{reset}
use blazebee.Publisher.{Client, Behaves, Request, at_least_once}
use blazebee.Connection.{connected, disconnected, is_connected, status_online, status_offline}
use blazebee.Connection.Driver.{
  Driver, Phase, polling, sleeping, flushing, done, panicked, Input, shutdown, polled, conn_ack,
  set_state, on_conn_ack, on_poll, finish, begin_disconnect, step, run, publish_status,
  status_request, queue_disconnect,
}
use blazebee.Connection.Driver.States.{set_state-state, set_state-keeps}
use blazebee.Connection.Driver.Flushing.{
  IsRunning, done_absorbs, IsPassed, IsLast, run_flushing, flushed,
}

module _ (fl : Floats) (client : Client) where
  finish-state :
      (d : Driver fl client) → (finish fl client d).0.state ≡ disconnected (codes "shutdown")
  unfolding finish
  finish-state d = set_state-state fl client d (disconnected (codes "shutdown")) tt

  finish-done : (d : Driver fl client) → (finish fl client d).1 ≡ done (ok tt)
  unfolding finish
  finish-done d = refl

  -- By the phase in which the shutdown comes: a sleeping task leaves everything as it is.
  abbrev pub Ended : Phase → Driver fl client → Driver fl client × Phase → Type 0
  Ended (sleeping delay) d (d', phase) = (phase ≡ done (ok tt)) × (d' ≡ d)
  Ended _ d (d', phase) = (phase ≡ done (ok tt)) × (d'.state ≡ disconnected (codes "shutdown"))

  pub run_shutdown :
      (d : Driver fl client) (is : List Input)
      → is_connected d.state ≡ true
      → run fl client (d, polling) (shutdown ∷ is)
        ≡ run fl client
            (queue_disconnect fl client (publish_status fl client d status_offline), flushing)
            is
  unfolding run step begin_disconnect
  run_shutdown d is on = rw (run, step, begin_disconnect, on) refl

  polling-Ended :
      (d : Driver fl client) (passed : List Input) (last : Input) (later : List Input)
      → All IsPassed passed
      → IsLast last
      → Ended polling d (run fl client (d, polling) (shutdown ∷ passed ++ (last ∷ later)))
  unfolding run step begin_disconnect finish
  polling-Ended d passed last later h end = elim (Bool-cases (is_connected d.state)) [
    | inl on ↦
        let d₁ = queue_disconnect fl client (publish_status fl client d status_offline) in
        subst (Ended polling d)
          (sym (
            run_shutdown d (passed ++ (last ∷ later)) on
            ∙ flushed fl client d₁ passed last later h end))
          ((finish-done d₁, finish-state d₁))
    | inr off ↦
        let ends : run fl client (d, polling) (shutdown ∷ passed ++ (last ∷ later))
            ≡ finish fl client d =
          rw (run, step, begin_disconnect, off)
            (done_absorbs fl client (finish fl client d).0 (ok tt) (passed ++ (last ∷ later))) in
        subst (Ended polling d) (sym ends) ((finish-done d, finish-state d))
  ]

  -- A shutdown ends a running task with success: a sleeping task at once, as it is; and any other as disconnected, at
  -- the latest when the DISCONNECT is written, the connection fails or the grace period is over, whatever other
  -- events come before. Nothing that happens later matters.
  pub shutdown_ends :
      (d : Driver fl client) (phase : Phase) (passed : List Input) (last : Input)
      (later : List Input)
      → IsRunning phase
      → All IsPassed passed
      → IsLast last
      → Ended phase d (run fl client (d, phase) (shutdown ∷ passed ++ (last ∷ later)))
  unfolding run step
  shutdown_ends d polling passed last later r h end = polling-Ended d passed last later h end
  shutdown_ends d (sleeping delay) passed last later r h end =
      subst (Ended (sleeping delay) d)
        (sym (done_absorbs fl client d (ok tt) (passed ++ (last ∷ later)))) ((refl, refl))
  shutdown_ends d flushing passed last later r h end =
      subst (Ended flushing d) (sym (flushed fl client d passed last later h end))
        ((finish-done d, finish-state d))
  shutdown_ends d (done x) passed last later r h end = absurd r
  shutdown_ends d panicked passed last later r h end = absurd r

module _ (fl : Floats) (client : Client) (law : Behaves client) where
  -- A request was taken at the end of the queue, or refused.
  abbrev pub Offered : client.Queue → client.Queue → Request → Type 0
  Offered q q' r = (client.sent q' ≡ client.sent q ++ (r ∷ [])) ⊎ (client.sent q' ≡ client.sent q)

  publish_status-Offered :
      (d : Driver fl client) (status : Text)
      → Offered d.queue
          (publish_status fl client d status).queue
          (status_request fl client d status)
  unfolding publish_status
  publish_status-Offered d status =
      elim (Result-cases (client.try_publish d.queue (status_request fl client d status)).1) [
        | inl (unit, e) ↦ inl (law.takes _ _ e)
        | inr (x, e) ↦ inr (law.refuses _ _ x e)
      ]

  -- While the task polls, every accepted connection is announced, starts the backoff over, and offers a retained
  -- `online` status.
  pub connected_online :
      (d : Driver fl client)
      → let d' = (step fl client (d, polling) (polled (conn_ack success))).0 in
        (d'.state ≡ connected)
        × (d'.backoff ≡ reset fl d.backoff)
        × Offered d.queue d'.queue (status_request fl client d status_online)
  unfolding step on_poll on_conn_ack
  connected_online d =
      let opened = record d { backoff = reset fl d.backoff } in
      let announced = set_state fl client opened connected in
      let (queue_kept, backoff_kept, topic_kept) = set_state-keeps fl client opened connected in
      let offered = publish_status-Offered announced status_online in
      (
        unfold publish_status in set_state-state fl client opened connected tt,
        unfold publish_status in backoff_kept,
        simp (queue_kept, topic_kept) at offered,
      )

  -- What the client takes of a request, by its answer.
  abbrev pub taken : Result ClientError (Unit {0}) → Request → List Request
  taken (ok u) r = r ∷ []
  taken (err e) r = []

  try_publish-taken :
      (q : client.Queue) (r : Request)
      → client.sent (client.try_publish q r).0 ≡ client.sent q ++ taken (client.try_publish q r).1 r
  try_publish-taken q r = elim (Result-cases (client.try_publish q r).1) [
    | inl (u, e) ↦ rw e (law.takes q r e)
    | inr (x, e) ↦ rw e (law.refuses q r x e ∙ sym (append-nil (client.sent q)))
  ]

  -- A connected task that is shut down goes on polling until the DISCONNECT is written, the connection fails or the
  -- grace period is over. When it has ended, its queue is that of the client after it was offered the retained
  -- message `offline` on the status topic and then the DISCONNECT; if the client took the message, it is the last
  -- that it was given, and otherwise there is nothing new.
  pub shutdown_offline :
      (d : Driver fl client) (passed : List Input) (last : Input) (later : List Input)
      → d.state ≡ connected
      → All IsPassed passed
      → IsLast last
      → let offline : Request = record {
        topic = d.status_topic;
        qos = at_least_once;
        retain = true;
        payload = codes "offline";
      } in
        let offered = client.try_publish d.queue offline in
        let ended = (run fl client (d, polling) (shutdown ∷ passed ++ (last ∷ later))).0 in
        ((run fl client (d, polling) (shutdown ∷ passed)).1 ≡ flushing)
        × (ended.queue ≡ (client.try_disconnect offered.0).0)
        × (client.sent ended.queue ≡ client.sent d.queue ++ taken offered.1 offline)
  unfolding is_connected finish publish_status
  shutdown_offline d passed last later e h end =
      let on : is_connected d.state ≡ true = rw e in
      let d₁ = queue_disconnect fl client (publish_status fl client d status_offline) in
      let waits = run_shutdown fl client d passed on ∙ run_flushing fl client d₁ passed h in
      let ends =
        run_shutdown fl client d (passed ++ (last ∷ later)) on
        ∙ flushed fl client d₁ passed last later h end in
      let queue =
        ap (λ (s : Driver fl client × Phase). s.0.queue) ends
        ∙ (set_state-keeps fl client d₁ (disconnected (codes "shutdown"))).0 in
      (
        ap (λ (s : Driver fl client × Phase). s.1) waits,
        queue,
        ap client.sent queue
            ∙ law.disconnects _
            ∙ try_publish-taken d.queue (status_request fl client d status_offline),
      )
