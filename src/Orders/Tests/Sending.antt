-- ===== src/Orders/Tests/Sending.antt =====
-- The outbox worker at concrete inputs.
use mini_marketplace.Base.{
  refl, false, arith, All, In, ℕ, ◌≤◌, ◌≡◌, ◌⊎◌, true, false, List, [], ◌∷◌, map, ok, err, take,
  length,
}
use mini_marketplace.Base.Kafka.{Message}
use mini_marketplace.Orders.Domain.{driver}
use mini_marketplace.Orders.Store.{OutboxRow, sent, commit}
use mini_marketplace.Orders.Worker.{Tick, process_batch, run_worker}
use mini_marketplace.Orders.Worker.Tables.{tables_after, asked}
use mini_marketplace.Orders.Worker.Atomic.{IsRead, process_batch_atomic}
use mini_marketplace.Orders.Worker.Drain.{IsCalm}
use mini_marketplace.Orders.Worker.Rounds.{room, run_worker_drains}
use mini_marketplace.Orders.Worker.Sent.{IsSound, row_message, run_worker-IsSound}
use mini_marketplace.Orders.Tests.Data.{quiet, new_db}

abbrev tick : Tick
tick = record {
  host = quiet;
  batch_size = 10;
  locked = λ r. false;
  publish_fails = λ r. false;
  stored = λ r. false;
}

-- A tick whose commit fails.
abbrev broken_tick : Tick
broken_tick = record tick {
  host = record quiet { fails = λ c. elim c [ commit ↦ true | _ ↦ false ] };
}

process_batch_atomic_example :
    let out = process_batch tick new_db [] in
    ((rows : List OutboxRow) × IsRead tick new_db rows
      × ((out ≡ (ok tt, tables_after quiet rows new_db, map asked rows))
          ⊎ ((k : ℕ) × (k ≤ length rows) × (out ≡ (err driver, new_db, map asked (take k rows))))))
    × (IsCalm tick → out.0 ≡ ok tt)
process_batch_atomic_example = process_batch_atomic tick new_db []

new_db-IsSound : IsSound new_db []
new_db-IsSound = record { keys = (tt, tt); published = (λ e. absurd (cc), tt) }

-- The first tick publishes and cannot commit, the second one publishes again.
run_worker-IsSound_example :
    let (db', log') = run_worker (broken_tick ∷ tick ∷ []) new_db [] in
    IsSound db' log' × ((more : List Message) × (log' ≡ more))
run_worker-IsSound_example = run_worker-IsSound (broken_tick ∷ tick ∷ []) new_db [] new_db-IsSound

abbrev tick_of_one : Tick
tick_of_one = record tick { batch_size = 1 }

-- One row is pending, and there is room for two.
run_worker_drains_example :
    let (db', log') = run_worker (tick_of_one ∷ tick_of_one ∷ []) new_db [] in
    All (λ (r : OutboxRow). (r.status ≡ sent) × In (row_message r) log') db'.outbox
unfolding room
run_worker_drains_example =
    let calm : IsCalm tick_of_one = record {
      works = λ c. refl;
      delivers = λ rec. refl;
      unlocked = λ r. refl;
      whole = refl;
    } in
    run_worker_drains (tick_of_one ∷ tick_of_one ∷ []) new_db [] (calm, (calm, tt)) new_db-IsSound
      (omega arith)
