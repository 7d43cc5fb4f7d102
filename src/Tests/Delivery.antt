-- ===== src/Tests/Delivery.antt =====
-- The theorems on src/application/outbox-dispatcher.ts, src/application/outbox-pump.ts and
-- src/application/reconciliation-service.ts, applied.
use herald_of_jams.Base.{
  ok, ℕ, ◌+◌, ◌++◌, ◌≡◌, refl, ap, true, false, Bool-cases, inl, inr, [], ◌∷◌, none, some, codes,
  All, arith, ◌==◌,
}
use herald_of_jams.Store.{Database, OutboxRow, broken_unexpected, delivering, in_channel}
use herald_of_jams.Game.Ordering.{Chained}
use herald_of_jams.Outbox.{claim_next, claimed, update_operation, lowest, recover_stale_deliveries}
use herald_of_jams.Dispatcher.{
  Transport, Times, resolved, rejected, ambiguous_error, settle_delivery, dispatch_next, delivered,
  awaited,
}
use herald_of_jams.Dispatcher.Refinement.{IsServed, KeepsFirst, claim_of, dispatch_next-IsServed}
use herald_of_jams.Dispatcher.Queue.{queue}
use herald_of_jams.Dispatcher.Delivery.{IsUnsure, rows_with, claim_next-IsUnsure}
use herald_of_jams.Pump.{
  Pump, stopped_pump, dispatching, ended, woken, dispatched, dispatch_failed, run,
}
use herald_of_jams.Pump.Serving.{run-serves}
use herald_of_jams.Reconciliation.{History, Progress, examine_all, reconcile, first_progress}
use herald_of_jams.Reconciliation.Catching.{IsDone, reconcile-IsDone}
use herald_of_jams.Reconciliation.Effects.{IsBroken, examine_all-IsBroken}
use herald_of_jams.Tests.Fixtures.{
  small_env, empty_database, active_row, small_message, first_operation, queued_database,
}

abbrev answering : Transport
answering = record {
  find_own_message_by_nonce = λ channel nonce after. resolved none;
  delete_message = λ channel message. resolved tt;
  send_message = λ message. resolved 700;
}

abbrev times : Times
times = record { recovered = 1500; claimed = 2000; checked = 2001; settled = 2500 }

queued-IsOrdered : (channel : ℕ) → Chained 0 none (in_channel channel queued_database.outbox)
queued-IsOrdered channel = elim (Bool-cases (7 == channel)) [
  | inl same ↦ rw same (refl, refl, tt)
  | inr other ↦ rw other tt
]

-- The game puts an operation behind the ones of the channel while the dispatcher waits.
abbrev meanwhile : Database → Database
meanwhile db = record db {
  outbox =
      db.outbox
      ++ record first_operation { id = 301; sequence_number = 2; predecessor_id = some 300 } ∷ [];
}

meanwhile-KeepsFirst :
    KeepsFirst 7
      (claim_of times false 7 queued_database).1.outbox
      (awaited meanwhile (claim_of times false 7 queued_database)).outbox
unfolding claim_next lowest queue recover_stale_deliveries update_operation
meanwhile-KeepsFirst id ids w = (
  ids ++ 301 ∷ [],
  record {
    unique = (refl, (refl, tt));
    first = ap (λ xs. xs ++ 301 ∷ []) w.first;
    here = (w.here.0, (λ e. (refl, refl), tt));
  },
)

dispatch_next_example :
    ((c : ℕ)
      → queue c (claim_of times false 7 queued_database).1.outbox ≡ queue c queued_database.outbox)
    × IsServed 7
        (awaited meanwhile (claim_of times false 7 queued_database)).outbox
        (dispatch_next answering times meanwhile false 7 queued_database)
dispatch_next_example =
    dispatch_next-IsServed answering times meanwhile false 7 queued_database (refl, tt)
      queued-IsOrdered meanwhile-KeepsFirst

abbrev unsure_operation : OutboxRow
unsure_operation = record first_operation {
  status = delivering;
  attempt_count = 2;
  last_error = some (codes "ambiguous: timeout");
}

abbrev claimed_operation : OutboxRow
claimed_operation = record first_operation { status = delivering; attempt_count = 1 }

abbrev claimed_database : Database
claimed_database = update_operation 300 claimed queued_database

claim_next_example :
    (All IsUnsure (
      rows_with 300
        (settle_delivery 2500 claimed_operation
          (rejected (ambiguous_error (codes "reset")), [])
          claimed_database).database.outbox))
    × (All IsUnsure (rows_with 300 (recover_stale_deliveries 2500 claimed_database).outbox))
unfolding claim_next lowest
claim_next_example =
    claim_next-IsUnsure 2000 2500 7 queued_database claimed_database claimed_operation
      (codes "reset") [] refl

abbrev busy_pump : Pump
busy_pump = record stopped_pump { running = true; draining = dispatching 7; queued = 8 ∷ 9 ∷ [] }

run-serves_example :
    (run
      (ended 10 (dispatched (delivered 300)) ∷ woken 5 ∷ ended 20 dispatch_failed ∷ woken 7 ∷ [])
      busy_pump).draining
    ≡ dispatching 9
run-serves_example =
    run-serves
      (ended 10 (dispatched (delivered 300)) ∷ woken 5 ∷ ended 20 dispatch_failed ∷ woken 7 ∷ []) 9
      7 (8 ∷ []) [] busy_pump refl refl refl refl refl

abbrev small_history : History
small_history = record {
  latest = λ n. ok (some 900);
  listed = λ n checkpoint. ok (small_message ∷ []);
  during_latest = λ n db. db;
  during_listing = λ n db. meanwhile db;
}

abbrev active_database : Database
active_database = record empty_database { rounds = active_row ∷ [] }

reconcile-IsDone_example :
    IsDone 7 (reconcile small_env (λ n. n + 3000) small_history 7 1 active_database [])
reconcile-IsDone_example =
    reconcile-IsDone small_env (λ n. n + 3000) small_history 7 0 1 active_database [] refl
      (omega arith)

-- An attempt of the round was broken by message 899, before the one that is examined.
abbrev broken_database : Database
broken_database = record active_database {
  submissions =
      record {
        message_id = 899;
        round_id = 101;
        attempt_id = none;
        author_id = 42;
        original_digits = codes "3";
        normalized_value = some 3;
        decision = broken_unexpected;
        received_at = 1998;
      }
      ∷ [];
}

abbrev broken_progress : Progress
broken_progress = record (first_progress 7 broken_database []) { breaking = some 899 }

examine_all_example :
    IsBroken 899 broken_database
      (examine_all small_env (λ n. n + 3000) 7 (small_message ∷ []) broken_progress).0
examine_all_example =
    examine_all-IsBroken small_env (λ n. n + 3000) 7 899 (small_message ∷ []) broken_progress refl
