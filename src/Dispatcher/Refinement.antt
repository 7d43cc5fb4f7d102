-- ===== src/Dispatcher/Refinement.antt =====
-- dispatchNext of src/application/outbox-dispatcher.ts as one step of a queue of ids.
use herald_of_jams.Base.{◌⊎◌, ℕ_discrete}
use herald_of_jams.Base.{
  ℕ, ◌≡◌, ◌≢◌, refl, sym, subst, ap, ◌∙◌, Bool, false, not, ◌&&◌, Bool-cases, inl, inr, List, [],
  ◌∷◌, Option, none, some, Text,
}
use herald_of_jams.Store.{Database, OutboxRow}
use herald_of_jams.Outbox.{
  is_resolved, claim_next, update_operation, record_delivered, schedule_retry,
  schedule_ambiguous_reconciliation, require_review,
}
use herald_of_jams.Outbox.Claims.{claim_next-none, claim-cases}
use herald_of_jams.Outbox.Order.{Keeps, settle-outbox}
use herald_of_jams.Game.Ordering.{IsOrdered}
use herald_of_jams.Dispatcher.{
  Transport, Times, Answer, Answer-cases, resolved, rejected, Call, Dispatched, DispatchResult,
  idle, delivered, retry_scheduled, needs_review, waiting, settle_delivery, reconcile_nonce,
  dispatch_claimed, initialize, dispatch_next, after_claim, awaited, deliver, is_ambiguous,
  is_deletion, needs_reconciliation, out_of_window, lookup_call, review_error,
}
use herald_of_jams.Dispatcher.Queue.{queue, HasUniqueIds, IsFirst, queue-wait, queue-done}
use herald_of_jams.Dispatcher.Taking.{claim_next-Taken, initialize-Recovers}

-- A queue that is served from the front: what is answered says what becomes of it.
pub data Serve : List ℕ → DispatchResult → List ℕ → Type 0 where
  nothing_due : (ids : List ℕ) → Serve ids idle ids
  first_served : (id : ℕ) (ids : List ℕ) → Serve (id ∷ ids) (delivered id) ids
  first_put_off : (id at : ℕ) (ids : List ℕ) → Serve (id ∷ ids) (retry_scheduled id at) (id ∷ ids)
  first_stopped : (id : ℕ) (ids : List ℕ) → Serve (id ∷ ids) (needs_review id) (id ∷ ids)

abbrev Serves : ℕ → List OutboxRow → Dispatched → Type 0
Serves channel os d =
    Serve (queue channel os) d.result (queue channel d.database.outbox)
    × ((c : ℕ) → c ≢ channel → queue c d.database.outbox ≡ queue c os)

-- The queue of the channel is served, and any other queue stays as it is.
abbrev pub IsServed : ℕ → List OutboxRow → Dispatched → Type 0
IsServed channel os d =
    Serve (queue channel os) d.result (queue channel d.database.outbox)
    × ((c : ℕ) → (c ≡ channel) ⊎ (queue c d.database.outbox ≡ queue c os))

module _ (channel id : ℕ) (ids : List ℕ) (db : Database)
    (w : IsFirst channel id ids db.outbox) where
  waiting-Serves :
      (at : ℕ) (calls : List Call) (f : OutboxRow → OutboxRow)
      → Keeps f
      → ((o : OutboxRow) → is_resolved (f o).status ≡ false)
      → Serves channel db.outbox (waiting id calls (at, update_operation id f db))
  unfolding update_operation
  waiting-Serves at calls f k open_still = (
    rw (queue-wait channel id ids db.outbox w f k open_still channel, w.first)
        (first_put_off id at ids),
    λ c other. queue-wait channel id ids db.outbox w f k open_still c,
  )

  retry-Serves :
      (now attempts : ℕ) (error : Text) (calls : List Call)
      → Serves channel db.outbox (waiting id calls (schedule_retry now id attempts error db))
  unfolding schedule_retry
  retry-Serves now attempts error calls =
      waiting-Serves _ calls _
        (record {
          id = λ o. refl;
          channel = λ o. refl;
          number = λ o. refl;
          predecessor = λ o. refl;
        })
        (λ o. refl)

  ambiguous-Serves :
      (now delay : ℕ) (error : Text) (calls : List Call)
      → Serves channel db.outbox
          (waiting id calls (schedule_ambiguous_reconciliation now id error delay db))
  unfolding schedule_ambiguous_reconciliation
  ambiguous-Serves now delay error calls =
      waiting-Serves _ calls _
        (record {
          id = λ o. refl;
          channel = λ o. refl;
          number = λ o. refl;
          predecessor = λ o. refl;
        })
        (λ o. refl)

  delivered-Serves :
      (now : ℕ) (message : Option ℕ) (calls : List Call)
      → Serves channel db.outbox (record {
        result = delivered id;
        calls = calls;
        database = record_delivered now id message db;
      })
  unfolding record_delivered update_operation
  delivered-Serves now message calls =
      let (own, others) =
        queue-done channel id ids db.outbox w _
          (record {
            id = λ o. refl;
            channel = λ o. refl;
            number = λ o. refl;
            predecessor = λ o. refl;
          })
          (λ o. refl) in
      let left = settle-outbox now id in
      (
        rw (left, own, w.first) (first_served id ids),
        λ c other. ap (queue c) (left _) ∙ others c other,
      )

  review-Serves :
      (error : Text) (calls : List Call)
      → Serves channel db.outbox (record {
        result = needs_review id;
        calls = calls;
        database = require_review id error db;
      })
  unfolding require_review update_operation
  review-Serves error calls =
      let same =
        queue-wait channel id ids db.outbox w _
          (record {
            id = λ o. refl;
            channel = λ o. refl;
            number = λ o. refl;
            predecessor = λ o. refl;
          })
          (λ o. refl) in
      (rw (same channel, w.first) (first_stopped id ids), λ c other. same c)

module _ (channel : ℕ) (operation : OutboxRow) (ids : List ℕ) (db : Database)
    (w : IsFirst channel operation.id ids db.outbox) where
  settle_delivery-Serves :
      (now : ℕ) (answer : Answer (Option ℕ)) (calls : List Call)
      → Serves channel db.outbox (settle_delivery now operation (answer, calls) db)
  unfolding settle_delivery
  settle_delivery-Serves now (resolved message) calls =
      delivered-Serves channel operation.id ids db w now message calls
  settle_delivery-Serves now (rejected error) calls = elim (Bool-cases (is_ambiguous error)) [
    | inl unsure ↦ rw unsure (ambiguous-Serves channel operation.id ids db w now 0 _ calls)
    | inr sure ↦
        rw sure (retry-Serves channel operation.id ids db w now operation.attempt_count _ calls)
  ]

  reconcile_nonce-Serves :
      (transport : Transport) (times : Times)
      → Serves channel db.outbox (reconcile_nonce transport times operation db)
  unfolding reconcile_nonce
  reconcile_nonce-Serves transport times =
      elim (Answer-cases (
        transport.find_own_message_by_nonce operation.channel_id operation.nonce
          operation.created_at)) [
            | inl (error, failed) ↦
                rw (reconcile_nonce, failed)
                  (ambiguous-Serves channel operation.id ids db w times.settled 1000 _
                    (lookup_call operation ∷ []))
            | inr (some message, found) ↦
                rw (reconcile_nonce, found)
                  (delivered-Serves channel operation.id ids db w times.settled (some message)
                    (lookup_call operation ∷ []))
            | inr (none, missing) ↦ elim (Bool-cases (out_of_window times.checked operation)) [
              | inl late ↦
                  rw (reconcile_nonce, missing, late)
                    (review-Serves channel operation.id ids db w review_error
                      (lookup_call operation ∷ []))
              | inr early ↦
                  let sent = deliver transport operation in
                  rw (reconcile_nonce, missing, early)
                    (settle_delivery-Serves times.settled sent.0 sent.1)
            ]
          ]

  dispatch_claimed-Serves :
      (transport : Transport) (times : Times)
      → Serves channel db.outbox (dispatch_claimed transport times operation db)
  unfolding dispatch_claimed
  dispatch_claimed-Serves transport times =
      let sent = deliver transport operation in
      elim (Bool-cases
        (needs_reconciliation operation.last_error && not (is_deletion operation.operation_type))) [
          | inl unsure ↦ rw unsure (reconcile_nonce-Serves transport times)
          | inr sure ↦ rw sure (settle_delivery-Serves times.settled sent.0 sent.1)
        ]

-- The claim that dispatchNext makes, with the database that it leaves.
abbrev pub claim_of : Times → Bool → ℕ → Database → Option OutboxRow × Database
claim_of times initialized channel db =
    claim_next times.claimed channel (initialize initialized times.recovered db)

-- The first operation of a channel stays its first, whatever comes behind it.
abbrev pub KeepsFirst : ℕ → List OutboxRow → List OutboxRow → Type 0
KeepsFirst channel os os' =
    (id : ℕ) (ids : List ℕ)
    → IsFirst channel id ids os
    → (behind : List ℕ) × IsFirst channel id behind os'

dispatch_next-Serves :
    (transport : Transport) (times : Times) (meanwhile : Database → Database) (initialized : Bool)
    (channel : ℕ) (db : Database)
    → HasUniqueIds db.outbox
    → IsOrdered db.outbox
    → KeepsFirst channel
        (claim_of times initialized channel db).1.outbox
        (awaited meanwhile (claim_of times initialized channel db)).outbox
    → ((c : ℕ) → queue c (claim_of times initialized channel db).1.outbox ≡ queue c db.outbox)
      × Serves channel
          (awaited meanwhile (claim_of times initialized channel db)).outbox
          (dispatch_next transport times meanwhile initialized channel db)
unfolding dispatch_next
dispatch_next-Serves transport times meanwhile initialized channel db u h k =
    let started = initialize initialized times.recovered db in
    let r = initialize-Recovers initialized times.recovered db u h in
    elim (claim-cases times.claimed channel started) [
      | inl (db', e) ↦
          let same : started ≡ db' = claim_next-none times.claimed channel started db' e in
          subst Served (sym e)
            (λ keeps. (
              λ c. ap (λ (d : Database). queue c d.outbox) (sym same) ∙ r.same c,
              (nothing_due _, λ c other. refl),
            ))
            k
      | inr (row, db', e) ↦
          let t = claim_next-Taken times.claimed channel started row db' r.unique r.ordered e in
          subst Served (sym e)
            (λ keeps.
              let (behind, first) = keeps row.id t.rest t.now_first in
              (
                λ c. t.same c ∙ r.same c,
                dispatch_claimed-Serves channel row behind (meanwhile db') first transport times,
              ))
            k
    ]
  where
    Served : Option OutboxRow × Database → Type 0
    Served claim =
        KeepsFirst channel claim.1.outbox (awaited meanwhile claim).outbox
        → ((c : ℕ) → queue c claim.1.outbox ≡ queue c db.outbox)
          × Serves channel (awaited meanwhile claim).outbox
              (after_claim transport times claim.0 (awaited meanwhile claim))

Serves-IsServed :
    (channel : ℕ) (os : List OutboxRow) (d : Dispatched)
    → Serves channel os d
    → IsServed channel os d
Serves-IsServed channel os d (own, others) = (
  own,
  λ c. elim (ℕ_discrete c channel) [ yes same ↦ inl same | no differs ↦ inr (others c differs) ],
)

-- Where ids are unique and every channel is ordered, and while the dispatcher waits for the
-- transport the operation that it has claimed stays the first of its channel, one call of
-- dispatchNext is a step of a queue of ids per channel, served from the front: the claim changes no
-- queue; then an answer idle leaves the queue of the channel, delivered names its first operation
-- and takes it off, a scheduled retry and a review name the first operation and leave it there; the
-- queue of any other channel stays as it is.
pub dispatch_next-IsServed :
    (transport : Transport) (times : Times) (meanwhile : Database → Database) (initialized : Bool)
    (channel : ℕ) (db : Database)
    → HasUniqueIds db.outbox
    → IsOrdered db.outbox
    → KeepsFirst channel
        (claim_of times initialized channel db).1.outbox
        (awaited meanwhile (claim_of times initialized channel db)).outbox
    → ((c : ℕ) → queue c (claim_of times initialized channel db).1.outbox ≡ queue c db.outbox)
      × IsServed channel
          (awaited meanwhile (claim_of times initialized channel db)).outbox
          (dispatch_next transport times meanwhile initialized channel db)
dispatch_next-IsServed transport times meanwhile initialized channel db u h k =
    let (same, served) =
      dispatch_next-Serves transport times meanwhile initialized channel db u h k in
    (
      same,
      Serves-IsServed channel (awaited meanwhile (claim_of times initialized channel db)).outbox
          (dispatch_next transport times meanwhile initialized channel db) served,
    )
