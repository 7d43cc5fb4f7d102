-- ===== src/Outbox.antt =====
-- src/db/outbox-repository.ts: the queue of Discord operations, claimed in the order of a channel and
-- settled one by one. Times are numbers of milliseconds.
pub mod Claims
pub mod Progress
pub mod Order
pub mod Delays
use herald_of_jams.Base.{
  ℕ, zero, suc, ◌+◌, ◌-◌, ◌*◌, ◌^◌, min, max, Bool, true, false, not, ◌&&◌, ◌||◌, List, [], ◌∷◌,
  ◌++◌, Option, none, some, Text, codes, ltb, leb, ◌==◌, if◌then◌else◌, any, select, find?, is_some,
  is_empty, take, all, update_where, Result, ok, throw, or_throw, throw_if, ◌>>=◌, ◌>>◌, Error,
  not_retry_wait, not_awaiting_review, message_id_required, reason_required,
}
use herald_of_jams.Store.{
  Database, Environment, next_id, OutboxRow, OutboxStatus, pending, delivering, delivered,
  retry_wait, needs_review, abandoned, AuditEvent, outbox_retry_requested, outbox_marked_delivered,
  outbox_abandoned, payload_round, is_ended, in_channel, id_is, RoundRow,
}
use herald_of_jams.Game.Outgoing.{audit}

-- status IN ('delivered', 'abandoned')
abbrev pub is_resolved : OutboxStatus → Bool
is_resolved delivered = true
is_resolved abandoned = true
is_resolved _ = false

abbrev pub is_claimable : OutboxStatus → Bool
is_claimable pending = true
is_claimable retry_wait = true
is_claimable _ = false

abbrev pub is_delivering : OutboxStatus → Bool
is_delivering delivering = true
is_delivering _ = false

abbrev pub is_retry_wait : OutboxStatus → Bool
is_retry_wait retry_wait = true
is_retry_wait _ = false

abbrev pub is_needs_review : OutboxStatus → Bool
is_needs_review needs_review = true
is_needs_review _ = false

unfoldable pub get : Database → ℕ → Option OutboxRow
get db id = find? (λ o. o.id == id) db.outbox

-- UPDATE discord_outbox SET … WHERE id = ?
unfoldable pub update_operation : ℕ → (OutboxRow → OutboxRow) → Database → Database
update_operation id f db = record db { outbox = update_where (λ o. o.id == id) f db.outbox }

abbrev pub stale_error : Text
stale_error = codes "ambiguous: process stopped while delivery was in progress"

abbrev pub recovered_row : ℕ → OutboxRow → OutboxRow
recovered_row now o = record o {
  status = retry_wait;
  next_attempt_at = some now;
  last_error = some stale_error;
}

unfoldable pub recover_stale_deliveries : ℕ → Database → Database
recover_stale_deliveries now db = record db {
  outbox = update_where (λ o. is_delivering o.status) (recovered_row now) db.outbox;
}

-- ORDER BY sequence_number LIMIT 1
unfoldable pub lowest : List OutboxRow → Option OutboxRow
lowest [] = none
lowest (o ∷ os) = elim (lowest os) [
  | none ↦ some o
  | some p ↦ some (if ltb p.sequence_number o.sequence_number then p else o)
]

abbrev pub unresolved_in : ℕ → List OutboxRow → List OutboxRow
unresolved_in channel = select (λ o. o.channel_id == channel && not (is_resolved o.status))

-- row.next_attempt_at !== null && row.next_attempt_at > now
abbrev pub is_early : ℕ → Option ℕ → Bool
is_early now none = false
is_early now (some at) = ltb now at

abbrev pub predecessor_resolved : List OutboxRow → Option ℕ → Bool
predecessor_resolved os none = true
predecessor_resolved os (some id) = any (λ o. o.id == id && is_resolved o.status) os

abbrev pub may_claim : ℕ → Database → OutboxRow → Bool
may_claim now db row =
    is_claimable row.status
    && not (is_early now row.next_attempt_at)
    && predecessor_resolved db.outbox row.predecessor_id

-- What a claim writes to a row.
abbrev pub claimed : OutboxRow → OutboxRow
claimed o = record o {
  status = delivering;
  attempt_count = o.attempt_count + 1;
  next_attempt_at = none;
}

-- The operation of the result is the row as it was read, with the new status and attempt count.
unfoldable pub claim_next : ℕ → ℕ → Database → Option OutboxRow × Database
claim_next now channel db = elim (lowest (unresolved_in channel db.outbox)) [
  | none ↦ (none, db)
  | some row ↦
      if may_claim now db row
      then (
        some (record row { status = delivering; attempt_count = row.attempt_count + 1 }),
        update_operation row.id claimed db,
      )
      else (none, db)
]

-- The payload names a round, all of whose operations are resolved.
unfoldable pub settle_terminal_round_if_ready : ℕ → ℕ → Database → Database
settle_terminal_round_if_ready now operation db = elim (get db operation) [
  | none ↦ db
  | some row ↦ elim (payload_round row.payload) [
    | none ↦ db
    | some round ↦
        if any (λ o. id_is (payload_round o.payload) round && not (is_resolved o.status)) db.outbox
        then db
        else record db {
          rounds =
              update_where (λ r. r.id == round && is_ended r.state)
                (λ r. record r { operationally_settled_at = some now }) db.rounds;
        }
  ]
]

-- COALESCE(?, discord_message_id)
abbrev pub coalesce : Option ℕ → Option ℕ → Option ℕ
coalesce none old = old
coalesce (some new) old = some new

unfoldable pub record_delivered : ℕ → ℕ → Option ℕ → Database → Database
record_delivered now id message db = settle_terminal_round_if_ready now id (
    update_operation id
      (λ o. record o {
        status = delivered;
        discord_message_id = coalesce message o.discord_message_id;
        resolved_at = some now;
        next_attempt_at = none;
        last_error = none;
      })
      db)

-- Math.min(300_000, 1_000 * 2 ** Math.max(0, attemptCount - 1))
unfoldable pub retry_delay : ℕ → ℕ
retry_delay attempt_count = min 300000 (1000 * 2 ^ (attempt_count - 1))

abbrev pub wait_until : ℕ → Text → OutboxRow → OutboxRow
wait_until at error o = record o {
  status = retry_wait;
  next_attempt_at = some at;
  last_error = some error;
}

unfoldable pub schedule_retry : ℕ → ℕ → ℕ → Text → Database → ℕ × Database
schedule_retry now id attempt_count error db =
    let at = now + retry_delay attempt_count in
    (at, update_operation id (wait_until at (take 500 error)) db)

unfoldable pub schedule_ambiguous_reconciliation : ℕ → ℕ → Text → ℕ → Database → ℕ × Database
schedule_ambiguous_reconciliation now id error delay db =
    let at = now + delay in
    (at, update_operation id (wait_until at (codes "ambiguous: " ++ take 480 error)) db)

unfoldable pub require_review : ℕ → Text → Database → Database
require_review id error db =
    update_operation id
      (λ o. record o {
        status = needs_review;
        next_attempt_at = none;
        last_error = some (take 500 error);
      })
      db

unfoldable pub retry : Environment → ℕ → ℕ → ℕ → Database → Result Database
retry env now id actor db = do
  operation ← or_throw (get db id) not_retry_wait
  throw_if (not (is_retry_wait operation.status)) not_retry_wait
  ok (
      audit env now (outbox_retry_requested id) (payload_round operation.payload) (some actor)
        (update_operation id (λ o. record o { status = pending; next_attempt_at = none }) db))

unfoldable pub require_review_operation : ℕ → Database → Result OutboxRow
require_review_operation id db = do
  operation ← or_throw (get db id) not_awaiting_review
  throw_if (not (is_needs_review operation.status)) not_awaiting_review
  ok operation

-- The message id of the form is empty where it is `none`.
unfoldable pub mark_delivered : Environment → ℕ → ℕ → Option ℕ → ℕ → Database → Result Database
mark_delivered env now id message actor db = do
  operation ← require_review_operation id db
  message ← or_throw message message_id_required
  let marked =
      update_operation id
        (λ o. record o {
          status = delivered;
          discord_message_id = some message;
          resolved_at = some now;
          last_error = none;
        })
        db
  ok (
      settle_terminal_round_if_ready now id (
        audit env now (outbox_marked_delivered id) (payload_round operation.payload) (some actor)
          marked))

-- The code units that String.prototype.trim removes.
unfoldable pub is_blank : ℕ → Bool
is_blank c =
    leb 9 c && leb c 13
    || c == 32
    || c == 160
    || c == 5760
    || leb 8192 c && leb c 8202
    || c == 8232
    || c == 8233
    || c == 8239
    || c == 8287
    || c == 12288
    || c == 65279

unfoldable pub abandon : Environment → ℕ → ℕ → Text → ℕ → Database → Result Database
abandon env now id reason actor db = do
  operation ← require_review_operation id db
  throw_if (all is_blank reason) reason_required
  let given_up =
      update_operation id
        (λ o. record o {
          status = abandoned;
          resolved_at = some now;
          last_error = some (take 500 reason);
        })
        db
  ok (
      settle_terminal_round_if_ready now id (
        audit env now (outbox_abandoned id) (payload_round operation.payload) (some actor)
          given_up))
