-- ===== src/Dispatcher.antt =====
-- src/application/outbox-dispatcher.ts: one claimed operation of a channel is given to the transport,
-- and what became of it is recorded. The transport is a parameter; the calls of it are listed.
pub mod Queue
pub mod Refinement
pub mod Taking
pub mod Delivery
use herald_of_jams.Base.{◌≡◌, ◌⊎◌, inl, inr, refl}
use herald_of_jams.Base.{
  ℕ, ◌+◌, Bool, true, false, not, ◌&&◌, List, [], ◌∷◌, ◌++◌, Option, none, some, Text, codes, leb,
  if◌then◌else◌, is_empty, starts_with,
}
use herald_of_jams.Store.{
  Database, OutboxRow, OperationType, delete_original, canonical_message, payload_content,
  payload_message,
}
use herald_of_jams.Outbox.{
  recover_stale_deliveries, claim_next, record_delivered, schedule_retry,
  schedule_ambiguous_reconciliation, require_review,
}

-- What a rejected promise of the transport carries; `not_an_error` is no instance of Error.
pub data DiscordError : Type 0 where
  definite_error ambiguous_error other_error : (message : Text) → DiscordError
  not_an_error : DiscordError

pub data Answer {ℓ} (A : Type ℓ) : Type ℓ where
  resolved : (value : A) → Answer A
  rejected : (error : DiscordError) → Answer A

pub Answer-cases {ℓ} :
    {A : Type ℓ} (a : Answer A)
    → ((error : DiscordError) × (a ≡ rejected error)) ⊎ ((value : A) × (a ≡ resolved value))
Answer-cases (rejected error) = inl (error, refl)
Answer-cases (resolved value) = inr (value, refl)

pub record OutgoingMessage : Type 0 where
  pub channel_id : ℕ
  pub content : Text
  pub nonce : Text
  pub enforce_nonce : Bool
  pub suppress_notifications : Bool

-- The methods of DiscordTransport that the dispatcher calls, by what they answer.
pub record Transport : Type 0 where
  pub find_own_message_by_nonce : ℕ → Text → ℕ → Answer (Option ℕ)
  pub delete_message : ℕ → ℕ → Answer (Unit {0})
  pub send_message : OutgoingMessage → Answer ℕ

pub data Call : Type 0 where
  looked_up : (channel : ℕ) (nonce : Text) (created_after : ℕ) → Call
  message_deleted : (channel message : ℕ) → Call
  message_sent : (message : OutgoingMessage) → Call

pub data DispatchResult : Type 0 where
  idle : DispatchResult
  delivered : (operation : ℕ) → DispatchResult
  retry_scheduled : (operation next_attempt_at : ℕ) → DispatchResult
  needs_review : (operation : ℕ) → DispatchResult

-- The readings of the clock in one call, in their order.
pub record Times : Type 0 where
  pub recovered : ℕ
  pub claimed : ℕ
  pub checked : ℕ
  pub settled : ℕ

-- What a call leaves and answers.
pub record Dispatched : Type 0 where
  pub result : DispatchResult
  pub calls : List Call
  pub database : Database

abbrev pub nonce_uniqueness_window : ℕ
nonce_uniqueness_window = 300000

abbrev pub ambiguous_prefix : Text
ambiguous_prefix = codes "ambiguous:"

-- operation.lastError?.startsWith("ambiguous:") === true
abbrev pub needs_reconciliation : Option Text → Bool
needs_reconciliation none = false
needs_reconciliation (some error) = starts_with ambiguous_prefix error

abbrev pub is_deletion : OperationType → Bool
is_deletion delete_original = true
is_deletion _ = false

abbrev pub is_canonical : OperationType → Bool
is_canonical canonical_message = true
is_canonical _ = false

-- error instanceof Error ? error.message : …
abbrev pub description_or : Text → DiscordError → Text
description_or other (definite_error message) = message
description_or other (ambiguous_error message) = message
description_or other (other_error message) = message
description_or other not_an_error = other

abbrev pub is_ambiguous : DiscordError → Bool
is_ambiguous (ambiguous_error message) = true
is_ambiguous _ = false

-- The text of a key that the payload must have.
unfoldable pub required_string : Option Text → Text → Answer Text
required_string none key = rejected (definite_error (codes "outbox payload is missing " ++ key))
required_string (some value) key =
    if is_empty value
    then rejected (definite_error (codes "outbox payload is missing " ++ key))
    else resolved value

abbrev pub without_message : Answer (Unit {0}) → Answer (Option ℕ)
without_message (resolved value) = resolved none
without_message (rejected error) = rejected error

abbrev pub with_message : Answer ℕ → Answer (Option ℕ)
with_message (resolved id) = resolved (some id)
with_message (rejected error) = rejected error

-- A message id of a payload is never empty.
unfoldable pub deliver_deletion : Transport → OutboxRow → Answer (Option ℕ) × List Call
deliver_deletion transport operation = elim (payload_message operation.payload) [
  | none ↦ (rejected (definite_error (codes "outbox payload is missing messageId")), [])
  | some message ↦ (
    without_message (transport.delete_message operation.channel_id message),
    message_deleted operation.channel_id message ∷ [],
  )
]

abbrev pub outgoing : OutboxRow → Text → OutgoingMessage
outgoing operation content = record {
  channel_id = operation.channel_id;
  content = content;
  nonce = operation.nonce;
  enforce_nonce = true;
  suppress_notifications = is_canonical operation.operation_type;
}

unfoldable pub deliver_message : Transport → OutboxRow → Answer (Option ℕ) × List Call
deliver_message transport operation =
    elim (required_string (payload_content operation.payload) (codes "content")) [
      | rejected error ↦ (rejected error, [])
      | resolved content ↦ (
        with_message (transport.send_message (outgoing operation content)),
        message_sent (outgoing operation content) ∷ [],
      )
    ]

unfoldable pub deliver : Transport → OutboxRow → Answer (Option ℕ) × List Call
deliver transport operation =
    if is_deletion operation.operation_type
    then deliver_deletion transport operation
    else deliver_message transport operation

-- The operation waits for the time that the outbox has put down for it.
abbrev pub waiting : ℕ → List Call → ℕ × Database → Dispatched
waiting id calls scheduled = record {
  result = retry_scheduled id scheduled.0;
  calls = calls;
  database = scheduled.1;
}

unfoldable pub settle_delivery :
    ℕ → OutboxRow → Answer (Option ℕ) × List Call → Database → Dispatched
settle_delivery now operation (resolved message, calls) db = record {
  result = delivered operation.id;
  calls = calls;
  database = record_delivered now operation.id message db;
}
settle_delivery now operation (rejected error, calls) db =
    let description = description_or (codes "unknown Discord delivery failure") error in
    if is_ambiguous error
    then waiting operation.id calls
        (schedule_ambiguous_reconciliation now operation.id description 0 db)
    else waiting operation.id calls
        (schedule_retry now operation.id operation.attempt_count description db)

abbrev pub lookup_call : OutboxRow → Call
lookup_call operation = looked_up operation.channel_id operation.nonce operation.created_at

abbrev pub also_called : Call → Dispatched → Dispatched
also_called call d = record d { calls = call ∷ d.calls }

abbrev pub out_of_window : ℕ → OutboxRow → Bool
out_of_window now operation = leb (operation.created_at + nonce_uniqueness_window) now

abbrev pub review_error : Text
review_error =
    codes "ambiguous delivery could not be reconciled outside the nonce uniqueness window"

-- An earlier attempt may have sent the message: it is looked for by its nonce.
unfoldable pub reconcile_nonce : Transport → Times → OutboxRow → Database → Dispatched
reconcile_nonce transport times operation db =
    elim (transport.find_own_message_by_nonce operation.channel_id operation.nonce
      operation.created_at) [
        | rejected error ↦ waiting operation.id (lookup_call operation ∷ []) (
            schedule_ambiguous_reconciliation times.settled operation.id
              (description_or (codes "nonce reconciliation failed") error) 1000 db)
        | resolved (some message) ↦ record {
          result = delivered operation.id;
          calls = lookup_call operation ∷ [];
          database = record_delivered times.settled operation.id (some message) db;
        }
        | resolved none ↦
            if out_of_window times.checked operation
            then record {
              result = needs_review operation.id;
              calls = lookup_call operation ∷ [];
              database = require_review operation.id review_error db;
            }
            else also_called (lookup_call operation)
                (settle_delivery times.settled operation (deliver transport operation) db)
      ]

-- What follows a claim. All that it stores it stores after the last wait, in `db`.
unfoldable pub dispatch_claimed : Transport → Times → OutboxRow → Database → Dispatched
dispatch_claimed transport times operation db =
    if needs_reconciliation operation.last_error && not (is_deletion operation.operation_type)
    then reconcile_nonce transport times operation db
    else settle_delivery times.settled operation (deliver transport operation) db

-- Deliveries that an earlier process left are taken up again by the first call.
abbrev pub initialize : Bool → ℕ → Database → Database
initialize true now db = db
initialize false now db = recover_stale_deliveries now db

-- The database in which the answers of the transport are stored: `meanwhile` stands for the
-- transactions of other parts of the program while the dispatcher waits for the transport.
abbrev pub awaited : (Database → Database) → Option OutboxRow × Database → Database
awaited meanwhile (none, db) = db
awaited meanwhile (some operation, db) = meanwhile db

abbrev pub after_claim : Transport → Times → Option OutboxRow → Database → Dispatched
after_claim transport times none db = record { result = idle; calls = []; database = db }
after_claim transport times (some operation) db = dispatch_claimed transport times operation db

unfoldable pub dispatch_next :
    Transport → Times → (Database → Database) → Bool → ℕ → Database → Dispatched
dispatch_next transport times meanwhile initialized channel db =
    let claim = claim_next times.claimed channel (initialize initialized times.recovered db) in
    after_claim transport times claim.0 (awaited meanwhile claim)
