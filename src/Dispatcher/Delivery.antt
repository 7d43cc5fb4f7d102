-- ===== src/Dispatcher/Delivery.antt =====
-- The calls of the transport in src/application/outbox-dispatcher.ts, and what a delivery without an
-- answer leaves in the outbox.
use herald_of_jams.Base.{
  ℕ, ◌+◌, ◌<◌, ◌≡◌, refl, subst, ap, arith, true, false, Bool-cases, inl, inr, List, [], ◌∷◌, none,
  some, Text, ◌==◌, update_where, All, codes, select, ◌⊎◌, ◌++◌, take,
}
use herald_of_jams.Store.{Database, OutboxRow, payload_content, payload_message}
use herald_of_jams.Outbox.{
  is_delivering, claim_next, claimed, update_operation, wait_until,
  schedule_ambiguous_reconciliation, recover_stale_deliveries, recovered_row,
}
use herald_of_jams.Outbox.Claims.{claim_next-Claim}
use herald_of_jams.Dispatcher.{
  Transport, Times, resolved, rejected, ambiguous_error, Call, looked_up, message_deleted,
  message_sent, settle_delivery, is_deletion, needs_reconciliation, nonce_uniqueness_window,
}
use herald_of_jams.Dispatcher.Queue.{Alike}

module _ (transport : Transport) (times : Times) (operation : OutboxRow) where
  -- An earlier delivery may have sent the message, and it was not found within the time in which
  -- its nonce is kept.
  pub IsUnfound : Type 0
  IsUnfound =
      (transport.find_own_message_by_nonce operation.channel_id operation.nonce operation.created_at
        ≡ resolved none)
      × (times.checked < operation.created_at + nonce_uniqueness_window)

  pub IsJustified : Call → Type 0
  IsJustified (looked_up channel nonce created_after) =
      (needs_reconciliation operation.last_error ≡ true) × (nonce ≡ operation.nonce)
  IsJustified (message_deleted channel message) =
      (is_deletion operation.operation_type ≡ true)
      × (payload_message operation.payload ≡ some message)
  IsJustified (message_sent message) =
      (is_deletion operation.operation_type ≡ false)
      × (payload_content operation.payload ≡ some message.content)
      × (message.nonce ≡ operation.nonce)
      × (message.enforce_nonce ≡ true)
      × ((needs_reconciliation operation.last_error ≡ false) ⊎ IsUnfound)

-- The next delivery of an operation looks for the message first.
abbrev pub IsUnsure : OutboxRow → Type 0
IsUnsure o = needs_reconciliation o.last_error ≡ true

waits-IsUnsure :
    (id now : ℕ) (error : Text) (delay : ℕ) (os : List OutboxRow)
    → Alike IsUnsure id (
        update_where
          (λ o. o.id == id)
          (wait_until (now + delay) (codes "ambiguous: " ++ take 480 error))
          os)
waits-IsUnsure id now error delay [] = tt
waits-IsUnsure id now error delay (o ∷ os) = elim (Bool-cases (o.id == id)) [
  | inl here ↦ rw here (λ e. refl, waits-IsUnsure id now error delay os)
  | inr other ↦ rw other (λ e. absurd (ground arith), waits-IsUnsure id now error delay os)
]

crash-IsUnsure :
    (id later : ℕ) (os : List OutboxRow)
    → Alike IsUnsure id (
        update_where
          (λ o. is_delivering o.status)
          (recovered_row later)
          (update_where (λ o. o.id == id) claimed os))
crash-IsUnsure id later [] = tt
crash-IsUnsure id later (o ∷ os) = elim (Bool-cases (o.id == id)) [
  | inl here ↦ rw here (λ e. refl, crash-IsUnsure id later os)
  | inr other ↦ elim (Bool-cases (is_delivering o.status)) [
    | inl busy ↦ rw (other, busy) (λ e. refl, crash-IsUnsure id later os)
    | inr quiet ↦ rw (other, quiet) (λ e. absurd (ground arith), crash-IsUnsure id later os)
  ]
]

abbrev pub rows_with : ℕ → List OutboxRow → List OutboxRow
rows_with id = select (λ o. o.id == id)

Alike-All :
    (P : OutboxRow → Type 0) (id : ℕ) (os : List OutboxRow)
    → Alike P id os
    → All P (rows_with id os)
Alike-All P id [] a = tt
Alike-All P id (o ∷ os) a = elim (Bool-cases (o.id == id)) [
  | inl here ↦ rw (All, here) (a.0 here, Alike-All P id os a.1)
  | inr other ↦ rw other (Alike-All P id os a.1)
]

-- A claimed operation whose delivery is answered ambiguously, or that is left in delivery when the
-- process stops and is taken up by the next one, has an error from which the next delivery knows to
-- look for the message first.
pub claim_next-IsUnsure :
    (now later channel : ℕ) (db db' : Database) (row : OutboxRow) (message : Text)
    (calls : List Call)
    → claim_next now channel db ≡ (some row, db')
    → (All IsUnsure (
        rows_with row.id
          (settle_delivery later row
            (rejected (ambiguous_error message), calls)
            db').database.outbox))
      × (All IsUnsure (rows_with row.id (recover_stale_deliveries later db').outbox))
unfolding settle_delivery schedule_ambiguous_reconciliation update_operation
    recover_stale_deliveries
claim_next-IsUnsure now later channel db db' row message calls e =
    let c = claim_next-Claim now channel db row db' e in
    let same_id : c.r.id ≡ row.id = ap (λ (o : OutboxRow). o.id) c.same in
    (
      Alike-All IsUnsure row.id _ (waits-IsUnsure row.id later message 0 db'.outbox),
      Alike-All IsUnsure row.id _ (
          subst
            (λ (d : Database).
              Alike IsUnsure row.id
                (update_where (λ o. is_delivering o.status) (recovered_row later) d.outbox))
            c.stored
            (subst
              (λ i. Alike IsUnsure i (
                update_where (λ o. is_delivering o.status) (recovered_row later)
                  (update_where (λ o. o.id == c.r.id) claimed db.outbox)))
              same_id (crash-IsUnsure c.r.id later db.outbox))),
    )
