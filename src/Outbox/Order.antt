-- ===== src/Outbox/Order.antt =====
-- The order of each channel, under the operations of src/db/outbox-repository.ts.
use herald_of_jams.Base.{
  ℕ, suc, ◌≡◌, refl, sym, subst, arith, Bool, not, Bool-cases, Option-cases, inl, inr, List, [],
  ◌∷◌, Option, none, some, Text, ◌==◌, if◌then◌else◌, all, update_where, ok, or_throw, throw_if,
  >>=-eq-ok, ok-injective, not_retry_wait, message_id_required, reason_required,
}
use herald_of_jams.Store.{Database, Environment, OutboxRow, in_channel}
use herald_of_jams.Game.Outgoing.{audit}
use herald_of_jams.Outbox.{
  is_delivering, is_retry_wait, lowest, unresolved_in, may_claim, get, update_operation,
  recover_stale_deliveries, claimed, claim_next, settle_terminal_round_if_ready, record_delivered,
  schedule_retry, schedule_ambiguous_reconciliation, require_review, retry,
  require_review_operation, mark_delivered, abandon, is_blank,
}
use herald_of_jams.Game.Ordering.{Chained, IsOrdered}

-- A change that keeps the place of an operation.
pub record Keeps (f : OutboxRow → OutboxRow) : Type 0 where
  pub id : (o : OutboxRow) → (f o).id ≡ o.id
  pub channel : (o : OutboxRow) → (f o).channel_id ≡ o.channel_id
  pub number : (o : OutboxRow) → (f o).sequence_number ≡ o.sequence_number
  pub predecessor : (o : OutboxRow) → (f o).predecessor_id ≡ o.predecessor_id

module _ (p : OutboxRow → Bool) (f : OutboxRow → OutboxRow) (k : Keeps f) where
  changed : OutboxRow → OutboxRow
  changed o = if p o then f o else o

  changed-Keeps : Keeps changed
  unfolding changed
  changed-Keeps = record {
    id = λ o. elim (Bool-cases (p o)) [ inl h ↦ rw h (k.id o) | inr h ↦ rw h refl ];
    channel = λ o. elim (Bool-cases (p o)) [ inl h ↦ rw h (k.channel o) | inr h ↦ rw h refl ];
    number = λ o. elim (Bool-cases (p o)) [ inl h ↦ rw h (k.number o) | inr h ↦ rw h refl ];
    predecessor =
        λ o. elim (Bool-cases (p o)) [ inl h ↦ rw h (k.predecessor o) | inr h ↦ rw h refl ];
  }

  Chained-update :
      (channel n : ℕ) (previous : Option ℕ) (os : List OutboxRow)
      → Chained n previous (in_channel channel os)
      → Chained n previous (in_channel channel (update_where p f os))
  unfolding changed
  Chained-update channel n previous [] h = h
  Chained-update channel n previous (o ∷ os) h = elim (Bool-cases (o.channel_id == channel)) [
    | inl here ↦
        let c = rw here at h in
        rw (changed-Keeps.channel o, here)
          (
            rw (changed-Keeps.number o) c.0,
            rw (changed-Keeps.predecessor o) c.1,
            rw (changed-Keeps.id o) (Chained-update channel (suc n) (some o.id) os c.2),
          )
    | inr elsewhere ↦
        rw (changed-Keeps.channel o, elsewhere)
          (Chained-update channel n previous os (rw elsewhere at h))
  ]

  pub update_where-IsOrdered :
      (os : List OutboxRow) → IsOrdered os → IsOrdered (update_where p f os)
  update_where-IsOrdered os h c = Chained-update c 0 none os (h c)

module _ (id : ℕ) (f : OutboxRow → OutboxRow) (k : Keeps f) (db : Database) where
  update_operation-IsOrdered : IsOrdered db.outbox → IsOrdered (update_operation id f db).outbox
  unfolding update_operation
  update_operation-IsOrdered h = update_where-IsOrdered (λ o. o.id == id) f k db.outbox h

pub settle-outbox :
    (now operation : ℕ) (db : Database)
    → (settle_terminal_round_if_ready now operation db).outbox ≡ db.outbox
unfolding settle_terminal_round_if_ready
settle-outbox now operation db = ground arith

pub claimed-Keeps : Keeps claimed
claimed-Keeps = record {
  id = λ o. refl;
  channel = λ o. refl;
  number = λ o. refl;
  predecessor = λ o. refl;
}

pub claim_next-IsOrdered :
    (now channel : ℕ) (db : Database)
    → IsOrdered db.outbox
    → IsOrdered (claim_next now channel db).1.outbox
unfolding claim_next
claim_next-IsOrdered now channel db h =
    elim (Option-cases (lowest (unresolved_in channel db.outbox))) [
      | inl empty ↦ rw (claim_next, empty) h
      | inr (row, found) ↦ elim (Bool-cases (may_claim now db row)) [
        | inl may ↦
            rw (claim_next, found, may)
              (update_operation-IsOrdered row.id claimed claimed-Keeps db h)
        | inr not_yet ↦ rw (claim_next, found, not_yet) h
      ]
    ]

pub recover_stale_deliveries-IsOrdered :
    (now : ℕ) (db : Database)
    → IsOrdered db.outbox
    → IsOrdered (recover_stale_deliveries now db).outbox
unfolding recover_stale_deliveries
recover_stale_deliveries-IsOrdered now db h =
    update_where-IsOrdered (λ o. is_delivering o.status) _
      (record { id = λ o. refl; channel = λ o. refl; number = λ o. refl; predecessor = λ o. refl })
      db.outbox h

pub record_delivered-IsOrdered :
    (now id : ℕ) (message : Option ℕ) (db : Database)
    → IsOrdered db.outbox
    → IsOrdered (record_delivered now id message db).outbox
unfolding record_delivered
record_delivered-IsOrdered now id message db h = subst IsOrdered (sym (settle-outbox now id _)) (
    update_operation-IsOrdered id _
      (record { id = λ o. refl; channel = λ o. refl; number = λ o. refl; predecessor = λ o. refl })
      db h)

pub schedule_retry-IsOrdered :
    (now id attempt_count : ℕ) (error : Text) (db : Database)
    → IsOrdered db.outbox
    → IsOrdered (schedule_retry now id attempt_count error db).1.outbox
unfolding schedule_retry
schedule_retry-IsOrdered now id attempt_count error db h =
    update_operation-IsOrdered id _
      (record { id = λ o. refl; channel = λ o. refl; number = λ o. refl; predecessor = λ o. refl })
      db h

pub schedule_ambiguous_reconciliation-IsOrdered :
    (now id : ℕ) (error : Text) (delay : ℕ) (db : Database)
    → IsOrdered db.outbox
    → IsOrdered (schedule_ambiguous_reconciliation now id error delay db).1.outbox
unfolding schedule_ambiguous_reconciliation
schedule_ambiguous_reconciliation-IsOrdered now id error delay db h =
    update_operation-IsOrdered id _
      (record { id = λ o. refl; channel = λ o. refl; number = λ o. refl; predecessor = λ o. refl })
      db h

pub require_review-IsOrdered :
    (id : ℕ) (error : Text) (db : Database)
    → IsOrdered db.outbox
    → IsOrdered (require_review id error db).outbox
unfolding require_review
require_review-IsOrdered id error db h =
    update_operation-IsOrdered id _
      (record { id = λ o. refl; channel = λ o. refl; number = λ o. refl; predecessor = λ o. refl })
      db h

pub retry-IsOrdered :
    (env : Environment) (now id actor : ℕ) (db db' : Database)
    → retry env now id actor db ≡ ok db'
    → IsOrdered db.outbox
    → IsOrdered db'.outbox
unfolding retry audit
retry-IsOrdered env now id actor db db' e h =
    let (operation, found, e1) = >>=-eq-ok (or_throw (get db id) not_retry_wait) _ e in
    let (_, waits, e2) =
      >>=-eq-ok (throw_if (not (is_retry_wait operation.status)) not_retry_wait) _ e1 in
    subst (λ (d : Database). IsOrdered d.outbox) (ok-injective e2)
      (update_operation-IsOrdered id _
        (record {
          id = λ o. refl;
          channel = λ o. refl;
          number = λ o. refl;
          predecessor = λ o. refl;
        })
        db h)

pub mark_delivered-IsOrdered :
    (env : Environment) (now id : ℕ) (message : Option ℕ) (actor : ℕ) (db db' : Database)
    → mark_delivered env now id message actor db ≡ ok db'
    → IsOrdered db.outbox
    → IsOrdered db'.outbox
unfolding mark_delivered audit
mark_delivered-IsOrdered env now id message actor db db' e h =
    let (operation, found, e1) = >>=-eq-ok (require_review_operation id db) _ e in
    let (_, given, e2) = >>=-eq-ok (or_throw message message_id_required) _ e1 in
    subst (λ (d : Database). IsOrdered d.outbox) (ok-injective e2)
      (subst IsOrdered (sym (settle-outbox now id _)) (
        update_operation-IsOrdered id _
          (record {
            id = λ o. refl;
            channel = λ o. refl;
            number = λ o. refl;
            predecessor = λ o. refl;
          })
          db h))

pub abandon-IsOrdered :
    (env : Environment) (now id : ℕ) (reason : Text) (actor : ℕ) (db db' : Database)
    → abandon env now id reason actor db ≡ ok db'
    → IsOrdered db.outbox
    → IsOrdered db'.outbox
unfolding abandon audit
abandon-IsOrdered env now id reason actor db db' e h =
    let (operation, found, e1) = >>=-eq-ok (require_review_operation id db) _ e in
    let (_, given, e2) = >>=-eq-ok (throw_if (all is_blank reason) reason_required) _ e1 in
    subst (λ (d : Database). IsOrdered d.outbox) (ok-injective e2)
      (subst IsOrdered (sym (settle-outbox now id _)) (
        update_operation-IsOrdered id _
          (record {
            id = λ o. refl;
            channel = λ o. refl;
            number = λ o. refl;
            predecessor = λ o. refl;
          })
          db h))
