-- ===== src/Reconciliation.antt =====
-- src/application/reconciliation-service.ts: the messages of a channel that were missed are examined
-- in the order of their ids. The transport and the clock are parameters.
pub mod Catching
pub mod Ending
pub mod Effects
use herald_of_jams.Base.{
  ℕ, zero, suc, ◌+◌, Bool, true, false, not, ◌&&◌, List, [], ◌∷◌, Option, none, some, ltb, leb,
  ◌==◌, if◌then◌else◌, any, select, find?, Result, ok, throw, Error,
}
use herald_of_jams.Engine.{RoundState, completed}
use herald_of_jams.Store.{
  Database, Environment, RoundRow, SubmissionRow, StoredDecision, submission, is_broken, is_reset,
  id_is, payload_submission,
}
use herald_of_jams.Game.Submissions.{
  InboundDiscordMessage, MessageDisposition, chat_message, duplicate, recorded,
}
use herald_of_jams.Game.Messages.{
  Processed, process_message, invalidate_after_reconnect_break, ensure_reconnect_reset,
}
use herald_of_jams.Checkpoints.{CheckpointRow, checkpoint, advance_checkpoint}

-- The answers of the transport, or its errors: to the n-th request for the latest message of the
-- channel, and to the n-th listing, of the messages after a checkpoint; and what other parts of the
-- program store while reconcile waits for them.
pub record History : Type 0 where
  pub latest : ℕ → Result (Option ℕ)
  pub listed : ℕ → Option ℕ → Result (List InboundDiscordMessage)
  pub during_latest : ℕ → Database → Database
  pub during_listing : ℕ → Database → Database

-- The two tables, and the variables of reconcile.
pub record Progress : Type 0 where
  pub database : Database
  pub checkpoints : List CheckpointRow
  pub at : Option ℕ
  pub examined_count : ℕ
  pub breaking : Option ℕ
  pub completed : Bool

-- A round of a submission is in the channel: JOIN rounds.
abbrev pub round_in_channel : Database → ℕ → SubmissionRow → Bool
round_in_channel db channel s =
    any (λ (r : RoundRow). r.id == s.round_id && r.channel_id == channel) db.rounds

abbrev pub has_reset : Database → ℕ → Bool
has_reset db message =
    any (λ o. is_reset o.operation_type && id_is (payload_submission o.payload) message) db.outbox

abbrev pub is_pending_break : Database → ℕ → SubmissionRow → Bool
is_pending_break db channel s =
    round_in_channel db channel s && is_broken s.decision && not (has_reset db s.message_id)

-- ORDER BY submissions.rowid DESC LIMIT 1
abbrev pub last_break : Option ℕ → SubmissionRow → Bool → Option ℕ
last_break (some later) s pending = some later
last_break none s pending = if pending then some s.message_id else none

unfoldable pub pending_break_in : Database → ℕ → List SubmissionRow → Option ℕ
pending_break_in db channel [] = none
pending_break_in db channel (s ∷ ss) =
    last_break (pending_break_in db channel ss) s (is_pending_break db channel s)

unfoldable pub pending_reconnect_break : Database → ℕ → Option ℕ
pending_reconnect_break db channel = pending_break_in db channel db.submissions

abbrev pub is_completed : RoundState → Bool
is_completed completed = true
is_completed _ = false

abbrev pub completed_in : Option RoundRow → Bool
completed_in none = false
completed_in (some round) = is_completed round.state

unfoldable pub round_completed : Database → Option SubmissionRow → Bool
round_completed db none = false
round_completed db (some s) = completed_in (find? (λ (r : RoundRow). r.id == s.round_id) db.rounds)

-- checkpoint === null || greaterThan(message, checkpoint)
abbrev pub is_after : ℕ → Option ℕ → Bool
is_after message none = true
is_after message (some at) = ltb at message

-- messages.sort by id
abbrev pub insert_by_id :
    InboundDiscordMessage → List InboundDiscordMessage → List InboundDiscordMessage
insert_by_id m [] = m ∷ []
insert_by_id m (n ∷ ns) = if ltb n.id m.id then n ∷ insert_by_id m ns else m ∷ n ∷ ns

abbrev pub sort_by_id : List InboundDiscordMessage → List InboundDiscordMessage
sort_by_id [] = []
sort_by_id (m ∷ ms) = insert_by_id m (sort_by_id ms)

-- The messages of a listing that are not above the high water mark.
unfoldable pub messages_until : ℕ → List InboundDiscordMessage → List InboundDiscordMessage
messages_until high_water listed =
    sort_by_id (select (λ (m : InboundDiscordMessage). leb m.id high_water) listed)

abbrev pub is_recorded : MessageDisposition → Bool
is_recorded (recorded decision ids) = true
is_recorded _ = false

abbrev pub stored_broken : Option SubmissionRow → Bool
stored_broken none = false
stored_broken (some s) = is_broken s.decision

-- What processMessage leaves of the variables.
unfoldable pub after_processed : InboundDiscordMessage → Processed → Progress → Progress
after_processed message (disposition, db) p =
    let stored = submission db message.id in
    record p {
      database = db;
      breaking =
          if is_recorded disposition && stored_broken stored then some message.id else p.breaking;
      completed = round_completed db stored;
    }

abbrev pub in_database : Progress → Processed → Progress
in_database p (disposition, db) = record p { database = db }

abbrev pub map_ok {ℓ κ} : {A : Type ℓ} {B : Type κ} → (A → B) → Result A → Result B
map_ok f (throw error) = throw error
map_ok f (ok a) = ok (f a)

-- The branches on the variables: a break, then the end of the round.
abbrev pub examine_in :
    Environment → ℕ → InboundDiscordMessage → Option ℕ → Bool → Progress → Result Progress
examine_in env now message (some breaking) over p =
    map_ok (in_database p) (invalidate_after_reconnect_break env now message breaking p.database)
examine_in env now message none false p =
    map_ok (λ r. after_processed message r p) (process_message env now message true p.database)
examine_in env now message none true p = ok p

abbrev pub examined : ℕ → ℕ → InboundDiscordMessage → Progress → Progress
examined now channel message p = record p {
  checkpoints = advance_checkpoint now channel message.id p.checkpoints;
  at = some message.id;
  examined_count = suc p.examined_count;
}

unfoldable pub examine : Environment → ℕ → ℕ → InboundDiscordMessage → Progress → Result Progress
examine env now channel message p =
    map_ok (examined now channel message) (examine_in env now message p.breaking p.completed p)

abbrev pub on_result :
    Progress → (Progress → Progress × Option Error) → Result Progress → Progress × Option Error
on_result p next (throw error) = (p, some error)
on_result p next (ok after) = next after

-- The loop over the messages of one listing, with the error that ends it.
unfoldable pub examine_all :
    Environment → (ℕ → ℕ) → ℕ → List InboundDiscordMessage → Progress → Progress × Option Error
examine_all env clock channel [] p = (p, none)
examine_all env clock channel (message ∷ messages) p =
    on_result p (λ q. examine_all env clock channel messages q)
      (examine env (clock p.examined_count) channel message p)

-- How the outer loop ends: caught up with a high water mark, by an error, or not yet.
pub data Caught : Type 0 where
  caught_up : (high_water : Option ℕ) (p : Progress) → Caught
  caught_error : (error : Error) (p : Progress) → Caught
  not_yet : (p : Progress) → Caught

abbrev pub is_same : Option ℕ → ℕ → Bool
is_same none high_water = true
is_same (some final) high_water = final == high_water

abbrev pub waited : (Database → Database) → Progress → Progress
waited meanwhile p = record p { database = meanwhile p.database }

-- What follows the listing's messages, with the latest message that is asked for after them.
abbrev pub after_listing :
    ℕ
    → Result (Option ℕ)
    → (Database → Database)
    → (Option ℕ → Progress → Caught)
    → Progress × Option Error
    → Caught
after_listing high_water final meanwhile next (p, some error) = caught_error error p
after_listing high_water (throw error) meanwhile next (p, none) =
    caught_error error (waited meanwhile p)
after_listing high_water (ok final) meanwhile next (p, none) =
    let again = next final (waited meanwhile p) in
    if is_same final high_water then caught_up (some high_water) (waited meanwhile p) else again

abbrev pub on_answer {ℓ} : {A : Type ℓ} → (Error → Caught) → (A → Caught) → Result A → Caught
on_answer failed next (throw error) = failed error
on_answer failed next (ok a) = next a

pub data Reconciled : Type 0 where
  reconciled : (high_water : Option ℕ) (p : Progress) → Reconciled
  reconcile_failed : (error : Error) (p : Progress) → Reconciled
  unfinished : (p : Progress) → Reconciled

abbrev pub close_result : Option ℕ → Progress → Result Progress → Reconciled
close_result high_water p (throw error) = reconcile_failed error p
close_result high_water p (ok last) = reconciled high_water last

module _ (env : Environment) (clock : ℕ → ℕ) (history : History) (channel : ℕ) where
  -- `n` counts the listings. The fuel bounds their number.
  unfoldable pub catch_up : ℕ → ℕ → Option ℕ → Progress → Caught
  catch_up fuel n none p = caught_up none p
  catch_up zero n (some high_water) p =
      if is_after high_water p.at then not_yet p else caught_up (some high_water) p
  catch_up (suc fuel) n (some high_water) p =
      let listed_at = waited (history.during_listing n) p in
      let more =
        on_answer (λ error. caught_error error listed_at)
          (λ listed.
            after_listing high_water (history.latest (suc n)) (history.during_latest (suc n))
              (λ final q. catch_up fuel (suc n) final q)
              (examine_all env clock channel (messages_until high_water listed) listed_at))
          (history.listed n p.at) in
      if is_after high_water p.at then more else caught_up (some high_water) p

-- The checkpoint goes up to the mark where only messages that are not listed came last.
unfoldable pub reach_mark : (ℕ → ℕ) → ℕ → Option ℕ → Progress → Progress
reach_mark clock channel none p = p
reach_mark clock channel (some high_water) p =
    if is_after high_water p.at
    then record p {
      checkpoints = advance_checkpoint (clock p.examined_count) channel high_water p.checkpoints;
    }
    else p

unfoldable pub announce_reset : Environment → (ℕ → ℕ) → Option ℕ → Progress → Result Progress
announce_reset env clock none p = ok p
announce_reset env clock (some breaking) p =
    map_ok (λ announced. record p { database = announced.1 })
      (ensure_reconnect_reset env (clock p.examined_count) breaking p.database)

abbrev pub close : Environment → (ℕ → ℕ) → ℕ → Caught → Reconciled
close env clock channel (caught_error error p) = reconcile_failed error p
close env clock channel (not_yet p) = unfinished p
close env clock channel (caught_up high_water p) =
    let marked = reach_mark clock channel high_water p in
    close_result high_water marked (announce_reset env clock marked.breaking marked)

abbrev pub first_progress : ℕ → Database → List CheckpointRow → Progress
first_progress channel db checkpoints = record {
  database = db;
  checkpoints = checkpoints;
  at = checkpoint channel checkpoints;
  examined_count = 0;
  breaking = pending_reconnect_break db channel;
  completed = false;
}

unfoldable pub reconcile :
    Environment → (ℕ → ℕ) → History → ℕ → ℕ → Database → List CheckpointRow → Reconciled
reconcile env clock history channel fuel db checkpoints =
    let first = first_progress channel (history.during_latest 0 db) checkpoints in
    close env clock channel (
      on_answer (λ error. caught_error error first)
        (λ high_water. catch_up env clock history channel fuel 0 high_water first)
        (history.latest 0))
