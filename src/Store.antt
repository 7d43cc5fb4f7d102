-- ===== src/Store.antt =====
-- The database: its tables as lists in the order of insertion, and the queries that the components
-- share. A transaction works on a copy and hands back the new database, or throws; so a transaction
-- that throws changes nothing. Statements are modelled by what SQLite documents of them.
mod Rows
pub use Rows.*
use herald_of_jams.Base.{
  ℕ, suc, ◌+◌, Bool, true, false, not, ◌&&◌, ◌||◌, List, [], ◌∷◌, ◌++◌, Option, none, some, Text,
  ◌==◌, if◌then◌else◌, any, select, find?, is_some, ltb,
}
use herald_of_jams.Announcements.{AnnouncementTemplates}
use herald_of_jams.Engine.{RoundState, waiting_for_start, counting, paused, completed, cancelled}

pub record Database : Type 0 where
  pub seasons : List SeasonRow
  pub players : List PlayerRow
  pub templates : List TemplateRow
  pub announcement_settings : Option AnnouncementTemplates
  pub rounds : List RoundRow
  pub compiled_entries : List CompiledEntryRow
  pub attempts : List AttemptRow
  pub submissions : List SubmissionRow
  pub contributions : List ContributionRow
  pub penalties : List PenaltyRow
  pub bans : List BanRow
  pub ledger : List LedgerRow
  pub outbox : List OutboxRow
  pub audits : List AuditRow
  -- How many ids the id generator has made.
  pub issued : ℕ

-- What the program is given: the id generator, the nonce of an operation (a digest of its id), and
-- the order that SQLite puts on players of one total (display name without case, then id).
pub record Environment : Type 0 where
  pub ids : ℕ → ℕ
  pub nonce : ℕ → Text
  pub named_before : LeaderboardEntry → LeaderboardEntry → Bool

-- ids.next(): the id is `env.ids db.issued`.
abbrev pub next_id : Environment → Database → ℕ
next_id env db = env.ids db.issued

abbrev pub is_active : RoundState → Bool
is_active waiting_for_start = true
is_active counting = true
is_active paused = true
is_active completed = false
is_active cancelled = false

abbrev pub is_ended : RoundState → Bool
is_ended completed = true
is_ended cancelled = true
is_ended _ = false

abbrev pub is_active_attempt : AttemptState → Bool
is_active_attempt active_attempt = true
is_active_attempt _ = false

abbrev pub is_accepted : StoredDecision → Bool
is_accepted accepted_submission = true
is_accepted _ = false

-- decision LIKE 'broken_%'
abbrev pub is_broken : StoredDecision → Bool
is_broken broken_unexpected = true
is_broken broken_same_player = true
is_broken broken_out_of_range = true
is_broken _ = false

abbrev pub is_penalty : EntryType → Bool
is_penalty penalty = true
is_penalty _ = false

abbrev pub is_reset : OperationType → Bool
is_reset reset_announcement = true
is_reset _ = false

abbrev pub id_is : Option ℕ → ℕ → Bool
id_is none id = false
id_is (some other) id = other == id

-- json_extract(payload_json, '$.roundId')
abbrev pub payload_round : Payload → Option ℕ
payload_round (round_payload content round) = some round
payload_round (leaderboard_payload content round entries page) = some round
payload_round _ = none

-- json_extract(payload_json, '$.submissionId')
abbrev pub payload_submission : Payload → Option ℕ
payload_submission (canonical_payload content submission part) = some submission
payload_submission (submission_payload content submission) = some submission
payload_submission _ = none

-- The text that a message shows.
abbrev pub payload_content : Payload → Option Text
payload_content (round_payload content round) = some content
payload_content (canonical_payload content submission part) = some content
payload_content (submission_payload content submission) = some content
payload_content (message_payload message) = none
payload_content (invalidated_payload message breaking) = none
payload_content (leaderboard_payload content round entries page) = some content

abbrev pub payload_message : Payload → Option ℕ
payload_message (message_payload message) = some message
payload_message (invalidated_payload message breaking) = some message
payload_message _ = none

unfoldable pub submission : Database → ℕ → Option SubmissionRow
submission db message = find? (λ s. s.message_id == message) db.submissions

unfoldable pub active_round : Database → Option RoundRow
active_round db = find? (λ r. is_active r.state) db.rounds

unfoldable pub active_attempt_of : Database → ℕ → Option AttemptRow
active_attempt_of db round =
    find? (λ a. a.round_id == round && is_active_attempt a.state) db.attempts

-- ORDER BY sequence_number DESC LIMIT 1
abbrev pub later : OutboxRow → Option OutboxRow → Option OutboxRow
later o none = some o
later o (some p) = some (if ltb o.sequence_number p.sequence_number then p else o)

unfoldable pub highest : List OutboxRow → Option OutboxRow
highest [] = none
highest (o ∷ os) = later o (highest os)

abbrev pub in_channel : ℕ → List OutboxRow → List OutboxRow
in_channel channel = select (λ o. o.channel_id == channel)
