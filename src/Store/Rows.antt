-- ===== src/Store/Rows.antt =====
-- The rows of the tables of src/db/migrations, as src/application/game-service.ts and
-- src/db/outbox-repository.ts read and write them. An id (a Discord snowflake, or one that the id
-- generator made) and a time are numbers; a JSON column is the value that was written.
use herald_of_jams.Base.{ℕ, List, Option, Text}
use herald_of_jams.Base.Int.{ℤ}
use herald_of_jams.Announcements.{AnnouncementKind}
use herald_of_jams.Engine.{RoundState, PausedFrom}
use herald_of_jams.Rounds.{CompiledRound, RoundTemplateInput}

pub record SeasonRow : Type 0 where
  pub id : ℕ
  pub started_at : ℕ
  pub ended_at : Option ℕ

pub record PlayerRow : Type 0 where
  pub discord_user_id : ℕ
  pub latest_display_name : Text
  pub updated_at : ℕ

-- round_templates, with its columns read back as the input that they were written from.
pub record TemplateRow : Type 0 where
  pub id : ℕ
  pub input : RoundTemplateInput
  pub created_at : ℕ
  pub updated_at : ℕ

pub record RoundRow : Type 0 where
  pub id : ℕ
  pub template_id : ℕ
  pub season_id : ℕ
  pub channel_id : ℕ
  pub state : RoundState
  pub paused_from_state : Option PausedFrom
  pub compiled_config : CompiledRound
  pub activated_at : ℕ
  pub completed_at : Option ℕ
  pub cancelled_at : Option ℕ
  pub operationally_settled_at : Option ℕ

pub record CompiledEntryRow : Type 0 where
  pub round_id : ℕ
  pub position : ℕ
  pub value : ℕ
  pub bonus_rule_ids : List Text

pub data AttemptState : Type 0 where
  active_attempt broken_attempt completed_attempt cancelled_attempt : AttemptState

pub record AttemptRow : Type 0 where
  pub id : ℕ
  pub round_id : ℕ
  pub state : AttemptState
  pub started_at : ℕ
  pub ended_at : Option ℕ
  pub broken_by_submission_id : Option ℕ

-- The decision column of submissions.
pub data StoredDecision : Type 0 where
  accepted_submission : StoredDecision
  waiting_deleted paused_deleted banned_deleted : StoredDecision
  broken_unexpected broken_same_player broken_out_of_range : StoredDecision
  invalidated_after_reconnect_break : StoredDecision

pub record SubmissionRow : Type 0 where
  pub message_id : ℕ
  pub round_id : ℕ
  pub attempt_id : Option ℕ
  pub author_id : ℕ
  pub original_digits : Text
  pub normalized_value : Option ℕ
  pub decision : StoredDecision
  pub received_at : ℕ

pub record ContributionRow : Type 0 where
  pub attempt_id : ℕ
  pub player_id : ℕ
  pub accepted_count : ℕ
  pub bonus_points : ℕ

pub record PenaltyRow : Type 0 where
  pub round_id : ℕ
  pub player_id : ℕ
  pub worst_severity : ℤ

pub record BanRow : Type 0 where
  pub round_id : ℕ
  pub player_id : ℕ
  pub banned_at : ℕ

pub data EntryType : Type 0 where
  participation bonus_entry penalty : EntryType

-- The text `kind:round:player` of the source_key column, for penalties with the severity.
pub data SourceKey : Type 0 where
  participation_key : (round player : ℕ) → SourceKey
  bonus_key : (round player : ℕ) → SourceKey
  penalty_key : (round player : ℕ) (severity : ℤ) → SourceKey

pub record LedgerRow : Type 0 where
  pub id : ℕ
  pub season_id : ℕ
  pub round_id : ℕ
  pub attempt_id : ℕ
  pub player_id : ℕ
  pub entry_type : EntryType
  pub delta : ℤ
  pub source_key : SourceKey
  pub created_at : ℕ

pub record LeaderboardEntry : Type 0 where
  pub player_id : ℕ
  pub display_name : Text
  pub total : ℤ

pub data OperationType : Type 0 where
  start_announcement canonical_message delete_original bonus_announcement : OperationType
  reset_announcement completion_announcement cancellation_announcement : OperationType
  leaderboard_publication : OperationType

-- The JSON objects of the payload_json column.
pub data Payload : Type 0 where
  round_payload : (content : Text) (round : ℕ) → Payload
  canonical_payload : (content : Text) (submission part : ℕ) → Payload
  submission_payload : (content : Text) (submission : ℕ) → Payload
  message_payload : (message : ℕ) → Payload
  invalidated_payload : (message breaking : ℕ) → Payload
  leaderboard_payload :
      (content : Text) (round : ℕ) (leaderboard : List LeaderboardEntry) (page : ℕ) → Payload

pub data OutboxStatus : Type 0 where
  pending delivering delivered retry_wait needs_review abandoned : OutboxStatus

pub record OutboxRow : Type 0 where
  pub id : ℕ
  pub channel_id : ℕ
  pub sequence_number : ℕ
  pub predecessor_id : Option ℕ
  pub operation_type : OperationType
  pub payload : Payload
  pub nonce : Text
  pub status : OutboxStatus
  pub attempt_count : ℕ
  pub next_attempt_at : Option ℕ
  pub last_error : Option Text
  pub discord_message_id : Option ℕ
  pub created_at : ℕ
  pub resolved_at : Option ℕ

-- The event type with the details of its details_json column.
pub data AuditEvent : Type 0 where
  round_activated : (template : ℕ) → AuditEvent
  submission_deleted_without_effect : (message : ℕ) (decision : StoredDecision) → AuditEvent
  submission_accepted : (message position : ℕ) → AuditEvent
  attempt_broken : (message : ℕ) (decision : StoredDecision) (severity delta : ℤ) → AuditEvent
  submission_invalidated : (message breaking : ℕ) → AuditEvent
  round_completed : (attempt : ℕ) → AuditEvent
  round_paused round_resumed : AuditEvent
  round_cancelled : (discarded_entries : ℕ) (discarded_points : ℤ) → AuditEvent
  player_banned player_unbanned : (player : ℕ) → AuditEvent
  season_reset : (season : ℕ) → AuditEvent
  announcement_defaults_updated : (fields : List AnnouncementKind) → AuditEvent
  outbox_retry_requested outbox_marked_delivered outbox_abandoned : (operation : ℕ) → AuditEvent
  canonical_message_deleted : (operation message : ℕ) → AuditEvent
  discord_adapter_failure : (source : Text) → AuditEvent

pub record AuditRow : Type 0 where
  pub id : ℕ
  pub event : AuditEvent
  pub round_id : Option ℕ
  pub actor_id : Option ℕ
  pub created_at : ℕ
