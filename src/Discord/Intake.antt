-- ===== src/Discord/Intake.antt =====
-- DiscordAdapter of src/discord/discord-adapter.ts: which messages of the gateway reach the game, as
-- a state machine. A message waits for its turn in the executor. The transactions of other parts of
-- the program on the shared tables are events, also those of the reconciliation that a reconnect
-- waits for; how that wait ends is an event of its own.
pub mod Gate
pub mod Passing
use herald_of_jams.Base.{
  ℕ, suc, Bool, true, false, not, ◌&&◌, ◌||◌, List, [], ◌∷◌, ◌++◌, Option, none, some, Text, codes,
  ◌==◌, if◌then◌else◌, find?, is_some, Result, ok, throw, Error,
}
use herald_of_jams.Store.{
  Database, Environment, OutboxRow, active_round, id_is, canonical_message_deleted,
  discord_adapter_failure,
}
use herald_of_jams.Game.Outgoing.{audit}
use herald_of_jams.Game.Submissions.{InboundDiscordMessage, MessageDisposition}
use herald_of_jams.Game.Messages.{Processed, process_message}
use herald_of_jams.Dispatcher.{is_canonical}
use herald_of_jams.Checkpoints.{CheckpointRow, advance_forward}
use herald_of_jams.Reconciliation.{is_recorded}

pub record GatewayMessage : Type 0 where
  pub inbound : InboundDiscordMessage
  pub guild_id : Option ℕ
  pub author_is_bot : Bool
  pub webhook_id : Option ℕ

-- An empty channel id of the configuration is `none`.
pub record AdapterConfig : Type 0 where
  pub guild_id : ℕ
  pub channel_id : Option ℕ

-- `tasks` are the messages handed to the executor and not yet processed; `wakes` are the calls of
-- the dispatcher.
pub record Adapter : Type 0 where
  pub accepting : Bool
  pub intake_failure : Bool
  pub buffered : List GatewayMessage
  pub tasks : List GatewayMessage
  pub wakes : List ℕ
  pub database : Database
  pub checkpoints : List CheckpointRow

-- isEligiblePlayerMessage
abbrev pub is_eligible_player_message : Bool → Option ℕ → Bool
is_eligible_player_message author_is_bot webhook = not author_is_bot && not (is_some webhook)

abbrev pub active_channel : AdapterConfig → Database → Option ℕ
active_channel config db = elim config.channel_id [
  | some channel ↦ some channel
  | none ↦ elim (active_round db) [ none ↦ none | some round ↦ some round.channel_id ]
]

-- The condition of the early return of handleMessage, negated.
abbrev pub is_admitted : AdapterConfig → Database → GatewayMessage → Bool
is_admitted config db message =
    id_is message.guild_id config.guild_id
    && id_is (active_channel config db) message.inbound.channel_id
    && is_eligible_player_message message.author_is_bot message.webhook_id

-- handleMessage, up to the executor.
unfoldable pub handle_message : AdapterConfig → GatewayMessage → Adapter → Adapter
handle_message config message s =
    if not s.accepting
    then record s { buffered = s.buffered ++ message ∷ [] }
    else if is_admitted config s.database message
    then record s { tasks = s.tasks ++ message ∷ [] }
    else s

abbrev pub audit_failure : Environment → ℕ → Text → Database → Database
audit_failure env now source db = audit env now (discord_adapter_failure source) none none db

abbrev pub close_gate : Environment → ℕ → Text → Adapter → Adapter
close_gate env now source s = record s {
  accepting = false;
  intake_failure = true;
  database = audit_failure env now source s.database;
}

abbrev pub wake_if : Bool → ℕ → List ℕ → List ℕ
wake_if recorded channel wakes = if recorded then wakes ++ channel ∷ [] else wakes

-- The work of a task after processMessage.
abbrev pub after_message : Environment → ℕ → GatewayMessage → Adapter → Result Processed → Adapter
after_message env now message s (throw error) = close_gate env now (codes "messageCreate") s
after_message env now message s (ok (disposition, db)) = record s {
  wakes = wake_if (is_recorded disposition) message.inbound.channel_id s.wakes;
  database = db;
  checkpoints = advance_forward now message.inbound.channel_id message.inbound.id s.checkpoints;
}

abbrev pub run_first : Environment → ℕ → List GatewayMessage → Adapter → Adapter
run_first env now [] s = s
run_first env now (message ∷ tasks) s =
    if s.intake_failure
    then record s { tasks = tasks; buffered = s.buffered ++ message ∷ [] }
    else after_message env now message (record s { tasks = tasks })
        (process_message env now message.inbound false s.database)

-- The executor runs the next task.
unfoldable pub run_task : Environment → ℕ → Adapter → Adapter
run_task env now s = run_first env now s.tasks s

unfoldable pub handle_all : AdapterConfig → List GatewayMessage → Adapter → Adapter
handle_all config [] s = s
handle_all config (message ∷ messages) s =
    handle_all config messages (handle_message config message s)

-- this.buffered.splice(0), then handleMessage for each.
unfoldable pub flush_buffered : AdapterConfig → Adapter → Adapter
flush_buffered config s = handle_all config s.buffered (record s { buffered = [] })

unfoldable pub start_accepting_messages : AdapterConfig → Adapter → Adapter
start_accepting_messages config s =
    flush_buffered config (record s { intake_failure = false; accepting = true })

unfoldable pub disconnected : Adapter → Adapter
disconnected s = record s { accepting = false }

abbrev pub wake_channel : Option ℕ → List ℕ → List ℕ
wake_channel none wakes = wakes
wake_channel (some channel) wakes = wakes ++ channel ∷ []

-- handleReconnect after its wait, which has failed or not; `accepting` was reset before it. The
-- channel is the one that was active when it began.
unfoldable pub handle_reconnect :
    Environment → ℕ → AdapterConfig → Option ℕ → Bool → Adapter → Adapter
handle_reconnect env now config channel true s = record s {
  intake_failure = true;
  database = audit_failure env now (codes "reconnect") s.database;
}
handle_reconnect env now config channel false s =
    flush_buffered config
      (record s { intake_failure = false; accepting = true; wakes = wake_channel channel s.wakes })

abbrev pub audit_deleted : Environment → ℕ → ℕ → Option OutboxRow → Adapter → Adapter
audit_deleted env now message none s = s
audit_deleted env now message (some operation) s = record s {
  database = audit env now (canonical_message_deleted operation.id message) none none s.database;
}

-- SELECT … WHERE operation_type = 'canonical_message' AND discord_message_id = ? LIMIT 1
abbrev pub canonical_operation : Database → ℕ → Option OutboxRow
canonical_operation db message =
    find? (λ (o : OutboxRow). is_canonical o.operation_type && id_is o.discord_message_id message)
      db.outbox

unfoldable pub handle_delete : Environment → ℕ → ℕ → Adapter → Adapter
handle_delete env now message s =
    audit_deleted env now message (canonical_operation s.database message) s

-- What comes to the adapter, and how other parts of the program leave the tables.
pub data Event : Type 0 where
  message_created : GatewayMessage → Event
  message_deleted : (now message : ℕ) → Event
  task_run : (now : ℕ) → Event
  went_offline : Event
  reconnect_began : Event
  reconnect_ended : (now : ℕ) (channel : Option ℕ) (failed : Bool) → Event
  accepting_started : Event
  others_stored : Database → List CheckpointRow → Event

unfoldable pub step : Environment → AdapterConfig → Event → Adapter → Adapter
step env config (message_created message) s = handle_message config message s
step env config (message_deleted now message) s = handle_delete env now message s
step env config (task_run now) s = run_task env now s
step env config went_offline s = disconnected s
step env config reconnect_began s = disconnected s
step env config (reconnect_ended now channel failed) s =
    handle_reconnect env now config channel failed s
step env config accepting_started s = start_accepting_messages config s
step env config (others_stored db checkpoints) s = record s {
  database = db;
  checkpoints = checkpoints;
}

abbrev pub run : Environment → AdapterConfig → List Event → Adapter → Adapter
run env config [] s = s
run env config (e ∷ es) s = run env config es (step env config e s)
