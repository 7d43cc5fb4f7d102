-- ===== src/Game/Outgoing.antt =====
-- The private helpers of GameService that write: audit events, players, and the Discord outbox.
use herald_of_jams.Base.{
  ℕ, zero, suc, ◌+◌, ◌-◌, max, List, [], ◌∷◌, ◌++◌, Option, none, some, Text, codes, ◌==◌,
  if◌then◌else◌, length, take, drop, is_empty, any, update_where,
}
use herald_of_jams.Store.{
  Database, Environment, next_id, OutboxRow, OperationType, canonical_message, Payload,
  canonical_payload, pending, AuditEvent, highest, in_channel,
}

unfoldable pub audit : Environment → ℕ → AuditEvent → Option ℕ → Option ℕ → Database → Database
audit env now event round actor db = record db {
  audits =
      db.audits
      ++ record {
        id = next_id env db;
        event = event;
        round_id = round;
        actor_id = actor;
        created_at = now;
      }
        ∷ [];
  issued = suc db.issued;
}

abbrev pub sequence_of : Option OutboxRow → ℕ
sequence_of none = 0
sequence_of (some o) = o.sequence_number

abbrev pub id_of : Option OutboxRow → Option ℕ
id_of none = none
id_of (some o) = some o.id

-- The row that `enqueue` inserts.
abbrev pub new_operation : Environment → ℕ → ℕ → OperationType → Payload → Database → OutboxRow
new_operation env now channel type payload db =
    let predecessor = highest (in_channel channel db.outbox) in
    let id = next_id env db in
    record {
      id = id;
      channel_id = channel;
      sequence_number = sequence_of predecessor + 1;
      predecessor_id = id_of predecessor;
      operation_type = type;
      payload = payload;
      nonce = env.nonce id;
      status = pending;
      attempt_count = 0;
      next_attempt_at = none;
      last_error = none;
      discord_message_id = none;
      created_at = now;
      resolved_at = none;
    }

-- The id of the new operation is `next_id env db`.
unfoldable pub enqueue : Environment → ℕ → ℕ → OperationType → Payload → Database → Database
enqueue env now channel type payload db = record db {
  outbox = db.outbox ++ new_operation env now channel type payload db ∷ [];
  issued = suc db.issued;
}

abbrev pub continuation_prefix : Text
continuation_prefix = codes "↳ "

-- The contents of the messages that show `remaining`. The fuel is more than its length: each round
-- takes at least one code unit.
unfoldable pub canonical_contents : ℕ → Text → Text → List Text
canonical_contents zero prefix remaining = []
canonical_contents (suc f) prefix remaining =
    let available = max 1 (2000 - length prefix) in
    let rest = canonical_contents f continuation_prefix (drop available remaining) in
    (prefix ++ take available remaining)
    ∷ (if is_empty (drop available remaining) then [] else rest)

unfoldable pub enqueue_parts :
    Environment → ℕ → ℕ → ℕ → ℕ → List Text → Database → List ℕ × Database
enqueue_parts env now channel submission part [] db = ([], db)
enqueue_parts env now channel submission part (content ∷ contents) db =
    let queued =
      enqueue env now channel canonical_message (canonical_payload content submission part) db in
    let rest = enqueue_parts env now channel submission (part + 1) contents queued in
    (next_id env db ∷ rest.0, rest.1)

unfoldable pub enqueue_canonical :
    Environment → ℕ → ℕ → Text → Text → ℕ → Database → List ℕ × Database
enqueue_canonical env now channel display_name digits submission db =
    enqueue_parts env now channel submission 1
      (canonical_contents (suc (length digits)) (display_name ++ codes ": ") digits) db

-- INSERT INTO players … ON CONFLICT DO UPDATE
unfoldable pub ensure_player : ℕ → ℕ → Text → Database → Database
ensure_player now player name db =
    if any (λ p. p.discord_user_id == player) db.players
    then record db {
      players =
          update_where (λ p. p.discord_user_id == player)
            (λ p. record p { latest_display_name = name; updated_at = now }) db.players;
    }
    else record db {
      players =
          db.players
          ++ record { discord_user_id = player; latest_display_name = name; updated_at = now } ∷ [];
    }
