-- ===== src/Checkpoints.antt =====
-- The table channel_checkpoints of src/db/migrations/001-initial.sql: for each channel the last
-- message that was examined, as src/application/reconciliation-service.ts and
-- src/discord/discord-adapter.ts read and write it.
use herald_of_jams.Base.{
  ℕ, ◌≡◌, refl, Bool, false, Bool-cases, inl, inr, List, [], ◌∷◌, Option, none, some, leb, ◌==◌,
  ==_self, if◌then◌else◌,
}

pub record CheckpointRow : Type 0 where
  pub channel_id : ℕ
  pub last_examined_message_id : ℕ
  pub updated_at : ℕ

-- SELECT last_examined_message_id … WHERE channel_id = ?
unfoldable pub checkpoint : ℕ → List CheckpointRow → Option ℕ
checkpoint channel [] = none
checkpoint channel (row ∷ rows) =
    if row.channel_id == channel then some row.last_examined_message_id else checkpoint channel rows

-- INSERT … ON CONFLICT(channel_id) DO UPDATE
unfoldable pub advance_checkpoint : ℕ → ℕ → ℕ → List CheckpointRow → List CheckpointRow
advance_checkpoint now channel message [] =
    record { channel_id = channel; last_examined_message_id = message; updated_at = now } ∷ []
advance_checkpoint now channel message (row ∷ rows) =
    if row.channel_id == channel
    then record row { last_examined_message_id = message; updated_at = now } ∷ rows
    else row ∷ advance_checkpoint now channel message rows

abbrev pub is_past : ℕ → Option ℕ → Bool
is_past message none = false
is_past message (some current) = leb message current

-- The adapter keeps a checkpoint that is not before the message.
unfoldable pub advance_forward : ℕ → ℕ → ℕ → List CheckpointRow → List CheckpointRow
advance_forward now channel message rows =
    if is_past message (checkpoint channel rows)
    then rows
    else advance_checkpoint now channel message rows

pub checkpoint-advance_checkpoint :
    (now channel message : ℕ) (rows : List CheckpointRow)
    → checkpoint channel (advance_checkpoint now channel message rows) ≡ some message
unfolding checkpoint advance_checkpoint
checkpoint-advance_checkpoint now channel message [] = rw (==_self channel) refl
checkpoint-advance_checkpoint now channel message (row ∷ rows) =
    elim (Bool-cases (row.channel_id == channel)) [
      | inl same ↦ rw (same, same) refl
      | inr other ↦ rw (other, other) (checkpoint-advance_checkpoint now channel message rows)
    ]
