-- ===== src/Discord/Intake/Passing.antt =====
-- The buffer of src/discord/discord-adapter.ts: what arrives while the bot is offline.
use herald_of_jams.Base.{
  ℕ, ◌≡◌, refl, sym, ap, ◌∙◌, Bool, true, false, not, Bool-cases, inl, inr, List, [], ◌∷◌, ◌++◌,
  append-nil, append_assoc, Option, select, all, if-true, if-false,
}
use herald_of_jams.Store.{Database, Environment}
use herald_of_jams.Checkpoints.{CheckpointRow}
use herald_of_jams.Discord.Intake.Gate.{arrivals}
use herald_of_jams.Discord.Intake.{
  GatewayMessage, AdapterConfig, Adapter, is_admitted, handle_message, handle_all, flush_buffered,
  handle_reconnect, disconnected, wake_channel, Event, message_created, message_deleted, task_run,
  went_offline, reconnect_began, reconnect_ended, accepting_started, others_stored, step, run,
}

-- An open gate passes the admitted messages on, in their order, and nothing else changes.
abbrev Passed : AdapterConfig → List GatewayMessage → Adapter → Adapter → Type 0
Passed config messages s t =
    t ≡ record s { tasks = s.tasks ++ select (is_admitted config s.database) messages }

handle_all-open :
    (config : AdapterConfig) (messages : List GatewayMessage) (s : Adapter)
    → s.accepting ≡ true
    → Passed config messages s (handle_all config messages s)
unfolding handle_all handle_message
handle_all-open config [] s o =
    ap (λ (ts : List GatewayMessage). record s { tasks = ts }) (sym (append-nil s.tasks))
handle_all-open config (m ∷ messages) s o = elim (Bool-cases (is_admitted config s.database m)) [
  | inl good ↦
      let one : handle_message config m s ≡ record s { tasks = s.tasks ++ m ∷ [] } =
        if-false (not s.accepting) _ _ (ap not o) ∙ if-true _ _ _ good in
      rw (one, good)
        (handle_all-open config messages (record s { tasks = s.tasks ++ m ∷ [] }) o
          ∙ ap (λ (ts : List GatewayMessage). record s { tasks = ts })
              (append_assoc s.tasks (m ∷ []) (select (is_admitted config s.database) messages)))
  | inr bad ↦
      let one : handle_message config m s ≡ s =
        if-false (not s.accepting) _ _ (ap not o) ∙ if-false _ _ _ bad in
      rw (one, bad) (handle_all-open config messages s o)
]

-- What comes while the bot is offline: messages, and transactions of other parts of the program.
abbrev pub is_waiting : Event → Bool
is_waiting (message_created m) = true
is_waiting (others_stored db checkpoints) = true
is_waiting _ = false

-- The tables that the last of the transactions leaves.
abbrev pub left_database : List Event → Database → Database
left_database [] db = db
left_database (others_stored after checkpoints ∷ es) db = left_database es after
left_database (_ ∷ es) db = left_database es db

abbrev pub left_checkpoints : List Event → List CheckpointRow → List CheckpointRow
left_checkpoints [] checkpoints = checkpoints
left_checkpoints (others_stored db after ∷ es) checkpoints = left_checkpoints es after
left_checkpoints (_ ∷ es) checkpoints = left_checkpoints es checkpoints

abbrev Waited : List Event → Adapter → Adapter → Type 0
Waited es s t = t ≡ record s {
  buffered = s.buffered ++ arrivals es;
  database = left_database es s.database;
  checkpoints = left_checkpoints es s.checkpoints;
}

-- A closed gate keeps every message.
run-closed :
    (env : Environment) (config : AdapterConfig) (es : List Event) (s : Adapter)
    → s.accepting ≡ false
    → all is_waiting es ≡ true
    → Waited es s (run env config es s)
unfolding step handle_message
run-closed env config [] s c w =
    ap (λ (ms : List GatewayMessage). record s { buffered = ms }) (sym (append-nil s.buffered))
run-closed env config (message_created m ∷ es) s c w =
    let one : handle_message config m s ≡ record s { buffered = s.buffered ++ m ∷ [] } =
      if-true (not s.accepting) _ _ (ap not c) in
    ap (run env config es) one
    ∙ run-closed env config es (record s { buffered = s.buffered ++ m ∷ [] }) c w
    ∙ ap
        (λ (ms : List GatewayMessage). record s {
          buffered = ms;
          database = left_database es s.database;
          checkpoints = left_checkpoints es s.checkpoints;
        })
        (append_assoc s.buffered (m ∷ []) (arrivals es))
run-closed env config (others_stored db checkpoints ∷ es) s c w =
    run-closed env config es (record s { database = db; checkpoints = checkpoints }) c w
run-closed env config (message_deleted now message ∷ es) s c w = cc
run-closed env config (task_run now ∷ es) s c w = cc
run-closed env config (went_offline ∷ es) s c w = cc
run-closed env config (reconnect_began ∷ es) s c w = cc
run-closed env config (reconnect_ended now channel failed ∷ es) s c w = cc
run-closed env config (accepting_started ∷ es) s c w = cc

-- Messages that arrive while the bot is offline, or while a reconnect waits for the reconciliation,
-- wait in the buffer, whatever other parts of the program store meanwhile; when the reconciliation
-- has succeeded, the buffer is empty, and those of its messages that are players' messages of the
-- guild in the channel that is now active are handed to the executor behind the tasks that wait, in
-- the order of arrival.
pub reconnect-passes :
    (env : Environment) (config : AdapterConfig) (now : ℕ) (channel : Option ℕ) (es : List Event)
    (later : List Event) (s : Adapter)
    → all is_waiting es ≡ true
    → all is_waiting later ≡ true
    → run env config
        (went_offline
          ∷ (es ++ (reconnect_began ∷ (later ++ reconnect_ended now channel false ∷ []))))
        s
      ≡ record s {
        accepting = true;
        intake_failure = false;
        buffered = [];
        tasks =
            s.tasks
            ++ select
                (is_admitted config (left_database later (left_database es s.database)))
                ((s.buffered ++ arrivals es) ++ arrivals later);
        wakes = wake_channel channel s.wakes;
        database = left_database later (left_database es s.database);
        checkpoints = left_checkpoints later (left_checkpoints es s.checkpoints);
      }
unfolding step disconnected handle_reconnect flush_buffered
reconnect-passes env config now channel es later s w v =
    let tail = later ++ reconnect_ended now channel false ∷ [] in
    run_append env config es (reconnect_began ∷ tail) (record s { accepting = false })
    ∙ ap (run env config (reconnect_began ∷ tail))
        (run-closed env config es (record s { accepting = false }) refl w)
    ∙ run_append env config later (reconnect_ended now channel false ∷ []) _
    ∙ ap (handle_reconnect env now config channel false) (
        run-closed env config later
          (record s {
            accepting = false;
            buffered = s.buffered ++ arrivals es;
            database = left_database es s.database;
            checkpoints = left_checkpoints es s.checkpoints;
          })
          refl v)
    ∙ handle_all-open config ((s.buffered ++ arrivals es) ++ arrivals later)
        (record s {
          accepting = true;
          intake_failure = false;
          buffered = [];
          wakes = wake_channel channel s.wakes;
          database = left_database later (left_database es s.database);
          checkpoints = left_checkpoints later (left_checkpoints es s.checkpoints);
        })
        refl
  where
    run_append :
        (env : Environment) (config : AdapterConfig) (es fs : List Event) (s : Adapter)
        → run env config (es ++ fs) s ≡ run env config fs (run env config es s)
    run_append env config [] fs s = refl
    run_append env config (e ∷ es) fs s = run_append env config es fs (step env config e s)
