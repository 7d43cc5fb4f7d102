-- ===== src/Tests/Intake.antt =====
-- The theorems on src/discord, applied.
use herald_of_jams.Base.{
  ℕ, zero, suc, ◌≤◌, ◌<◌, ◌≡◌, refl, Bool, true, false, List, [], ◌∷◌, ◌++◌, Option, none, some,
  codes, All, arith, ltb, length, select, take, drop, throw, bad_progress,
}
use herald_of_jams.Base.Int.{negsuc}
use herald_of_jams.Numeric.{parse_numeric_submission}
use herald_of_jams.Scoring.{penalty_severity}
use herald_of_jams.Engine.{evaluate_submission, counting}
use herald_of_jams.Store.{Database, LeaderboardEntry, active_round, submission, active_attempt_of}
use herald_of_jams.Game.Leaderboard.{newline}
use herald_of_jams.Game.Submissions.{accepted_authors, engine_state, banned_players}
use herald_of_jams.Game.Messages.{process_message, process_in_round, apply_decision}
use herald_of_jams.Discord.Pages.{
  leaderboard_pages, FitsMessage, broken_lines, escaped_lines, leaderboard_pages-fit,
}
use herald_of_jams.Discord.Intake.{
  GatewayMessage, AdapterConfig, Adapter, Event, is_admitted, message_created, went_offline,
  reconnect_began, reconnect_ended, others_stored, task_run, run_task, step, run,
}
use herald_of_jams.Discord.Intake.Gate.{IsClosed, IsKept, held, run_task-IsClosed}
use herald_of_jams.Discord.Intake.Passing.{reconnect-passes}
use herald_of_jams.Reconciliation.{is_after}
use herald_of_jams.Discord.Listing.{order_page, insert_message, eligible, list_messages_after}
use herald_of_jams.Discord.Listing.Paging.{
  IsAscending, IsAscending-later, later, newest, list_messages_after-reached,
}
use herald_of_jams.Tests.Fixtures.{small_env, empty_database, active_row, small_message}

abbrev config : AdapterConfig
config = record { guild_id = 1; channel_id = none }

abbrev from_player : GatewayMessage
from_player = record {
  inbound = record small_message { content = codes "5" };
  guild_id = some 1;
  author_is_bot = false;
  webhook_id = none;
}

abbrev from_bot : GatewayMessage
from_bot = record from_player { inbound = record small_message { id = 901 }; author_is_bot = true }

-- A round that counts with no attempt, which the program never stores: a submission fails there.
abbrev torn_database : Database
torn_database = record empty_database { rounds = record active_row { state = counting } ∷ [] }

abbrev waiting_adapter : Adapter
waiting_adapter = record {
  accepting = true;
  intake_failure = false;
  buffered = [];
  tasks = from_player ∷ from_player ∷ [];
  wakes = [];
  database = torn_database;
  checkpoints = [];
}

fails : process_message small_env 2000 from_player.inbound false torn_database ≡ throw bad_progress
unfolding process_message active_round submission process_in_round parse_numeric_submission
    evaluate_submission engine_state banned_players apply_decision accepted_authors
    active_attempt_of penalty_severity
fails = refl

-- A transaction of the administration, say, that comes while the gate is closed.
abbrev some_events : List Event
some_events =
    message_created from_bot
    ∷ task_run 2001
    ∷ others_stored empty_database []
    ∷ reconnect_began
    ∷ reconnect_ended 2002 (some 7) true
    ∷ []

run_task_example :
    IsClosed (run small_env config some_events (run_task small_env 2000 waiting_adapter))
    × ((held
            (λ m. true)
            (run small_env config some_events (run_task small_env 2000 waiting_adapter))
          ≡ 2)
        × IsKept (run small_env config some_events (run_task small_env 2000 waiting_adapter)) (
            step small_env config
              (task_run 2003)
              (run small_env config some_events (run_task small_env 2000 waiting_adapter))))
run_task_example =
    run_task-IsClosed small_env config 2000 from_player (from_player ∷ []) bad_progress
      waiting_adapter some_events (task_run 2003) (λ m. true) refl refl fails refl refl refl

reconnect_example :
    run small_env config
      (went_offline
        ∷ ((message_created from_bot ∷ [])
            ++ (reconnect_began
                ∷ ((others_stored torn_database [] ∷ message_created from_player ∷ [])
                    ++ reconnect_ended 3000 (some 7) false ∷ []))))
      waiting_adapter
    ≡ record waiting_adapter {
      tasks =
          waiting_adapter.tasks
          ++ select
              (is_admitted config torn_database)
              (([] ++ (from_bot ∷ [])) ++ (from_player ∷ []));
      wakes = 7 ∷ [];
    }
reconnect_example =
    reconnect-passes small_env config 3000 (some 7) (message_created from_bot ∷ [])
      (others_stored torn_database [] ∷ message_created from_player ∷ []) waiting_adapter refl refl

-- A channel of messages with ids from one on.
abbrev messages_from : ℕ → ℕ → List GatewayMessage
messages_from zero id = []
messages_from (suc n) id =
    record from_player { inbound = record small_message { id = id } } ∷ messages_from n (suc id)

messages_from-Above : (n id low : ℕ) → low < id → All (λ m. low < m.inbound.id) (messages_from n id)
messages_from-Above zero id low h = tt
messages_from-Above (suc n) id low h = (h, messages_from-Above n (suc id) low (omega (arith, h)))

messages_from-IsAscending : (n id : ℕ) → IsAscending (messages_from n id)
messages_from-IsAscending zero id = tt
messages_from-IsAscending (suc n) id =
    (messages_from-Above n (suc id) id (omega arith), messages_from-IsAscending n (suc id))

length-messages_from : (n id : ℕ) → length (messages_from n id) ≡ n
length-messages_from zero id = refl
length-messages_from (suc n) id = omega (arith, length-messages_from n (suc id))

length-select-le :
    (p : GatewayMessage → Bool) (ms : List GatewayMessage) → length (select p ms) ≤ length ms
length-select-le p [] = omega arith
length-select-le p (m ∷ ms) = ground (arith, length-select-le p ms)

order_page-IsAscending : (ms : List GatewayMessage) → IsAscending ms → order_page ms ≡ ms
unfolding order_page
order_page-IsAscending [] h = refl
order_page-IsAscending (m ∷ ms) h = rw (order_page-IsAscending ms h.1) (first ms h.0)
  where
    first :
        (ms : List GatewayMessage)
        → All (λ n. m.inbound.id < n.inbound.id) ms
        → insert_message m ms ≡ m ∷ ms
    first [] h = refl
    first (n ∷ ms) h =
        let above : ltb n.inbound.id m.inbound.id ≡ false = ground (arith, h.0) in rw above refl

IsAscending-take : (n : ℕ) (ms : List GatewayMessage) → IsAscending ms → IsAscending (take n ms)
IsAscending-take zero ms h = tt
IsAscending-take (suc n) [] h = tt
IsAscending-take (suc n) (m ∷ ms) h = (All-take n ms h.0, IsAscending-take n ms h.1)
  where
    All-take :
        (n : ℕ) (ns : List GatewayMessage)
        → All (λ n. m.inbound.id < n.inbound.id) ns
        → All (λ n. m.inbound.id < n.inbound.id) (take n ns)
    All-take zero ns a = tt
    All-take (suc n) [] a = tt
    All-take (suc n) (x ∷ ns) a = (a.0, All-take n ns a.1)

IsAscending-drop : (n : ℕ) (ms : List GatewayMessage) → IsAscending ms → IsAscending (drop n ms)
IsAscending-drop zero ms h = h
IsAscending-drop (suc n) [] h = tt
IsAscending-drop (suc n) (m ∷ ms) h = IsAscending-drop n ms h.1

-- A channel with two and a half pages.
abbrev channel_history : List GatewayMessage
channel_history = messages_from 250 1

abbrev fetch_page : Option ℕ → List GatewayMessage
fetch_page none = newest channel_history
fetch_page (some at) = take 100 (later (some at) channel_history)

fetch_page-IsAscending :
    (at : ℕ) → order_page (fetch_page (some at)) ≡ take 100 (later (some at) channel_history)
fetch_page-IsAscending at = order_page-IsAscending _ (
    IsAscending-take 100 _
      (IsAscending-later (some at) channel_history (messages_from-IsAscending 250 1)))

list_messages_after_example :
    list_messages_after fetch_page 251 (some 5) ≡ eligible (later (some 5) channel_history)
list_messages_after_example =
    list_messages_after-reached channel_history (messages_from-IsAscending 250 1) fetch_page
      (order_page-IsAscending _
        (IsAscending-drop 150 channel_history (messages_from-IsAscending 250 1)))
      fetch_page-IsAscending 251 (some 5) few
  where
    few : length (later (some 5) channel_history) < 251
    few = omega (
      arith,
      length-select-le (λ m. is_after m.inbound.id (some 5)) channel_history,
      length-messages_from 250 1,
    )

abbrev ann : LeaderboardEntry
ann = record { player_id = 42; display_name = codes "A_nn"; total = negsuc 1 }

leaderboard_pages_example :
    (All FitsMessage (leaderboard_pages (ann ∷ [])))
    × (broken_lines (leaderboard_pages (ann ∷ []))
        ≡ newline ∷ codes "Season leaderboard" ++ broken_lines (escaped_lines 0 (ann ∷ [])))
leaderboard_pages_example = leaderboard_pages-fit ann []
