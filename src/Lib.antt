-- ===== src/Lib.antt =====
-- A Discord bot for a counting game: players count in a channel from the start of a round to its
-- target, and the bot replaces every number by a message of its own, keeps the scores and announces
-- what happens. This library models the program's domain functions, the game service, the outbox
-- with its dispatcher and pump, reconciliation, the intake of messages, the start of the program
-- and the login as functions on values and as state machines, and states what makes them correct.
--
-- The parts. A message comes from the Discord adapter to GameService.processMessage
-- (src/application/game-service.ts). It reads the text (src/domain/numeric-submission.ts), takes
-- the state of the active round from the database, asks the engine (src/domain/game-engine.ts) for
-- a decision, and stores in one transaction the submission, the scores (src/domain/scoring.ts) and
-- the Discord operations that follow, with texts from src/domain/announcement-templates.ts. A round
-- is compiled once, when it is activated (src/domain/round-compiler.ts with
-- src/domain/predicates.ts). The outbox (src/db/outbox-repository.ts) hands the operations out in
-- the order of each channel and records what became of them. The pump
-- (src/application/outbox-pump.ts) wakes the dispatcher (src/application/outbox-dispatcher.ts) for
-- one channel at a time; the dispatcher claims an operation and gives it to the transport. The
-- adapter (src/discord/discord-adapter.ts) buffers messages while the bot is offline or a message
-- has failed; reconciliation (src/application/reconciliation-service.ts) examines the messages that
-- were missed, from the checkpoint of the channel on.
--
-- The files:
--
--   Base: helpers on tests, lists, results and integers
--   Numeric: parseNumericSubmission; Numeric/Order and Numeric/Printing its laws
--   Predicates: isPrime and matchesPredicate; Predicates/Primality
--   Scoring: participationAwards, penaltySeverity, additionalPenalty; Scoring/Penalties,
--     Scoring/Awards
--   Announcements: validateTemplate, resolveAnnouncements, renderAnnouncement;
--     Announcements/Tokens, Rendering, Resolution
--   Rounds: compileRound and its checks and copies; Rounds/Entries, Rounds/Compiling
--   Engine: evaluateSubmission, pauseRound, resumeRound, cancelRound; Engine/Decisions,
--     Engine/Lifecycle
--   Store: the tables (Store/Rows) and shared queries, after src/db/migrations and
--     src/db/game-repository.ts
--   Game: GameService: Outgoing (audit, enqueue, enqueueCanonical, ensurePlayer), Leaderboard,
--     Submissions, Completion (completeRound), Acceptance and Breaking (the branches of
--     processMessage), Messages (processMessage, invalidateAfterReconnectBreak,
--     ensureReconnectReset), Control (activateRound, pauseRound, resumeRound, cancelRound,
--     banPlayer, unbanPlayer, resetSeason); laws in Branches, Ordering, Recording, Contents,
--     Charging, Cancelling
--   Outbox: OutboxRepository; laws in Outbox/Order, Claims, Progress, Delays
--   Dispatcher: dispatchNext with the transport as a parameter; Dispatcher/Queue (the queues of
--     ids), Taking, Refinement, Delivery
--   Pump: OutboxPump as a state machine; Pump/Waking, Pump/Serving
--   Checkpoints: the table channel_checkpoints
--   Reconciliation: reconcile and pendingReconnectBreak; Reconciliation/Ending and Catching (the
--     loops), Effects (the database)
--   Discord: src/discord: Pages and Escaping (the leaderboard command), Intake (DiscordAdapter;
--     Intake/Gate, Intake/Passing), Listing (listMessagesAfter; Listing/Paging), Permissions
--   Migrations: loadMigrations and migrate of src/db/database.ts
--   Runtime: Launch (parseLaunchOptions), Control (installControlChannel), Config (src/config.ts),
--     Lifecycle (ApplicationRuntime, RuntimeHealth, formatStartupError)
--   Web: Login (the login of src/web/server.ts; Login/Lockout, Login/Race) and Sessions
--     (SqliteSessionStore of src/web/auth.ts)
--   Admin: AdminRepository; laws in Admin/Settings, Templates, Order
--   System: all transactions as steps of one relation
--   Tests: the theorems applied to concrete inputs
--
-- How code and model correspond. A JavaScript string is the list of its UTF-16 code units; ids and
-- times are natural numbers; a number of an input that is not yet checked may also be negative or
-- no integer. A table is the list of its rows in the order of insertion, and a JSON column is the
-- value written to it. A transaction is a function from the database to a new database, or an
-- error, without the values its message shows: what throws is rolled back. A transaction reads the
-- clock once. Ids come from a generator, a function of how many were taken. What the program is
-- given (that generator, the nonce of an id, the order of names in SQLite) is the record
-- Environment, a parameter of the model. Code that waits for a promise is cut there: what runs
-- between two waits is one function, and what comes in between is an event (the pump, the adapter,
-- the login) or an argument (the answers of the transport, the readings of the clock). What other
-- parts of the program store while the dispatcher or a reconciliation waits for the transport is a
-- function of the database, a parameter of the model; for the adapter it is an event, also while a
-- reconnect waits for its reconciliation. The methods of the transport are functions of the model's
-- arguments; the library behind them is not modelled.
--
-- Bounds and fuel. Numbers of the program that pass its own checks are at most 2^53 - 1, where its
-- arithmetic is exact. The scanner of templates and the contents of messages run on fuel of the
-- length of the text, of which every step takes at least one code unit; trial division runs to the
-- integer square root, on fuel of the number itself. Reconciliation runs on fuel that bounds its
-- listings, and the listing of messages on fuel that bounds its pages: how much is enough is part
-- of what is proved.
--
-- Not modelled: constraints and triggers of the schema (unique ids of the outbox are a hypothesis
-- where they are needed), errors of SQLite itself, the classes of DiscordJsGateway and the methods
-- of DiscordJsTransport but the listing, the serial executor, the schema of the zod library, the
-- digest of a password, composeApplication, the web routes and the launcher. They are calls of
-- libraries, or wiring, or not yet covered.
pub mod Admin
pub mod Announcements
pub mod Base
pub mod Checkpoints
pub mod Discord
pub mod Dispatcher
pub mod Engine
pub mod Game
pub mod Migrations
pub mod Numeric
pub mod Outbox
pub mod Predicates
pub mod Pump
pub mod Reconciliation
pub mod Rounds
pub mod Runtime
pub mod Scoring
pub mod Store
pub mod System
pub mod Tests
pub mod Web
