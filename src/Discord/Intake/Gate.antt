-- ===== src/Discord/Intake/Gate.antt =====
-- The gate of src/discord/discord-adapter.ts, once a message has failed.
use herald_of_jams.Base.{
  ℕ, suc, ◌+◌, ◌≡◌, refl, sym, subst, ap, ◌∙◌, arith, Bool, true, false, not, List, [], ◌∷◌, ◌++◌,
  Option, none, some, any, if◌then◌else◌, if-true, if-false, codes, throw, Error,
}
use herald_of_jams.Store.{Environment, OutboxRow}
use herald_of_jams.Game.Outgoing.{audit}
use herald_of_jams.Game.Messages.{process_message}
use herald_of_jams.Discord.Intake.{
  GatewayMessage, AdapterConfig, Adapter, handle_message, close_gate, after_message, run_first,
  run_task, disconnected, handle_reconnect, audit_deleted, handle_delete, Event, message_created,
  message_deleted, task_run, went_offline, reconnect_began, reconnect_ended, accepting_started,
  others_stored, step, run,
}

-- The events that open the gate again.
abbrev pub is_opening : Event → Bool
is_opening (reconnect_ended now channel failed) = not failed
is_opening accepting_started = true
is_opening _ = false

-- Other parts of the program store something.
abbrev pub is_others : Event → Bool
is_others (others_stored db checkpoints) = true
is_others _ = false

-- How many messages pass a test.
abbrev pub count : (GatewayMessage → Bool) → List GatewayMessage → ℕ
count p [] = 0
count p (m ∷ ms) = if p m then suc (count p ms) else count p ms

count-append :
    (p : GatewayMessage → Bool) (ms ns : List GatewayMessage)
    → count p (ms ++ ns) ≡ count p ms + count p ns
count-append p [] ns = omega arith
count-append p (m ∷ ms) ns = ground (arith, count-append p ms ns)

-- The messages that arrive.
abbrev pub arrivals : List Event → List GatewayMessage
arrivals [] = []
arrivals (message_created m ∷ es) = m ∷ arrivals es
arrivals (_ ∷ es) = arrivals es

abbrev pub held : (GatewayMessage → Bool) → Adapter → ℕ
held p s = count p s.tasks + count p s.buffered

pub record IsClosed (s : Adapter) : Type 0 where
  pub failed : s.intake_failure ≡ true
  pub shut : s.accepting ≡ false

-- What the game and the reconciliation rest on is as it was.
pub record IsKept (s t : Adapter) : Type 0 where
  pub checkpoints : t.checkpoints ≡ s.checkpoints
  pub submissions : t.database.submissions ≡ s.database.submissions
  pub rounds : t.database.rounds ≡ s.database.rounds

unchanged-IsKept : (s : Adapter) → IsKept s s
unchanged-IsKept s = record { checkpoints = refl; submissions = refl; rounds = refl }

module _ (env : Environment) (config : AdapterConfig) where
  -- A closed gate stays closed, and keeps what it is given.
  record Stays (p : GatewayMessage → Bool) (s : Adapter) (new : ℕ) (t : Adapter) : Type 0 where
    closed : IsClosed t
    kept : held p t ≡ held p s + new

  created-Stays :
      (p : GatewayMessage → Bool) (m : GatewayMessage) (s : Adapter)
      → IsClosed s
      → Stays p s (count p (m ∷ [])) (handle_message config m s)
        × IsKept s (handle_message config m s)
  unfolding handle_message
  created-Stays p m s c =
      subst (λ t. Stays p s (count p (m ∷ [])) t × IsKept s t)
        (sym (if-true (not s.accepting) _ _ (ap not c.shut)))
        (
          record {
            closed = record { failed = c.failed; shut = c.shut };
            kept = rw (count-append p s.buffered (m ∷ [])) (omega arith);
          },
          record { checkpoints = refl; submissions = refl; rounds = refl },
        )

  closed-Stays : (p : GatewayMessage → Bool) (s : Adapter) → IsClosed s → Stays p s 0 s × IsKept s s
  closed-Stays p s c = (record { closed = c; kept = omega arith }, unchanged-IsKept s)

  offline :
      (p : GatewayMessage → Bool) (s : Adapter)
      → IsClosed s
      → Stays p s 0 (disconnected s) × IsKept s (disconnected s)
  unfolding disconnected
  offline p s c = (
    record { closed = record { failed = c.failed; shut = refl }; kept = omega arith },
    record { checkpoints = refl; submissions = refl; rounds = refl },
  )

  run_first-Stays :
      (p : GatewayMessage → Bool) (now : ℕ) (tasks : List GatewayMessage) (s : Adapter)
      → s.tasks ≡ tasks
      → IsClosed s
      → Stays p s 0 (run_first env now tasks s) × IsKept s (run_first env now tasks s)
  run_first-Stays p now [] s e c = closed-Stays p s c
  run_first-Stays p now (m ∷ tasks) s e c =
      subst (λ t. Stays p s 0 t × IsKept s t) (sym (if-true s.intake_failure _ _ c.failed))
        (
          record {
            closed = record { failed = c.failed; shut = c.shut };
            kept = rw (count-append p s.buffered (m ∷ []), e) (ground arith);
          },
          record { checkpoints = refl; submissions = refl; rounds = refl },
        )

  deleted-Stays :
      (p : GatewayMessage → Bool) (now message : ℕ) (o : Option OutboxRow) (s : Adapter)
      → IsClosed s
      → Stays p s 0 (audit_deleted env now message o s)
        × IsKept s (audit_deleted env now message o s)
  unfolding audit
  deleted-Stays p now message none s c = closed-Stays p s c
  deleted-Stays p now message (some operation) s c = (
    record { closed = record { failed = c.failed; shut = c.shut }; kept = omega arith },
    record { checkpoints = refl; submissions = refl; rounds = refl },
  )

  reconnect-Stays :
      (p : GatewayMessage → Bool) (now : ℕ) (channel : Option ℕ) (s : Adapter)
      → IsClosed s
      → Stays p s 0 (handle_reconnect env now config channel true s)
        × IsKept s (handle_reconnect env now config channel true s)
  unfolding handle_reconnect audit
  reconnect-Stays p now channel s c = (
    record { closed = record { failed = refl; shut = c.shut }; kept = omega arith },
    record { checkpoints = refl; submissions = refl; rounds = refl },
  )

  -- What an event of the adapter's own adds to the arrivals, and that it stores nothing.
  own-Stays :
      (p : GatewayMessage → Bool) (e : Event) (s : Adapter)
      → is_opening e ≡ false
      → is_others e ≡ false
      → IsClosed s
      → Stays p s (count p (arrivals (e ∷ []))) (step env config e s)
        × IsKept s (step env config e s)
  unfolding step run_task handle_delete disconnected
  own-Stays p (message_created m) s o w c = created-Stays p m s c
  own-Stays p (message_deleted now message) s o w c = deleted-Stays p now message _ s c
  own-Stays p (task_run now) s o w c = run_first-Stays p now s.tasks s refl c
  own-Stays p went_offline s o w c = offline p s c
  own-Stays p reconnect_began s o w c = offline p s c
  own-Stays p (reconnect_ended now channel true) s o w c = reconnect-Stays p now channel s c
  own-Stays p (reconnect_ended now channel false) s o w c = cc
  own-Stays p accepting_started s o w c = cc
  own-Stays p (others_stored db checkpoints) s o w c = cc

  step-Stays :
      (p : GatewayMessage → Bool) (e : Event) (s : Adapter)
      → is_opening e ≡ false
      → IsClosed s
      → Stays p s (count p (arrivals (e ∷ []))) (step env config e s)
  unfolding step
  step-Stays p (others_stored db checkpoints) s o c = record {
    closed = record { failed = c.failed; shut = c.shut };
    kept = omega arith;
  }
  step-Stays p (message_created m) s o c = (own-Stays p (message_created m) s o refl c).0
  step-Stays p (message_deleted now message) s o c =
      (own-Stays p (message_deleted now message) s o refl c).0
  step-Stays p (task_run now) s o c = (own-Stays p (task_run now) s o refl c).0
  step-Stays p went_offline s o c = (own-Stays p went_offline s o refl c).0
  step-Stays p reconnect_began s o c = (own-Stays p reconnect_began s o refl c).0
  step-Stays p (reconnect_ended now channel true) s o c =
      (own-Stays p (reconnect_ended now channel true) s o refl c).0
  step-Stays p (reconnect_ended now channel false) s o c = cc
  step-Stays p accepting_started s o c = cc

  arrivals_split :
      (p : GatewayMessage → Bool) (e : Event) (es : List Event)
      → count p (arrivals (e ∷ es)) ≡ count p (arrivals (e ∷ [])) + count p (arrivals es)
  arrivals_split p (message_created m) es = ground arith
  arrivals_split p (message_deleted now message) es = omega arith
  arrivals_split p (task_run now) es = omega arith
  arrivals_split p went_offline es = omega arith
  arrivals_split p reconnect_began es = omega arith
  arrivals_split p (reconnect_ended now channel failed) es = omega arith
  arrivals_split p accepting_started es = omega arith
  arrivals_split p (others_stored db checkpoints) es = omega arith

  run-Stays :
      (p : GatewayMessage → Bool) (es : List Event) (s : Adapter)
      → any is_opening es ≡ false
      → IsClosed s
      → Stays p s (count p (arrivals es)) (run env config es s)
  run-Stays p [] s o c = (closed-Stays p s c).0
  run-Stays p (e ∷ es) s o c =
      let one = step-Stays p e s (ground arith) c in
      let rest = run-Stays p es (step env config e s) (ground arith) one.closed in
      record {
        closed = rest.closed;
        kept = omega (arith, rest.kept, one.kept, arrivals_split p e es);
      }

-- After a message has failed in the game, whatever events follow, transactions of other parts of
-- the program among them, until a reconnect succeeds or the intake is started again: the gate is
-- closed, the messages that wait are those that waited and those that arrived, and the next event
-- of the adapter stores no submission, changes no round and moves no checkpoint.
pub run_task-IsClosed :
    (env : Environment) (config : AdapterConfig) (now : ℕ) (message : GatewayMessage)
    (tasks : List GatewayMessage) (error : Error) (s : Adapter) (es : List Event) (next : Event)
    (p : GatewayMessage → Bool)
    → s.tasks ≡ message ∷ tasks
    → s.intake_failure ≡ false
    → process_message env now message.inbound false s.database ≡ throw error
    → any is_opening es ≡ false
    → is_opening next ≡ false
    → is_others next ≡ false
    → IsClosed (run env config es (run_task env now s))
      × ((held p (run env config es (run_task env now s))
            ≡ count p tasks + count p s.buffered + count p (arrivals es))
          × IsKept
              (run env config es (run_task env now s))
              (step env config next (run env config es (run_task env now s))))
unfolding run_task audit
run_task-IsClosed env config now message tasks error s es next p first open_yet fails o a w =
    let shut = close_gate env now (codes "messageCreate") (record s { tasks = tasks }) in
    let same : run_task env now s ≡ shut =
      ap (λ ts. run_first env now ts s) first
      ∙ if-false s.intake_failure _ _ open_yet
      ∙ ap (after_message env now message (record s { tasks = tasks })) fails in
    let r = run-Stays env config p es shut o (record { failed = refl; shut = refl }) in
    rw same
      (r.closed, (r.kept, (own-Stays env config p next (run env config es shut) a w r.closed).1))
