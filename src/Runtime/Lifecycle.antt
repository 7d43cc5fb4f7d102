-- ===== src/Runtime/Lifecycle.antt =====
-- ApplicationRuntime of src/main.ts with RuntimeHealth of src/runtime/health.ts, and
-- formatStartupError of src/runtime/startup-error.ts. The steps are those of composeApplication, and
-- whether one fails is a parameter.
use herald_of_jams.Base.{
  ℕ, ◌≡◌, refl, arith, Bool, true, false, not, ◌&&◌, ◌||◌, Bool-cases, inl, inr, List, [], ◌∷◌,
  ◌++◌, Option, none, some, Text, codes, append_assoc, subst, starts_with, is_empty, all, leb, ◌==◌,
  if◌then◌else◌,
}

pub data OperationalState : Type 0 where
  starting reconciling ready degraded : OperationalState

pub data RuntimeStep : Type 0 where
  migrate load_active_channel connect_discord : RuntimeStep
  reconcile : (channel : ℕ) → RuntimeStep
  dispatch_pending start_http enable_live_intake : RuntimeStep
  stop_http stop_discord drain_work close_database : RuntimeStep

-- `done` are the steps that ended well, in their order.
pub record Runtime : Type 0 where
  pub started : Bool
  pub stopped : Bool
  pub health : OperationalState
  pub done : List RuntimeStep

-- The statements of start and shutdown.
pub data Statement : Type 0 where
  set_health : OperationalState → Statement
  perform : RuntimeStep → Statement
  mark_started : Statement

-- The flag says that all statements ran: one that throws ends them.
unfoldable pub run_statements : (RuntimeStep → Bool) → List Statement → Runtime → Bool × Runtime
run_statements fails [] s = (true, s)
run_statements fails (set_health state ∷ rest) s =
    run_statements fails rest (record s { health = state })
run_statements fails (mark_started ∷ rest) s =
    run_statements fails rest (record s { started = true })
run_statements fails (perform step ∷ rest) s =
    let next = run_statements fails rest (record s { done = s.done ++ step ∷ [] }) in
    if fails step then (false, s) else next

abbrev pub reconcile_active : Option ℕ → List Statement
reconcile_active none = []
reconcile_active (some channel) = perform (reconcile channel) ∷ []

abbrev pub start_statements : Option ℕ → List Statement
start_statements active =
    set_health starting
    ∷ perform migrate
    ∷ perform load_active_channel
    ∷ perform connect_discord
    ∷ set_health reconciling
    ∷ (reconcile_active active
        ++ (perform dispatch_pending
            ∷ perform start_http
            ∷ perform enable_live_intake
            ∷ set_health ready
            ∷ mark_started
            ∷ []))

unfoldable pub start : (RuntimeStep → Bool) → Option ℕ → Runtime → Bool × Runtime
start fails active s =
    if s.started then (true, s) else run_statements fails (start_statements active) s

unfoldable pub shutdown : (RuntimeStep → Bool) → Runtime → Bool × Runtime
shutdown fails s =
    if s.stopped
    then (true, s)
    else run_statements fails
        (perform stop_http
          ∷ perform stop_discord
          ∷ perform drain_work
          ∷ perform close_database
          ∷ [])
        (record s { stopped = true })

-- RuntimeHealth.snapshot
abbrev pub snapshot : Bool → Runtime → OperationalState
snapshot critical_failure s = if critical_failure then degraded else s.health

-- An error of the start: `none` is a value that is no instance of Error.
pub record StartupError : Type 0 where
  pub named : Option (Text × Text)
  pub code : Option Text

-- /^[A-Z0-9_]+$/
abbrev pub is_code : Text → Bool
is_code t =
    not (is_empty t)
    && all (λ c. leb b'A' c && leb c b'Z' || leb b'0' c && leb c b'9' || c == b'_') t

abbrev pub with_code : Text → Option Text → Text
with_code name none = codes "Herald of Jams failed to start: " ++ name
with_code name (some code) =
    if is_code code
    then codes "Herald of Jams failed to start: " ++ (name ++ (codes " [" ++ (code ++ codes "]")))
    else codes "Herald of Jams failed to start: " ++ name

-- The name and the message of an error.
abbrev pub format_named : Option (Text × Text) → Option Text → Text
format_named none code = with_code (codes "UnknownError") code
format_named (some (name, message)) code =
    if starts_with (codes "Invalid configuration") message then message else with_code name code

unfoldable pub format_startup_error : StartupError → Text
format_startup_error error = format_named error.named error.code

abbrev pub new_runtime : Runtime
new_runtime = record { started = false; stopped = false; health = starting; done = [] }

abbrev pub performed : List Statement → List RuntimeStep
performed [] = []
performed (perform step ∷ rest) = step ∷ performed rest
performed (_ ∷ rest) = performed rest

abbrev pub is_ready : OperationalState → Bool
is_ready ready = true
is_ready _ = false

abbrev pub is_quiet : Statement → Bool
is_quiet (set_health state) = not (is_ready state)
is_quiet (perform step) = true
is_quiet mark_started = false

abbrev ending : List Statement
ending = set_health ready ∷ mark_started ∷ []

-- What has run agrees with what the state shows.
abbrev pub Shows : List RuntimeStep → Bool × Runtime → Type 0
Shows steps r =
    (r.1.started ≡ r.0)
    × (is_ready r.1.health ≡ r.0)
    × ((rest : List RuntimeStep) × (steps ≡ r.1.done ++ rest) × (r.0 ≡ true → rest ≡ []))

run_statements-Shows :
    (fails : RuntimeStep → Bool) (body : List Statement) (s : Runtime)
    → all is_quiet body ≡ true
    → s.started ≡ false
    → is_ready s.health ≡ false
    → Shows (s.done ++ performed body) (run_statements fails (body ++ ending) s)
unfolding run_statements
run_statements-Shows fails [] s q a h = (refl, refl, ([], refl, λ e. refl))
run_statements-Shows fails (set_health state ∷ body) s q a h =
    run_statements-Shows fails body (record s { health = state }) (ground arith) a (ground arith)
run_statements-Shows fails (mark_started ∷ body) s q a h = cc
run_statements-Shows fails (perform step ∷ body) s q a h = elim (Bool-cases (fails step)) [
  | inl bad ↦ rw bad (a, h, (step ∷ performed body, refl, λ e. absurd (ground (arith, e))))
  | inr good ↦ rw good (
      subst
        (λ steps.
          Shows steps
            (run_statements fails (body ++ ending) (record s { done = s.done ++ step ∷ [] })))
        (append_assoc s.done (step ∷ []) (performed body))
        (run_statements-Shows fails body (record s { done = s.done ++ step ∷ [] }) q a h))
]

-- A start of the program does its steps in the order of the code up to the first that fails; the
-- program counts as started, and as ready, exactly if none fails, and then all of them are done.
pub start-Shows :
    (fails : RuntimeStep → Bool) (active : Option ℕ)
    → Shows (performed (start_statements active)) (start fails active new_runtime)
unfolding start
start-Shows fails none =
    run_statements-Shows fails
      (set_health starting
        ∷ perform migrate
        ∷ perform load_active_channel
        ∷ perform connect_discord
        ∷ set_health reconciling
        ∷ perform dispatch_pending
        ∷ perform start_http
        ∷ perform enable_live_intake
        ∷ [])
      new_runtime refl refl refl
start-Shows fails (some channel) =
    run_statements-Shows fails
      (set_health starting
        ∷ perform migrate
        ∷ perform load_active_channel
        ∷ perform connect_discord
        ∷ set_health reconciling
        ∷ perform (reconcile channel)
        ∷ perform dispatch_pending
        ∷ perform start_http
        ∷ perform enable_live_intake
        ∷ [])
      new_runtime refl refl refl
