-- ===== src/Pump.antt =====
-- src/application/outbox-pump.ts: the channels that wait for the dispatcher, one at a time. The pump
-- is a state machine: its methods, and what the event loop calls, are the events.
pub mod Waking
pub mod Serving
use herald_of_jams.Base.{◌≡◌, ◌⊎◌, inl, inr, refl}
use herald_of_jams.Base.{
  ℕ, suc, ◌+◌, ◌-◌, min, max, Bool, true, false, not, ◌&&◌, ◌||◌, List, [], ◌∷◌, ◌++◌, Option, none,
  some, ◌==◌, if◌then◌else◌, is_empty, is_some, contains, select, find?,
}
use herald_of_jams.Dispatcher.{DispatchResult, idle, delivered, retry_scheduled, needs_review}

pub record RetryTimer : Type 0 where
  pub id : ℕ
  pub channel_id : ℕ
  pub delay : ℕ

-- The promise of drain: none, one that waits for the dispatcher, or one that has left its loop and
-- whose `finally` is still to run.
pub data Draining : Type 0 where
  no_drain : Draining
  dispatching : (channel : ℕ) → Draining
  drained : Draining

-- `timers` are those that the event loop has yet to fire; `retry_timers` is the map of the pump,
-- from a channel to the id of a timer.
pub record Pump : Type 0 where
  pub queued : List ℕ
  pub retry_timers : List (ℕ × ℕ)
  pub timers : List RetryTimer
  pub interval : Bool
  pub draining : Draining
  pub running : Bool
  -- How many timers were made.
  pub issued : ℕ

abbrev pub stopped_pump : Pump
stopped_pump = record {
  queued = [];
  retry_timers = [];
  timers = [];
  interval = false;
  draining = no_drain;
  running = false;
  issued = 0;
}

-- Set.prototype.add, which keeps the order of insertion.
abbrev pub add : List ℕ → ℕ → List ℕ
add set a = if contains set a then set else set ++ a ∷ []

abbrev pub add_all : List ℕ → List ℕ → List ℕ
add_all set [] = set
add_all set (a ∷ rest) = add_all (add set a) rest

abbrev pub is_draining : Draining → Bool
is_draining no_drain = false
is_draining (dispatching channel) = true
is_draining drained = true

abbrev pub next_channel : List ℕ → Pump → Pump
next_channel [] p = record p { draining = drained }
next_channel (channel ∷ queued) p = record p { queued = queued; draining = dispatching channel }

-- The head of the loop of drain, up to the call of the dispatcher.
unfoldable pub drain_on : Pump → Pump
drain_on p = if p.running then next_channel p.queued p else record p { draining = drained }

unfoldable pub schedule_drain : Pump → Pump
schedule_drain p =
    if not p.running || is_draining p.draining || is_empty p.queued then p else drain_on p

abbrev pub timer_of : List (ℕ × ℕ) → ℕ → Option ℕ
timer_of [] channel = none
timer_of ((c, id) ∷ timers) channel = if c == channel then some id else timer_of timers channel

-- Map.prototype.delete
abbrev pub delete_timer : List (ℕ × ℕ) → ℕ → List (ℕ × ℕ)
delete_timer timers channel = select (λ t. not (t.0 == channel)) timers

abbrev pub clear_timeout : Option ℕ → List RetryTimer → List RetryTimer
clear_timeout none timers = timers
clear_timeout (some id) timers = select (λ t. not (t.id == id)) timers

unfoldable pub wake : ℕ → Pump → Pump
wake channel p =
    if not p.running
    then p
    else schedule_drain (record p {
      timers = clear_timeout (timer_of p.retry_timers channel) p.timers;
      retry_timers = delete_timer p.retry_timers channel;
      queued = add p.queued channel;
    })

unfoldable pub wake_all : List ℕ → Pump → Pump
wake_all channels p = schedule_drain (record p { queued = add_all p.queued channels })

unfoldable pub start : List ℕ → Pump → Pump
start channels p =
    if p.running then p else wake_all channels (record p { running = true; interval = true })

abbrev pub clear_all : List (ℕ × ℕ) → List RetryTimer → List RetryTimer
clear_all [] timers = timers
clear_all (entry ∷ entries) timers = clear_all entries (clear_timeout (some entry.1) timers)

-- Up to the wait for the drain.
unfoldable pub stop : Pump → Pump
stop p = record p {
  running = false;
  interval = false;
  timers = clear_all p.retry_timers p.timers;
  retry_timers = [];
}

-- Math.max(0, Math.min(300_000, at - Date.now())); the subtraction stops at 0, as the maximum does.
unfoldable pub retry_wait_time : ℕ → ℕ → ℕ
retry_wait_time now at = min 300000 (at - now)

-- Map.prototype.set: a timer that the channel had before stays in the event loop.
unfoldable pub schedule_retry : ℕ → ℕ → ℕ → Pump → Pump
schedule_retry now channel at p = if not p.running then p else record p {
  timers =
      p.timers
      ++ record { id = p.issued; channel_id = channel; delay = retry_wait_time now at } ∷ [];
  retry_timers = (channel, p.issued) ∷ delete_timer p.retry_timers channel;
  issued = suc p.issued;
}

-- What the call of the dispatcher comes to: its result, or an error.
pub data Ended : Type 0 where
  dispatched : (result : DispatchResult) → Ended
  dispatch_failed : Ended

unfoldable pub take_result : ℕ → ℕ → Ended → Pump → Pump
take_result now channel dispatch_failed p = schedule_retry now channel (now + 1000) p
take_result now channel (dispatched idle) p = p
take_result now channel (dispatched (delivered operation)) p = record p {
  queued = add p.queued channel;
}
take_result now channel (dispatched (retry_scheduled operation at)) p =
    schedule_retry now channel at p
take_result now channel (dispatched (needs_review operation)) p = p

-- The drain goes on after the dispatcher, if it waits for it.
abbrev pub end_in : Draining → ℕ → Ended → Pump → Pump
end_in no_drain now ended p = p
end_in (dispatching channel) now ended p = drain_on (take_result now channel ended p)
end_in drained now ended p = p

unfoldable pub dispatch_ended : ℕ → Ended → Pump → Pump
dispatch_ended now ended p = end_in p.draining now ended p

-- The `finally` of the drain.
abbrev pub settle_in : Draining → Pump → Pump
settle_in no_drain p = p
settle_in (dispatching channel) p = p
settle_in drained p = schedule_drain (record p { draining = no_drain })

unfoldable pub drain_settled : Pump → Pump
drain_settled p = settle_in p.draining p

abbrev pub fire : Option RetryTimer → Pump → Pump
fire none p = p
fire (some timer) p = wake timer.channel_id (record p {
  timers = select (λ t. not (t.id == timer.id)) p.timers;
  retry_timers = delete_timer p.retry_timers timer.channel_id;
})

unfoldable pub timer_fired : ℕ → Pump → Pump
timer_fired id p = fire (find? (λ (t : RetryTimer). t.id == id) p.timers) p

unfoldable pub interval_fired : List ℕ → Pump → Pump
interval_fired channels p = if p.interval then wake_all channels p else p

pub data Event : Type 0 where
  started : (channels : List ℕ) → Event
  stopped : Event
  woken : (channel : ℕ) → Event
  all_woken : (channels : List ℕ) → Event
  ended : (now : ℕ) (ended : Ended) → Event
  settled : Event
  fired : (timer : ℕ) → Event
  ticked : (channels : List ℕ) → Event

unfoldable pub step : Event → Pump → Pump
step (started channels) p = start channels p
step stopped p = stop p
step (woken channel) p = wake channel p
step (all_woken channels) p = wake_all channels p
step (ended now e) p = dispatch_ended now e p
step settled p = drain_settled p
step (fired timer) p = timer_fired timer p
step (ticked channels) p = interval_fired channels p

abbrev pub run : List Event → Pump → Pump
run [] p = p
run (e ∷ es) p = run es (step e p)
