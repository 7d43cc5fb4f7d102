-- ===== src/Pump/Waking.antt =====
-- What the events of src/application/outbox-pump.ts keep: a channel that waits has a drain.
use herald_of_jams.Base.{
  ℕ, ◌≡◌, refl, arith, Bool, true, not, ◌||◌, Bool-cases, inl, inr, List, [], ◌∷◌, Option, none,
  some, find?, is_empty, ◌==◌,
}
use herald_of_jams.Pump.{
  Pump, RetryTimer, stopped_pump, end_in, settle_in, Draining, no_drain, dispatching, drained,
  is_draining, drain_on, schedule_drain, wake, wake_all, start, stop, dispatch_ended, drain_settled,
  fire, timer_fired, interval_fired, Event, started, stopped, woken, all_woken, ended, settled,
  fired, ticked, step, run, Ended,
}

-- A running pump that has a channel queued drains.
abbrev pub is_live : Pump → Bool
is_live p = not p.running || is_empty p.queued || is_draining p.draining

drain_on-IsLive : (p : Pump) → is_live (drain_on p) ≡ true
unfolding drain_on
drain_on-IsLive p = ground arith

schedule_drain-IsLive : (p : Pump) → is_live (schedule_drain p) ≡ true
unfolding schedule_drain drain_on
schedule_drain-IsLive p = ground arith

wake-IsLive : (channel : ℕ) (p : Pump) → is_live (wake channel p) ≡ true
unfolding wake
wake-IsLive channel p = elim (Bool-cases p.running) [
  | inl on ↦ rw (wake, on) (schedule_drain-IsLive _)
  | inr off ↦ rw (wake, off) refl
]

fire-IsLive :
    (timer : Option RetryTimer) (p : Pump) → is_live p ≡ true → is_live (fire timer p) ≡ true
fire-IsLive none p h = h
fire-IsLive (some timer) p h = wake-IsLive timer.channel_id _

end_in-IsLive :
    (d : Draining) (now : ℕ) (e : Ended) (p : Pump)
    → is_live p ≡ true
    → is_live (end_in d now e p) ≡ true
end_in-IsLive no_drain now e p h = h
end_in-IsLive (dispatching channel) now e p h = drain_on-IsLive _
end_in-IsLive drained now e p h = h

settle_in-IsLive : (d : Draining) (p : Pump) → is_live p ≡ true → is_live (settle_in d p) ≡ true
settle_in-IsLive no_drain p h = h
settle_in-IsLive (dispatching channel) p h = h
settle_in-IsLive drained p h = schedule_drain-IsLive _

step-IsLive : (e : Event) (p : Pump) → is_live p ≡ true → is_live (step e p) ≡ true
unfolding step start wake_all stop dispatch_ended drain_settled timer_fired interval_fired
step-IsLive (started channels) p h = elim (Bool-cases p.running) [
  | inl on ↦ rw on (rw on at h)
  | inr off ↦ rw off (schedule_drain-IsLive _)
]
step-IsLive stopped p h = refl
step-IsLive (woken channel) p h = wake-IsLive channel p
step-IsLive (all_woken channels) p h = schedule_drain-IsLive _
step-IsLive (ended now e) p h = end_in-IsLive p.draining now e p h
step-IsLive settled p h = settle_in-IsLive p.draining p h
step-IsLive (fired timer) p h = fire-IsLive (find? (λ (t : RetryTimer). t.id == timer) p.timers) p h
step-IsLive (ticked channels) p h = elim (Bool-cases p.interval) [
  | inl on ↦ rw on (schedule_drain-IsLive _)
  | inr off ↦ rw off h
]

-- Whatever happens, in whatever order: a running pump that has a channel queued has a drain, so
-- that no channel is forgotten.
pub run-IsLive : (es : List Event) → is_live (run es stopped_pump) ≡ true
run-IsLive es = from es stopped_pump refl
  where
    from : (es : List Event) (p : Pump) → is_live p ≡ true → is_live (run es p) ≡ true
    from [] p h = h
    from (e ∷ es) p h = from es (step e p) (step-IsLive e p h)
