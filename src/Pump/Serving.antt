-- ===== src/Pump/Serving.antt =====
-- How far a queued channel of src/application/outbox-pump.ts is from being served.
use herald_of_jams.Base.{
  ℕ, suc, ◌≡◌, refl, sym, ap, ◌∙◌, arith, Bool, true, false, not, ◌||◌, Bool-cases, inl, inr, List,
  [], ◌∷◌, ◌++◌, append-nil, append_assoc, Option, none, some, find?, select, is_empty, contains,
  any, subst, if-true, if-false, length, ◌==◌,
}
use herald_of_jams.Dispatcher.{idle, delivered, retry_scheduled, needs_review}
use herald_of_jams.Pump.{
  Pump, RetryTimer, dispatching, is_draining, drain_on, next_channel, schedule_drain, settle_in,
  end_in, add, add_all, wake, wake_all, start, take_result, dispatch_ended, drain_settled, fire,
  timer_fired, interval_fired, Event, started, stopped, woken, all_woken, ended, settled, fired,
  ticked, step, run, Ended, dispatched, dispatch_failed, schedule_retry, delete_timer,
}

-- Only the end of the queue changes.
record Grows (p q : Pump) : Type 0 where
  more : List ℕ
  queued : q.queued ≡ p.queued ++ more
  draining : q.draining ≡ p.draining
  running : q.running ≡ p.running

add-grows : (set : List ℕ) (a : ℕ) → (more : List ℕ) × (add set a ≡ set ++ more)
add-grows set a = elim (Bool-cases (contains set a)) [
  | inl here ↦ ([], rw here (sym (append-nil set)))
  | inr new ↦ (a ∷ [], rw new refl)
]

add_all-grows : (set new : List ℕ) → (more : List ℕ) × (add_all set new ≡ set ++ more)
add_all-grows set [] = ([], sym (append-nil set))
add_all-grows set (a ∷ new) =
    let (first, e) = add-grows set a in
    let (rest, f) = add_all-grows (add set a) new in
    (first ++ rest, f ∙ ap (λ s. s ++ rest) e ∙ append_assoc set first rest)

schedule_retry-Grows : (now channel at : ℕ) (p : Pump) → Grows p (schedule_retry now channel at p)
unfolding schedule_retry
schedule_retry-Grows now channel at p = elim (Bool-cases p.running) [
  | inl on ↦
      rw (schedule_retry, on)
        (record { more = []; queued = sym (append-nil p.queued); draining = refl; running = refl })
  | inr off ↦
      rw (schedule_retry, off)
        (record { more = []; queued = sym (append-nil p.queued); draining = refl; running = refl })
]

take_result-Grows : (now channel : ℕ) (e : Ended) (p : Pump) → Grows p (take_result now channel e p)
unfolding take_result
take_result-Grows now channel dispatch_failed p = schedule_retry-Grows now channel _ p
take_result-Grows now channel (dispatched idle) p = record {
  more = [];
  queued = sym (append-nil p.queued);
  draining = refl;
  running = refl;
}
take_result-Grows now channel (dispatched (delivered operation)) p =
    let (more, e) = add-grows p.queued channel in
    record { more = more; queued = e; draining = refl; running = refl }
take_result-Grows now channel (dispatched (retry_scheduled operation at)) p =
    schedule_retry-Grows now channel at p
take_result-Grows now channel (dispatched (needs_review operation)) p = record {
  more = [];
  queued = sym (append-nil p.queued);
  draining = refl;
  running = refl;
}

same_pump : (p : Pump) → Grows p p
same_pump p = record {
  more = [];
  queued = sym (append-nil p.queued);
  draining = refl;
  running = refl;
}

-- A pump that dispatches starts no other drain.
schedule_drain-busy :
    (p : Pump) (channel : ℕ) → p.draining ≡ dispatching channel → schedule_drain p ≡ p
unfolding schedule_drain
schedule_drain-busy p channel e =
    if-true (not p.running || is_draining p.draining || is_empty p.queued) p (drain_on p)
      (rw e (or-true (not p.running) (is_empty p.queued)))
  where
    or-true : (b c : Bool) → (b || true || c) ≡ true
    or-true b c = ground arith

wake-Grows : (w channel : ℕ) (p : Pump) → p.draining ≡ dispatching channel → Grows p (wake w p)
unfolding wake
wake-Grows w channel p e = elim (Bool-cases p.running) [
  | inl on ↦
      let (more, f) = add-grows p.queued w in
      subst (Grows p)
        (sym (if-false (not p.running) _ _ (ap not on) ∙ schedule_drain-busy _ channel e))
        (record { more = more; queued = f; draining = refl; running = refl })
  | inr off ↦ subst (Grows p) (sym (if-true (not p.running) _ _ (ap not off))) (same_pump p)
]

wake_all-Grows :
    (channels : List ℕ) (channel : ℕ) (p : Pump)
    → p.draining ≡ dispatching channel
    → Grows p (wake_all channels p)
unfolding wake_all
wake_all-Grows channels channel p e =
    let (more, f) = add_all-grows p.queued channels in
    subst (Grows p) (sym (schedule_drain-busy _ channel e))
      (record { more = more; queued = f; draining = refl; running = refl })

abbrev pub is_stop : Event → Bool
is_stop stopped = true
is_stop _ = false

abbrev pub is_end : Event → Bool
is_end (ended now e) = true
is_end _ = false

-- How often the dispatcher has ended.
abbrev pub ends : List Event → ℕ
ends [] = 0
ends (ended now e ∷ es) = suc (ends es)
ends (_ ∷ es) = ends es

fire-Grows :
    (timer : Option RetryTimer) (channel : ℕ) (p : Pump)
    → p.draining ≡ dispatching channel
    → Grows p (fire timer p)
fire-Grows none channel p e = same_pump p
fire-Grows (some timer) channel p e =
    let g =
      wake-Grows timer.channel_id channel
        (record p {
          timers = select (λ t. not (t.id == timer.id)) p.timers;
          retry_timers = delete_timer p.retry_timers timer.channel_id;
        })
        e in
    record { more = g.more; queued = g.queued; draining = g.draining; running = g.running }

-- Between two ends of the dispatcher the queue only grows.
step-Grows :
    (e : Event) (channel : ℕ) (p : Pump)
    → p.draining ≡ dispatching channel
    → p.running ≡ true
    → is_stop e ≡ false
    → is_end e ≡ false
    → Grows p (step e p)
unfolding step start dispatch_ended drain_settled timer_fired interval_fired
step-Grows (started channels) channel p e r s n =
    subst (Grows p) (sym (if-true p.running _ _ r)) (same_pump p)
step-Grows stopped channel p e r s n = cc
step-Grows (woken w) channel p e r s n = wake-Grows w channel p e
step-Grows (all_woken channels) channel p e r s n = wake_all-Grows channels channel p e
step-Grows (ended now o) channel p e r s n = cc
step-Grows settled channel p e r s n = subst (λ d. Grows p (settle_in d p)) (sym e) (same_pump p)
step-Grows (fired timer) channel p e r s n =
    fire-Grows (find? (λ (t : RetryTimer). t.id == timer) p.timers) channel p e
step-Grows (ticked channels) channel p e r s n = elim (Bool-cases p.interval) [
  | inl on ↦ subst (Grows p) (sym (if-true p.interval _ _ on)) (wake_all-Grows channels channel p e)
  | inr off ↦ subst (Grows p) (sym (if-false p.interval _ _ off)) (same_pump p)
]

ends-quiet : (event : Event) (es : List Event) → is_end event ≡ false → ends (event ∷ es) ≡ ends es
ends-quiet (started channels) es q = refl
ends-quiet stopped es q = refl
ends-quiet (woken channel) es q = refl
ends-quiet (all_woken channels) es q = refl
ends-quiet (ended now e) es q = cc
ends-quiet settled es q = refl
ends-quiet (fired timer) es q = refl
ends-quiet (ticked channels) es q = refl

-- While nothing ends, the drain goes on waiting.
run-waits :
    (es : List Event) (channel : ℕ) (p : Pump)
    → p.draining ≡ dispatching channel
    → p.running ≡ true
    → any is_stop es ≡ false
    → ends es ≡ 0
    → (run es p).draining ≡ dispatching channel
run-waits [] channel p e r s n = e
run-waits (event ∷ es) channel p e r s n =
    let quiet : is_end event ≡ false = ends-zero event es n in
    let g = step-Grows event channel p e r (ground arith) quiet in
    run-waits es channel (step event p) (g.draining ∙ e) (g.running ∙ r) (ground arith)
      (sym (ends-quiet event es quiet) ∙ n)
  where
    ends-zero : (event : Event) (es : List Event) → ends (event ∷ es) ≡ 0 → is_end event ≡ false
    ends-zero (started channels) es n = refl
    ends-zero stopped es n = refl
    ends-zero (woken channel) es n = refl
    ends-zero (all_woken channels) es n = refl
    ends-zero (ended now e) es n = absurd (omega (arith, n))
    ends-zero settled es n = refl
    ends-zero (fired timer) es n = refl
    ends-zero (ticked channels) es n = refl

drain_on-next :
    (next : ℕ) (queued : List ℕ) (p : Pump)
    → p.running ≡ true
    → p.queued ≡ next ∷ queued
    → drain_on p ≡ record p { queued = queued; draining = dispatching next }
unfolding drain_on
drain_on-next next queued p r q =
    if-true p.running (next_channel p.queued p) _ r ∙ ap (λ qs. next_channel qs p) q

-- The dispatcher ends: the drain goes on with the first channel that is queued.
ended-next :
    (now : ℕ) (e : Ended) (channel next : ℕ) (queued : List ℕ) (p : Pump)
    → p.draining ≡ dispatching channel
    → p.running ≡ true
    → p.queued ≡ next ∷ queued
    → (more : List ℕ) × ((step (ended now e) p).queued ≡ queued ++ more)
      × ((step (ended now e) p).draining ≡ dispatching next)
      × ((step (ended now e) p).running ≡ true)
unfolding step dispatch_ended
ended-next now e channel next queued p d r q =
    let g = take_result-Grows now channel e p in
    let after =
      ap (λ b. end_in b now e p) d
      ∙ drain_on-next next (queued ++ g.more) (take_result now channel e p) (g.running ∙ r)
          (g.queued ∙ ap (λ qs. qs ++ g.more) q) in
    (
      g.more,
      ap (λ (x : Pump). x.queued) after,
      ap (λ (x : Pump). x.draining) after,
      ap (λ (x : Pump). x.running) after ∙ g.running ∙ r,
    )

-- The rest of the events serves the channel, from wherever it stands.
abbrev ServesLater : ℕ → List Event → Type 0
ServesLater channel es =
    (current : ℕ) (before behind : List ℕ) (p : Pump)
    → p.running ≡ true
    → p.draining ≡ dispatching current
    → p.queued ≡ before ++ channel ∷ behind
    → any is_stop es ≡ false
    → ends es ≡ suc (length before)
    → (run es p).draining ≡ dispatching channel

ended-serves :
    (now : ℕ) (e : Ended) (es : List Event) (channel : ℕ)
    → ServesLater channel es
    → ServesLater channel (ended now e ∷ es)
ended-serves now e es channel again current [] behind p r d q s n =
    let (more, rest, busy, on) = ended-next now e current channel behind p d r q in
    run-waits es channel (step (ended now e) p) busy on s (omega (arith, n))
ended-serves now e es channel again current (c ∷ before) behind p r d q s n =
    let (more, rest, busy, on) = ended-next now e current c (before ++ channel ∷ behind) p d r q in
    again c before (behind ++ more) (step (ended now e) p) on busy
      (rest ∙ append_assoc before (channel ∷ behind) more) s (omega (arith, n))

quiet-serves :
    (event : Event) (es : List Event) (channel : ℕ)
    → is_end event ≡ false
    → ServesLater channel es
    → ServesLater channel (event ∷ es)
quiet-serves event es channel quiet again current before behind p r d q s n =
    let g = step-Grows event current p d r (ground arith) quiet in
    again current before (behind ++ g.more) (step event p) (g.running ∙ r) (g.draining ∙ d)
      (g.queued ∙ ap (λ qs. qs ++ g.more) q ∙ append_assoc before (channel ∷ behind) g.more)
      (ground arith) (sym (ends-quiet event es quiet) ∙ n)

event-serves :
    (event : Event) (es : List Event) (channel : ℕ)
    → ServesLater channel es
    → ServesLater channel (event ∷ es)
event-serves (ended now e) es channel again = ended-serves now e es channel again
event-serves (started channels) es channel again = quiet-serves _ es channel refl again
event-serves stopped es channel again = quiet-serves _ es channel refl again
event-serves (woken w) es channel again = quiet-serves _ es channel refl again
event-serves (all_woken channels) es channel again = quiet-serves _ es channel refl again
event-serves settled es channel again = quiet-serves _ es channel refl again
event-serves (fired timer) es channel again = quiet-serves _ es channel refl again
event-serves (ticked channels) es channel again = quiet-serves _ es channel refl again

-- A running pump that waits for the dispatcher, and has a channel queued behind others, waits for
-- the dispatcher to serve that channel once it has ended one time more than there are channels
-- before it, whatever its results and whatever other events come between, unless the pump is
-- stopped.
pub run-serves :
    (es : List Event) (channel current : ℕ) (before behind : List ℕ) (p : Pump)
    → p.running ≡ true
    → p.draining ≡ dispatching current
    → p.queued ≡ before ++ channel ∷ behind
    → any is_stop es ≡ false
    → ends es ≡ suc (length before)
    → (run es p).draining ≡ dispatching channel
run-serves [] channel current before behind p r d q s n = absurd (omega (arith, n))
run-serves (event ∷ es) channel current before behind p r d q s n =
    event-serves event es channel
      (λ c bs hs p' r' d' q' s' n'. run-serves es channel c bs hs p' r' d' q' s' n') current before
      behind p r d q s n
