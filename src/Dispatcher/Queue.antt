-- ===== src/Dispatcher/Queue.antt =====
-- The unresolved operations of a channel as a queue of ids, under the updates of rows that
-- src/application/outbox-dispatcher.ts makes.
use herald_of_jams.Base.{
  ℕ, suc, ◌≡◌, ◌≢◌, refl, sym, subst, ap, arith, Bool, true, false, not, ◌&&◌, Bool-cases,
  Option-cases, inl, inr, List, [], ◌∷◌, map, Option, none, some, ◌==◌, ==_iff, ==_self, any,
  select, update_where, All, ◌∙◌,
}
use herald_of_jams.Store.{OutboxRow, in_channel}
use herald_of_jams.Outbox.{is_resolved, lowest, unresolved_in}
use herald_of_jams.Outbox.Claims.{AtLeast, lowest-IsLowest}
use herald_of_jams.Outbox.Progress.{Chained-AtLeast, select-select, unresolved}
use herald_of_jams.Outbox.Order.{Keeps}
use herald_of_jams.Game.Ordering.{Chained, IsOrdered}

-- The ids of the operations that a channel still waits for, in their order.
unfoldable pub queue : ℕ → List OutboxRow → List ℕ
queue channel os = map (λ (o : OutboxRow). o.id) (unresolved_in channel os)

-- The primary key of discord_outbox.
abbrev pub HasUniqueIds : List OutboxRow → Type 0
HasUniqueIds [] = Unit {0}
HasUniqueIds (o ∷ os) = (any (λ p. p.id == o.id) os ≡ false) × HasUniqueIds os

abbrev pub waits_in : ℕ → OutboxRow → Bool
waits_in channel o = o.channel_id == channel && not (is_resolved o.status)

abbrev pub KeepsId : (OutboxRow → OutboxRow) → Type 0
KeepsId f = (o : OutboxRow) → (f o).id ≡ o.id

module _ (p : OutboxRow → Bool) (f : OutboxRow → OutboxRow) (k : KeepsId f) where
  any-update :
      (id : ℕ) (os : List OutboxRow)
      → any (λ o. o.id == id) (update_where p f os) ≡ any (λ o. o.id == id) os
  any-update id [] = refl
  any-update id (o ∷ os) = elim (Bool-cases (p o)) [
    | inl h ↦ rw (h, k o, any-update id os) refl
    | inr h ↦ rw (h, any-update id os) refl
  ]

  pub HasUniqueIds-update :
      (os : List OutboxRow) → HasUniqueIds os → HasUniqueIds (update_where p f os)
  HasUniqueIds-update [] u = tt
  HasUniqueIds-update (o ∷ os) u = elim (Bool-cases (p o)) [
    | inl h ↦ rw (h, k o, any-update o.id os) (u.0, HasUniqueIds-update os u.1)
    | inr h ↦ rw (h, any-update o.id os) (u.0, HasUniqueIds-update os u.1)
  ]

  -- A change that leaves every row where it waits leaves the queue.
  pub queue-update :
      (channel : ℕ) (os : List OutboxRow)
      → All (λ o. p o ≡ true → waits_in channel (f o) ≡ waits_in channel o) os
      → queue channel (update_where p f os) ≡ queue channel os
  unfolding queue
  queue-update channel [] h = refl
  queue-update channel (o ∷ os) h = elim (Bool-cases (p o)) [
    | inr e ↦ elim (Bool-cases (waits_in channel o)) [
      | inl w ↦ rw (e, w) (ap (◌∷◌ o.id) (queue-update channel os h.1))
      | inr w ↦ rw (e, w) (queue-update channel os h.1)
    ]
    | inl e ↦ elim (Bool-cases (waits_in channel o)) [
      | inl w ↦ rw (e, h.0 e, w, k o) (ap (◌∷◌ o.id) (queue-update channel os h.1))
      | inr w ↦ rw (e, h.0 e, w) (queue-update channel os h.1)
    ]
  ]

-- Every row with the id of a row has what the row has.
abbrev pub Alike : (OutboxRow → Type 0) → ℕ → List OutboxRow → Type 0
Alike P id = All (λ o. (o.id == id) ≡ true → P o)

Alike-absent :
    (P : OutboxRow → Type 0) (id : ℕ) (os : List OutboxRow)
    → any (λ o. o.id == id) os ≡ false
    → Alike P id os
Alike-absent P id [] h = tt
Alike-absent P id (o ∷ os) h = (λ e. ground arith, Alike-absent P id os (ground arith))

absent-All :
    (id : ℕ) (os : List OutboxRow)
    → any (λ o. o.id == id) os ≡ false
    → All (λ o. (o.id == id) ≡ false) os
absent-All id [] h = tt
absent-All id (o ∷ os) h = (ground arith, absent-All id os (ground arith))

Alike-cons :
    (P : OutboxRow → Type 0) (o : OutboxRow) (os qs : List OutboxRow)
    → All (λ q. (q.id == o.id) ≡ false) qs
    → All (λ q. P q → Alike P q.id os) qs
    → All (λ q. P q → Alike P q.id (o ∷ os)) qs
Alike-cons P o os [] a b = tt
Alike-cons P o os (q ∷ qs) a b = (λ h. (λ e. ground arith, b.0 h), Alike-cons P o os qs a.1 b.1)

-- Where ids are unique, a row is the only one with its id.
Alike-self :
    (P : OutboxRow → Type 0) (os : List OutboxRow)
    → HasUniqueIds os
    → All (λ q. P q → Alike P q.id os) os
Alike-self P [] u = tt
Alike-self P (o ∷ os) u = (
  λ h. (λ e. h, Alike-absent P o.id os u.0),
  Alike-cons P o os os (absent-All o.id os u.0) (Alike-self P os u.1),
)

All-part :
    (Q : OutboxRow → Type 0) (p : OutboxRow → Bool) (os : List OutboxRow)
    → All Q os
    → All Q (select p os)
All-part Q p [] a = tt
All-part Q p (o ∷ os) a = elim (Bool-cases (p o)) [
  | inl h ↦ rw h (a.0, All-part Q p os a.1)
  | inr h ↦ rw h (All-part Q p os a.1)
]

pub lowest-Alike :
    (P : OutboxRow → Type 0) (channel : ℕ) (os : List OutboxRow) (r : OutboxRow)
    → HasUniqueIds os
    → lowest (unresolved_in channel os) ≡ some r
    → P r
    → Alike P r.id os
lowest-Alike P channel os r u e h =
    (lowest-IsLowest (unresolved_in channel os) r e).among (λ q. P q → Alike P q.id os)
      (All-part _ (waits_in channel) os (Alike-self P os u)) h

-- An update of the rows of one id settles what they have.
pub Alike-update :
    (P : OutboxRow → Type 0) (id : ℕ) (f : OutboxRow → OutboxRow) (os : List OutboxRow)
    → KeepsId f
    → All (λ o. (o.id == id) ≡ true → P (f o)) os
    → Alike P id (update_where (λ o. o.id == id) f os)
Alike-update P id f [] k h = tt
Alike-update P id f (o ∷ os) k h = elim (Bool-cases (o.id == id)) [
  | inl e ↦ rw e (λ e'. h.0 e, Alike-update P id f os k h.1)
  | inr e ↦ rw e (λ e'. absurd (ground arith), Alike-update P id f os k h.1)
]

lowest-head :
    (o : OutboxRow) (qs : List OutboxRow)
    → All (AtLeast (suc o.sequence_number)) qs
    → lowest (o ∷ qs) ≡ some o
unfolding lowest AtLeast
lowest-head o qs a = elim (Option-cases (lowest qs)) [
  | inl empty ↦ rw empty refl
  | inr (p, found) ↦
      let behind = (lowest-IsLowest qs p found).among (AtLeast (suc o.sequence_number)) a in
      rw found (ground arith)
]

lowest-nil : {r : OutboxRow} → lowest [] ≡ some r → ⊥
unfolding lowest
lowest-nil e = cc

-- The lowest operation of an ordered channel is its first.
lowest-first :
    (n : ℕ) (previous : Option ℕ) (os : List OutboxRow) (r : OutboxRow)
    → Chained n previous os
    → lowest (unresolved os) ≡ some r
    → (qs : List OutboxRow) × (unresolved os ≡ r ∷ qs)
lowest-first n previous [] r c e = absurd (lowest-nil e)
lowest-first n previous (o ∷ os) r c e = elim (Bool-cases (is_resolved o.status)) [
  | inl done ↦ rw done (lowest-first (suc n) (some o.id) os r c.2 (rw done at e))
  | inr waits ↦
      let later = Chained-AtLeast (suc n) (some o.id) os c.2 in
      let first =
        lowest-head o (unresolved os)
          (subst (λ m. All (AtLeast (suc m)) (unresolved os)) (sym c.0) later) in
      let same : some o ≡ some r = sym first ∙ rw waits at e in
      rw waits (unresolved os, ap (λ x. x ∷ unresolved os) cc)
]

-- The head of the queue is what a claim takes.
pub queue-head :
    (channel : ℕ) (os : List OutboxRow) (r : OutboxRow)
    → IsOrdered os
    → lowest (unresolved_in channel os) ≡ some r
    → (qs : List OutboxRow) × (unresolved_in channel os ≡ r ∷ qs)
queue-head channel os r h e =
    let same = select-select channel os in
    let (qs, f) =
      lowest-first 0 none (in_channel channel os) r (h channel)
        (subst (λ xs. lowest xs ≡ some r) same e) in
    (qs, same ∙ f)

update-absent :
    (id : ℕ) (f : OutboxRow → OutboxRow) (os : List OutboxRow)
    → any (λ o. o.id == id) os ≡ false
    → update_where (λ o. o.id == id) f os ≡ os
update-absent id f [] h = refl
update-absent id f (o ∷ os) h = elim (Bool-cases (o.id == id)) [
  | inl here ↦ absurd (ground arith)
  | inr elsewhere ↦ rw elsewhere (ap (◌∷◌ o) (update-absent id f os (ground arith)))
]

-- Where an update resolves the first operation, the queue goes on with the next.
pub queue-resolve :
    (channel : ℕ) (f : OutboxRow → OutboxRow) (os : List OutboxRow) (r : OutboxRow)
    (qs : List OutboxRow)
    → ((o : OutboxRow) → is_resolved (f o).status ≡ true)
    → HasUniqueIds os
    → unresolved_in channel os ≡ r ∷ qs
    → queue channel (update_where (λ o. o.id == r.id) f os) ≡ map (λ (o : OutboxRow). o.id) qs
unfolding queue
queue-resolve channel f [] r qs done u e = cc
queue-resolve channel f (o ∷ os) r qs done u e = elim (Bool-cases (waits_in channel o)) [
  | inl here ↦
      let e' : o ∷ unresolved_in channel os ≡ r ∷ qs = rw here at e in
      let same : o ≡ r = cc in
      let rest : unresolved_in channel os ≡ qs = cc in
      let gone : waits_in channel (f o) ≡ false = rw (done o) (ground arith) in
      let hit : (o.id == r.id) ≡ true = rw (← same) (==_self o.id) in
      let absent : update_where (λ p. p.id == r.id) f os ≡ os =
        update-absent r.id f os (subst (λ q. any (λ p. p.id == q.id) os ≡ false) same u.0) in
      rw (hit, gone)
        (ap (λ xs. map (λ (o : OutboxRow). o.id) (unresolved_in channel xs)) absent
          ∙ ap (map (λ (o : OutboxRow). o.id)) rest)
  | inr elsewhere ↦
      let e' : unresolved_in channel os ≡ r ∷ qs = rw elsewhere at e in
      let next = queue-resolve channel f os r qs done u.1 e' in
      elim (Bool-cases (o.id == r.id)) [
        | inl hit ↦
            let gone : waits_in channel (f o) ≡ false = rw (done o) (ground arith) in
            rw (hit, gone) next
        | inr miss ↦ rw (miss, elsewhere) next
      ]
]

map-cons :
    (os : List OutboxRow) (id : ℕ) (ids : List ℕ)
    → map (λ (o : OutboxRow). o.id) os ≡ id ∷ ids
    → (q : OutboxRow) × (qs : List OutboxRow) × (os ≡ q ∷ qs)
      × (q.id ≡ id)
      × (map (λ (o : OutboxRow). o.id) qs ≡ ids)
map-cons [] id ids e = cc
map-cons (q ∷ qs) id ids e = (q, qs, refl, cc, cc)

-- The first operation of a channel is known, by its id and by its rows.
pub record IsFirst (channel id : ℕ) (ids : List ℕ) (os : List OutboxRow) : Type 0 where
  pub unique : HasUniqueIds os
  pub first : queue channel os ≡ id ∷ ids
  pub here : Alike (λ o. (o.channel_id ≡ channel) × (is_resolved o.status ≡ false)) id os

module _ (channel id : ℕ) (ids : List ℕ) (os : List OutboxRow) (w : IsFirst channel id ids os)
    (f : OutboxRow → OutboxRow) (k : Keeps f) where
  same_place :
      ((o : OutboxRow) → is_resolved (f o).status ≡ false)
      → (c : ℕ) (rows : List OutboxRow)
      → Alike (λ o. (o.channel_id ≡ channel) × (is_resolved o.status ≡ false)) id rows
      → All (λ o. (o.id == id) ≡ true → waits_in c (f o) ≡ waits_in c o) rows
  same_place waits c [] a = tt
  same_place waits c (o ∷ rows) a =
      (λ e. rw (k.channel o, waits o, (a.0 e).1) refl, same_place waits c rows a.1)

  -- An update of its rows that resolves nothing leaves every queue.
  pub queue-wait :
      ((o : OutboxRow) → is_resolved (f o).status ≡ false)
      → (c : ℕ) → queue c (update_where (λ o. o.id == id) f os) ≡ queue c os
  queue-wait waits c = queue-update (λ o. o.id == id) f k.id c os (same_place waits c os w.here)

  elsewhere :
      (c : ℕ) (rows : List OutboxRow)
      → c ≢ channel
      → Alike (λ o. (o.channel_id ≡ channel) × (is_resolved o.status ≡ false)) id rows
      → All (λ o. (o.id == id) ≡ true → waits_in c (f o) ≡ waits_in c o) rows
  elsewhere c [] other a = tt
  elsewhere c (o ∷ rows) other a = (
    λ e. let h : (o.channel_id == c) ≡ false = not_here o (a.0 e).0 in rw (k.channel o, h) refl,
    elsewhere c rows other a.1,
  )
    where
      not_here : (o : OutboxRow) → o.channel_id ≡ channel → (o.channel_id == c) ≡ false
      not_here o h = elim (Bool-cases (o.channel_id == c)) [
        | inl same ↦ absurd (other (sym ((==_iff o.channel_id c).0 same) ∙ h))
        | inr differs ↦ differs
      ]

  -- An update that resolves it takes it from the queue of its channel, and leaves the others.
  pub queue-done :
      ((o : OutboxRow) → is_resolved (f o).status ≡ true)
      → (queue channel (update_where (λ o. o.id == id) f os) ≡ ids)
        × ((c : ℕ) → c ≢ channel → queue c (update_where (λ o. o.id == id) f os) ≡ queue c os)
  unfolding queue
  queue-done done =
      let (q, qs, e, here, rest) = map-cons (unresolved_in channel os) id ids w.first in
      (
        subst (λ i. queue channel (update_where (λ o. o.id == i) f os) ≡ ids) here
            (queue-resolve channel f os q qs done w.unique e ∙ rest),
        λ c other. queue-update (λ o. o.id == id) f k.id c os (elsewhere c os other w.here),
      )
