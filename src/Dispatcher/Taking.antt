-- ===== src/Dispatcher/Taking.antt =====
-- What a claim by dispatchNext of src/application/outbox-dispatcher.ts, and the first call, do to the
-- queues.

use herald_of_jams.Base.{
  ℕ, ◌≡◌, refl, subst, ap, ◌∙◌, arith, Bool, true, false, List, [], ◌∷◌, map, some, ◌==◌, All,
  All_mono,
}
use herald_of_jams.Store.{Database, OutboxRow}
use herald_of_jams.Outbox.{
  is_resolved, is_delivering, unresolved_in, claim_next, claimed, update_operation,
  recover_stale_deliveries, recovered_row,
}
use herald_of_jams.Outbox.Claims.{lowest-IsLowest, All-select, claim_next-Claim}
use herald_of_jams.Outbox.Order.{claimed-Keeps, recover_stale_deliveries-IsOrdered}
use herald_of_jams.Game.Ordering.{IsOrdered}
use herald_of_jams.Dispatcher.{initialize}
use herald_of_jams.Dispatcher.Queue.{
  queue, HasUniqueIds, HasUniqueIds-update, queue-update, Alike-update, lowest-Alike, queue-head,
  IsFirst, waits_in,
}

-- What a claim that takes an operation leaves.
pub record Taken (channel : ℕ) (db : Database) (id : ℕ) (db' : Database) : Type 0 where
  pub rest : List ℕ
  pub before : queue channel db.outbox ≡ id ∷ rest
  pub same : (c : ℕ) → queue c db'.outbox ≡ queue c db.outbox
  pub now_first : IsFirst channel id rest db'.outbox

still_waits :
    (channel c : ℕ) (o : OutboxRow)
    → waits_in channel o ≡ true
    → waits_in c (claimed o) ≡ waits_in c o
still_waits channel c o h = ground arith

claimed-here :
    (channel : ℕ) (o : OutboxRow)
    → waits_in channel o ≡ true
    → ((claimed o).channel_id ≡ channel) × (is_resolved (claimed o).status ≡ false)
claimed-here channel o h = (ground arith, refl)

pub claim_next-Taken :
    (now channel : ℕ) (db : Database) (row : OutboxRow) (db' : Database)
    → HasUniqueIds db.outbox
    → IsOrdered db.outbox
    → claim_next now channel db ≡ (some row, db')
    → Taken channel db row.id db'
unfolding update_operation queue
claim_next-Taken now channel db row db' u h e =
    let c = claim_next-Claim now channel db row db' e in
    let same_id : c.r.id ≡ row.id = ap (λ (o : OutboxRow). o.id) c.same in
    let (qs, found) = queue-head channel db.outbox c.r h c.first in
    let place =
      (lowest-IsLowest (unresolved_in channel db.outbox) c.r c.first).among
        (λ o. waits_in channel o ≡ true) (All-select (waits_in channel) db.outbox) in
    let alike =
      lowest-Alike (λ o. waits_in channel o ≡ true) channel db.outbox c.r u c.first place in
    let stays : (k : ℕ) → queue k (update_operation c.r.id claimed db).outbox ≡ queue k db.outbox =
      λ k.
        queue-update (λ o. o.id == c.r.id) claimed (claimed-Keeps.id) k db.outbox
          (All_mono _ _ (λ o w t. still_waits channel k o (w t)) db.outbox alike) in
    let taken : Taken channel db c.r.id (update_operation c.r.id claimed db) = record {
      rest = map (λ (o : OutboxRow). o.id) qs;
      before = ap (map (λ (o : OutboxRow). o.id)) found;
      same = stays;
      now_first = record {
        unique = HasUniqueIds-update (λ o. o.id == c.r.id) claimed (claimed-Keeps.id) db.outbox u;
        first = stays channel ∙ ap (map (λ (o : OutboxRow). o.id)) found;
        here =
            Alike-update (λ o. (o.channel_id ≡ channel) × (is_resolved o.status ≡ false)) c.r.id
              claimed db.outbox (claimed-Keeps.id)
              (All_mono _ _ (λ o w t. claimed-here channel o (w t)) db.outbox alike);
      };
    } in
    subst (λ d. Taken channel db row.id d) c.stored
      (subst (λ i. Taken channel db i (update_operation c.r.id claimed db)) same_id taken)

-- Taking up the deliveries of an earlier process changes no queue.
pub record Recovers (db db' : Database) : Type 0 where
  pub unique : HasUniqueIds db'.outbox
  pub ordered : IsOrdered db'.outbox
  pub same : (c : ℕ) → queue c db'.outbox ≡ queue c db.outbox

All-recovered :
    (now c : ℕ) (os : List OutboxRow)
    → All (λ o. is_delivering o.status ≡ true → waits_in c (recovered_row now o) ≡ waits_in c o) os
All-recovered now c [] = tt
All-recovered now c (o ∷ os) = (λ e. ground arith, All-recovered now c os)

pub initialize-Recovers :
    (initialized : Bool) (now : ℕ) (db : Database)
    → HasUniqueIds db.outbox
    → IsOrdered db.outbox
    → Recovers db (initialize initialized now db)
unfolding recover_stale_deliveries
initialize-Recovers true now db u h = record { unique = u; ordered = h; same = λ c. refl }
initialize-Recovers false now db u h = record {
  unique =
      HasUniqueIds-update (λ o. is_delivering o.status) (recovered_row now) (λ o. refl) db.outbox u;
  ordered = recover_stale_deliveries-IsOrdered now db h;
  same = λ c.
      queue-update (λ o. is_delivering o.status) (recovered_row now) (λ o. refl) c db.outbox
        (All-recovered now c db.outbox);
}
