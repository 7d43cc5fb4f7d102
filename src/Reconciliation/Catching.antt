-- ===== src/Reconciliation/Catching.antt =====
-- The loops of reconcile of src/application/reconciliation-service.ts: what they keep, and where
-- they end.
use herald_of_jams.Base.{
  ℕ, zero, suc, ◌<◌, ◌≡◌, refl, sym, subst, ap, arith, Bool, false, Bool-cases, inl, inr, List, [],
  ◌∷◌, Option, none, some, Result, ok, throw, Error, ok-injective,
}
use herald_of_jams.Store.{Database, Environment}
use herald_of_jams.Game.Submissions.{InboundDiscordMessage}
use herald_of_jams.Checkpoints.{CheckpointRow, checkpoint, checkpoint-advance_checkpoint}
use herald_of_jams.Reconciliation.{reconcile_failed}
use herald_of_jams.Reconciliation.{
  History, Progress, examine, examine_in, examined, examine_all, on_result, map_ok, Caught,
  caught_up, caught_error, not_yet, is_same, after_listing, waited, on_answer, catch_up,
  first_progress, reach_mark, announce_reset, Reconciled, reconciled, unfinished, close_result,
  close, reconcile, is_after,
}
use herald_of_jams.Reconciliation.Ending.{is_unfinished, reconcile-ends}

abbrev pub progress_of : Caught → Progress
progress_of (caught_up high_water p) = p
progress_of (caught_error error p) = p
progress_of (not_yet p) = p

-- Something that every message keeps, the loops keep.
module _ {ℓ} (env : Environment) (clock : ℕ → ℕ) (channel : ℕ) (P : Progress → Type ℓ)
    (keeps : (now : ℕ) (message : InboundDiscordMessage) (p q : Progress)
      → P p
      → examine env now channel message p ≡ ok q
      → P q) where
  on_result-keeps :
      (p : Progress) (next : Progress → Progress × Option Error) (r : Result Progress)
      → P p
      → ((q : Progress) → r ≡ ok q → P (next q).0)
      → P (on_result p next r).0
  on_result-keeps p next (throw error) h n = h
  on_result-keeps p next (ok q) h n = n q refl

  pub examine_all-keeps :
      (messages : List InboundDiscordMessage) (p : Progress)
      → P p
      → P (examine_all env clock channel messages p).0
  unfolding examine_all
  examine_all-keeps [] p h = h
  examine_all-keeps (message ∷ messages) p h =
      on_result-keeps p _ _ h
        (λ q e. examine_all-keeps messages q (keeps (clock p.examined_count) message p q h e))

  module _
      (waits : (meanwhile : Database → Database) (p : Progress)
        → P p
        → P (waited meanwhile p)) where
    after_listing-keeps :
        (high_water : ℕ) (final : Result (Option ℕ)) (meanwhile : Database → Database)
        (next : Option ℕ → Progress → Caught) (r : Progress × Option Error)
        → P r.0
        → ((mark : Option ℕ) (q : Progress) → P q → P (progress_of (next mark q)))
        → P (progress_of (after_listing high_water final meanwhile next r))
    after_listing-keeps high_water final meanwhile next (p, some error) h n = h
    after_listing-keeps high_water (throw error) meanwhile next (p, none) h n = waits meanwhile p h
    after_listing-keeps high_water (ok final) meanwhile next (p, none) h n =
        elim (Bool-cases (is_same final high_water)) [
          | inl same ↦ rw same (waits meanwhile p h)
          | inr other ↦ rw other (n final (waited meanwhile p) (waits meanwhile p h))
        ]

    pub on_answer-keeps {κ} :
        {A : Type κ} (p : Progress) (next : A → Caught) (r : Result A)
        → P p
        → ((a : A) → P (progress_of (next a)))
        → P (progress_of (on_answer (λ error. caught_error error p) next r))
    on_answer-keeps p next (throw error) h n = h
    on_answer-keeps p next (ok a) h n = n a

    pub catch_up-keeps :
        (history : History) (fuel n : ℕ) (mark : Option ℕ) (p : Progress)
        → P p
        → P (progress_of (catch_up env clock history channel fuel n mark p))
    unfolding catch_up
    catch_up-keeps history fuel n none p h = h
    catch_up-keeps history zero n (some high_water) p h =
        elim (Bool-cases (is_after high_water p.at)) [
          | inl more ↦ rw more h
          | inr all_seen ↦ rw all_seen h
        ]
    catch_up-keeps history (suc fuel) n (some high_water) p h =
        let listed_at = waits (history.during_listing n) p h in
        elim (Bool-cases (is_after high_water p.at)) [
          | inl more ↦ rw more (
              on_answer-keeps (waited (history.during_listing n) p) _ (history.listed n p.at)
                listed_at
                (λ listed.
                  after_listing-keeps high_water (history.latest (suc n))
                    (history.during_latest (suc n))
                    (λ final x. catch_up env clock history channel fuel (suc n) final x) _
                    (examine_all-keeps _ _ listed_at)
                    (λ mark q k. catch_up-keeps history fuel (suc n) mark q k)))
          | inr all_seen ↦ rw all_seen h
        ]

-- The variable of the loop is the stored checkpoint.
abbrev IsStored : ℕ → Progress → Type 0
IsStored channel p = p.at ≡ checkpoint channel p.checkpoints

examine-IsStored :
    (env : Environment) (channel now : ℕ) (message : InboundDiscordMessage) (p q : Progress)
    → IsStored channel p
    → examine env now channel message p ≡ ok q
    → IsStored channel q
unfolding examine
examine-IsStored env channel now message p q h e =
    stored (examine_in env now message p.breaking p.completed p) e
  where
    stored :
        (r : Result Progress) → map_ok (examined now channel message) r ≡ ok q → IsStored channel q
    stored (throw error) e = cc
    stored (ok x) e =
        subst (IsStored channel) (ok-injective e)
          (sym (checkpoint-advance_checkpoint now channel message.id x.checkpoints))

-- Nothing up to the mark is left.
abbrev pub is_behind : Option ℕ → Option ℕ → Bool
is_behind none at = false
is_behind (some high_water) at = is_after high_water at

pub reach_mark-done :
    (clock : ℕ → ℕ) (channel : ℕ) (mark : Option ℕ) (p : Progress)
    → IsStored channel p
    → is_behind mark (checkpoint channel (reach_mark clock channel mark p).checkpoints) ≡ false
unfolding reach_mark
reach_mark-done clock channel none p h = refl
reach_mark-done clock channel (some high_water) p h = elim (Bool-cases (is_after high_water p.at)) [
  | inl more ↦
      rw
        (
          more,
          checkpoint-advance_checkpoint (clock p.examined_count) channel high_water p.checkpoints,
        )
        (ground arith)
  | inr all_seen ↦ rw (all_seen, ← h) all_seen
]

close_result-done :
    (channel : ℕ) (mark : Option ℕ) (p : Progress) (r : Result Progress) (high_water : Option ℕ)
    (q : Progress)
    → is_behind mark (checkpoint channel p.checkpoints) ≡ false
    → ((x : Progress) → r ≡ ok x → x.checkpoints ≡ p.checkpoints)
    → close_result mark p r ≡ reconciled high_water q
    → is_behind high_water (checkpoint channel q.checkpoints) ≡ false
close_result-done channel mark p (throw error) high_water q d s e = cc
close_result-done channel mark p (ok x) high_water q d s e =
    let marks : mark ≡ high_water = cc in let ends : x ≡ q = cc in rw (← marks, ← ends, s x refl) d

announce_reset-checkpoints :
    (env : Environment) (clock : ℕ → ℕ) (breaking : Option ℕ) (p x : Progress)
    → announce_reset env clock breaking p ≡ ok x
    → x.checkpoints ≡ p.checkpoints
unfolding announce_reset
announce_reset-checkpoints env clock none p x e =
    ap (λ (y : Progress). y.checkpoints) (sym (ok-injective e))
announce_reset-checkpoints env clock (some breaking) p x e = announced _ e
  where
    announced :
        (r : Result (ℕ × Database))
        → map_ok (λ announced. record p { database = announced.1 }) r ≡ ok x
        → x.checkpoints ≡ p.checkpoints
    announced (throw error) e = cc
    announced (ok y) e = ap (λ (y : Progress). y.checkpoints) (sym (ok-injective e))

close-done :
    (env : Environment) (clock : ℕ → ℕ) (channel : ℕ) (c : Caught) (high_water : Option ℕ)
    (q : Progress)
    → IsStored channel (progress_of c)
    → close env clock channel c ≡ reconciled high_water q
    → is_behind high_water (checkpoint channel q.checkpoints) ≡ false
close-done env clock channel (caught_error error p) high_water q h e = cc
close-done env clock channel (not_yet p) high_water q h e = cc
close-done env clock channel (caught_up mark p) high_water q h e =
    close_result-done channel mark _ _ high_water q (reach_mark-done clock channel mark p h)
      (λ x. announce_reset-checkpoints env clock _ _ x) e

-- A reconciliation that ends without an error leaves no message unexamined: the checkpoint it
-- stores is at or behind its high water mark.
reconcile-done :
    (env : Environment) (clock : ℕ → ℕ) (history : History) (channel fuel : ℕ) (db : Database)
    (checkpoints : List CheckpointRow) (high_water : Option ℕ) (q : Progress)
    → reconcile env clock history channel fuel db checkpoints ≡ reconciled high_water q
    → is_behind high_water (checkpoint channel q.checkpoints) ≡ false
unfolding reconcile
reconcile-done env clock history channel fuel db checkpoints high_water q e =
    close-done env clock channel _ high_water q
      (on_answer-keeps env clock channel (IsStored channel) (examine-IsStored env channel)
        (λ meanwhile p h. h) (first_progress channel (history.during_latest 0 db) checkpoints) _
        (history.latest 0) refl
        (λ mark.
          catch_up-keeps env clock channel (IsStored channel) (examine-IsStored env channel)
            (λ meanwhile p h. h) history fuel 0 mark _ refl))
      e

-- How a reconciliation may end: with an error, or with a checkpoint that is not behind the mark.
abbrev pub IsDone : ℕ → Reconciled → Type 0
IsDone channel (reconciled high_water q) =
    is_behind high_water (checkpoint channel q.checkpoints) ≡ false
IsDone channel (reconcile_failed error q) = Unit {0}
IsDone channel (unfinished q) = ⊥

-- Once the latest message after a listing is the one before it, a reconciliation with fuel for that
-- many listings and one more ends: with an error of the game or of the transport, or with a stored
-- checkpoint that is not behind the high water mark it answers.
pub reconcile-IsDone :
    (env : Environment) (clock : ℕ → ℕ) (history : History) (channel n fuel : ℕ) (db : Database)
    (checkpoints : List CheckpointRow)
    → history.latest (suc n) ≡ history.latest n
    → n < fuel
    → IsDone channel (reconcile env clock history channel fuel db checkpoints)
reconcile-IsDone env clock history channel n fuel db checkpoints quiet enough =
    from (reconcile env clock history channel fuel db checkpoints) refl
      (reconcile-ends env clock history channel n fuel db checkpoints quiet enough)
  where
    from :
        (r : Reconciled)
        → reconcile env clock history channel fuel db checkpoints ≡ r
        → is_unfinished r ≡ false
        → IsDone channel r
    from (reconciled high_water q) e f =
        reconcile-done env clock history channel fuel db checkpoints high_water q e
    from (reconcile_failed error q) e f = tt
    from (unfinished q) e f = absurd (ground arith)
