-- ===== src/Reconciliation/Ending.antt =====
-- That the loops of reconcile of src/application/reconciliation-service.ts end.
use herald_of_jams.Base.{
  ℕ, zero, suc, ◌+◌, ◌≤◌, ◌<◌, ◌≡◌, refl, sym, subst, ◌∙◌, arith, Bool, true, false, Bool-cases,
  inl, inr, List, Option, none, some, ◌==◌, ==_self, ==_iff, Result, ok, throw, Error, ok-injective,
}
use herald_of_jams.Store.{Database, Environment}
use herald_of_jams.Checkpoints.{CheckpointRow}
use herald_of_jams.Reconciliation.{
  History, Progress, Caught, caught_up, caught_error, not_yet, is_same, after_listing, waited,
  on_answer, catch_up, first_progress, Reconciled, unfinished, close_result, close, reconcile,
  is_after,
}

abbrev is_not_yet : Caught → Bool
is_not_yet (not_yet p) = true
is_not_yet _ = false

abbrev pub is_unfinished : Reconciled → Bool
is_unfinished (unfinished p) = true
is_unfinished _ = false

module _ (env : Environment) (clock : ℕ → ℕ) (history : History) (channel : ℕ) (n : ℕ)
    (quiet : history.latest (suc n) ≡ history.latest n) where
  after_listing-ends :
      (high_water : ℕ) (final : Result (Option ℕ)) (meanwhile : Database → Database)
      (next : Option ℕ → Progress → Caught) (r : Progress × Option Error)
      → ((mark : Option ℕ) (q : Progress)
          → ok mark ≡ final
          → is_same mark high_water ≡ false
          → is_not_yet (next mark q) ≡ false)
      → is_not_yet (after_listing high_water final meanwhile next r) ≡ false
  after_listing-ends high_water final meanwhile next (p, some error) h = refl
  after_listing-ends high_water (throw error) meanwhile next (p, none) h = refl
  after_listing-ends high_water (ok mark) meanwhile next (p, none) h =
      elim (Bool-cases (is_same mark high_water)) [
        | inl same ↦ rw same refl
        | inr other ↦ rw other (h mark (waited meanwhile p) refl other)
      ]

  on_answer-ends {κ} :
      {A : Type κ} (p : Progress) (next : A → Caught) (r : Result A)
      → ((a : A) → ok a ≡ r → is_not_yet (next a) ≡ false)
      → is_not_yet (on_answer (λ error. caught_error error p) next r) ≡ false
  on_answer-ends p next (throw error) h = refl
  on_answer-ends p next (ok a) h = h a refl

  -- The latest message after the last listing is the one before it.
  same_mark :
      (high_water : ℕ) (mark : Option ℕ)
      → ok (some high_water) ≡ history.latest n
      → ok mark ≡ history.latest (suc n)
      → is_same mark high_water ≡ true
  same_mark high_water mark e f =
      let same : some high_water ≡ mark = ok-injective (e ∙ sym quiet ∙ sym f) in
      rw (← same) (==_self high_water)

  catch_up-ends :
      (fuel m : ℕ) (mark : Option ℕ) (p : Progress)
      → ok mark ≡ history.latest m
      → m ≤ n
      → n < m + fuel
      → is_not_yet (catch_up env clock history channel fuel m mark p) ≡ false
  unfolding catch_up
  catch_up-ends fuel m none p e h k = refl
  catch_up-ends zero m (some high_water) p e h k = absurd (omega (arith, h, k))
  catch_up-ends (suc fuel) m (some high_water) p e h k =
      elim (Bool-cases (is_after high_water p.at)) [
        | inr all_seen ↦ rw all_seen refl
        | inl more ↦ rw more (
            on_answer-ends (waited (history.during_listing m) p) _ (history.listed m p.at)
              (λ listed read.
                after_listing-ends high_water (history.latest (suc m))
                  (history.during_latest (suc m))
                  (λ final x. catch_up env clock history channel fuel (suc m) final x) _
                  (λ final q answered other.
                    catch_up-ends fuel (suc m) final q answered (goes_on final answered other)
                      (omega (arith, k)))))
      ]
    where
      goes_on :
          (final : Option ℕ)
          → ok final ≡ history.latest (suc m)
          → is_same final high_water ≡ false
          → suc m ≤ n
      goes_on final answered other = elim (Bool-cases (m == n)) [
        | inl last ↦
            let here : m ≡ n = (==_iff m n).0 last in
            let same =
              same_mark high_water final
                (subst (λ i. ok (some high_water) ≡ history.latest i) here e)
                (subst (λ i. ok final ≡ history.latest (suc i)) here answered) in
            absurd (ground (arith, same, other))
        | inr before ↦ ground (arith, h)
      ]

close_result-ends :
    (high_water : Option ℕ) (p : Progress) (r : Result Progress)
    → is_unfinished (close_result high_water p r) ≡ false
close_result-ends high_water p (throw error) = refl
close_result-ends high_water p (ok last) = refl

close-ends :
    (env : Environment) (clock : ℕ → ℕ) (channel : ℕ) (c : Caught)
    → is_not_yet c ≡ false
    → is_unfinished (close env clock channel c) ≡ false
close-ends env clock channel (caught_error error p) h = refl
close-ends env clock channel (not_yet p) h = absurd (ground arith)
close-ends env clock channel (caught_up high_water p) h = close_result-ends high_water _ _

-- Once no message is newer after a listing than before it, reconciliation ends.
pub reconcile-ends :
    (env : Environment) (clock : ℕ → ℕ) (history : History) (channel n fuel : ℕ) (db : Database)
    (checkpoints : List CheckpointRow)
    → history.latest (suc n) ≡ history.latest n
    → n < fuel
    → is_unfinished (reconcile env clock history channel fuel db checkpoints) ≡ false
unfolding reconcile
reconcile-ends env clock history channel n fuel db checkpoints quiet enough =
    close-ends env clock channel _ (
      on_answer-ends env clock history channel n quiet
        (first_progress channel (history.during_latest 0 db) checkpoints) _ (history.latest 0)
        (λ mark answered.
          catch_up-ends env clock history channel n quiet fuel 0 mark _ answered (omega arith)
            (omega (arith, enough))))
