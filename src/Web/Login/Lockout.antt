-- ===== src/Web/Login/Lockout.antt =====
-- The throttle of the login of src/web/server.ts, for logins that do not overlap.
use herald_of_jams.Base.{
  ℕ, zero, suc, ◌+◌, ◌≤◌, ◌<◌, ◌≡◌, refl, sym, subst, ◌∙◌, arith, true, false, Bool-cases, inl, inr,
  ◌⊎◌, List, [], ◌∷◌, Option, none, some, leb, ◌==◌, ==_self, All,
}
use herald_of_jams.Web.Login.{
  LoginAttemptRow, login_window, max_login_failures, too_many_requests, invalid_credentials,
  attempt_of, is_blocked, put_attempt, begin_login, within_window, blocked_from, failed_attempt,
  finish_login, login, verifications,
}

pub attempt_of-put_attempt :
    (new : LoginAttemptRow) (rows : List LoginAttemptRow)
    → attempt_of new.key (put_attempt new rows) ≡ some new
unfolding attempt_of put_attempt
attempt_of-put_attempt new [] = rw (==_self new.key) refl
attempt_of-put_attempt new (r ∷ rows) = elim (Bool-cases (r.key == new.key)) [
  | inl same ↦ rw (same, ==_self new.key) refl
  | inr other ↦ rw (other, other) (attempt_of-put_attempt new rows)
]

-- The row of an address after some failures that began at a time.
abbrev row_after : ℕ → ℕ → ℕ → LoginAttemptRow
row_after key first n = record {
  key = key;
  window_started_at = first;
  attempt_count = n;
  blocked_until = none;
}

-- Fewer than five failures are stored, none of them before the window.
record IsOpen (key first left : ℕ) (row : Option LoginAttemptRow) : Type 0 where
  n : ℕ
  total : n + left ≡ 5
  some_left : 0 < left
  stored : row ≡ some (row_after key first n)

-- The address is blocked for the rest of the window.
record IsLocked (first : ℕ) (row : Option LoginAttemptRow) : Type 0 where
  r : LoginAttemptRow
  until : ℕ
  stored : row ≡ some r
  blocked : r.blocked_until ≡ some until
  late : first + login_window ≤ until

-- How many more failures are verified.
abbrev Standing : ℕ → ℕ → ℕ → Option LoginAttemptRow → Type 0
Standing key first left row = IsOpen key first left row ⊎ IsLocked first row

locked_login :
    (key first now : ℕ) (rows : List LoginAttemptRow)
    → now < first + login_window
    → IsLocked first (attempt_of key rows)
    → login now key false rows ≡ (too_many_requests, rows)
unfolding login begin_login
locked_login key first now rows soon l =
    let yes : is_blocked now (attempt_of key rows) ≡ true =
      rw (l.stored, l.blocked) (ground (arith, l.late, soon)) in
    rw yes refl

next_row : ℕ → ℕ → ℕ → ℕ → LoginAttemptRow
next_row key first now n = record {
  key = key;
  window_started_at = first;
  attempt_count = n + 1;
  blocked_until = blocked_from now (n + 1);
}

open_login :
    (key first now left : ℕ) (rows : List LoginAttemptRow)
    → now < first + login_window
    → (o : IsOpen key first left (attempt_of key rows))
    → login now key false rows
      ≡ (invalid_credentials, put_attempt (next_row key first now o.n) rows)
unfolding login begin_login finish_login failed_attempt next_row
open_login key first now left rows soon o =
    let within : within_window now (row_after key first o.n) ≡ true = ground (arith, soon) in
    rw (o.stored, within) refl

next-Standing :
    (key first now left n : ℕ) (rows : List LoginAttemptRow)
    → first ≤ now
    → n + suc left ≡ 5
    → Standing key first left (attempt_of key (put_attempt (next_row key first now n) rows))
unfolding next_row
next-Standing key first now zero n rows after total =
    let last : leb max_login_failures (n + 1) ≡ true = ground (arith, total) in
    inr (record {
      r = next_row key first now n;
      until = now + login_window;
      stored = attempt_of-put_attempt (next_row key first now n) rows;
      blocked = rw last refl;
      late = omega (arith, after);
    })
next-Standing key first now (suc left) n rows after total =
    let more : leb max_login_failures (n + 1) ≡ false = ground (arith, total) in
    inl (record {
      n = n + 1;
      total = omega (arith, total);
      some_left = omega arith;
      stored = attempt_of-put_attempt (next_row key first now n) rows ∙ rw more refl;
    })

abbrev pub InWindow : ℕ → ℕ → Type 0
InWindow first now = (first ≤ now) × (now < first + login_window)

verifications-verified :
    (key now : ℕ) (times : List ℕ) (rows after : List LoginAttemptRow)
    → login now key false rows ≡ (invalid_credentials, after)
    → verifications key (now ∷ times) rows ≡ suc (verifications key times after)
unfolding verifications
verifications-verified key now times rows after e = rw e refl

verifications-refused :
    (key now : ℕ) (times : List ℕ) (rows : List LoginAttemptRow)
    → login now key false rows ≡ (too_many_requests, rows)
    → verifications key (now ∷ times) rows ≡ verifications key times rows
unfolding verifications
verifications-refused key now times rows e = rw e refl

verifications-nil : (key left : ℕ) (rows : List LoginAttemptRow) → verifications key [] rows ≤ left
unfolding verifications
verifications-nil key left rows = omega arith

new_login :
    (key first : ℕ) (rows : List LoginAttemptRow)
    → attempt_of key rows ≡ none
    → login first key false rows
      ≡ (invalid_credentials, put_attempt (next_row key first first 0) rows)
unfolding login begin_login finish_login failed_attempt next_row
new_login key first rows new = rw new refl

verifications-le :
    (key first left : ℕ) (times : List ℕ) (rows : List LoginAttemptRow)
    → Standing key first left (attempt_of key rows)
    → All (InWindow first) times
    → verifications key times rows ≤ left
verifications-le key first left [] rows s w = verifications-nil key left rows
verifications-le key first left (now ∷ times) rows (inr l) w =
    subst (λ n. n ≤ left)
      (sym (verifications-refused key now times rows (locked_login key first now rows w.0.1 l)))
      (verifications-le key first left times rows (inr l) w.1)
verifications-le key first zero (now ∷ times) rows (inl o) w = absurd (omega (arith, o.some_left))
verifications-le key first (suc left) (now ∷ times) rows (inl o) w =
    let after = put_attempt (next_row key first now o.n) rows in
    subst (λ n. n ≤ suc left)
      (sym (
        verifications-verified key now times rows after
          (open_login key first now (suc left) rows w.0.1 o)))
      (omega (
        arith,
        verifications-le key first left times after
            (next-Standing key first now left o.n rows w.0.0 o.total) w.1,
      ))

-- Of the failing logins from an address without an earlier failure, none of which overlap, that
-- come from the first one on and within fifteen minutes of it, at most five verify a password.
pub verifications-five :
    (key first : ℕ) (times : List ℕ) (rows : List LoginAttemptRow)
    → attempt_of key rows ≡ none
    → All (InWindow first) times
    → verifications key (first ∷ times) rows ≤ 5
verifications-five key first times rows new w =
    let after = put_attempt (next_row key first first 0) rows in
    subst (λ n. n ≤ 5)
      (sym (verifications-verified key first times rows after (new_login key first rows new)))
      (omega (
        arith,
        verifications-le key first 4 times after
            (next-Standing key first first 4 0 rows (omega arith) refl) w,
      ))
