-- ===== src/Web/Login/Race.antt =====
-- Logins of src/web/server.ts that overlap: each has read the table before another has written it.
use herald_of_jams.Base.{ℕ, ◌≡◌, refl, false, List, [], ◌∷◌, Option, none, some}
use herald_of_jams.Web.Login.{
  LoginAttemptRow, attempt_of, put_attempt, verifying, begin_login, first_failure, failed_attempt,
  finish_login,
}
use herald_of_jams.Web.Login.Lockout.{attempt_of-put_attempt}

-- Failing logins that all have read the row before any of them writes, in the order in which they
-- write, each with the time that it read from the clock when it began.
unfoldable pub finish_failures :
    ℕ → Option LoginAttemptRow → List ℕ → List LoginAttemptRow → List LoginAttemptRow
finish_failures key row [] rows = rows
finish_failures key row (now ∷ times) rows =
    finish_failures key row times (finish_login now key row false rows).1

abbrev pub last_time : ℕ → List ℕ → ℕ
last_time now [] = now
last_time now (next ∷ times) = last_time next times

stays_one :
    (now : ℕ) (times : List ℕ) (key : ℕ) (rows : List LoginAttemptRow)
    → attempt_of key (finish_failures key none (now ∷ times) rows)
      ≡ some (first_failure (last_time now times) key)
unfolding finish_failures finish_login failed_attempt
stays_one now [] key rows = attempt_of-put_attempt (first_failure now key) rows
stays_one now (next ∷ times) key rows =
    stays_one next times key (put_attempt (first_failure now key) rows)

-- Any number of failing logins from an address without an earlier failure, which begin at any times
-- and write in any order, but each of which has read the table before one of them writes to it, all
-- verify a password and are counted as one failure, that of the login that writes last: the next
-- login, at any time, verifies a password.
pub finish_failures-one :
    (now : ℕ) (times : List ℕ) (later key : ℕ) (rows : List LoginAttemptRow)
    → attempt_of key rows ≡ none
    → ((begin : ℕ) → begin_login begin key rows ≡ verifying none)
      × (begin_login later key (finish_failures key none (now ∷ times) rows)
          ≡ verifying (some (first_failure (last_time now times) key)))
unfolding begin_login
finish_failures-one now times later key rows new =
    (λ begin. rw new refl, rw (stays_one now times key rows) refl)
