-- ===== src/Web/Login.antt =====
-- The login of src/web/server.ts and its throttle. The handler waits for verifyPassword between its
-- read and its write of the table login_attempts, so it is two steps.
pub mod Lockout
pub mod Race
use herald_of_jams.Base.{
  ℕ, suc, ◌+◌, ◌-◌, Bool, true, false, not, ◌&&◌, List, [], ◌∷◌, Option, none, some, ltb, leb, ◌==◌,
  if◌then◌else◌, find?, select,
}

-- The key is the address of the request.
pub record LoginAttemptRow : Type 0 where
  pub key : ℕ
  pub window_started_at : ℕ
  pub attempt_count : ℕ
  pub blocked_until : Option ℕ

abbrev pub session_lifetime : ℕ
session_lifetime = 43200000

abbrev pub login_window : ℕ
login_window = 900000

abbrev pub max_login_failures : ℕ
max_login_failures = 5

-- The answers 429, 401, and a redirect with a new session that ends at a time.
pub data LoginReply : Type 0 where
  too_many_requests invalid_credentials : LoginReply
  logged_in : (absolute_expires_at : ℕ) → LoginReply

unfoldable pub attempt_of : ℕ → List LoginAttemptRow → Option LoginAttemptRow
attempt_of key rows = find? (λ (r : LoginAttemptRow). r.key == key) rows

abbrev pub is_blocked : ℕ → Option LoginAttemptRow → Bool
is_blocked now none = false
is_blocked now (some row) = elim row.blocked_until [ none ↦ false | some until ↦ ltb now until ]

-- INSERT … ON CONFLICT(key) DO UPDATE
unfoldable pub put_attempt : LoginAttemptRow → List LoginAttemptRow → List LoginAttemptRow
put_attempt new [] = new ∷ []
put_attempt new (r ∷ rows) = if r.key == new.key then new ∷ rows else r ∷ put_attempt new rows

-- DELETE … WHERE key = ?
abbrev pub delete_attempt : ℕ → List LoginAttemptRow → List LoginAttemptRow
delete_attempt key rows = select (λ (r : LoginAttemptRow). not (r.key == key)) rows

-- What the handler does before it waits.
pub data LoginStart : Type 0 where
  refused : LoginStart
  verifying : (row : Option LoginAttemptRow) → LoginStart

unfoldable pub begin_login : ℕ → ℕ → List LoginAttemptRow → LoginStart
begin_login now key rows =
    let row = attempt_of key rows in if is_blocked now row then refused else verifying row

-- now - window_started_at < LOGIN_WINDOW_MS
abbrev pub within_window : ℕ → LoginAttemptRow → Bool
within_window now row = ltb now (row.window_started_at + login_window)

abbrev pub blocked_from : ℕ → ℕ → Option ℕ
blocked_from now count = if leb max_login_failures count then some (now + login_window) else none

abbrev pub first_failure : ℕ → ℕ → LoginAttemptRow
first_failure now key = record {
  key = key;
  window_started_at = now;
  attempt_count = 1;
  blocked_until = blocked_from now 1;
}

unfoldable pub failed_attempt : ℕ → ℕ → Option LoginAttemptRow → LoginAttemptRow
failed_attempt now key none = first_failure now key
failed_attempt now key (some row) =
    if within_window now row
    then record {
      key = key;
      window_started_at = row.window_started_at;
      attempt_count = row.attempt_count + 1;
      blocked_until = blocked_from now (row.attempt_count + 1);
    }
    else first_failure now key

-- What the handler does with the answer of verifyPassword; `row` is what it read before.
unfoldable pub finish_login :
    ℕ → ℕ → Option LoginAttemptRow → Bool → List LoginAttemptRow → LoginReply × List LoginAttemptRow
finish_login now key row false rows =
    (invalid_credentials, put_attempt (failed_attempt now key row) rows)
finish_login now key row true rows = (logged_in (now + session_lifetime), delete_attempt key rows)

-- A login that no other one interrupts.
abbrev pub login_from :
    ℕ → ℕ → Bool → List LoginAttemptRow → LoginStart → LoginReply × List LoginAttemptRow
login_from now key valid rows refused = (too_many_requests, rows)
login_from now key valid rows (verifying row) = finish_login now key row valid rows

unfoldable pub login : ℕ → ℕ → Bool → List LoginAttemptRow → LoginReply × List LoginAttemptRow
login now key valid rows = login_from now key valid rows (begin_login now key rows)

-- Logins that fail, one after the other, with the times at which they come.
abbrev pub is_verified : LoginReply → Bool
is_verified too_many_requests = false
is_verified invalid_credentials = true
is_verified (logged_in absolute_expires_at) = true

-- How often a password is verified.
unfoldable pub verifications : ℕ → List ℕ → List LoginAttemptRow → ℕ
verifications key [] rows = 0
verifications key (now ∷ times) rows =
    let (reply, after) = login now key false rows in
    if is_verified reply then suc (verifications key times after) else verifications key times after
