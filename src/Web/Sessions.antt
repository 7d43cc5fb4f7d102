-- ===== src/Web/Sessions.antt =====
-- SqliteSessionStore of src/web/auth.ts and requireAuthenticated of src/web/server.ts.
use herald_of_jams.Base.{
  ℕ, ◌+◌, ◌≤◌, ◌<◌, ◌≡◌, refl, arith, Bool, true, false, not, ◌&&◌, Bool-cases, inl, inr, List, [],
  ◌∷◌, Option, none, some, ltb, leb, ◌==◌, ==_self, if◌then◌else◌, find?, select,
}
use herald_of_jams.Web.Login.{session_lifetime}

pub record Session : Type 0 where
  pub authenticated : Bool
  pub absolute_expires_at : Option ℕ
  pub cookie_expires : Option ℕ

-- admin_sessions; data_json is the session that was written.
pub record SessionRow : Type 0 where
  pub session_id : ℕ
  pub session : Session
  pub expires_at : ℕ

abbrev pub expiry_of : ℕ → Session → ℕ
expiry_of now session = elim session.cookie_expires [
  | none ↦ now + session_lifetime
  | some expires ↦ expires
]

unfoldable pub put_session : SessionRow → List SessionRow → List SessionRow
put_session new [] = new ∷ []
put_session new (r ∷ rows) =
    if r.session_id == new.session_id then new ∷ rows else r ∷ put_session new rows

unfoldable pub set : ℕ → ℕ → Session → List SessionRow → List SessionRow
set now id session rows =
    put_session (record { session_id = id; session = session; expires_at = expiry_of now session })
      rows

unfoldable pub session_row : ℕ → List SessionRow → Option SessionRow
session_row id rows = find? (λ (r : SessionRow). r.session_id == id) rows

unfoldable pub destroy : ℕ → List SessionRow → List SessionRow
destroy id rows = select (λ (r : SessionRow). not (r.session_id == id)) rows

abbrev pub get_in : ℕ → ℕ → List SessionRow → Option SessionRow → Option Session × List SessionRow
get_in now id rows none = (none, rows)
get_in now id rows (some row) =
    if leb row.expires_at now then (none, destroy id rows) else (some row.session, rows)

unfoldable pub get : ℕ → ℕ → List SessionRow → Option Session × List SessionRow
get now id rows = get_in now id rows (session_row id rows)

unfoldable pub cleanup_expired : ℕ → List SessionRow → List SessionRow
cleanup_expired now rows = select (λ (r : SessionRow). not (leb r.expires_at now)) rows

-- What requireAuthenticated lets pass; any other request is sent to the login.
unfoldable pub may_pass : ℕ → Session → Bool
may_pass now session =
    session.authenticated
    && elim session.absolute_expires_at [ none ↦ false | some expiry ↦ ltb now expiry ]

session_row-put_session :
    (new : SessionRow) (rows : List SessionRow)
    → session_row new.session_id (put_session new rows) ≡ some new
unfolding session_row put_session
session_row-put_session new [] = rw (==_self new.session_id) refl
session_row-put_session new (r ∷ rows) = elim (Bool-cases (r.session_id == new.session_id)) [
  | inl same ↦ rw (same, ==_self new.session_id) refl
  | inr other ↦ rw (other, other) (session_row-put_session new rows)
]

session_row-destroy : (id : ℕ) (rows : List SessionRow) → session_row id (destroy id rows) ≡ none
unfolding session_row destroy
session_row-destroy id [] = refl
session_row-destroy id (r ∷ rows) = elim (Bool-cases (r.session_id == id)) [
  | inl same ↦ rw same (session_row-destroy id rows)
  | inr other ↦ rw (other, other) (session_row-destroy id rows)
]

-- A session that is stored is read back until its expiry, and from then on it is not, and a reading
-- removes it for good.
pub get-set :
    (now later again id : ℕ) (session : Session) (rows : List SessionRow)
    → (later < expiry_of now session
        → get later id (set now id session rows) ≡ (some session, set now id session rows))
      × (expiry_of now session ≤ later
          → ((get later id (set now id session rows)).0 ≡ none)
            × ((get again id (get later id (set now id session rows)).1).0 ≡ none))
unfolding get set
get-set now later again id session rows =
    let row : SessionRow = record {
      session_id = id;
      session = session;
      expires_at = expiry_of now session;
    } in
    let stored = session_row-put_session row rows in
    (
      λ soon.
          let keeps : leb (expiry_of now session) later ≡ false = ground (arith, soon) in
          rw (stored, keeps) refl,
      λ late.
          let ends : leb (expiry_of now session) later ≡ true = ground (arith, late) in
          rw (stored, ends) (refl, rw (session_row-destroy id (put_session row rows)) refl),
    )
