-- ===== src/Server/Session/Keeps.antt =====
-- Invariants of the state of a connection over the steps of the handlers in
-- crates/server/src/ws.rs.
use tui_chat.Base.{
  ◌≡◌, refl, Bool, true, false, Option, none, some, Result, ok, err, Error, if◌then◌else◌, message,
}
use tui_chat.Base.Text.{Text}
use tui_chat.Protocol.Frames.{Body}
use tui_chat.Server.Db.Rows.{Db}
use tui_chat.Server.Db.Consistent.{IsConsistent}
use tui_chat.Server.Db.Unrelated.{KeepsTables, audit-IsConsistent}
use tui_chat.Server.Live.{Live}
use tui_chat.Server.Context.{
  Challenge, Session, Host, State, Handler, continue, ◌>>=◌, lift, return_, fail, gets, need,
  reject_if, on_live, on_db, transact, run_db, commit, settle, settle_commit, set_session,
}
use tui_chat.Server.Session.{
  send, active_session, usable_session, send_authenticated, register_session, write_audit,
  take_valid_challenge, check_challenge,
}

-- Whatever the handler answers, the state behind it satisfies `P` if the state before it does.
pub record Keeps {ℓ} (P : State → Type 0) {A : Type ℓ} (h : Handler A) : Type 0 where
  pub kept : (s : State) → P s → P (h s).0

-- `P` does not depend on the live connections, nor on a database that stays consistent.
pub record IsStable (P : State → Type 0) : Type 0 where
  pub live : (s : State) (l : Live) → P s → P (record s { live = l })
  pub db :
      (s : State) (d : Db) → (IsConsistent s.db → IsConsistent d) → P s → P (record s { db = d })

module _ {ℓ} {A : Type ℓ} (P : State → Type 0) where
  pub continue-Keeps {κ} :
      {B : Type κ} (f : A → Handler B) (r : State × Result A)
      → P r.0
      → ((a : A) → Keeps P (f a))
      → P (continue f r).0
  continue-Keeps f (s, ok a) p k = (k a).kept s p
  continue-Keeps f (s, err e) p k = p

  pub bind-Keeps {κ} :
      {B : Type κ} (m : Handler A) (f : A → Handler B)
      → Keeps P m
      → ((a : A) → Keeps P (f a))
      → Keeps P (m >>= f)
  bind-Keeps m f k l = record { kept = λ s p. continue-Keeps f (m s) (k.kept s p) l }

  pub lift-Keeps : (r : Result A) → Keeps P (lift r)
  lift-Keeps r = record { kept = λ s p. p }

  pub return-Keeps : (a : A) → Keeps P (return_ a)
  return-Keeps a = record { kept = λ s p. p }

  pub fail-Keeps : (e : Error) → Keeps P (fail {A = A} e)
  fail-Keeps e = record { kept = λ s p. p }

  pub gets-Keeps : (f : State → A) → Keeps P (gets f)
  gets-Keeps f = record { kept = λ s p. p }

  pub need-Keeps : (o : Option A) (e : Error) → Keeps P (need o e)
  need-Keeps none e = record { kept = λ s p. p }
  need-Keeps (some a) e = record { kept = λ s p. p }

module _ (P : State → Type 0) where
  pub reject-Keeps : (b : Bool) (e : Error) → Keeps P (reject_if b e)
  reject-Keeps true e = record { kept = λ s p. p }
  reject-Keeps false e = record { kept = λ s p. p }

  pub if-Keeps {ℓ} :
      {A : Type ℓ} (b : Bool) (h k : Handler A)
      → Keeps P h
      → Keeps P k
      → Keeps P (if b then h else k)
  if-Keeps true h k p q = p
  if-Keeps false h k p q = q

  pub active-Keeps : Keeps P active_session
  unfolding active_session
  active-Keeps = bind-Keeps P _ _ (gets-Keeps P (λ s. s.session)) (λ slot.
      bind-Keeps P _ _ (need-Keeps P slot (message "authentication required")) (λ session.
        bind-Keeps P _ _ (reject-Keeps session.pending (message "device approval is pending"))
          (λ done. return-Keeps P session)))

  pub usable-Keeps : Keeps P usable_session
  unfolding usable_session
  usable-Keeps = active-Keeps

  module _ (stable : IsStable P) where
    pub live-Keeps : (f : Live → Live) → Keeps P (on_live f)
    live-Keeps f = record { kept = λ s p. stable.live s (f s.live) p }

    pub db-Keeps :
        (f : Db → Db) → ((db : Db) → IsConsistent db → IsConsistent (f db)) → Keeps P (on_db f)
    db-Keeps f c = record { kept = λ s p. stable.db s (f s.db) (c s.db) p }

    pub run-Keeps {ℓ} :
        {A : Type ℓ} (f : Db → Db × A)
        → ((db : Db) → IsConsistent db → IsConsistent (f db).0)
        → Keeps P (run_db f)
    run-Keeps f c = record { kept = λ s p. stable.db s (f s.db).0 (c s.db) p }

    settle-Keeps {ℓ} :
        {A : Type ℓ} (s : State) (r : Result (Db × A))
        → ((db : Db) (a : A) → r ≡ ok (db, a) → IsConsistent s.db → IsConsistent db)
        → P s
        → P (settle s r).0
    settle-Keeps s (ok (db, a)) c p = stable.db s db (c db a refl) p
    settle-Keeps s (err e) c p = p

    pub transact-Keeps {ℓ} :
        {A : Type ℓ} (f : Db → Result (Db × A))
        → ((db db' : Db) (a : A) → f db ≡ ok (db', a) → IsConsistent db → IsConsistent db')
        → Keeps P (transact f)
    transact-Keeps f c = record { kept = λ s p. settle-Keeps s (f s.db) (λ db a. c s.db db a) p }

    settle_commit-Keeps :
        (s : State) (r : Result Db)
        → ((db : Db) → r ≡ ok db → IsConsistent s.db → IsConsistent db)
        → P s
        → P (settle_commit s r).0
    settle_commit-Keeps s (ok db) c p = stable.db s db (c db refl) p
    settle_commit-Keeps s (err e) c p = p

    pub commit-Keeps : (f : Db → Result Db) → KeepsTables f → Keeps P (commit f)
    commit-Keeps f c = record { kept = λ s p. settle_commit-Keeps s (f s.db) (λ db. c s.db db) p }

    pub send-Keeps : (host : Host) (id : Text) (body : Body) → Keeps P (send host id body)
    unfolding send
    send-Keeps host id body = if-Keeps _ _ _ (live-Keeps _) (fail-Keeps P _)

    pub authenticated-Keeps :
        (host : Host) (id : Text) (session : Session) → Keeps P (send_authenticated host id session)
    unfolding send_authenticated
    authenticated-Keeps host id session = send-Keeps host id _

    pub register-Keeps : (host : Host) (session : Session) → Keeps P (register_session host session)
    unfolding register_session
    register-Keeps host session = live-Keeps _

    pub audit-Keeps :
        (host : Host) (category actor action target result details : Text)
        → Keeps P (write_audit host category actor action target result details)
    unfolding write_audit
    audit-Keeps host category actor action target result details =
        db-Keeps _ (λ db v. audit-IsConsistent _ db v)

-- The steps of the handlers that need nothing more.
pub ruleset steps = (
  bind-Keeps, lift-Keeps, return-Keeps, fail-Keeps, gets-Keeps, need-Keeps, reject-Keeps, if-Keeps,
  active-Keeps, usable-Keeps, live-Keeps, send-Keeps, authenticated-Keeps, register-Keeps,
  audit-Keeps,
)

module _ (P : State → Type 0) where
  -- `P` does not depend on the session either, or not on the challenge.
  pub session-Keeps :
      ((s : State) (x : Session) → P s → P (record s { session = some x }))
      → (x : Session) → Keeps P (set_session x)
  session-Keeps free x = record { kept = λ s p. free s x p }

  pub check-Keeps :
      (host : Host) (username device_id : Text) (slot : Option Challenge)
      → Keeps P (check_challenge host username device_id slot)
  unfolding check_challenge
  check-Keeps host username device_id slot = search steps depth 20

  pub take-Keeps :
      ((s : State) (slot : Option Challenge) → P s → P (record s { challenge = slot }))
      → (host : Host) (username device_id : Text)
      → Keeps P (take_valid_challenge host username device_id)
  unfolding take_valid_challenge
  take-Keeps free host username device_id = record {
    kept = λ s p.
        (check-Keeps host username device_id s.challenge).kept (record s { challenge = none })
          (free s none p);
  }
