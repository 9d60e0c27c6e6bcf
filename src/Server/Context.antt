-- ===== src/Server/Context.antt =====
-- What a request handler of crates/server/src/ws.rs runs on: the state of its connection, and what it
-- finds around it. A handler answers with an error or a value; what it has done before an error stays
-- done.
use tui_chat.Base.{
  ℕ, Bool, true, false, List, Option, none, some, Result, ok, err, Error, list_eq, nat_eq, bool_eq,
}
use tui_chat.Base.Text.{Bytes, Text}
use tui_chat.Server.Admission.{IpAddr}
use tui_chat.Server.Db.Rows.{Account, Db, StorageLimits}
use tui_chat.Server.Live.{Token, Live}

pub record Challenge : Type 0 where
  pub username : Text
  pub device_id : Text
  pub nonce : Bytes
  pub expires_at_ms : ℕ
  pub capabilities : List Text

pub record Session : Type 0 where
  pub account : Account
  pub device_id : Text
  pub pending : Bool
  pub password_change_required : Bool
  pub capabilities : List Text

-- What a request finds around it: the connection's own token and address, the clock, which does not
-- move while a request is handled, the configuration, and the answers of third-party code.
pub record Host : Type 0 where
  pub token : Token
  pub source_ip : IpAddr
  pub source_ip_text : Text
  pub now : ℕ
  pub domain : Text
  pub limits : StorageLimits
  pub pairing_ttl_seconds : ℕ
  pub free_disk_bytes : ℕ
  pub dummy_password_phc : Text
  -- The bytes of `OsRng`.
  pub nonce : Bytes
  -- The answer of `allow_password_attempt`, whose buckets count in `f64`.
  pub attempt_allowed : Bool
  -- Is the receiver of this connection's frames there?
  pub tx_open : Bool
  -- Is the task of a token there to receive a wish to disconnect?
  pub is_open : Token → Bool
  pub parse_uuid : Text → Bool
  -- `trim().is_empty()`, which knows the white space of Unicode.
  pub is_blank : Text → Bool
  pub sha256 : Bytes → Bytes
  -- `VerifyingKey::from_bytes` and `verify_strict`.
  pub is_key : Bytes → Bool
  pub verify_strict : Bytes → Bytes → Bytes → Bool
  -- Argon2: does a PHC string verify a password, is it of another policy, and a new one.
  pub password_matches : Text → Text → Bool
  pub password_needs_rehash : Text → Bool
  pub password_hash : Text → Option Text

pub record State : Type 0 where
  pub db : Db
  pub live : Live
  pub challenge : Option Challenge
  pub session : Option Session

abbrev pub Handler {ℓ} : Type ℓ → Type ℓ
Handler A = State → State × Result A

abbrev pub continue {ℓ κ} :
    {A : Type ℓ} {B : Type κ} → (A → Handler B) → State × Result A → State × Result B
continue f (s, ok a) = f a s
continue f (s, err e) = (s, err e)

infixl 5 ◌>>=◌ ◌>>◌
abbrev pub ◌>>=◌ {ℓ κ} : {A : Type ℓ} {B : Type κ} → Handler A → (A → Handler B) → Handler B
(m >>= f) s = continue f (m s)

abbrev pub ◌>>◌ {κ} : {B : Type κ} → Handler (Unit {0}) → Handler B → Handler B
m >> k = m >>= (λ done. k)

module _ {ℓ} {A : Type ℓ} where
  -- `?` on a result.
  abbrev pub lift : Result A → Handler A
  lift r s = (s, r)

  abbrev pub return_ : A → Handler A
  return_ a s = (s, ok a)

  abbrev pub fail : Error → Handler A
  fail e s = (s, err e)

  abbrev pub gets : (State → A) → Handler A
  gets f s = (s, ok (f s))

  -- `?` on an option with an error for `None`.
  abbrev pub need : Option A → Error → Handler A
  need none e = fail e
  need (some a) e = return_ a

abbrev pub modify : (State → State) → Handler (Unit {0})
modify f s = (f s, ok tt)

abbrev pub reject_if : Bool → Error → Handler (Unit {0})
reject_if true e = fail e
reject_if false e = return_ tt

abbrev pub on_live : (Live → Live) → Handler (Unit {0})
on_live f = modify (λ s. record s { live = f s.live })

abbrev pub on_db : (Db → Db) → Handler (Unit {0})
on_db f = modify (λ s. record s { db = f s.db })

abbrev pub settle {ℓ} : {A : Type ℓ} → State → Result (Db × A) → State × Result A
settle s (ok (db, a)) = (record s { db = db }, ok a)
settle s (err e) = (s, err e)

abbrev pub settle_commit : State → Result Db → State × Result (Unit {0})
settle_commit s (ok db) = (record s { db = db }, ok tt)
settle_commit s (err e) = (s, err e)

-- A database operation that can fail; then its transaction leaves no trace.
abbrev pub transact {ℓ} : {A : Type ℓ} → (Db → Result (Db × A)) → Handler A
transact f s = settle s (f s.db)

-- One that answers in every case.
abbrev pub run_db {ℓ} : {A : Type ℓ} → (Db → Db × A) → Handler A
run_db f s = (record s { db = (f s.db).0 }, ok (f s.db).1)

-- One that only succeeds or fails.
abbrev pub commit : (Db → Result Db) → Handler (Unit {0})
commit f s = settle_commit s (f s.db)

abbrev pub set_session : Session → Handler (Unit {0})
set_session session = modify (λ s. record s { session = some session })
