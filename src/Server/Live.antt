-- ===== src/Server/Live.antt =====
-- The live connections and sessions of `AppState` in crates/server/src/ws.rs. A connection's two
-- channels are named by its token: what is sent to the device goes to `sent`, a wish to disconnect
-- to `disconnects`, each in the order in which it is sent.
pub mod Registry
use tui_chat.Base.{
  ℕ, suc, ◌+◌, ltb, Bool, true, false, List, [], ◌∷◌, ◌++◌, map, Option, none, some, if◌then◌else◌,
  ◌==◌, list_eq, nat_eq, select, sort_by,
}
use tui_chat.Base.Text.{Text, text}
use tui_chat.Base.Maps.{get, insert, remove}
use tui_chat.Protocol.Frames.{Frame}
use tui_chat.Server.Admission.{IpAddr}

-- A `Uuid` that `new_v4` makes.
abbrev pub Token : Type 0
Token = ℕ

pub record LiveConnection : Type 0 where
  pub token : Token
  pub account_id : Text

pub record LiveSession : Type 0 where
  pub id : Token
  pub account_id : Text
  pub username : Text
  pub device_id : Text
  pub source_ip : IpAddr
  pub connected_at_ms : ℕ
  pub last_seen_at_ms : ℕ
  pub pending : Bool

pub record Live : Type 0 where
  pub connections : List (Text × LiveConnection)
  pub sessions : List (Token × LiveSession)
  pub sent : List (Token × Frame)
  pub disconnects : List (Token × Text)

unfoldable pub disconnect : Token → Text → Live → Live
disconnect token reason live = record live {
  disconnects = live.disconnects ++ ((token, reason) ∷ []);
}

-- The previous connection of the device, if there is one, is told to go.
unfoldable pub replace_previous : Option LiveConnection → Live → Live
unfolding disconnect
replace_previous previous live = elim previous [
  | none ↦ live
  | some c ↦ disconnect c.token (text "session_replaced") live
]

-- The arguments are those of the session that `register` reads.
unfoldable pub register : LiveSession → Live → Live
unfolding replace_previous
register session live =
    let live' = replace_previous (get session.device_id live.connections) live in
    record live' {
      connections =
          insert session.device_id (record { token = session.id; account_id = session.account_id })
            live.connections;
      sessions = insert session.id session live.sessions;
    }

-- The entry of the device goes only if it is this connection's.
unfoldable pub unregister : Text → Token → Live → Live
unregister device token live = record live {
  connections = elim (get device live.connections) [
    | none ↦ live.connections
    | some c ↦ if c.token == token then remove device live.connections else live.connections
  ];
  sessions = remove token live.sessions;
}

unfoldable pub touch_session : Token → ℕ → Live → Live
touch_session token now live = elim (get token live.sessions) [
  | none ↦ live
  | some s ↦ record live {
    sessions = insert token (record s { last_seen_at_ms = now }) live.sessions;
  }
]

unfoldable pub live_sessions : Live → List LiveSession
live_sessions live =
    sort_by (λ a b. ltb a.connected_at_ms b.connected_at_ms) (map (λ e. e.1) live.sessions)

unfoldable pub online_devices : Text → Live → List Text
online_devices account live =
    map (λ e. e.0) (select (λ e. e.1.account_id == account) live.connections)

-- A send fails when the task that receives has ended; `is_open` tells which have not.
unfoldable pub kick_session : (Token → Bool) → Token → Text → Live → Live × Bool
unfolding disconnect
kick_session is_open id reason live = elim (get id live.sessions) [
  | none ↦ (live, false)
  | some s ↦ if is_open id then (disconnect id reason live, true) else (live, false)
]

-- The loop of `kick_account` over the ids.
unfoldable pub kick_all : (Token → Bool) → List Token → Text → Live → Live × ℕ
kick_all is_open [] reason live = (live, 0)
kick_all is_open (id ∷ ids) reason live =
    let (live', kicked) = kick_session is_open id reason live in
    let (live'', n) = kick_all is_open ids reason live' in (live'', (if kicked then 1 else 0) + n)

unfoldable pub kick_account : (Token → Bool) → Text → Text → Live → Live × ℕ
kick_account is_open account reason live =
    kick_all is_open (map (λ e. e.1.id) (select (λ e. e.1.account_id == account) live.sessions))
      reason live

unfoldable pub kick_device : (Token → Bool) → Text → Text → Live → Live × Bool
unfolding disconnect
kick_device is_open device reason live = elim (get device live.connections) [
  | none ↦ (live, false)
  | some c ↦ if is_open c.token then (disconnect c.token reason live, true) else (live, false)
]

unfoldable pub send_to : Token → Frame → Live → Live
send_to token frame live = record live { sent = live.sent ++ ((token, frame) ∷ []) }

-- An error of the send is ignored, so the frame counts as sent.
unfoldable pub push_device : Text → Frame → Live → Live
unfolding send_to
push_device device frame live = elim (get device live.connections) [
  | none ↦ live
  | some c ↦ send_to c.token frame live
]

unfoldable pub push_account : Text → Frame → Live → Live
push_account account frame live = record live {
  sent =
      live.sent
      ++ map (λ e. (e.1.token, frame)) (select (λ e. e.1.account_id == account) live.connections);
}
