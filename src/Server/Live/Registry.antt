-- ===== src/Server/Live/Registry.antt =====
-- The registry of live connections in crates/server/src/ws.rs: replacement, late `unregister` calls
-- and the links between connections and sessions.
use tui_chat.Base.{
  ◌≡◌, refl, sym, ◌∙◌, false, some, ◌==◌, list_eq, nat_eq, arith, ==_sound, Option-cases,
  Bool-cases, inl, inr,
}
use tui_chat.Base.Text.{Text}
use tui_chat.Base.Maps.{
  get, insert, get-insert_same, get-insert_other, get-remove_same, get-remove_other,
}
use tui_chat.Server.Live.{Token, LiveConnection, LiveSession, Live, register, unregister}

-- Each connection of a device has a session, which is of the same device and account.
abbrev pub IsLinked : Live → Type 0
IsLinked live =
    (device : Text) (c : LiveConnection)
    → get device live.connections ≡ some c
    → (s : LiveSession) × (get c.token live.sessions ≡ some s)
      × (s.device_id ≡ device)
      × (s.account_id ≡ c.account_id)

-- A token that has no session yet is registered, or one whose session is of the same device.
abbrev pub IsFreshFor : LiveSession → Live → Type 0
IsFreshFor session live =
    (s : LiveSession) → get session.id live.sessions ≡ some s → s.device_id ≡ session.device_id

register-connections :
    (session : LiveSession) (live : Live)
    → (register session live).connections
      ≡ insert session.device_id
          (record { token = session.id; account_id = session.account_id })
          live.connections
unfolding register
register-connections session live = refl

register-sessions :
    (session : LiveSession) (live : Live)
    → (register session live).sessions ≡ insert session.id session live.sessions
unfolding register
register-sessions session live = refl

registered_here :
    (session : LiveSession) (live : Live)
    → get session.device_id (register session live).connections
      ≡ some (record { token = session.id; account_id = session.account_id })
unfolding register
registered_here session live = get-insert_same session.device_id _ live.connections

-- Registering a session keeps the links between connections and sessions, provided that a session
-- of its token that is there is of the same device.
pub register-IsLinked :
    (session : LiveSession) (live : Live)
    → IsLinked live
    → IsFreshFor session live
    → IsLinked (register session live)
unfolding register
register-IsLinked session live v fresh device c h =
    elim (Bool-cases (session.device_id == device)) [
      | inl e ↦ (
        session,
        ground (
          arith,
          h,
          e,
          registered_here session live,
          get-insert_same session.id session live.sessions,
        ),
        ==_sound _ _ e,
        ground (arith, h, e, registered_here session live),
      )
      | inr e ↦
          let (s, found, same_device, same_account) =
            v device c (sym (get-insert_other session.device_id device _ live.connections e) ∙ h) in
          (
            s,
            ground (
              arith,
              found,
              e,
              same_device,
              fresh s,
              get-insert_other session.id c.token session live.sessions,
            ),
            same_device,
            same_account,
          )
    ]

-- An entry that is there after `unregister` was there before, and is not the connection's own.
unregister_found :
    (device : Text) (token : Token) (live : Live) (d : Text) (c : LiveConnection)
    → get d (unregister device token live).connections ≡ some c
    → (get d live.connections ≡ some c) × (device ≡ d → (c.token == token) ≡ false)
unfolding unregister
unregister_found device token live d c h = elim (Option-cases (get device live.connections)) [
  | inl e ↦ ground (arith, h, e)
  | inr (old, e) ↦ ground (
    arith,
    h,
    e,
    get-remove_same device live.connections,
    get-remove_other device d live.connections,
  )
]

-- The end of a connection keeps the links, provided that its token's session is of the device that
-- the connection was registered for.
pub unregister-IsLinked :
    (device : Text) (token : Token) (live : Live)
    → IsLinked live
    → ((s : LiveSession) → get token live.sessions ≡ some s → s.device_id ≡ device)
    → IsLinked (unregister device token live)
unfolding unregister
unregister-IsLinked device token live v own d c h =
    let (there, others) = unregister_found device token live d c h in
    let (s, found, same_device, same_account) = v d c there in
    (
      s,
      ground
          (arith, found, same_device, others, own s, get-remove_other token c.token live.sessions),
      same_device,
      same_account,
    )

-- A device's newest connection stays when an older one ends that it replaced and that has another
-- token.
pub unregister_replaced :
    (session : LiveSession) (old : Token) (live : Live)
    → (session.id == old) ≡ false
    → get session.device_id (unregister session.device_id old (register session live)).connections
      ≡ some (record { token = session.id; account_id = session.account_id })
unfolding unregister
unregister_replaced session old live h = ground (arith, h, registered_here session live)
