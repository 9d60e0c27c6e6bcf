-- ===== src/Server/Session/Sound/Enroll.antt =====
-- The handlers of crates/server/src/ws.rs for new devices and passwords, step by step, under an
-- invariant of the state.
use tui_chat.Base.{some, ℕ, Bool, List, list_eq, nat_eq, bool_eq, option_eq}
use tui_chat.Base.Text.{Bytes, Text}
use tui_chat.Base.Int.{int_eq}
use tui_chat.Protocol.Messages.{DeviceBundle, OneTimeKey}
use tui_chat.Protocol.Frames.{BootstrapDevice, ChangePassword}
use tui_chat.Server.Db.Devices.{device, insert_device, bootstrap_master, set_password}
use tui_chat.Server.Db.Prekeys.{publish_prekeys}
use tui_chat.Server.Context.{Session, Host, State, on_db, commit, set_session}
use tui_chat.Server.Session.Keeps.{Keeps, IsStable, steps, db-Keeps, commit-Keeps, session-Keeps}
use tui_chat.Server.Db.Unrelated.{
  insert_device-IsConsistent, bootstrap_master-IsConsistent, publish_prekeys-IsConsistent,
  set_password-IsConsistent,
}
use tui_chat.Server.Session.Enroll.{
  handle_bootstrap_device, bootstrap_first, bootstrap_further, handle_change_password,
}

module _ (P : State → Type 0) (stable : IsStable P)
    (free : (s : State) (x : Session) → P s → P (record s { session = some x })) where
  set-Keeps : (x : Session) → Keeps P (set_session x)
  set-Keeps x = session-Keeps P free x

  master-Keeps :
      (account : Text) (master : Bytes)
      → Keeps P (commit (λ db. bootstrap_master db account master))
  master-Keeps account master =
      commit-Keeps P stable _ (bootstrap_master-IsConsistent account master)

  insert-Keeps :
      (account : Text) (bundle : DeviceBundle) (sas : Bytes) (pending : Bool) (now : ℕ)
      → Keeps P (commit (λ db. insert_device db account bundle sas pending now))
  insert-Keeps account bundle sas pending now =
      commit-Keeps P stable _ (insert_device-IsConsistent account bundle sas pending now)

  publish-Keeps :
      (device : Text) (keys : List OneTimeKey) (now : ℕ)
      → Keeps P (commit (λ db. publish_prekeys db device keys now))
  publish-Keeps device keys now =
      commit-Keeps P stable _ (publish_prekeys-IsConsistent device keys now)

  password-Keeps :
      (account phc : Text) (change : Bool)
      → Keeps P (on_db (λ db. set_password db account phc change))
  password-Keeps account phc change =
      db-Keeps P stable _ (set_password-IsConsistent account phc change)

  first-Keeps :
      (host : Host) (id : Text) (session : Session) (b : BootstrapDevice) (active pending : ℕ)
      → Keeps P (bootstrap_first host id session b active pending)
  unfolding bootstrap_first
  first-Keeps host id session b active pending =
      search (steps, master-Keeps, insert-Keeps, publish-Keeps, set-Keeps) depth 40

  further-Keeps :
      (host : Host) (id : Text) (session : Session) (b : BootstrapDevice) (active pending : ℕ)
      → Keeps P (bootstrap_further host id session b active pending)
  unfolding bootstrap_further
  further-Keeps host id session b active pending =
      search (steps, insert-Keeps, publish-Keeps) depth 40

  pub bootstrap_device-Keeps :
      (host : Host) (id : Text) (b : BootstrapDevice) → Keeps P (handle_bootstrap_device host id b)
  unfolding handle_bootstrap_device
  bootstrap_device-Keeps host id b = search (steps, first-Keeps, further-Keeps) depth 40

  pub change_password-Keeps :
      (host : Host) (id : Text) (change : ChangePassword)
      → Keeps P (handle_change_password host id change)
  unfolding handle_change_password
  change_password-Keeps host id change = search (steps, set-Keeps, password-Keeps) depth 40
