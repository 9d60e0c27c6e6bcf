-- ===== src/Server/Tests.antt =====
-- Runs of the connection handling, and the theorems on it at concrete data.
use tui_chat.Base.{
  ℕ, ◌≡◌, refl, true, false, [], ◌∷◌, some, ◌==◌, nat_eq, list_eq, option_eq, bool_eq,
}
use tui_chat.Base.Maps.{get, insert}
use tui_chat.Server.Admission.{
  Admission, ConnectionLimits, admit, is_full, count_of, increment_count, mark_authenticated,
}
use tui_chat.Server.Admission.Ledger.{
  Run, start, admitted, refused, authenticated, initial, Tracks, Run-Tracks,
}
use tui_chat.Server.Admission.Bounds.{IsWithin, Run-IsWithin}
use tui_chat.Server.Live.{LiveSession, Live, register, unregister}
use tui_chat.Server.Live.Registry.{unregister_replaced}
use tui_chat.Server.Db.Samples.{alice, phone}

-- Two connections at once, one of an address that has not authenticated.
abbrev config : ConnectionLimits
config = record { max_connections = 2; max_connections_per_ip = 2; max_unauthenticated_per_ip = 1 }

abbrev pub one : Admission
one = record { total = 1; by_ip = (7, 1) ∷ []; unauthenticated_by_ip = (7, 1) ∷ [] }

one_lem : admit config 7 initial ≡ (one, true)
unfolding admit is_full count_of increment_count get insert
one_lem = refl

one_more : admit config 7 one ≡ (one, false)
unfolding admit is_full count_of increment_count get insert nat_eq
one_more = refl

-- A connection is admitted, a second one is refused, the first authenticates.
abbrev run :
    Run config (record { source_ip = 7; unauthenticated = false } ∷ []) (mark_authenticated 7 one)
run =
    authenticated [] [] 7 one
      (refused _ one one 7 (admitted [] initial one 7 start one_lem) one_more)

Run-Tracks_example :
    Tracks (record { source_ip = 7; unauthenticated = false } ∷ []) (mark_authenticated 7 one)
Run-Tracks_example = Run-Tracks run

Run-IsWithin_example : IsWithin config (record { source_ip = 7; unauthenticated = false } ∷ [])
Run-IsWithin_example = Run-IsWithin run

abbrev pub nobody : Live
nobody = record { connections = []; sessions = []; sent = []; disconnects = [] }

abbrev live_session : ℕ → LiveSession
live_session token = record {
  id = token;
  account_id = alice;
  username = alice;
  device_id = phone;
  source_ip = 7;
  connected_at_ms = 3;
  last_seen_at_ms = 3;
  pending = false;
}

abbrev somebody : Live
somebody = register (live_session 1) nobody

different : ((live_session 2).id == 1) ≡ false
unfolding nat_eq
different = refl

unregister_replaced_example :
    get phone (unregister phone 1 (register (live_session 2) somebody)).connections
    ≡ some (record { token = 2; account_id = alice })
unregister_replaced_example = unregister_replaced (live_session 2) 1 somebody different
