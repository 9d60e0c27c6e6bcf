-- ===== src/Server/Admission/Bounds.antt =====
-- The limits on connections in crates/server/src/ws.rs, for any interleaving of the connections.
use tui_chat.Base.{◌≤◌, ◌≡◌, true, false, List, ◌∷◌, ◌++◌, nat_eq, length, count, arith}
use tui_chat.Server.Admission.{IpAddr, Admission, ConnectionLimits, admit}
use tui_chat.Server.Admission.Ledger.{
  Connection, Run, start, admitted, refused, authenticated, released, is_from,
  is_unauthenticated_from, Tracks, Run-Tracks, admit_inv, count-middle, length-middle,
}

-- The open connections keep to the limits of the configuration.
pub record IsWithin (config : ConnectionLimits) (open_ : List Connection) : Type 0 where
  pub total : length open_ ≤ config.max_connections
  pub by_ip : (ip : IpAddr) → count (is_from ip) open_ ≤ config.max_connections_per_ip
  pub unauthenticated :
      (ip : IpAddr) → count (is_unauthenticated_from ip) open_ ≤ config.max_unauthenticated_per_ip

IsWithin-admitted :
    (config : ConnectionLimits) (open_ : List Connection) (a a' : Admission) (ip : IpAddr)
    → Tracks open_ a
    → admit config ip a ≡ (a', true)
    → IsWithin config open_
    → IsWithin config (record { source_ip = ip; unauthenticated = true } ∷ open_)
unfolding count
IsWithin-admitted config open_ a a' ip t h w =
    let (e, total, by_ip, unauthenticated) = admit_inv config ip a a' h in
    record {
      total = ground (arith, t.total);
      by_ip = λ j. ground (arith, w.by_ip j, t.by_ip j);
      unauthenticated = λ j. ground (arith, w.unauthenticated j, t.unauthenticated j);
    }

IsWithin-authenticated :
    (config : ConnectionLimits) (before after : List Connection) (ip : IpAddr)
    → IsWithin config (before ++ (record { source_ip = ip; unauthenticated = true } ∷ after))
    → IsWithin config (before ++ (record { source_ip = ip; unauthenticated = false } ∷ after))
IsWithin-authenticated config before after ip w =
    let old : Connection = record { source_ip = ip; unauthenticated = true } in
    let new : Connection = record { source_ip = ip; unauthenticated = false } in
    record {
      total =
          ground (arith, w.total, length-middle before after old, length-middle before after new);
      by_ip = λ j. ground (
        arith,
        w.by_ip j,
        count-middle (is_from j) before after old,
        count-middle (is_from j) before after new,
      );
      unauthenticated = λ j. ground (
        arith,
        w.unauthenticated j,
        count-middle (is_unauthenticated_from j) before after old,
        count-middle (is_unauthenticated_from j) before after new,
      );
    }

IsWithin-released :
    (config : ConnectionLimits) (before after : List Connection) (c : Connection)
    → IsWithin config (before ++ (c ∷ after))
    → IsWithin config (before ++ after)
IsWithin-released config before after c w = record {
  total = ground (arith, w.total, length-middle before after c);
  by_ip = λ j. ground (arith, w.by_ip j, count-middle (is_from j) before after c);
  unauthenticated = λ j.
      ground (arith, w.unauthenticated j, count-middle (is_unauthenticated_from j) before after c);
}

-- Whatever the order in which connections are admitted, authenticate and end, the open connections
-- keep to the three limits of the configuration: in all, of one address, and those of one address
-- that have not authenticated.
pub Run-IsWithin :
    {config : ConnectionLimits} {open_ : List Connection} {a : Admission}
    → Run config open_ a
    → IsWithin config open_
unfolding count
Run-IsWithin start = record {
  total = omega arith;
  by_ip = λ ip. omega arith;
  unauthenticated = λ ip. omega arith;
}
Run-IsWithin {config} (admitted open_ a a' ip run h) =
    IsWithin-admitted config open_ a a' ip (Run-Tracks run) h (Run-IsWithin run)
Run-IsWithin (refused open_ a a' ip run h) = Run-IsWithin run
Run-IsWithin {config} (authenticated before after ip a run) =
    IsWithin-authenticated config before after ip (Run-IsWithin run)
Run-IsWithin {config} (released before after c a run) =
    IsWithin-released config before after c (Run-IsWithin run)
