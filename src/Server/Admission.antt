-- ===== src/Server/Admission.antt =====
-- The admission of connections in crates/server/src/ws.rs: `Admission` and its operations.
pub mod Ledger
pub mod Bounds
use tui_chat.Base.{
  ℕ, ◌+◌, ◌-◌, leb, Bool, true, false, ◌||◌, List, [], Option, none, some, if◌then◌else◌, ◌==◌,
  nat_eq, unwrap_or,
}
use tui_chat.Base.Maps.{get, insert, remove}

-- An `IpAddr` as a number.
abbrev pub IpAddr : Type 0
IpAddr = ℕ

-- `HashMap<IpAddr, usize>`
abbrev pub Counts : Type 0
Counts = List (IpAddr × ℕ)

pub record Admission : Type 0 where
  pub total : ℕ
  pub by_ip : Counts
  pub unauthenticated_by_ip : Counts

-- The fields of `Config` that `admit` reads.
pub record ConnectionLimits : Type 0 where
  pub max_connections : ℕ
  pub max_connections_per_ip : ℕ
  pub max_unauthenticated_per_ip : ℕ

-- `get(&ip).copied().unwrap_or(0)`
unfoldable pub count_of : IpAddr → Counts → ℕ
count_of ip counts = unwrap_or (get ip counts) 0

-- `*counts.entry(ip).or_default() += 1`
unfoldable pub increment_count : IpAddr → Counts → Counts
increment_count ip counts = insert ip (count_of ip counts + 1) counts

unfoldable pub decrement_count : Counts → IpAddr → Counts
decrement_count counts ip = elim (get ip counts) [
  | none ↦ counts
  | some n ↦ if n - 1 == 0 then remove ip counts else insert ip (n - 1) counts
]

unfoldable pub is_full : ConnectionLimits → IpAddr → Admission → Bool
is_full config ip a =
    leb config.max_connections a.total
    || leb config.max_connections_per_ip (count_of ip a.by_ip)
    || leb config.max_unauthenticated_per_ip (count_of ip a.unauthenticated_by_ip)

unfoldable pub admit : ConnectionLimits → IpAddr → Admission → Admission × Bool
admit config ip a = if is_full config ip a then (a, false) else (
  record {
    total = a.total + 1;
    by_ip = increment_count ip a.by_ip;
    unauthenticated_by_ip = increment_count ip a.unauthenticated_by_ip;
  },
  true,
)

unfoldable pub mark_authenticated : IpAddr → Admission → Admission
mark_authenticated ip a = record a {
  unauthenticated_by_ip = decrement_count a.unauthenticated_by_ip ip;
}

unfoldable pub release : IpAddr → Bool → Admission → Admission
release ip still_unauthenticated a = record {
  total = a.total - 1;
  by_ip = decrement_count a.by_ip ip;
  unauthenticated_by_ip =
      if still_unauthenticated
      then decrement_count a.unauthenticated_by_ip ip
      else a.unauthenticated_by_ip;
}
