-- ===== src/Server/Admission/Ledger.antt =====
-- The counters of crates/server/src/ws.rs against the connections that are open: any interleaving
-- of connections that are admitted, authenticate and end.
use tui_chat.Base.{
  suc, ◌+◌, ◌-◌, ◌<◌, ◌≡◌, refl, sym, ap, subst, Bool, true, false, ◌&&◌, List, [], ◌∷◌, ◌++◌,
  if◌then◌else◌, ◌==◌, nat_eq, length, count, arith, inl, inr, Option-cases,
}
use tui_chat.Base.Maps.{get, get-insert_same, get-insert_other, get-remove_same, get-remove_other}
use tui_chat.Server.Admission.{
  IpAddr, Counts, Admission, ConnectionLimits, count_of, increment_count, decrement_count, is_full,
  admit, mark_authenticated, release,
}

-- A `connection` task: its address, and `admitted_as_unauthenticated`.
pub record Connection : Type 0 where
  pub source_ip : IpAddr
  pub unauthenticated : Bool

abbrev pub initial : Admission
initial = record { total = 0; by_ip = []; unauthenticated_by_ip = [] }

-- The open connections and the counters after a sequence of steps of any number of tasks.
pub data Run (config : ConnectionLimits) : List Connection → Admission → Type 0 where
  start : Run config [] initial
  admitted :
      (open_ : List Connection) (a a' : Admission) (ip : IpAddr)
      → Run config open_ a
      → admit config ip a ≡ (a', true)
      → Run config (record { source_ip = ip; unauthenticated = true } ∷ open_) a'
  refused :
      (open_ : List Connection) (a a' : Admission) (ip : IpAddr)
      → Run config open_ a
      → admit config ip a ≡ (a', false)
      → Run config open_ a'
  authenticated :
      (before after : List Connection) (ip : IpAddr) (a : Admission)
      → Run config (before ++ (record { source_ip = ip; unauthenticated = true } ∷ after)) a
      → Run config
          (before ++ (record { source_ip = ip; unauthenticated = false } ∷ after))
          (mark_authenticated ip a)
  released :
      (before after : List Connection) (c : Connection) (a : Admission)
      → Run config (before ++ (c ∷ after)) a
      → Run config (before ++ after) (release c.source_ip c.unauthenticated a)

abbrev pub is_from : IpAddr → Connection → Bool
is_from ip c = c.source_ip == ip

abbrev pub is_unauthenticated_from : IpAddr → Connection → Bool
is_unauthenticated_from ip c = c.source_ip == ip && c.unauthenticated

-- The counters count the open connections.
pub record Tracks (open_ : List Connection) (a : Admission) : Type 0 where
  pub total : a.total ≡ length open_
  pub by_ip : (ip : IpAddr) → count_of ip a.by_ip ≡ count (is_from ip) open_
  pub unauthenticated :
      (ip : IpAddr) → count_of ip a.unauthenticated_by_ip ≡ count (is_unauthenticated_from ip) open_

count_of-increment :
    (ip j : IpAddr) (counts : Counts)
    → count_of j (increment_count ip counts) ≡ (if ip == j then 1 else 0) + count_of j counts
unfolding increment_count count_of
count_of-increment ip j counts = ground (
  arith,
  get-insert_same ip (count_of ip counts + 1) counts,
  get-insert_other ip j (count_of ip counts + 1) counts,
)

count_of-decrement :
    (ip j : IpAddr) (counts : Counts)
    → count_of j (decrement_count counts ip) ≡ count_of j counts - (if ip == j then 1 else 0)
unfolding decrement_count count_of
count_of-decrement ip j counts = elim (Option-cases (get ip counts)) [
  | inl e ↦ ground (arith, e)
  | inr (n, e) ↦ ground (
    arith,
    e,
    get-insert_same ip (n - 1) counts,
    get-insert_other ip j (n - 1) counts,
    get-remove_same ip counts,
    get-remove_other ip j counts,
  )
]

pub count-middle :
    (p : Connection → Bool) (before after : List Connection) (c : Connection)
    → count p (before ++ (c ∷ after)) ≡ (if p c then 1 else 0) + count p (before ++ after)
unfolding count
count-middle p [] after c = refl
count-middle p (b ∷ before) after c = ground (arith, count-middle p before after c)

pub length-middle :
    (before after : List Connection) (c : Connection)
    → length (before ++ (c ∷ after)) ≡ suc (length (before ++ after))
length-middle [] after c = refl
length-middle (b ∷ before) after c = ap suc (length-middle before after c)

pub admit_inv :
    (config : ConnectionLimits) (ip : IpAddr) (a a' : Admission)
    → admit config ip a ≡ (a', true)
    → (a' ≡ record {
      total = a.total + 1;
      by_ip = increment_count ip a.by_ip;
      unauthenticated_by_ip = increment_count ip a.unauthenticated_by_ip;
    })
      × (a.total < config.max_connections)
      × (count_of ip a.by_ip < config.max_connections_per_ip)
      × (count_of ip a.unauthenticated_by_ip < config.max_unauthenticated_per_ip)
unfolding admit is_full
admit_inv config ip a a' h = ground arith

admit_refused :
    (config : ConnectionLimits) (ip : IpAddr) (a a' : Admission)
    → admit config ip a ≡ (a', false)
    → a' ≡ a
unfolding admit
admit_refused config ip a a' h = ground arith

Tracks-admitted :
    (open_ : List Connection) (a : Admission) (ip : IpAddr)
    → Tracks open_ a
    → Tracks (record { source_ip = ip; unauthenticated = true } ∷ open_) (record {
      total = a.total + 1;
      by_ip = increment_count ip a.by_ip;
      unauthenticated_by_ip = increment_count ip a.unauthenticated_by_ip;
    })
unfolding count
Tracks-admitted open_ a ip t = record {
  total = ground (arith, t.total);
  by_ip = λ j. ground (arith, count_of-increment ip j a.by_ip, t.by_ip j);
  unauthenticated =
      λ j. ground (arith, count_of-increment ip j a.unauthenticated_by_ip, t.unauthenticated j);
}

Tracks-authenticated :
    (before after : List Connection) (ip : IpAddr) (a : Admission)
    → Tracks (before ++ (record { source_ip = ip; unauthenticated = true } ∷ after)) a
    → Tracks
        (before ++ (record { source_ip = ip; unauthenticated = false } ∷ after))
        (mark_authenticated ip a)
unfolding mark_authenticated
Tracks-authenticated before after ip a t =
    let old : Connection = record { source_ip = ip; unauthenticated = true } in
    let new : Connection = record { source_ip = ip; unauthenticated = false } in
    record {
      total =
          ground (arith, t.total, length-middle before after old, length-middle before after new);
      by_ip = λ j. ground (
        arith,
        t.by_ip j,
        count-middle (is_from j) before after old,
        count-middle (is_from j) before after new,
      );
      unauthenticated = λ j. ground (
        arith,
        t.unauthenticated j,
        count_of-decrement ip j a.unauthenticated_by_ip,
        count-middle (is_unauthenticated_from j) before after old,
        count-middle (is_unauthenticated_from j) before after new,
      );
    }

Tracks-released :
    (before after : List Connection) (c : Connection) (a : Admission)
    → Tracks (before ++ (c ∷ after)) a
    → Tracks (before ++ after) (release c.source_ip c.unauthenticated a)
unfolding release
Tracks-released before after c a t = record {
  total = ground (arith, t.total, length-middle before after c);
  by_ip = λ j. ground (
    arith,
    t.by_ip j,
    count_of-decrement c.source_ip j a.by_ip,
    count-middle (is_from j) before after c,
  );
  unauthenticated = λ j. ground (
    arith,
    t.unauthenticated j,
    count_of-decrement c.source_ip j a.unauthenticated_by_ip,
    count-middle (is_unauthenticated_from j) before after c,
  );
}

-- After any sequence of admissions, authentications and ends, the three counters are exact: the
-- number of the connections that are open, and for each address the number of its connections and
-- of those among them that have not authenticated. So they are 0 when all have ended.
pub Run-Tracks :
    {config : ConnectionLimits} {open_ : List Connection} {a : Admission}
    → Run config open_ a
    → Tracks open_ a
unfolding count count_of get
Run-Tracks start = record { total = refl; by_ip = λ ip. refl; unauthenticated = λ ip. refl }
Run-Tracks {config} (admitted open_ a a' ip run h) =
    subst (Tracks _) (sym (admit_inv config ip a a' h).0)
      (Tracks-admitted open_ a ip (Run-Tracks run))
Run-Tracks {config} (refused open_ a a' ip run h) =
    subst (Tracks open_) (sym (admit_refused config ip a a' h)) (Run-Tracks run)
Run-Tracks (authenticated before after ip a run) =
    Tracks-authenticated before after ip a (Run-Tracks run)
Run-Tracks (released before after c a run) = Tracks-released before after c a (Run-Tracks run)
