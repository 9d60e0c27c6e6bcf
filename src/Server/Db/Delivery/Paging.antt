-- ===== src/Server/Db/Delivery/Paging.antt =====
-- A device that asks `sync` of crates/server/src/db.rs for page after page.
use tui_chat.Base.{
  ℕ, zero, suc, ◌+◌, ◌-◌, ◌≤◌, ◌<◌, ◌≡◌, refl, ◌∙◌, ◌⊎◌, inl, inr, ltb, true, List, [], ◌∷◌, ◌++◌,
  some, if◌then◌else◌, list_eq, nat_eq, length, select, unwrap_or, map_option, take, last, arith,
  Bool-cases, Option-cases,
}
use tui_chat.Base.Text.{Text}
use tui_chat.Base.Int.{pos, as_i64, int_eq}
use tui_chat.Base.Order.{Increasing, Increasing-le}
use tui_chat.Protocol.Messages.{StoredEnvelope}
use tui_chat.Server.Db.Rows.{Account, EnvelopeRow, Db}
use tui_chat.Server.Db.Consistent.{IsConsistent}
use tui_chat.Base.{drop, ltb→lt, ltb→le}
use native.Mathlib.Numerals.{add-one}
use mathlib.Core.List.{append-nil}
use tui_chat.Base.Slices.{
  take-append-drop, take-take-suc, take_all, length-take-suc, length-drop, last-take,
  length_pos_of_last, last-bounds, select-drop,
}
use tui_chat.Server.Db.Delivery.{stored_row, joined, is_queued, queued, clamp, sync}

-- The `next_cursor` of a `SyncBatch`, as `handle_frame` computes it.
unfoldable pub next_cursor : ℕ → List StoredEnvelope → ℕ
next_cursor after envelopes = unwrap_or (map_option (λ s. s.cursor) (last envelopes)) after

as_i64_small : (n : ℕ) → n < 9223372036854775808 → as_i64 n ≡ pos n
unfolding as_i64
as_i64_small n h = ground arith

stored_row-cursor :
    (accounts : List Account) (row : EnvelopeRow) (s : StoredEnvelope)
    → stored_row accounts row ≡ some s
    → s.cursor ≡ row.cursor
unfolding stored_row
stored_row-cursor accounts row s h = ground arith

module _ (accounts : List Account) (device : Text) (after : ℕ)
    (small : after < 9223372036854775808) where
  is_queued_after : (row : EnvelopeRow) → is_queued device after row ≡ true → after < row.cursor
  unfolding is_queued
  is_queued_after row h = ground (arith, as_i64_small after small)

  joined-Increasing :
      (a lo hi hi' : ℕ) (es : List EnvelopeRow)
      → Increasing (λ e. e.cursor) lo es hi
      → (a ≤ lo) ⊎ (a ≤ after)
      → hi ≤ hi'
      → a ≤ hi'
      → Increasing (λ s. s.cursor) a (joined accounts (select (is_queued device after) es)) hi'
  unfolding select joined
  joined-Increasing a lo hi hi' [] h below le le' = le'
  joined-Increasing a lo hi hi' (e ∷ es) h below le le' =
      let skipped = joined-Increasing a e.cursor hi hi' es h.1 (omega arith) le le' in
      elim (Bool-cases (is_queued device after e)) [
        | inl hit ↦ elim (Option-cases (stored_row accounts e)) [
          | inl missing ↦ rw hit (rw (missing, joined) skipped)
          | inr (s, found) ↦
              let same : s.cursor ≡ e.cursor = stored_row-cursor accounts e s found in
              let fits : e.cursor ≤ hi = Increasing-le (λ r. r.cursor) e.cursor hi es h.1 in
              rw hit (
                rw (found, joined)
                  (
                    omega (arith, is_queued_after e hit),
                    joined-Increasing s.cursor e.cursor hi hi' es h.1 (inl (omega arith)) le
                        (omega arith),
                  ))
        ]
        | inr miss ↦ rw miss skipped
      ]

  queued_later :
      (c : ℕ) (es : List EnvelopeRow)
      → after ≤ c
      → c < 9223372036854775808
      → joined accounts (select (is_queued device c) es)
        ≡ select (λ s. ltb c s.cursor) (joined accounts (select (is_queued device after) es))
  unfolding select joined is_queued
  queued_later c [] le lt = refl
  queued_later c (e ∷ es) le lt = elim (Option-cases (stored_row accounts e)) [
    | inl missing ↦
        ground (arith, as_i64_small c lt, as_i64_small after small, queued_later c es le lt)
    | inr (s, found) ↦ ground (
      arith,
      as_i64_small c lt,
      as_i64_small after small,
      queued_later c es le lt,
      stored_row-cursor accounts e s found,
    )
  ]

-- A client's loop: it asks for the next page as long as there is one.
unfoldable pub drain : ℕ → Db → Text → Text → ℕ → ℕ → ℕ → List StoredEnvelope
drain zero db account device after status_after limit = []
drain (suc fuel) db account device after status_after limit =
    let page = sync db account device after status_after limit in
    let rest = drain fuel db account device (next_cursor after page.envelopes) status_after limit in
    page.envelopes ++ (if page.has_more then rest else [])

clamp-pos : (limit : ℕ) → (n : ℕ) × (clamp 1 200 limit ≡ suc n)
unfolding clamp
clamp-pos limit = (clamp 1 200 limit - 1, ground arith)

-- A page and what a function makes of its last cursor are the whole, if that is the rest.
page-append :
    (q : List StoredEnvelope) (k after : ℕ) (f : ℕ → List StoredEnvelope)
    → ((z : StoredEnvelope) → last (take (suc k) q) ≡ some z → f z.cursor ≡ drop (suc k) q)
    → let page = take (suc k) (take (suc k + 1) q) in
      page ++ (if ltb (suc k) (length (take (suc k + 1) q)) then f (next_cursor after page) else [])
      ≡ q
unfolding next_cursor
page-append q k after f rest =
    rw (add-one (suc k), take-take-suc (suc k) q, length-take-suc (suc k) q)
      (elim (Bool-cases (ltb (suc k) (length q))) [
        | inl more ↦
            let (z, e) = last-take k q (omega (arith, ltb→lt _ _ more)) in
            rw (more, e, rest z e) (take-append-drop (suc k) q)
        | inr done ↦ rw (done, take_all (suc k) q (ltb→le _ _ done)) (append-nil q)
      ])

module _ (db : Db) (device : Text) (after : ℕ) (v : IsConsistent db)
    (small : after < 9223372036854775808) (seq : db.envelope_seq < 9223372036854775808) (k : ℕ)
    (z : StoredEnvelope) (e : last (take (suc k) (queued db device after)) ≡ some z) where
  queued-Increasing : Increasing (λ s. s.cursor) after (queued db device after) 9223372036854775807
  unfolding queued
  queued-Increasing =
      joined-Increasing db.accounts device after small after 0 db.envelope_seq 9223372036854775807
        db.envelopes v.ordered (inr (omega arith)) (omega arith) (omega arith)

  queued-bounds : (after < z.cursor) × (z.cursor < 9223372036854775808)
  queued-bounds = omega (
    arith,
    last-bounds (λ s. s.cursor) (suc k) after 9223372036854775807 (queued db device after) z
        queued-Increasing e,
  )

  -- The queue behind the last cursor of a page is the rest of the queue.
  queued-drop : queued db device z.cursor ≡ drop (suc k) (queued db device after)
  unfolding queued
  queued-drop =
      queued_later db.accounts device after small z.cursor db.envelopes
        (omega (arith, queued-bounds)) queued-bounds.1
      ∙ select-drop (λ s. s.cursor) (suc k) after 9223372036854775807 (queued db device after) z
          queued-Increasing e

-- On consistent tables whose cursors fit an `i64`, and with fuel for more pages than the queue
-- behind `after` has envelopes, the pages of the loop are together that queue: every envelope to
-- the device once, in the order of the cursors, none lost and none repeated, whatever page size
-- the client asks for.
pub drain-queued :
    (fuel : ℕ) (db : Db) (account device : Text) (after status_after limit : ℕ)
    → IsConsistent db
    → after < 9223372036854775808
    → db.envelope_seq < 9223372036854775808
    → length (queued db device after) < fuel
    → drain fuel db account device after status_after limit ≡ queued db device after
unfolding drain sync
drain-queued zero db account device after status_after limit v small seq h = absurd (omega arith)
drain-queued (suc fuel) db account device after status_after limit v small seq h =
    let (k, size) = clamp-pos limit in
    rw size (
      page-append (queued db device after) k after
        (λ c. drain fuel db account device c status_after limit)
        (λ z e.
          let behind = queued-drop db device after v small seq k z e in
          let fewer : length (queued db device z.cursor) < fuel = rw behind (
            omega (
              arith,
              length-drop (suc k) (queued db device after),
              length_pos_of_last (suc k) (queued db device after) z e,
            )) in
          drain-queued fuel db account device z.cursor status_after limit v
            (queued-bounds db device after v small seq k z e).1 seq fewer
          ∙ behind))
