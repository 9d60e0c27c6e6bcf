-- ===== src/Server/Db/Pairing/Events.antt =====
-- Pairing events: what a device is shown, and what it has acknowledged.
use tui_chat.Base.{
  ℕ, suc, ◌≡◌, refl, sym, ap, ◌∙◌, subst, inl, inr, leb, Bool, true, false, ◌||◌, List, [], ◌∷◌,
  ◌++◌, ok, ◌!=◌, list_eq, nat_eq, select, any, arith, Bool-cases,
}
use tui_chat.Base.Keyed.{any-take}
use tui_chat.Base.Text.{Bytes, Text}
use tui_chat.Base.Int.{int_eq}
use tui_chat.Base.Order.{Increasing, Increasing-append}
use tui_chat.Base.Queries.{any-delete_self, delete-none, count-none}
use tui_chat.Server.Db.Rows.{PairingRow, Db}
use tui_chat.Server.Db.Pairing.{
  insert_pairing_event, is_pending_event, pending_pairing_events, is_event, ack_pairing_event,
}

-- The ids of the events rise, and no id is beyond the sequence.
abbrev pub HasEventOrder : Db → Type 0
HasEventOrder db = Increasing (λ p. p.id) 0 db.pairing_events db.pairing_seq

any-select_disjoint :
    {A : Type 0} (q p : A → Bool) (xs : List A)
    → ((x : A) → p x ≡ true → q x ≡ false)
    → any q (select p xs) ≡ false
unfolding any select
any-select_disjoint q p [] h = refl
any-select_disjoint q p (x ∷ xs) h = ground (arith, h x, any-select_disjoint q p xs h)

-- A device is shown no event of another device and none that has expired.
pub pending_pairing_events_own :
    (db : Db) (target : Text) (now : ℕ)
    → any
        (λ p. p.target_device_id != target || leb p.expires_at_ms now)
        (pending_pairing_events db target now)
      ≡ false
unfolding pending_pairing_events is_pending_event
pending_pairing_events_own db target now =
    any-take _ 200 _ (any-select_disjoint _ _ db.pairing_events (λ p h. ground arith))

-- An acknowledgement is answered by `true` only for an event that is there and is addressed to the
-- device; the event is gone afterwards, so that a second acknowledgement is refused.
pub ack_pairing_event_once :
    (db : Db) (target : Text) (event : ℕ)
    → let (db', done) = ack_pairing_event db target event in
      (done ≡ true → any (is_event target event) db.pairing_events ≡ true)
      × (any (is_event target event) db'.pairing_events ≡ false)
      × (ack_pairing_event db' target event ≡ (db', false))
unfolding ack_pairing_event
ack_pairing_event_once db target event =
    let gone = any-delete_self (is_event target event) db.pairing_events in
    (
      λ h. elim (Bool-cases (any (is_event target event) db.pairing_events)) [
        | inl there ↦ there
        | inr absent ↦ ground (arith, count-none (is_event target event) db.pairing_events absent)
      ],
      gone,
      rw (delete-none _ _ gone, count-none _ _ gone) (ground arith),
    )

abbrev with_event : Db → PairingRow → Db
with_event db p = record db {
  pairing_events = db.pairing_events ++ (p ∷ []);
  pairing_seq = suc db.pairing_seq;
}

abbrev new_event : Db → Text → Text → Text → Text → Bytes → ℕ → PairingRow
new_event db pairing sender target event_type payload expires = record {
  id = suc db.pairing_seq;
  pairing_id = pairing;
  sender_device_id = sender;
  target_device_id = target;
  event_type = event_type;
  payload = payload;
  expires_at_ms = expires;
}

insert_pairing_event_inv :
    (db : Db) (pairing sender target event_type : Text) (payload : Bytes) (expires : ℕ) (db' : Db)
    (id : ℕ)
    → insert_pairing_event db pairing sender target event_type payload expires ≡ ok (db', id)
    → (db' ≡ with_event db (new_event db pairing sender target event_type payload expires))
      × (id ≡ suc db.pairing_seq)
unfolding insert_pairing_event
insert_pairing_event_inv db pairing sender target event_type payload expires db' id h = ground arith

-- Where the ids of the events rise and none is beyond the sequence, the same holds after an event is
-- inserted, and the new event's id is the sequence's next number.
pub insert_pairing_event-HasEventOrder :
    (db : Db) (pairing sender target event_type : Text) (payload : Bytes) (expires : ℕ) (db' : Db)
    (id : ℕ)
    → HasEventOrder db
    → insert_pairing_event db pairing sender target event_type payload expires ≡ ok (db', id)
    → HasEventOrder db' × (id ≡ suc db.pairing_seq) × (id ≡ db'.pairing_seq)
insert_pairing_event-HasEventOrder db pairing sender target event_type payload expires db' id v h =
    let (e, i) =
      insert_pairing_event_inv db pairing sender target event_type payload expires db' id h in
    let ordered =
      Increasing-append (λ p. p.id) 0 db.pairing_seq (suc db.pairing_seq) db.pairing_events
        (new_event db pairing sender target event_type payload expires) v (omega arith)
        (omega arith) in
    (subst HasEventOrder (sym e) ordered, i, i ∙ sym (ap (λ d. d.pairing_seq) e))
