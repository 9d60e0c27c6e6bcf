-- ===== src/Server/Db/Consistent.antt =====
-- The consistency of the tables of crates/server/src/db.rs: usage rows match the stored
-- ciphertext, keys rise and are unique.
use tui_chat.Base.{
  ℕ, ◌≡◌, refl, sym, ap, ◌∙◌, subst, ◌⊎◌, Bool, true, false, List, [], ◌∷◌, ◌++◌, arith, length,
  if◌then◌else◌, ◌==◌, list_eq, nat_eq, sum_of, select, update, any, ok, inl, inr, Bool-cases,
}
use tui_chat.Base.Text.{Text}
use tui_chat.Base.Order.{Increasing, Increasing-append, Increasing-upper}
use tui_chat.Base.Queries.{any-append, any-select_absent, any-update}
use tui_chat.Protocol.Messages.{EncryptedEnvelope}
use tui_chat.Server.Db.Rows.{Db, EnvelopeRow, usage_of}
use tui_chat.Server.Db.Usage.{sent_bytes, sent_bytes-append, usage_of-add_usage}
use tui_chat.Server.Db.Store.{has_id, insert_envelope, new_row, skip_cursor, with_envelope}

abbrev pub row_id : EnvelopeRow → Text
row_id e = e.envelope.envelope_id

-- No two rows have one envelope id.
abbrev pub UniqueIds : List EnvelopeRow → Type 0
UniqueIds [] = Unit {0}
UniqueIds (e ∷ es) = (any (has_id (row_id e)) es ≡ false) × UniqueIds es

-- The usage table holds, for each account, the bytes of the envelopes that it sent.
abbrev pub IsAccounted : Db → Type 0
IsAccounted db = (a : Text) → usage_of a db.account_storage_usage ≡ sent_bytes a db.envelopes

pub record IsConsistent (db : Db) : Type 0 where
  pub accounted : IsAccounted db
  pub unique : UniqueIds db.envelopes
  pub ordered : Increasing (λ e. e.cursor) 0 db.envelopes db.envelope_seq
  pub updates_ordered : Increasing (λ u. u.cursor) 0 db.delivery_updates db.update_seq

pub UniqueIds-append :
    (es : List EnvelopeRow) (e : EnvelopeRow)
    → UniqueIds es
    → any (has_id (row_id e)) es ≡ false
    → UniqueIds (es ++ (e ∷ []))
unfolding any
UniqueIds-append [] e u h = (refl, tt)
UniqueIds-append (x ∷ es) e u h =
    ground (arith, UniqueIds-append es e u.1, any-append (has_id (row_id x)) es (e ∷ []))

pub UniqueIds-select :
    (p : EnvelopeRow → Bool) (es : List EnvelopeRow) → UniqueIds es → UniqueIds (select p es)
unfolding select
UniqueIds-select p [] u = tt
UniqueIds-select p (x ∷ es) u =
    ground (arith, UniqueIds-select p es u.1, any-select_absent (has_id (row_id x)) p es)

row_id-if :
    (p : EnvelopeRow → Bool) (f : EnvelopeRow → EnvelopeRow) (x : EnvelopeRow)
    → row_id (f x) ≡ row_id x
    → row_id (if p x then f x else x) ≡ row_id x
row_id-if p f x same = elim (Bool-cases (p x)) [ inl e ↦ rw e same | inr e ↦ rw e ]

pub UniqueIds-update :
    (p : EnvelopeRow → Bool) (f : EnvelopeRow → EnvelopeRow) (es : List EnvelopeRow)
    → ((e : EnvelopeRow) → row_id (f e) ≡ row_id e)
    → UniqueIds es
    → UniqueIds (update p f es)
unfolding update
UniqueIds-update p f [] same u = tt
UniqueIds-update p f (x ∷ es) same u = (
  subst (λ i. any (has_id i) (update p f es) ≡ false) (sym (row_id-if p f x (same x)))
      (any-update (has_id (row_id x)) p f es (λ e. ap (λ i. i == row_id x) (same e)) ∙ u.0),
  UniqueIds-update p f es same u.1,
)

module _ (db : Db) (sender sender_device : Text) (now : ℕ) (e : EncryptedEnvelope) where
  -- An insertion ignores an id that is there, and appends the row otherwise.
  pub insert_envelope_cases :
      (db' : Db)
      → insert_envelope db sender sender_device now e ≡ ok db'
      → ((any (has_id e.envelope_id) db.envelopes ≡ true) × (db' ≡ skip_cursor db))
        ⊎ ((any (has_id e.envelope_id) db.envelopes ≡ false)
            × (db' ≡ with_envelope db sender sender_device now e))
  unfolding insert_envelope
  insert_envelope_cases db' h = ground arith

  skip_cursor-IsConsistent : IsConsistent db → IsConsistent (skip_cursor db)
  unfolding skip_cursor
  skip_cursor-IsConsistent v = record {
    accounted = v.accounted;
    unique = v.unique;
    ordered = Increasing-upper _ 0 db.envelope_seq _ db.envelopes (omega arith) v.ordered;
    updates_ordered = v.updates_ordered;
  }

  pub with_envelope-IsConsistent :
      IsConsistent db
      → any (has_id e.envelope_id) db.envelopes ≡ false
      → IsConsistent (with_envelope db sender sender_device now e)
  unfolding with_envelope sent_bytes sum_of
  with_envelope-IsConsistent v h = record {
    accounted = λ a. ground (
      arith,
      v.accounted a,
      usage_of-add_usage a sender (length e.ciphertext) db.account_storage_usage,
      sent_bytes-append a db.envelopes (new_row db sender sender_device now e ∷ []),
    );
    unique = UniqueIds-append db.envelopes _ v.unique h;
    ordered =
        Increasing-append _ 0 db.envelope_seq _ db.envelopes _ v.ordered (omega arith)
          (omega arith);
    updates_ordered = v.updates_ordered;
  }

  pub insert_envelope-IsConsistent :
      (db' : Db)
      → IsConsistent db
      → insert_envelope db sender sender_device now e ≡ ok db'
      → IsConsistent db'
  insert_envelope-IsConsistent db' v h = elim (insert_envelope_cases db' h) [
    | inl (_, same) ↦ subst IsConsistent (sym same) (skip_cursor-IsConsistent v)
    | inr (fresh, new) ↦ subst IsConsistent (sym new) (with_envelope-IsConsistent v fresh)
  ]
