-- ===== src/Server/Db/Usage.antt =====
-- The table `account_storage_usage` under its triggers.
use tui_chat.Base.{
  ℕ, ◌+◌, ◌-◌, ◌≡◌, List, [], ◌∷◌, ◌++◌, arith, if◌then◌else◌, ◌==◌, list_eq, nat_eq, sum_of,
  select, delete, Bool,
}
use tui_chat.Base.Text.{Text}
use tui_chat.Server.Db.Rows.{
  UsageRow, EnvelopeRow, ciphertext_length, add_usage, release_usage, release_all, usage_of,
  total_usage,
}

pub usage_of-add_usage :
    (a b : Text) (n : ℕ) (rows : List UsageRow)
    → usage_of a (add_usage b n rows) ≡ (if b == a then usage_of a rows + n else usage_of a rows)
unfolding usage_of add_usage
usage_of-add_usage a b n [] = ground arith
usage_of-add_usage a b n (row ∷ rows) = ground (arith, usage_of-add_usage a b n rows)

pub total_usage-add_usage :
    (b : Text) (n : ℕ) (rows : List UsageRow)
    → total_usage (add_usage b n rows) ≡ total_usage rows + n
unfolding total_usage add_usage sum_of
total_usage-add_usage b n [] = ground arith
total_usage-add_usage b n (row ∷ rows) = ground (arith, total_usage-add_usage b n rows)

pub usage_of-release_usage :
    (a b : Text) (n : ℕ) (rows : List UsageRow)
    → usage_of a (release_usage b n rows)
      ≡ (if b == a then usage_of a rows - n else usage_of a rows)
unfolding usage_of release_usage
usage_of-release_usage a b n [] = ground arith
usage_of-release_usage a b n (row ∷ rows) = ground (arith, usage_of-release_usage a b n rows)

-- The bytes of the envelopes that an account sent.
unfoldable pub sent_bytes : Text → List EnvelopeRow → ℕ
sent_bytes a = sum_of (λ e. if e.sender_account_id == a then ciphertext_length e else 0)

pub sent_bytes-append :
    (a : Text) (xs ys : List EnvelopeRow)
    → sent_bytes a (xs ++ ys) ≡ sent_bytes a xs + sent_bytes a ys
unfolding sent_bytes sum_of
sent_bytes-append a [] ys = omega arith
sent_bytes-append a (x ∷ xs) ys = omega (arith, sent_bytes-append a xs ys)

pub sent_bytes-delete :
    (a : Text) (p : EnvelopeRow → Bool) (es : List EnvelopeRow)
    → sent_bytes a es ≡ sent_bytes a (select p es) + sent_bytes a (delete p es)
unfolding sent_bytes sum_of select delete
sent_bytes-delete a p [] = omega arith
sent_bytes-delete a p (e ∷ es) = ground (arith, sent_bytes-delete a p es)

-- The delete trigger takes from each account what its deleted envelopes held.
pub usage_of-release_all :
    (a : Text) (es : List EnvelopeRow) (rows : List UsageRow)
    → usage_of a (release_all es rows) ≡ usage_of a rows - sent_bytes a es
unfolding release_all sent_bytes sum_of
usage_of-release_all a [] rows = omega arith
usage_of-release_all a (e ∷ es) rows = ground (
  arith,
  usage_of-release_all a es (release_usage e.sender_account_id (ciphertext_length e) rows),
  usage_of-release_usage a e.sender_account_id (ciphertext_length e) rows,
)
