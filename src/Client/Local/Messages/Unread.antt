-- ===== src/Client/Local/Messages/Unread.antt =====
-- The counts of unread messages in the summaries, and in the messages themselves
-- (crates/client/migrations/0003_conversation_summary.sql).
use tui_chat.Base.{
  ℕ, ◌+◌, ◌-◌, ◌≡◌, refl, Bool, true, false, ◌&&◌, List, [], ◌∷◌, ◌++◌, ◌==◌, ==_refl, list_eq,
  nat_eq, any, update, select, delete, count, if◌then◌else◌, arith,
}
use tui_chat.Base.Text.{Text, text}
use tui_chat.Client.Local.Rows.{MessageRow, SummaryRow}
use tui_chat.Client.Local.Messages.{is_unread, unread_of_row, read_summary, read_summaries}

-- `unread_count` of the conversation's row, 0 without one.
unfoldable pub unread_of : Text → List SummaryRow → ℕ
unread_of c [] = 0
unread_of c (s ∷ ss) = if s.conversation_id == c then s.unread_count else unread_of c ss

-- The inbound messages of a conversation that are not read.
abbrev pub is_unread_in : Text → MessageRow → Bool
is_unread_in c m = m.conversation_id == c && is_unread m.inbound m.status

unfoldable pub unread_in : Text → List MessageRow → ℕ
unread_in c = count (is_unread_in c)

abbrev pub has_summary : Text → SummaryRow → Bool
has_summary c s = s.conversation_id == c

unread_of-update_other :
    (c k : Text) (f : SummaryRow → SummaryRow) (ss : List SummaryRow)
    → ((s : SummaryRow) → (f s).conversation_id ≡ s.conversation_id)
    → (k == c) ≡ false
    → unread_of c (update (has_summary k) f ss) ≡ unread_of c ss
unfolding unread_of update
unread_of-update_other c k f [] keeps h = refl
unread_of-update_other c k f (s ∷ ss) keeps h =
    ground (arith, keeps s, unread_of-update_other c k f ss keeps)

pub unread_of-update :
    (c k : Text) (f : SummaryRow → SummaryRow) (g : ℕ → ℕ) (ss : List SummaryRow)
    → ((s : SummaryRow) → (f s).conversation_id ≡ s.conversation_id)
    → ((s : SummaryRow) → (f s).unread_count ≡ g s.unread_count)
    → any (has_summary k) ss ≡ true
    → unread_of c (update (has_summary k) f ss)
      ≡ (if k == c then g (unread_of c ss) else unread_of c ss)
unfolding unread_of update any
unread_of-update c k f g [] keeps counts h = cc
unread_of-update c k f g (s ∷ ss) keeps counts h = ground (
  arith,
  keeps s,
  counts s,
  unread_of-update c k f g ss keeps counts,
  unread_of-update_other c k f ss keeps,
)

pub unread_of-append :
    (c : Text) (ss : List SummaryRow) (s : SummaryRow)
    → any (has_summary s.conversation_id) ss ≡ false
    → unread_of c (ss ++ (s ∷ []))
      ≡ (if s.conversation_id == c then s.unread_count else unread_of c ss)
unfolding unread_of any
unread_of-append c [] s h = ground arith
unread_of-append c (t ∷ ss) s h = ground (arith, unread_of-append c ss s)

pub unread_of-missing :
    (c : Text) (ss : List SummaryRow) → any (has_summary c) ss ≡ false → unread_of c ss ≡ 0
unfolding unread_of any
unread_of-missing c [] h = refl
unread_of-missing c (s ∷ ss) h = ground (arith, unread_of-missing c ss)

pub unread_of-delete :
    (c k : Text) (ss : List SummaryRow)
    → unread_of c (delete (has_summary k) ss) ≡ (if k == c then 0 else unread_of c ss)
unfolding unread_of delete select
unread_of-delete c k [] = ground arith
unread_of-delete c k (s ∷ ss) = ground (arith, unread_of-delete c k ss)

pub unread_in-delete :
    (c k : Text) (ms : List MessageRow)
    → unread_in c (delete (λ m. m.conversation_id == k) ms) ≡ (if k == c then 0 else unread_in c ms)
unfolding unread_in count delete select
unread_in-delete c k [] = ground arith
unread_in-delete c k (m ∷ ms) = ground (arith, unread_in-delete c k ms)

pub unread_in-append :
    (c : Text) (ms : List MessageRow) (m : MessageRow)
    → unread_in c (ms ++ (m ∷ [])) ≡ unread_in c ms + unread_of_row (is_unread_in c m)
unfolding unread_in count
unread_in-append c [] m = omega arith
unread_in-append c (n ∷ ms) m = ground (arith, unread_in-append c ms m)

unread_of-read_summary :
    (c k : Text) (ss : List SummaryRow)
    → unread_of c (read_summary k ss) ≡ (if k == c then unread_of c ss - 1 else unread_of c ss)
unfolding unread_of read_summary update
unread_of-read_summary c k [] = ground arith
unread_of-read_summary c k (s ∷ ss) = ground (arith, unread_of-read_summary c k ss)

-- What the read trigger takes from a conversation for the rows that become read.
pub unread_of-read_summaries :
    (c : Text) (ms : List MessageRow) (ss : List SummaryRow)
    → unread_of c (read_summaries (text "read") ms ss) ≡ unread_of c ss - unread_in c ms
unfolding read_summaries unread_in count
unread_of-read_summaries c [] ss = omega arith
unread_of-read_summaries c (m ∷ ms) ss = ground (
  arith,
  ==_refl (text "read"),
  unread_of-read_summaries c ms ss,
  unread_of-read_summaries c ms (read_summary m.conversation_id ss),
  unread_of-read_summary c m.conversation_id ss,
)

pub read_summaries-other :
    (status : Text) (ms : List MessageRow) (ss : List SummaryRow)
    → (status == text "read") ≡ false
    → read_summaries status ms ss ≡ ss
unfolding read_summaries
read_summaries-other status [] ss h = refl
read_summaries-other status (m ∷ ms) ss h = ground (arith, read_summaries-other status ms ss h)

-- An update of rows that are not read yet to `read` takes exactly them from the count.
pub unread_in-update_read :
    (c : Text) (p : MessageRow → Bool) (ms : List MessageRow)
    → unread_in c (update p (λ m. record m { status = text "read" }) ms) + unread_in c (select p ms)
      ≡ unread_in c ms
unfolding unread_in count update select is_unread
unread_in-update_read c p [] = omega arith
unread_in-update_read c p (m ∷ ms) =
    ground (arith, ==_refl (text "read"), unread_in-update_read c p ms)

-- An update of rows that are not read yet to another status leaves the count.
pub unread_in-update_other :
    (c status : Text) (p : MessageRow → Bool) (ms : List MessageRow)
    → (status == text "read") ≡ false
    → ((m : MessageRow) → p m ≡ true → (m.status == text "read") ≡ false)
    → unread_in c (update p (λ m. record m { status = status }) ms) ≡ unread_in c ms
unfolding unread_in count update is_unread
unread_in-update_other c status p [] h guard = refl
unread_in-update_other c status p (m ∷ ms) h guard =
    ground (arith, guard m, unread_in-update_other c status p ms h guard)
