-- ===== src/Server/Db/Samples.antt =====
-- Sample data for the runs: two accounts, their devices, and a stored envelope.
use tui_chat.Base.{
  ℕ, refl, Bool, true, false, [], ◌∷◌, none, Option, arith, list_eq, nat_eq, sum_of,
}
use tui_chat.Base.Text.{Bytes, Text, text}
use tui_chat.Base.Int.{pos, int_eq}
use tui_chat.Protocol.Messages.{DeviceBundle, OneTimeKey, EncryptedEnvelope}
use tui_chat.Protocol.Payload.{conversation_id}
use tui_chat.Server.Db.Rows.{
  Account, DeviceRow, EnvelopeRow, PrekeyRow, Db, StorageLimits, usage_of,
}
use tui_chat.Server.Db.Consistent.{IsConsistent}
use tui_chat.Server.Db.Usage.{sent_bytes}

-- Two accounts with a device each, and a pending one.
abbrev pub alice : Text
alice = 1 ∷ []

abbrev pub bob : Text
bob = 2 ∷ []

abbrev pub phone : Text
phone = 11 ∷ []

abbrev pub laptop : Text
laptop = 21 ∷ []

abbrev pub tablet : Text
tablet = 22 ∷ []

abbrev pub account : Text → Account
account id = record {
  id = id;
  username = id;
  password_phc = [];
  state = text "active";
  require_password_change = false;
  master_public_key = none;
  roster_revision = 0;
}

abbrev pub bundle : Text → DeviceBundle
bundle id = record {
  device_id = id;
  device_name = id;
  auth_signing_key = [];
  olm_ed25519_key = [];
  olm_curve25519_key = [];
  certificate_signature = [];
  revoked = false;
}

abbrev pub device_row : Text → Text → Bool → DeviceRow
device_row owner id pending = record {
  account_id = owner;
  bundle = bundle id;
  sas_public_key = [];
  pending = pending;
  created_at_ms = 0;
  last_authenticated_at_ms = none;
}

abbrev pub db0 : Db
db0 = record {
  accounts = account alice ∷ account bob ∷ [];
  devices =
      device_row alice phone false ∷ device_row bob laptop false ∷ device_row bob tablet true ∷ [];
  prekeys = [];
  logical_messages = [];
  envelopes = [];
  envelope_seq = 0;
  delivery_updates = [];
  update_seq = 0;
  pairing_events = [];
  pairing_seq = 0;
  account_storage_usage = [];
  audit_events = [];
}

pub db0-IsConsistent : IsConsistent db0
unfolding usage_of sent_bytes sum_of
db0-IsConsistent = record {
  accounted = λ a. refl;
  unique = tt;
  ordered = omega arith;
  updates_ordered = omega arith;
}

abbrev pub digest : Bytes → Bytes
digest bytes = bytes

abbrev pub envelope : EncryptedEnvelope
envelope = record {
  envelope_id = 31 ∷ [];
  logical_message_id = 41 ∷ [];
  conversation_id = conversation_id digest alice bob;
  recipient_account_id = bob;
  recipient_device_id = laptop;
  ciphertext = 7 ∷ 8 ∷ 9 ∷ [];
  olm_message_type = 1;
  client_sent_at_ms = pos 5;
}

abbrev pub limits : StorageLimits
limits = record {
  max_account_ciphertext_bytes = 4;
  max_total_ciphertext_bytes = 10;
  min_free_disk_bytes = 1;
}

abbrev pub sent_row : Option ℕ → EnvelopeRow
sent_row delivered = record {
  cursor = 1;
  sender_account_id = alice;
  sender_device_id = phone;
  envelope = envelope;
  accepted_at_ms = 6;
  delivered_at_ms = delivered;
}

-- After `envelope` is stored.
abbrev pub sent : Db
sent = record db0 {
  logical_messages =
      record {
        logical_message_id = 41 ∷ [];
        sender_account_id = alice;
        sender_device_id = phone;
        peer_account_id = bob;
        conversation_id = conversation_id digest alice bob;
        client_sent_at_ms = pos 5;
        accepted_at_ms = 6;
        delivered_at_ms = none;
      }
      ∷ [];
  envelopes = sent_row none ∷ [];
  envelope_seq = 1;
  account_storage_usage = record { account_id = alice; ciphertext_bytes = 3 } ∷ [];
}

abbrev pub prekey : OneTimeKey
prekey = record { key_id = 51 ∷ []; curve25519_key = 52 ∷ []; signature = [] }

abbrev pub prekey_row : PrekeyRow
prekey_row = record { device_id = laptop; key = prekey; created_at_ms = 3 }

-- After the laptop has published `prekey`.
abbrev pub published : Db
published = record db0 { prekeys = prekey_row ∷ [] }
