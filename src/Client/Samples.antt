-- ===== src/Client/Samples.antt =====
-- Data of crates/client/src/local.rs that the tests share, with a cipher that changes nothing.
use tui_chat.Base.{
  length, true, false, [], ◌∷◌, ◌++◌, none, some, ok, err, message, list_eq, nat_eq,
}
use tui_chat.Base.Text.{Bytes, Text}
use tui_chat.Base.Int.{pos}
use tui_chat.Protocol.Frames.{UserBundle}
use tui_chat.Client.Local.Kinds.{sent}
use tui_chat.Client.Local.Rows.{Contact, ConversationTombstone, ChatMessage, MessageRow, LocalDb}
use tui_chat.Client.Local.Keys.{Formats, VaultSession, RuntimeProfile}
use tui_chat.Client.Local.Contacts.{Codec}
use tui_chat.Client.Local.Commit.{Nonces}

abbrev pub eight : Bytes
eight = 1 ∷ 2 ∷ 3 ∷ 4 ∷ 5 ∷ 6 ∷ 7 ∷ 8 ∷ []

abbrev pub nonce : Bytes
nonce = eight ++ (eight ++ eight)

abbrev pub zeros : Bytes
zeros = 0 ∷ 0 ∷ 0 ∷ 0 ∷ 0 ∷ 0 ∷ 0 ∷ 0 ∷ 0 ∷ 0 ∷ 0 ∷ 0 ∷ 0 ∷ 0 ∷ 0 ∷ 0 ∷ []

abbrev pub open_formats : Formats
open_formats = record {
  cipher = record {
    seal = λ key nonce aad plain. some plain;
    unseal = λ key nonce aad sealed. some sealed;
    derive_key = λ passphrase salt. ok salt;
  };
  postcard = λ p. ok (length p.identity ∷ (p.identity ++ p.machine));
  json_blob = λ encoded. err (message "expected value");
  json_bytes = λ encoded. err (message "expected value");
  json_data = λ encoded. ok encoded;
}

abbrev pub a_vault : VaultSession
a_vault = record { key = 1 ∷ []; legacy_passphrase = none }

abbrev pub a_profile : RuntimeProfile
a_profile = record {
  username = 97 ∷ [];
  account_id = 97 ∷ [];
  server_url = [];
  identity = ok [];
  machine = ok [];
  pending = false;
  pairing_secret = none;
  account_master_public = 5 ∷ [];
  spki_pin = none;
  server_capabilities = [];
}

abbrev pub some_nonces : Nonces
some_nonces = record { profile = nonce; body = nonce; notification = nonce }

abbrev pub sealed : Bytes → Bytes
sealed plain = 84 ∷ 67 ∷ 66 ∷ 2 ∷ (zeros ++ (nonce ++ plain))

abbrev pub profile_bytes : Bytes
profile_bytes = sealed (84 ∷ 67 ∷ 80 ∷ 52 ∷ 0 ∷ [])

abbrev pub conversation_with : Text → Text
conversation_with peer = 99 ∷ peer

-- "hi", from the account "b".
abbrev pub a_message : ChatMessage
a_message = record {
  id = 49 ∷ [];
  conversation_id = 99 ∷ 98 ∷ [];
  peer_account_id = 98 ∷ [];
  sender_account_id = 98 ∷ [];
  body = 104 ∷ 105 ∷ [];
  sent_at_ms = pos 5;
  status = sent;
  inbound = true;
}

abbrev pub a_message_row : MessageRow
a_message_row = record {
  logical_message_id = 49 ∷ [];
  conversation_id = 99 ∷ 98 ∷ [];
  peer_account_id = 98 ∷ [];
  sender_account_id = 98 ∷ [];
  encrypted_body = sealed (104 ∷ 105 ∷ []);
  sent_at_ms = pos 5;
  status = 115 ∷ 101 ∷ 110 ∷ 116 ∷ [];
  inbound = true;
  encryption_version = 2;
}

abbrev pub empty_db : LocalDb
empty_db = record {
  profile = none;
  contacts = [];
  messages = [];
  outbox = [];
  envelope_cursor = pos 0;
  status_cursor = pos 0;
  drafts = [];
  conversation_summaries = [];
  processed_pairing_events = [];
  notifications = [];
  conversation_tombstones = [];
  ui_preferences = [];
}

abbrev pub received_db : LocalDb
received_db = record empty_db {
  profile = some profile_bytes;
  messages = a_message_row ∷ [];
  envelope_cursor = pos 1;
  conversation_summaries =
      record {
        conversation_id = 99 ∷ 98 ∷ [];
        peer_account_id = 98 ∷ [];
        last_activity_ms = pos 5;
        unread_count = 1;
      }
      ∷ [];
}

abbrev pub a_codec : UserBundle → Codec
a_codec bundle = record { encode = λ b. b.account_id; decode = λ bytes. ok bundle }

abbrev pub a_bundle : UserBundle
a_bundle = record {
  account_id = 98 ∷ [];
  username = 98 ∷ 111 ∷ 98 ∷ [];
  account_master_key = 5 ∷ [];
  roster_revision = 1;
  devices = [];
}

abbrev pub trusted_db : LocalDb
trusted_db = record empty_db {
  contacts =
      record {
        account_id = 98 ∷ [];
        username = 66 ∷ 111 ∷ 98 ∷ [];
        bundle = 98 ∷ [];
        verified = true;
        identity_changed = false;
      }
      ∷ [];
}

abbrev pub trusted_contact : Contact
trusted_contact = record {
  bundle = a_bundle;
  verified = true;
  identity_changed = false;
  unread_count = 0;
  last_activity_ms = pos 0;
}

abbrev pub a_deletion : ConversationTombstone
a_deletion = record {
  peer_account_id = 98 ∷ [];
  peer_username = 98 ∷ 111 ∷ 98 ∷ [];
  conversation_id = 99 ∷ 98 ∷ [];
  sync_event_id = 101 ∷ [];
  deleted_at_ms = pos 9;
}

abbrev pub erased_db : LocalDb
erased_db = record empty_db {
  profile = some profile_bytes;
  envelope_cursor = pos 1;
  conversation_tombstones = record { tombstone = a_deletion; pending_sync = true } ∷ [];
}

-- The same conversation, deleted later on another device.
abbrev pub their_deletion : ConversationTombstone
their_deletion = record a_deletion { sync_event_id = 102 ∷ []; deleted_at_ms = pos 12 }

abbrev pub merged_db : LocalDb
merged_db = record erased_db {
  envelope_cursor = pos 4;
  conversation_tombstones =
      record { tombstone = record a_deletion { deleted_at_ms = pos 12 }; pending_sync = true } ∷ [];
}
