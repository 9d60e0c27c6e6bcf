-- ===== src/Client/Local/Profile.antt =====
-- The profile in crates/client/src/local.rs, with the layouts of older versions.
use tui_chat.Base.{
  ◌≡◌, refl, subst, Bool, [], ◌++◌, Option, none, some, is_some, Result, ok, err, Error, message,
  ◌>>=◌, >>=-eq-ok, ok-injective, length, drop, if◌then◌else◌, arith,
}
use tui_chat.Base.Text.{Bytes, Text, text}
use tui_chat.Crypto.Frame.{starts_with, starts_with-append, drop-append}
use tui_chat.Crypto.Vault.{Unseals}
use tui_chat.Client.Local.Rows.{LocalDb}
use tui_chat.Client.Local.Keys.{
  Formats, VaultSession, RuntimeProfile, StoredProfile, encode_profile, unseal_bytes,
}
use tui_chat.Client.Local.Commit.{Nonces, set_profile, save_profile}
use tui_chat.Client.Local.Sealed.{unseal_bytes-seal_bytes}

-- The layout of v0.2.
pub record LegacyStoredProfileV3 : Type 0 where
  pub username : Text
  pub account_id : Text
  pub server_url : Text
  pub identity : Bytes
  pub machine : Bytes
  pub pending : Bool
  pub pairing_secret : Option Bytes
  pub account_master_public : Bytes
  pub spki_pin : Option Text

unfoldable pub from_legacy : LegacyStoredProfileV3 → StoredProfile
from_legacy profile = record {
  username = profile.username;
  account_id = profile.account_id;
  server_url = profile.server_url;
  identity = profile.identity;
  machine = profile.machine;
  pending = profile.pending;
  pairing_secret = profile.pairing_secret;
  account_master_public = profile.account_master_public;
  spki_pin = profile.spki_pin;
  server_capabilities = [];
}

-- `postcard::Result`; `ends_early` is `DeserializeUnexpectedEnd`.
pub data Decoded : Type 0 where
  decoded : StoredProfile → Decoded
  ends_early : Decoded
  fails : Error → Decoded

-- What reads a profile: postcard for both layouts, serde_json, and `from_bytes` of the identity and
-- of the Olm machine, which are given by the answers of their `to_bytes`.
pub record Readers : Type 0 where
  pub postcard : Bytes → Decoded
  pub postcard_legacy : Bytes → Result LegacyStoredProfileV3
  pub json : Bytes → Result StoredProfile
  pub identity : Bytes → Result (Result Bytes)
  pub machine : Bytes → Result (Result Bytes)

unfoldable pub has_profile : LocalDb → Bool
has_profile db = is_some db.profile

module _ (readers : Readers) where
  -- `strip_prefix` and the layout that the marker names.
  unfoldable pub parse_profile : Bytes → Result StoredProfile
  unfolding from_legacy
  parse_profile decrypted =
      if starts_with decrypted (text "TCP4")
      then elim (readers.postcard (drop 4 decrypted)) [
        | decoded profile ↦ ok profile
        | ends_early ↦ err (message "hit the end of buffer, expected more data")
        | fails error ↦ err error
      ]
      else if starts_with decrypted (text "TCP3")
      then elim (readers.postcard (drop 4 decrypted)) [
        | decoded profile ↦ ok profile
        | ends_early ↦
            readers.postcard_legacy (drop 4 decrypted) >>= (λ profile. ok (from_legacy profile))
        | fails error ↦ err error
      ]
      else readers.json decrypted

  unfoldable pub runtime_profile : StoredProfile → Result RuntimeProfile
  runtime_profile plain = do
    identity ← readers.identity plain.identity
    machine ← readers.machine plain.machine
    ok (record {
      username = plain.username;
      account_id = plain.account_id;
      server_url = plain.server_url;
      identity = identity;
      machine = machine;
      pending = plain.pending;
      pairing_secret = plain.pairing_secret;
      account_master_public = plain.account_master_public;
      spki_pin = plain.spki_pin;
      server_capabilities = plain.server_capabilities;
    })

  unfoldable pub load_profile : Formats → VaultSession → LocalDb → Result (Option RuntimeProfile)
  unfolding parse_profile runtime_profile
  load_profile formats vault db = elim db.profile [
    | none ↦ ok none
    | some encoded ↦ do
      decrypted ← unseal_bytes formats vault (text "profile/v1") encoded
      plain ← parse_profile decrypted
      profile ← runtime_profile plain
      ok (some profile)
  ]

four_bytes : length (text "TCP4") ≡ 4
unfolding text
four_bytes = refl

abbrev pub stored_of : RuntimeProfile → Bytes → Bytes → StoredProfile
stored_of p identity machine = record {
  username = p.username;
  account_id = p.account_id;
  server_url = p.server_url;
  identity = identity;
  machine = machine;
  pending = p.pending;
  pairing_secret = p.pairing_secret;
  account_master_public = p.account_master_public;
  spki_pin = p.spki_pin;
  server_capabilities = p.server_capabilities;
}

-- Postcard reads what it writes for this profile, and `from_bytes` of its identity and of its machine
-- read what `to_bytes` gives of them. Nothing is asked of other bytes, which they may refuse.
pub record Reads (formats : Formats) (readers : Readers) (p : RuntimeProfile) : Type 0 where
  pub profile :
      (identity machine encoded : Bytes)
      → formats.postcard (stored_of p identity machine) ≡ ok encoded
      → readers.postcard encoded ≡ decoded (stored_of p identity machine)
  pub identity : (b : Bytes) → p.identity ≡ ok b → readers.identity b ≡ ok p.identity
  pub machine : (b : Bytes) → p.machine ≡ ok b → readers.machine b ≡ ok p.machine

module _ (formats : Formats) (readers : Readers) (vault : VaultSession)
    (law : Unseals formats.cipher) where
  load_profile-set :
      (blob decrypted : Bytes) (p : StoredProfile) (r : RuntimeProfile) (db : LocalDb)
      → unseal_bytes formats vault (text "profile/v1") blob ≡ ok decrypted
      → parse_profile readers decrypted ≡ ok p
      → runtime_profile readers p ≡ ok r
      → load_profile readers formats vault (set_profile blob db) ≡ ok (some r)
  unfolding load_profile set_profile
  load_profile-set blob decrypted p r db opened parsed made = rw (opened, parsed, made) refl

  parse_profile-current :
      (p : StoredProfile) (b : Bytes)
      → readers.postcard b ≡ decoded p
      → parse_profile readers (text "TCP4" ++ b) ≡ ok p
  unfolding parse_profile
  parse_profile-current p b e =
      rw (starts_with-append (text "TCP4") b, drop-append (text "TCP4") b 4 four_bytes, e) refl

  runtime_profile-stored_of :
      (p : RuntimeProfile) (identity machine : Bytes)
      → Reads formats readers p
      → p.identity ≡ ok identity
      → p.machine ≡ ok machine
      → runtime_profile readers (stored_of p identity machine) ≡ ok p
  unfolding runtime_profile
  runtime_profile-stored_of p identity machine reads ei em =
      ground (arith, reads.identity identity ei, reads.machine machine em, ei, em)

  -- A profile that was saved is loaded again unchanged, where decryption undoes encryption, postcard,
  -- the identity and the machine read what was written of this profile, and the nonce has 24 bytes.
  pub load_profile-save_profile :
      (n : Nonces) (p : RuntimeProfile) (db db' : LocalDb)
      → Reads formats readers p
      → length n.profile ≡ 24
      → save_profile formats vault n p db ≡ ok db'
      → load_profile readers formats vault db' ≡ ok (some p)
  unfolding save_profile encode_profile
  load_profile-save_profile n p db db' reads len e =
      let (blob, enc, e1) = >>=-eq-ok (encode_profile formats vault n.profile p) _ e in
      let (identity, ei, after_identity) = >>=-eq-ok p.identity _ enc in
      let (machine, em, after_machine) = >>=-eq-ok p.machine _ after_identity in
      let (encoded, ep, sealed) =
        >>=-eq-ok (formats.postcard (stored_of p identity machine)) _ after_machine in
      subst (λ (d : LocalDb). load_profile readers formats vault d ≡ ok (some p)) (ok-injective e1)
        (load_profile-set blob (text "TCP4" ++ encoded) (stored_of p identity machine) p db
          (unseal_bytes-seal_bytes formats vault law n.profile (text "profile/v1")
            (text "TCP4" ++ encoded) blob len sealed)
          (parse_profile-current (stored_of p identity machine) encoded
            (reads.profile identity machine encoded ep))
          (runtime_profile-stored_of p identity machine reads ei em))
