-- ===== src/Server/Log.antt =====
-- The dump of messages: `logMessage` of AAServer/src/AaCommunicator.cpp, and scripts/aasl.lua, which
-- reads the dump in Wireshark.
pub mod Read
use aacs.Prelude.{
  ℕ, ◌+◌, Bool, true, false, not, List, [], ◌∷◌, ◌++◌, drop, length, Option, none, some, bit_and,
  ◌==◌, if◌then◌else◌,
}
use aacs.Wire.Codes.{encrypted, specific, bulk}
use aacs.Wire.Bytes.{front16}
use aacs.Frame.{Message}

-- A packet of pcap: the two lengths of its header, and its bytes. The time is left out.
pub record Captured : Type 0 where
  pub caplen : ℕ
  pub len : ℕ
  pub buffer : List ℕ

-- What `pcap_dump` gets; `dumping` is whether `pdumper` is set.
unfoldable pub log_message : Bool → Message → Bool → Option Captured
log_message dumping m direction =
    let buffer =
      0 ∷ 0 ∷ 0 ∷ 0 ∷ m.channel ∷ m.flags ∷ (if direction then 1 else 0) ∷ 0 ∷ m.content in
    let captured =
      some
        (record { caplen = 8 + length m.content; len = 8 + length m.content; buffer = buffer }) in
    if dumping then captured else none

-- The version of a response, as "major.minor (MATCHED)" shows it.
pub record ShownVersion : Type 0 where
  pub major : ℕ
  pub minor : ℕ
  pub matched : Bool

-- The fields that the dissector shows.
pub record Shown : Type 0 where
  pub channel : ℕ
  pub is_shown_encrypted : Bool
  pub is_shown_specific : Bool
  pub frame_type : ℕ
  pub to_headunit : Bool
  pub message_type : ℕ
  pub version_response : Option ShownVersion

unfoldable pub response_version : ℕ → List ℕ → Option ShownVersion
response_version message_type body =
    let version = some (record {
      major = front16 body;
      minor = front16 (drop 2 body);
      matched = front16 (drop 4 body) == 0;
    }) in
    if message_type == 2 then version else none

-- `aaserverlog.dissector`, on what stands behind the four bytes of the link type.
unfoldable pub dissect : List ℕ → Option Shown
unfolding response_version
dissect (channel ∷ flags ∷ direction ∷ reserved ∷ body) = some (record {
  channel = channel;
  is_shown_encrypted = not (bit_and flags 0x08 == 0);
  is_shown_specific = not (bit_and flags 0x04 == 0);
  frame_type = bit_and flags 0x03;
  to_headunit = not (bit_and direction 0x01 == 0);
  message_type = front16 body;
  version_response = response_version (front16 body) (drop 2 body);
})
dissect other = none
