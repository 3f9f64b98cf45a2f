-- ===== src/Tests/Captures.antt =====
-- The exports of a store: sctp_probe/export.py
use sctp_probe.Prelude.{
  ℕ, ◌≡◌, ◌↔◌, refl, All, List, [], ◌∷◌, none, some, codes, pos, length, text_eq,
}
use mathlib.Core.Option
use sctp_probe.Store
use sctp_probe.Store.{
  Message, get_messages, where_clause, clamp_limit, direction_clause, pdu_type_clause,
}
use sctp_probe.Table.{select}
use sctp_probe.Export.Capture.{
  Clock, export_json, export_pcap, raw_of, instant_of, global_header, all_bytes, message_bytes,
  is_inbound, le16, le32_signed, record_bytes,
}
use sctp_probe.Export.{
  build_packet, data_chunk, be16, be32, checksum, fold_carries, ip_header, ip_header_no_csum, le32,
  sctp_header, sum_words,
}
use sctp_probe.Export.Capture.Returns.{Fits, export_pcap_iff}
use sctp_probe.Base64.{b64decode, read, on_char}

abbrev message : Message
message = record {
  session_id = codes "s1";
  timestamp = codes "2024-01-01T00:00:00+00:00";
  direction = codes "inbound";
  transport = codes "sctp";
  local_port = some 29168;
  peer_addr = some (codes "10.0.0.2:40000");
  protocol = codes "raw";
  pdu_type = none;
  message_identifier = none;
  serial_number = none;
  decoded = none;
  raw_hex = codes "00 01";
  raw_bytes_b64 = codes "AAE=";
  rule_id = none;
}

-- Of three messages one is of another session, and one has no bytes.
abbrev store : Store.Store
store = record {
  messages = record {
    rows =
        record { id = 1; cols = message }
        ∷ record { id = 2; cols = record message { session_id = codes "s0" } }
        ∷ record { id = 3; cols = record message { raw_bytes_b64 = [] } }
        ∷ [];
    seq = 3;
  };
  rules = record { rows = []; seq = 0 };
  session = some (codes "s1");
}

abbrev clock : Clock
clock = record {
  from_iso_format = λ text. some (record { seconds = pos 1704067200; microsecond = 7 });
  now = record { seconds = pos 0; microsecond = 0 };
}

-- The global header, and one record with a frame of 66 bytes.
length_of_file : Option.map length (export_pcap clock (some (codes "s1")) store) ≡ some 106
unfolding export_pcap global_header all_bytes export_json get_messages clamp_limit select
    where_clause direction_clause pdu_type_clause text_eq message_bytes raw_of b64decode read
    on_char build_packet data_chunk instant_of is_inbound le16 le32_signed record_bytes be16 be32
    checksum fold_carries ip_header ip_header_no_csum le32 sctp_header sum_words
length_of_file = refl

export_pcap_iff_example :
    ((bs : List ℕ) × (export_pcap clock (some (codes "s1")) store ≡ some bs))
    ↔ All (Fits clock) (export_json (some (codes "s1")) store)
export_pcap_iff_example = export_pcap_iff clock (some (codes "s1")) store
