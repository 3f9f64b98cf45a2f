-- ===== src/Export/Packet/Frame.antt =====
-- What a dissector reads in a frame that `_build_packet` makes.
use sctp_probe.Prelude.{
  ℕ, ◌+◌, ◌%◌, ◌^◌, ◌≡◌, refl, Bool, true, false, List, ◌++◌, none, some, arith, length, take, drop,
  replicate, ltb, if◌then◌else◌, Bool-cases, inl, inr, take-length-append, ap, ◌∙◌, subst,
}
use sctp_probe.Export.{checksum, sum_words, build_packet, ip_peer, ip_probe}
use sctp_probe.Export.Checksum.{checksum_verifies, folded}
use sctp_probe.Export.Packet.{
  ip_total, ip_bytes, frame, build_packet_lem, sum_words-ip_bytes, length-sctp,
}

-- What a dissector reads in a frame.
pub record IsFrame (payload : List ℕ) (inbound : Bool) (packet : List ℕ) : Type 0 where
  pub whole : length packet ≡ 14 + ip_total payload
  pub aligned : ip_total payload % 4 ≡ 0
  pub source : take 4 (drop 26 packet) ≡ (if inbound then ip_peer else ip_probe)
  pub destination : take 4 (drop 30 packet) ≡ (if inbound then ip_probe else ip_peer)
  pub total_length : sum_words (take 2 (drop 16 packet)) ≡ ip_total payload
  pub header_checksum : folded (sum_words (take 20 (drop 14 packet))) ≡ 65535
  pub chunk_length : sum_words (take 2 (drop 48 packet)) ≡ 16 + length payload
  pub carried : take (length payload) (drop 62 packet) ≡ payload

header_checksum_lem :
    (total : ℕ) (inbound : Bool)
    → folded (sum_words (ip_bytes total inbound (checksum (ip_bytes total inbound 0)))) ≡ 65535
header_checksum_lem total inbound =
    let zeroed = ip_bytes total inbound 0 in
    let (sum, positive) = sum_words-ip_bytes total inbound (checksum zeroed) in
    ap folded sum ∙ (checksum_verifies zeroed positive).1

carried_lem :
    (payload : List ℕ) (pad : ℕ) → take (length payload) (payload ++ replicate pad 0) ≡ payload
carried_lem payload pad = take-length-append payload (replicate pad 0)

frame-IsFrame :
    (payload : List ℕ) (inbound : Bool) → IsFrame payload inbound (frame payload inbound)
frame-IsFrame payload true = record {
  whole = omega (arith, length-sctp payload);
  aligned = omega arith;
  source = refl;
  destination = refl;
  total_length = unfold sum_words in omega arith;
  header_checksum = header_checksum_lem (ip_total payload) true;
  chunk_length = unfold sum_words in omega arith;
  carried = carried_lem payload _;
}
frame-IsFrame payload false = record {
  whole = omega (arith, length-sctp payload);
  aligned = omega arith;
  source = refl;
  destination = refl;
  total_length = unfold sum_words in omega arith;
  header_checksum = header_checksum_lem (ip_total payload) false;
  chunk_length = unfold sum_words in omega arith;
  carried = carried_lem payload _;
}

-- Every frame that is built has the fields that its parts claim. Its length is 14 bytes of Ethernet and
-- the IP total length, which is a multiple of four and stands in the header; the addresses go from the
-- peer to the probe for an inbound message and back for an outbound one; the header with its checksum
-- folds to 0xFFFF; the chunk's length field is that of the chunk without padding; and the bytes behind
-- the 62 bytes of headers are the payload.
pub build_packet-IsFrame :
    (payload : List ℕ) (inbound : Bool) (packet : List ℕ)
    → build_packet payload inbound ≡ some packet
    → IsFrame payload inbound packet
build_packet-IsFrame payload inbound packet h =
    elim (Bool-cases (ltb (ip_total payload) (2 ^ 16))) [
      | inl fits ↦
          let built : some (frame payload inbound) ≡ some packet =
            rw (build_packet_lem payload inbound, fits) at h in
          let same : frame payload inbound ≡ packet = cc built in
          subst (IsFrame payload inbound) same (frame-IsFrame payload inbound)
      | inr large ↦
          let failed : none ≡ some packet = rw (build_packet_lem payload inbound, large) at h in
          absurd (cc failed)
    ]
