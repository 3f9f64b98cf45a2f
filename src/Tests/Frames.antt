-- ===== src/Tests/Frames.antt =====
-- The export: sctp_probe/export.py
use sctp_probe.Prelude.{ℕ, ◌≤◌, ◌≡◌, ◌↔◌, refl, true, List, [], ◌∷◌, is_some}
use sctp_probe.Export.{build_packet, checksum}
use sctp_probe.Export.Packet.{ip_total, frame, build_packet_iff, build_packet_lem}
use sctp_probe.Export.Packet.Frame.{IsFrame, build_packet-IsFrame}

-- The example of RFC 1071, section 3.
checksum_runs : checksum (0x00 ∷ 0x01 ∷ 0xf2 ∷ 0x03 ∷ 0xf4 ∷ 0xf5 ∷ 0xf6 ∷ 0xf7 ∷ []) ≡ 0x220d
unfolding checksum
checksum_runs = refl

abbrev payload : List ℕ
payload = 1 ∷ 2 ∷ 3 ∷ 4 ∷ 5 ∷ []

build_packet_iff_example : (is_some (build_packet payload true) ≡ true) ↔ (ip_total payload ≤ 65535)
build_packet_iff_example = build_packet_iff payload true

build_packet-IsFrame_example : IsFrame payload true (frame payload true)
build_packet-IsFrame_example =
    build_packet-IsFrame payload true (frame payload true) (build_packet_lem payload true)
