-- ===== src/Export/Packet.antt =====
-- The frame around a payload: when it can be built, its lengths, its checksum, and the payload in it.
pub mod Frame
use sctp_probe.Prelude.{
  ℕ, zero, suc, ◌+◌, ◌-◌, ◌*◌, ◌/◌, ◌%◌, ◌^◌, ◌≤◌, ◌<◌, ◌≡◌, ◌↔◌, refl, Bool, true, false, List, [],
  ◌∷◌, ◌++◌, Option, none, some, arith, length, take, drop, replicate, ltb, leb, is_some,
  if◌then◌else◌, Bool-cases, inl, inr, length-append, length-replicate, ap, ◌∙◌,
}
use sctp_probe.Value.Access.{◌>>=◌}
use sctp_probe.Export.{
  be16, be32, data_chunk, sctp_header, ip_header, ip_header_no_csum, checksum, sum_words,
  build_packet, padding, eth_header, ip_peer, ip_probe, fold_carries,
}
use sctp_probe.Export.Checksum.{checksum_verifies}

-- The bytes of a number below 2^16, in network order.
abbrev pub word : ℕ → List ℕ → List ℕ
word n bs = n / 256 ∷ n % 256 ∷ bs

abbrev pub addresses : Bool → List ℕ
addresses inbound =
    (if inbound then ip_peer else ip_probe) ++ (if inbound then ip_probe else ip_peer)

-- The IP header with the number `c` for its checksum.
abbrev pub ip_bytes : ℕ → Bool → ℕ → List ℕ
ip_bytes total inbound c =
    0x45 ∷ 0 ∷ word total (0 ∷ 0 ∷ 0x40 ∷ 0 ∷ 64 ∷ 132 ∷ word c (addresses inbound))

be16-lt : (n : ℕ) → n < 2 ^ 16 → be16 n ≡ some (word n [])
unfolding be16
be16-lt n h = ground arith

ip_header_no_csum_lem :
    (total : ℕ) (inbound : Bool)
    → total < 2 ^ 16
    → ip_header_no_csum total inbound ≡ some (ip_bytes total inbound 0)
unfolding ip_header_no_csum
ip_header_no_csum_lem total inbound h =
    rw (be16-lt total h, be16-lt 0 (omega arith), be16-lt 16384 (omega arith))

checksum-lt : (bs : List ℕ) → checksum bs < 2 ^ 16
unfolding checksum
checksum-lt bs = omega arith

ip_header_lem :
    (total : ℕ) (inbound : Bool)
    → total < 2 ^ 16
    → ip_header total inbound ≡ some (ip_bytes total inbound (checksum (ip_bytes total inbound 0)))
unfolding ip_header
ip_header_lem total inbound h =
    let zeroed = ip_bytes total inbound 0 in
    rw (ip_header_no_csum_lem total inbound h, be16-lt (checksum zeroed) (checksum-lt zeroed))

pub sum_words-ip_bytes :
    (total : ℕ) (inbound : Bool) (c : ℕ)
    → (sum_words (ip_bytes total inbound c) ≡ sum_words (ip_bytes total inbound 0) + c)
      × (0 < sum_words (ip_bytes total inbound 0))
unfolding sum_words
sum_words-ip_bytes total true c = omega arith
sum_words-ip_bytes total false c = omega arith

-- The fixed bytes of the DATA chunk behind its length: TSN, stream, sequence number and PPID.
abbrev pub chunk_fields : List ℕ
chunk_fields = 0 ∷ 0 ∷ 0 ∷ 1 ∷ 0 ∷ 0 ∷ 0 ∷ 0 ∷ 0 ∷ 0 ∷ 0 ∷ 24 ∷ []

abbrev pub chunk_bytes : List ℕ → List ℕ
chunk_bytes payload =
    0
    ∷ 3
    ∷ word (16 + length payload)
        (chunk_fields ++ (payload ++ replicate (padding (16 + length payload)) 0))

data_chunk_lem :
    (payload : List ℕ)
    → data_chunk payload
      ≡ (if ltb (16 + length payload) (2 ^ 16) then some (chunk_bytes payload) else none)
unfolding data_chunk be16 be32
data_chunk_lem payload = ground arith

abbrev pub sctp_bytes : List ℕ
sctp_bytes = 0x71 ∷ 0xf0 ∷ 0x71 ∷ 0xf0 ∷ 0 ∷ 0 ∷ 0 ∷ 0 ∷ 0 ∷ 0 ∷ 0 ∷ 0 ∷ []

sctp_header_lem : sctp_header ≡ some sctp_bytes
unfolding sctp_header be16 be32
sctp_header_lem = refl

-- The IP total length, by the lengths of the parts.
abbrev pub ip_total : List ℕ → ℕ
ip_total payload = 48 + length payload + padding (16 + length payload)

pub length-sctp :
    (payload : List ℕ) → 20 + length (sctp_bytes ++ chunk_bytes payload) ≡ ip_total payload
length-sctp payload =
    let pad = padding (16 + length payload) in
    omega (arith, length-append payload (replicate pad 0), length-replicate {0} {A = ℕ} pad 0)

abbrev pub frame : List ℕ → Bool → List ℕ
frame payload inbound =
    eth_header inbound
    ++ (ip_bytes (ip_total payload) inbound (checksum (ip_bytes (ip_total payload) inbound 0))
        ++ (sctp_bytes ++ chunk_bytes payload))

ip_header_fails : (total : ℕ) (inbound : Bool) → 2 ^ 16 ≤ total → ip_header total inbound ≡ none
unfolding ip_header ip_header_no_csum be16
ip_header_fails total inbound h = ground arith

pub build_packet_lem :
    (payload : List ℕ) (inbound : Bool)
    → build_packet payload inbound
      ≡ (if ltb (ip_total payload) (2 ^ 16) then some (frame payload inbound) else none)
unfolding build_packet
build_packet_lem payload inbound = elim (Bool-cases (ltb (ip_total payload) (2 ^ 16))) [
  | inl fits ↦
      let chunk : ltb (16 + length payload) (2 ^ 16) ≡ true = ground arith in
      let header = ip_header_lem (ip_total payload) inbound (ground arith) in
      rw (data_chunk_lem payload, chunk, sctp_header_lem, length-sctp payload, header, fits)
  | inr large ↦ elim (Bool-cases (ltb (16 + length payload) (2 ^ 16))) [
    | inl chunk ↦ rw (
      data_chunk_lem payload,
      chunk,
      sctp_header_lem,
      length-sctp payload,
      ip_header_fails (ip_total payload) inbound (ground arith),
      large,
    )
    | inr chunk ↦ rw (data_chunk_lem payload, chunk, large)
  ]
]

-- A payload can be framed exactly when the IP packet fits the 16 bits of its length field: 48 bytes of
-- headers, the payload, and its padding. For a larger payload the code raises struct.error.
pub build_packet_iff :
    (payload : List ℕ) (inbound : Bool)
    → (is_some (build_packet payload inbound) ≡ true) ↔ (ip_total payload ≤ 65535)
build_packet_iff payload inbound = rw (build_packet_lem payload inbound) (ground arith)
