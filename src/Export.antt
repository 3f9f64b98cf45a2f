-- ===== src/Export.antt =====
-- sctp_probe/export.py. `none` is an exception (struct.error).
pub mod Checksum
pub mod Packet
pub mod Capture
use sctp_probe.Prelude.{
  ℕ, zero, suc, ◌+◌, ◌-◌, ◌*◌, ◌/◌, ◌%◌, ◌^◌, Bool, true, false, List, [], ◌∷◌, ◌++◌, Option, none,
  some, Text, codes, text_eq, ltb, ◌==◌, if◌then◌else◌, length, take, drop, replicate, filter, ℤ,
  pos, negsuc,
}
use sctp_probe.Value.Access.{◌>>=◌}
use sctp_probe.Table.{Row}
use sctp_probe.Store.{Store, Message, get_messages}
use sctp_probe.Base64.{b64decode}

-- struct.pack of a number in network order, and in little-endian order; out of range it raises.
unfoldable pub be16 : ℕ → Option (List ℕ)
be16 n = if ltb n (2 ^ 16) then some (n / 256 ∷ n % 256 ∷ []) else none

unfoldable pub be32 : ℕ → Option (List ℕ)
be32 n =
    if ltb n (2 ^ 32)
    then some (n / 2 ^ 24 ∷ n / 2 ^ 16 % 256 ∷ n / 256 % 256 ∷ n % 256 ∷ [])
    else none

unfoldable pub le32 : ℕ → Option (List ℕ)
le32 n =
    if ltb n (2 ^ 32)
    then some (n % 256 ∷ n / 256 % 256 ∷ n / 2 ^ 16 % 256 ∷ n / 2 ^ 24 ∷ [])
    else none

-- sum(struct.unpack("!…H", data)), with the odd byte padded
unfoldable pub sum_words : List ℕ → ℕ
sum_words [] = 0
sum_words (a ∷ []) = a * 256
sum_words (a ∷ b ∷ bs) = a * 256 + b + sum_words bs

-- while s >> 16: s = (s & 0xFFFF) + (s >> 16)
unfoldable pub fold_carries : ℕ → ℕ → ℕ
fold_carries zero s = s
fold_carries (suc fuel) s = elim (s / 2 ^ 16 == 0) [
  | true ↦ s
  | false ↦ fold_carries fuel (s % 2 ^ 16 + s / 2 ^ 16)
]

-- ~s & 0xFFFF
abbrev complement16 : ℕ → ℕ
complement16 s = 2 ^ 16 - 1 - s % 2 ^ 16

unfoldable pub checksum : List ℕ → ℕ
unfolding sum_words fold_carries
checksum bs = let s = sum_words bs in complement16 (fold_carries (suc s) s)

abbrev pub mac_probe : List ℕ
mac_probe = 0x02 ∷ 0 ∷ 0 ∷ 0 ∷ 0 ∷ 0x01 ∷ []

abbrev pub mac_peer : List ℕ
mac_peer = 0x02 ∷ 0 ∷ 0 ∷ 0 ∷ 0 ∷ 0x02 ∷ []

abbrev pub ip_probe : List ℕ
ip_probe = 0x7f ∷ 0 ∷ 0 ∷ 0x01 ∷ []

abbrev pub ip_peer : List ℕ
ip_peer = 0x0a ∷ 0 ∷ 0 ∷ 0x02 ∷ []

abbrev pub sctp_port : ℕ
sctp_port = 29168

abbrev pub ppid : ℕ
ppid = 24

-- The bytes up to the next multiple of four.
abbrev pub padding : ℕ → ℕ
padding chunk_len = (4 - chunk_len % 4) % 4

unfoldable pub data_chunk : List ℕ → Option (List ℕ)
data_chunk payload = do
  let chunk_len = 16 + length payload
  len ← be16 chunk_len
  tsn ← be32 1
  stream ← be16 0
  seq ← be16 0
  proto ← be32 ppid
  some (
      0x00 ∷ 0x03 ∷ len
      ++ (tsn ++ (stream ++ (seq ++ (proto ++ (payload ++ replicate (padding chunk_len) 0))))))

unfoldable pub sctp_header : Option (List ℕ)
sctp_header = do
  src ← be16 sctp_port
  dst ← be16 sctp_port
  tag ← be32 0
  sum ← be32 0
  some (src ++ (dst ++ (tag ++ sum)))

-- The header with 0 for its checksum.
unfoldable pub ip_header_no_csum : ℕ → Bool → Option (List ℕ)
ip_header_no_csum ip_total_len inbound = do
  total ← be16 ip_total_len
  ident ← be16 0
  flags ← be16 (0x40 * 256)
  sum ← be16 0
  let src = if inbound then ip_peer else ip_probe
  let dst = if inbound then ip_probe else ip_peer
  some (0x45 ∷ 0x00 ∷ total ++ (ident ++ (flags ++ (64 ∷ 132 ∷ sum ++ (src ++ dst)))))

unfoldable pub ip_header : ℕ → Bool → Option (List ℕ)
ip_header ip_total_len inbound = do
  header ← ip_header_no_csum ip_total_len inbound
  sum ← be16 (checksum header)
  some (take 10 header ++ (sum ++ drop 12 header))

abbrev eth_header : Bool → List ℕ
eth_header inbound =
    (if inbound then mac_probe else mac_peer)
    ++ ((if inbound then mac_peer else mac_probe) ++ 0x08 ∷ 0x00 ∷ [])

unfoldable pub build_packet : List ℕ → Bool → Option (List ℕ)
build_packet payload inbound = do
  chunk ← data_chunk payload
  sctp ← sctp_header
  let sctp_payload = sctp ++ chunk
  ip ← ip_header (20 + length sctp_payload) inbound
  some (eth_header inbound ++ (ip ++ sctp_payload))
