-- ===== src/Export/Capture.antt =====
-- export_json and export_pcap of sctp_probe/export.py. `Clock` is what the code asks of datetime: the
-- instant of a timestamp's text, where fromisoformat takes it, and the present instant.
pub mod Reader
pub mod Entries
pub mod RoundTrip
pub mod Returns
use sctp_probe.Prelude.{
  ℕ, ◌+◌, ◌/◌, ◌%◌, ◌^◌, ◌==◌, ◌&&◌, true, Bool, List, [], ◌∷◌, ◌++◌, Option, none, some, Text,
  codes, text_eq, ltb, if◌then◌else◌, length, filter, ℤ, pos, negsuc,
}
use sctp_probe.Value.Access.{◌>>=◌}
use sctp_probe.Table.{Row}
use sctp_probe.Store.{Store, Message, get_messages}
use sctp_probe.Base64.{b64decode}
use sctp_probe.Export.{le32, build_packet}

-- `int(ts.timestamp())` and `ts.microsecond`
pub record Instant : Type 0 where
  pub seconds : ℤ
  pub microsecond : ℕ

pub record Clock : Type 0 where
  pub from_iso_format : Text → Option Instant
  pub now : Instant

-- struct.pack "H" and "I" in little-endian order; "I" of a negative number raises.
unfoldable pub le16 : ℕ → Option (List ℕ)
le16 n = if ltb n (2 ^ 16) then some (n % 256 ∷ n / 256 ∷ []) else none

unfoldable pub le32_signed : ℤ → Option (List ℕ)
le32_signed (pos n) = le32 n
le32_signed (negsuc n) = none

-- _PCAP_GLOBAL_HEADER
unfoldable pub global_header : Option (List ℕ)
unfolding le16 le32
global_header = do
  magic ← le32 0xA1B2C3D4
  major ← le16 2
  minor ← le16 4
  zone ← le32 0
  sigfigs ← le32 0
  snaplen ← le32 65535
  network ← le32 1
  some (magic ++ (major ++ (minor ++ (zone ++ (sigfigs ++ (snaplen ++ network))))))

-- text.replace("Z", "+00:00")
unfoldable pub replace_z : Text → Text
replace_z [] = []
replace_z (c ∷ s) = (if c == b'Z' then codes "+00:00" else c ∷ []) ++ replace_z s

unfoldable pub instant_of : Clock → Message → Instant
unfolding replace_z
instant_of clock m = elim (clock.from_iso_format (replace_z m.timestamp)) [
  | none ↦ clock.now
  | some ts ↦ ts
]

unfoldable pub is_inbound : Message → Bool
is_inbound m = text_eq m.direction (codes "inbound")

is_ascii : Text → Bool
is_ascii [] = true
is_ascii (c ∷ s) = ltb c 128 && is_ascii s

-- The bytes of a message, or `none` where the loop goes on to the next one. b64decode raises for a text
-- that is not ASCII.
raw_bytes : Text → Option (List ℕ)
raw_bytes [] = none
raw_bytes (c ∷ s) = if is_ascii (c ∷ s) then b64decode (c ∷ s) else none

unfoldable pub raw_of : Message → Option (List ℕ)
unfolding raw_bytes is_ascii
raw_of m = raw_bytes m.raw_bytes_b64

unfoldable pub record_bytes : Instant → List ℕ → Option (List ℕ)
record_bytes ts packet = do
  sec ← le32_signed ts.seconds
  usec ← le32 ts.microsecond
  len ← le32 (length packet)
  orig ← le32 (length packet)
  some (sec ++ (usec ++ (len ++ (orig ++ packet))))

-- What a turn of the loop appends to the buffer.
unfoldable pub message_bytes : Clock → Message → Option (List ℕ) → Option (List ℕ)
message_bytes clock m none = some []
message_bytes clock m (some raw) = do
  packet ← build_packet raw (is_inbound m)
  record_bytes (instant_of clock m) packet

unfoldable pub all_bytes : Clock → List (Row Message) → Option (List ℕ)
all_bytes clock [] = some []
all_bytes clock (m ∷ ms) = do
  first ← message_bytes clock m.cols (raw_of m.cols)
  rest ← all_bytes clock ms
  some (first ++ rest)

-- `if session_id:` keeps the messages of one session.
unfoldable pub of_session : Option Text → List (Row Message) → List (Row Message)
of_session none ms = ms
of_session (some []) ms = ms
of_session (some (c ∷ id)) ms = filter (λ m. text_eq m.cols.session_id (c ∷ id)) ms

-- The messages of both exports, and all that export_json writes.
unfoldable pub export_json : Option Text → Store → List (Row Message)
unfolding of_session
export_json session_id s = of_session session_id (get_messages (pos 0) none none (pos 1000) s)

unfoldable pub export_pcap : Clock → Option Text → Store → Option (List ℕ)
export_pcap clock session_id s = do
  header ← global_header
  body ← all_bytes clock (export_json session_id s)
  some (header ++ body)
