-- ===== src/Export/Capture/RoundTrip.antt =====
-- What a reader of capture files finds in the bytes of export_pcap.
use sctp_probe.Prelude.{
  ℕ, ◌≤◌, ◌≡◌, refl, List, [], ◌∷◌, Option, none, some, Text, length, pos, take, filter, text_eq,
}
use sctp_probe.Table.{Row}
use sctp_probe.Store.{Store, Message}
use sctp_probe.Export.Packet.Frame.{IsFrame}
use sctp_probe.Export.Capture.{Clock, Instant, replace_z, is_inbound, raw_of, global_header}
use sctp_probe.Export.Capture.Reader.{Entry, read_entries}
use sctp_probe.Export.Capture.Entries.{le_bytes}

-- The time of an entry.
pub data IsStamped (clock : Clock) (m : Message) (e : Entry) : Type 0 where
  at_timestamp :
      (i : Instant)
      → clock.from_iso_format (replace_z m.timestamp) ≡ some i
      → i.seconds ≡ pos e.seconds
      → i.microsecond ≡ e.microsecond
      → IsStamped clock m e
  at_present :
      clock.from_iso_format (replace_z m.timestamp) ≡ none
      → clock.now.seconds ≡ pos e.seconds
      → clock.now.microsecond ≡ e.microsecond
      → IsStamped clock m e

-- The entries of a file that was written for some messages: a message whose bytes were not stored, or
-- cannot be decoded, has none; any other has one, with a frame that carries its bytes, and with the
-- instant of its timestamp, or the present one where the timestamp cannot be read.
pub data Captured (clock : Clock) : List (Row Message) → List Entry → Type 0 where
  done : Captured clock [] []
  skips :
      {m : Row Message} {ms : List (Row Message)} {es : List Entry}
      → raw_of m.cols ≡ none
      → Captured clock ms es
      → Captured clock (m ∷ ms) es
  takes :
      {m : Row Message} {ms : List (Row Message)} {es : List Entry} (raw : List ℕ) (e : Entry)
      → raw_of m.cols ≡ some raw
      → IsFrame raw (is_inbound m.cols) e.frame
      → IsStamped clock m.cols e
      → Captured clock ms es
      → Captured clock (m ∷ ms) (e ∷ es)

Reads : Clock → List (Row Message) → List ℕ → Type 0
Reads clock ms bs =
    (fuel : ℕ)
    → length bs ≤ fuel
    → (es : List Entry) × (read_entries fuel bs ≡ some es) × Captured clock ms es

abbrev pub header_bytes : List ℕ → List ℕ
header_bytes body =
    le_bytes 0xA1B2C3D4 (2 ∷ 0 ∷ 4 ∷ 0 ∷ le_bytes 0 (le_bytes 0 (le_bytes 65535 (le_bytes 1 body))))

pub global_header_lem : global_header ≡ some (header_bytes [])
unfolding global_header
global_header_lem = refl

-- Of the first thousand rows of the log those of the session, or all without one.
abbrev pub session_rows : Option Text → Store → List (Row Message)
session_rows none s = take 1000 s.messages.rows
session_rows (some []) s = take 1000 s.messages.rows
session_rows (some (c ∷ id)) s =
    filter (λ r. text_eq r.cols.session_id (c ∷ id)) (take 1000 s.messages.rows)
