-- ===== src/Export/Capture/Returns.antt =====
-- When export_pcap returns, and when struct.error ends it.
use sctp_probe.Prelude.{
  ℕ, ◌^◌, ◌≤◌, ◌<◌, ◌≡◌, ◌↔◌, refl, List, [], ◌∷◌, ◌++◌, Option, none, some, Text, arith, All, ap,
  ◌∙◌, sym, pos,
}
use sctp_probe.Value.Access.{◌>>=◌}
use sctp_probe.Table.{Row}
use sctp_probe.Store.{Store, Message}
use sctp_probe.Export.{build_packet}
use sctp_probe.Export.Packet.{ip_total, frame, build_packet_lem, build_packet_iff}
use sctp_probe.Export.Packet.Frame.{build_packet-IsFrame}
use sctp_probe.Export.Capture.{
  Clock, instant_of, is_inbound, raw_of, record_bytes, message_bytes, all_bytes, export_json,
  export_pcap, global_header,
}
use sctp_probe.Export.Capture.Entries.{
  >>=-eq-some, entry_bytes, record_bytes_cases, record_bytes_lem,
}
use sctp_probe.Export.Capture.RoundTrip.{global_header_lem, header_bytes}

-- The numbers of a message's record fit their fields.
pub record HasRoom (clock : Clock) (m : Message) (raw : List ℕ) : Type 0 where
  pub packet_fits : ip_total raw ≤ 65535
  pub seconds : ℕ
  pub at_seconds : (instant_of clock m).seconds ≡ pos seconds
  pub seconds_fit : seconds < 2 ^ 32
  pub microsecond_fits : (instant_of clock m).microsecond < 2 ^ 32

-- A message fits the file: it has no bytes to write, or its record has room.
abbrev pub Fits : Clock → Row Message → Type 0
Fits clock m = (raw : List ℕ) → raw_of m.cols ≡ some raw → HasRoom clock m.cols raw

module _ (clock : Clock) (m : Message) where
  message_bytes-HasRoom :
      (raw bs : List ℕ) → message_bytes clock m (some raw) ≡ some bs → HasRoom clock m raw
  unfolding message_bytes
  message_bytes-HasRoom raw bs h =
      let (packet, hp, hf) = >>=-eq-some (build_packet raw (is_inbound m)) _ h in
      let (sec, e, hs, hu, _, _) = record_bytes_cases (instant_of clock m) packet bs hf in
      record {
        packet_fits = (build_packet_iff raw (is_inbound m)).0 (rw hp refl);
        seconds = sec;
        at_seconds = e;
        seconds_fit = hs;
        microsecond_fits = hu;
      }

  HasRoom-message_bytes :
      (raw : List ℕ)
      → HasRoom clock m raw
      → (bs : List ℕ) × (message_bytes clock m (some raw) ≡ some bs)
  unfolding message_bytes
  HasRoom-message_bytes raw r =
      let ts = instant_of clock m in
      let packet = frame raw (is_inbound m) in
      let built : build_packet raw (is_inbound m) ≡ some packet =
        let fits = r.packet_fits in ground (arith, build_packet_lem raw (is_inbound m)) in
      let short = (build_packet-IsFrame raw (is_inbound m) packet built).whole in
      (
        entry_bytes r.seconds ts.microsecond packet,
        ap (λ o. o >>= record_bytes ts) built
            ∙ record_bytes_lem ts r.seconds packet r.at_seconds r.seconds_fit r.microsecond_fits
                (omega (arith, short, r.packet_fits)),
      )

all_bytes-Fits :
    (clock : Clock) (ms : List (Row Message)) (bs : List ℕ)
    → all_bytes clock ms ≡ some bs
    → All (Fits clock) ms
unfolding all_bytes
all_bytes-Fits clock [] bs h = tt
all_bytes-Fits clock (m ∷ ms) bs h =
    let (first, hf, h1) = >>=-eq-some (message_bytes clock m.cols (raw_of m.cols)) _ h in
    let (rest, hr, _) = >>=-eq-some (all_bytes clock ms) _ h1 in
    (
      λ raw e.
          message_bytes-HasRoom clock m.cols raw first
            (ap (message_bytes clock m.cols) (sym e) ∙ hf),
      all_bytes-Fits clock ms rest hr,
    )

Fits-message_bytes :
    (clock : Clock) (m : Row Message) (o : Option (List ℕ))
    → raw_of m.cols ≡ o
    → Fits clock m
    → (bs : List ℕ) × (message_bytes clock m.cols o ≡ some bs)
Fits-message_bytes clock m none e h = ([], unfold message_bytes in refl)
Fits-message_bytes clock m (some raw) e h = HasRoom-message_bytes clock m.cols raw (h raw e)

Fits-all_bytes :
    (clock : Clock) (ms : List (Row Message))
    → All (Fits clock) ms
    → (bs : List ℕ) × (all_bytes clock ms ≡ some bs)
unfolding all_bytes
Fits-all_bytes clock [] h = ([], refl)
Fits-all_bytes clock (m ∷ ms) h =
    let (first, hf) = Fits-message_bytes clock m (raw_of m.cols) refl h.0 in
    let (rest, hr) = Fits-all_bytes clock ms h.1 in (first ++ rest, rw (hf, hr))

-- export_pcap returns exactly when all messages that are to be exported fit the file. A message that
-- has bytes fits if its IP packet has at most 65535 bytes and its time is from 1970 on, in seconds that
-- fit 32 bits. One message that does not fit makes the whole export fail.
pub export_pcap_iff :
    (clock : Clock) (session_id : Option Text) (s : Store)
    → ((bs : List ℕ) × (export_pcap clock session_id s ≡ some bs))
      ↔ All (Fits clock) (export_json session_id s)
unfolding export_pcap
export_pcap_iff clock session_id s = (
  λ (bs, h).
      let (header, _, h1) = >>=-eq-some global_header _ h in
      let (body, hb, _) = >>=-eq-some (all_bytes clock (export_json session_id s)) _ h1 in
      all_bytes-Fits clock (export_json session_id s) body hb,
  λ h.
      let (body, hb) = Fits-all_bytes clock (export_json session_id s) h in
      (header_bytes [] ++ body, rw (global_header_lem, hb)),
)
