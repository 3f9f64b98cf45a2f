-- ===== src/Export/Capture/Reader.antt =====
-- A reader of capture files, from the libpcap format: the global header, then records of a time, the
-- length of the frame in the file, its length on the wire, and the frame.
use sctp_probe.Prelude.{
  ℕ, zero, suc, ◌+◌, ◌*◌, ◌==◌, List, [], ◌∷◌, Option, none, some, length, take, drop,
  if◌then◌else◌, leb, ◌&&◌,
}
use sctp_probe.Value.Access.{◌>>=◌}

pub record Entry : Type 0 where
  pub seconds : ℕ
  pub microsecond : ℕ
  pub frame : List ℕ

unfoldable pub read_u32 : List ℕ → Option (ℕ × List ℕ)
read_u32 (a ∷ b ∷ c ∷ d ∷ bs) = some (a + 256 * b + 65536 * c + 16777216 * d, bs)
read_u32 _ = none

unfoldable pub read_entry : List ℕ → Option (Entry × List ℕ)
read_entry bs = do
  (sec, bs) ← read_u32 bs
  (usec, bs) ← read_u32 bs
  (len, bs) ← read_u32 bs
  (orig, bs) ← read_u32 bs
  if leb len (length bs) && len == orig
      then some (record { seconds = sec; microsecond = usec; frame = take len bs }, drop len bs)
      else none

-- Every record takes a unit of fuel.
unfoldable pub read_entries : ℕ → List ℕ → Option (List Entry)
read_entries fuel [] = some []
read_entries zero (b ∷ bs) = none
read_entries (suc fuel) (b ∷ bs) = elim (read_entry (b ∷ bs)) [
  | none ↦ none
  | some (e, rest) ↦ elim (read_entries fuel rest) [ none ↦ none | some es ↦ some (e ∷ es) ]
]

-- The magic number, version 2.4 and Ethernet frames.
unfoldable pub read_capture : List ℕ → Option (List Entry)
read_capture bs = do
  (magic, bs) ← read_u32 bs
  (version, bs) ← read_u32 bs
  (zone, bs) ← read_u32 bs
  (sigfigs, bs) ← read_u32 bs
  (snaplen, bs) ← read_u32 bs
  (network, bs) ← read_u32 bs
  if magic == 0xA1B2C3D4 && (version == 2 + 65536 * 4 && network == 1)
      then read_entries (length bs) bs
      else none
