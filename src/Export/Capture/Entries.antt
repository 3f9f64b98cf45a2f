-- ===== src/Export/Capture/Entries.antt =====
-- One record of a capture file, written and read.
use sctp_probe.Prelude.{
  ℕ, suc, ◌+◌, ◌*◌, ◌/◌, ◌%◌, ◌^◌, ◌<◌, ◌≡◌, refl, List, [], ◌∷◌, ◌++◌, Option, none, some, arith,
  length, length-append, take-length-append, drop-length-append, ap, ℤ, pos, negsuc,
}
use sctp_probe.Value.Access.{◌>>=◌}
use sctp_probe.Export.{le32}
use sctp_probe.Export.Capture.{Instant, record_bytes, le32_signed}
use sctp_probe.Export.Capture.Reader.{Entry, read_u32, read_entry, read_entries}

pub >>=-eq-some {ℓ κ} :
    {A : Type ℓ} {B : Type κ} (m : Option A) (f : A → Option B) {b : B}
    → (m >>= f) ≡ some b
    → (a : A) × (m ≡ some a) × (f a ≡ some b)
>>=-eq-some none f h = absurd (cc h)
>>=-eq-some (some a) f h = (a, refl, h)

abbrev pub le_bytes : ℕ → List ℕ → List ℕ
le_bytes n bs = n % 256 ∷ n / 256 % 256 ∷ n / 2 ^ 16 % 256 ∷ n / 2 ^ 24 ∷ bs

pub le32_cases : (n : ℕ) (bs : List ℕ) → le32 n ≡ some bs → (n < 2 ^ 32) × (bs ≡ le_bytes n [])
unfolding le32
le32_cases n bs h = ground arith

le32_lem : (n : ℕ) → n < 2 ^ 32 → le32 n ≡ some (le_bytes n [])
unfolding le32
le32_lem n h = ground arith

pub le32_signed_cases :
    (z : ℤ) (bs : List ℕ)
    → le32_signed z ≡ some bs
    → (n : ℕ) × (z ≡ pos n) × (n < 2 ^ 32) × (bs ≡ le_bytes n [])
unfolding le32_signed
le32_signed_cases (pos n) bs h = (n, refl, (le32_cases n bs h).0, (le32_cases n bs h).1)
le32_signed_cases (negsuc n) bs h = absurd (cc h)

read_u32-le_bytes : (n : ℕ) (bs : List ℕ) → n < 2 ^ 32 → read_u32 (le_bytes n bs) ≡ some (n, bs)
unfolding read_u32
read_u32-le_bytes n bs h = ap (λ (k : ℕ). some (k, bs)) value
  where
    value :
        n % 256 + 256 * (n / 256 % 256) + 65536 * (n / 2 ^ 16 % 256) + 16777216 * (n / 2 ^ 24) ≡ n
    value = omega arith

-- A record of the file, and what stands in it.
abbrev pub entry_bytes : ℕ → ℕ → List ℕ → List ℕ
entry_bytes sec usec packet =
    le_bytes sec (le_bytes usec (le_bytes (length packet) (le_bytes (length packet) packet)))

read_entry-entry_bytes :
    (sec usec : ℕ) (packet rest : List ℕ)
    → sec < 2 ^ 32
    → usec < 2 ^ 32
    → length packet < 2 ^ 32
    → read_entry (entry_bytes sec usec packet ++ rest)
      ≡ some (record { seconds = sec; microsecond = usec; frame = packet }, rest)
unfolding read_entry
read_entry-entry_bytes sec usec packet rest hs hu hl =
    let len = length packet in
    rw
      (
        read_u32-le_bytes sec (le_bytes usec (le_bytes len (le_bytes len (packet ++ rest)))) hs,
        read_u32-le_bytes usec (le_bytes len (le_bytes len (packet ++ rest))) hu,
        read_u32-le_bytes len (le_bytes len (packet ++ rest)) hl,
        read_u32-le_bytes len (packet ++ rest) hl,
      )
      (ground (
        arith,
        length-append packet rest,
        take-length-append packet rest,
        drop-length-append packet rest,
      ))

pub record_bytes_cases :
    (ts : Instant) (packet bs : List ℕ)
    → record_bytes ts packet ≡ some bs
    → (sec : ℕ) × (ts.seconds ≡ pos sec)
      × (sec < 2 ^ 32)
      × (ts.microsecond < 2 ^ 32)
      × (length packet < 2 ^ 32)
      × (bs ≡ entry_bytes sec ts.microsecond packet)
unfolding record_bytes
record_bytes_cases ts packet bs h =
    let (a, ha, h1) = >>=-eq-some (le32_signed ts.seconds) _ h in
    let (b, hb, h2) = >>=-eq-some (le32 ts.microsecond) _ h1 in
    let (c, hc, h3) = >>=-eq-some (le32 (length packet)) _ h2 in
    let (d, hd, h4) = >>=-eq-some (le32 (length packet)) _ h3 in
    let (sec, e, hs, ea) = le32_signed_cases ts.seconds a ha in
    let (hu, eb) = le32_cases ts.microsecond b hb in
    let (hl, ec) = le32_cases (length packet) c hc in
    let (_, ed) = le32_cases (length packet) d hd in (sec, e, hs, hu, hl, cc (h4, ea, eb, ec, ed))

pub read_entries-entry_bytes :
    (fuel sec usec : ℕ) (packet rest : List ℕ) (es : List Entry)
    → sec < 2 ^ 32
    → usec < 2 ^ 32
    → length packet < 2 ^ 32
    → read_entries fuel rest ≡ some es
    → read_entries (suc fuel) (entry_bytes sec usec packet ++ rest)
      ≡ some (record { seconds = sec; microsecond = usec; frame = packet } ∷ es)
unfolding read_entries
read_entries-entry_bytes fuel sec usec packet rest es hs hu hl h =
    rw (read_entry-entry_bytes sec usec packet rest hs hu hl, h, read_entries) refl

pub record_bytes_lem :
    (ts : Instant) (sec : ℕ) (packet : List ℕ)
    → ts.seconds ≡ pos sec
    → sec < 2 ^ 32
    → ts.microsecond < 2 ^ 32
    → length packet < 2 ^ 32
    → record_bytes ts packet ≡ some (entry_bytes sec ts.microsecond packet)
unfolding record_bytes le32_signed
record_bytes_lem ts sec packet e hs hu hl =
    rw (e, le32_lem sec hs, le32_lem ts.microsecond hu, le32_lem (length packet) hl)
