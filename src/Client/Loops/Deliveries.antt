-- ===== src/Client/Loops/Deliveries.antt =====
-- Which messages of an association reach `on_message`.
use Prim.Native.Nat.{bit_and}
use sctp_probe.Numeral.{decimal}
use sctp_probe.Prelude.{
  codes, pos, ◌==◌, ℕ, ◌≡◌, refl, Bool, true, false, List, [], ◌∷◌, ◌++◌, some, Text, text_eq,
  text_eq_iff, ◌&&◌, if◌then◌else◌, map, arith, not,
}
use sctp_probe.Dict.{get, get-put}
use sctp_probe.Client
use sctp_probe.Client.{SctpClient, Conn, mark_error}
use sctp_probe.Client.Loops.{
  Received, result, cancelled, timeout, blocking, os_error, other_exception, inbound_of, is_skipped,
  after_recv, read_loop, Inbound,
}

-- The loop ends at an exception that says neither that there is nothing yet nor that time is up.
is_fatal : Received → Bool
is_fatal (result flags raw) = false
is_fatal cancelled = true
is_fatal timeout = false
is_fatal blocking = false
is_fatal (os_error again) = not again
is_fatal other_exception = true

-- The loop ends by an error, and not since its task was cancelled.
is_failure : Received → Bool
is_failure cancelled = false
is_failure r = is_fatal r

payloads : ℕ → Received → List (List ℕ)
payloads flag (result flags (b ∷ raw)) = if bit_and flags flag == 0 then (b ∷ raw) ∷ [] else []
payloads flag _ = []

-- The payloads of all messages before the first fatal result.
unfoldable pub sent_before : ℕ → List Received → List (List ℕ)
unfolding is_fatal payloads
sent_before flag [] = []
sent_before flag (r ∷ rs) =
    let rest = sent_before flag rs in if is_fatal r then [] else payloads flag r ++ rest

-- The first fatal result is an error.
unfoldable pub has_failed : List Received → Bool
unfolding is_fatal is_failure
has_failed [] = false
has_failed (r ∷ rs) = let rest = has_failed rs in if is_fatal r then is_failure r else rest

-- The call of `on_message` for a payload, from an association.
abbrev pub from : Conn → List ℕ → Inbound
from entry raw = record {
  raw = raw;
  peer_addr = entry.host ++ (codes ":" ++ decimal (pos entry.port));
  local_port = entry.port;
}

inbound_of_lem :
    (id : Text) (raw : List ℕ) (entry : Conn) (c : SctpClient)
    → get text_eq id c.conns ≡ some entry
    → inbound_of id raw c ≡ from entry raw
unfolding inbound_of
inbound_of_lem id raw entry c there = rw there refl

read_loop-mark_error :
    (flag : ℕ) (id : Text) (rs : List Received) (entry : Conn) (c : SctpClient)
    → get text_eq id c.conns ≡ some entry
    → read_loop flag id rs c
      ≡ (map (from entry) (sent_before flag rs), if has_failed rs then mark_error id c else c)
unfolding read_loop sent_before has_failed is_fatal is_failure payloads after_recv is_skipped
read_loop-mark_error flag id [] entry c there = refl
read_loop-mark_error flag id (result flags [] ∷ rs) entry c there =
    ground (arith, read_loop-mark_error flag id rs entry c)
read_loop-mark_error flag id (result flags (b ∷ raw) ∷ rs) entry c there =
    ground (arith, read_loop-mark_error flag id rs entry c, inbound_of_lem id (b ∷ raw) entry c)
read_loop-mark_error flag id (cancelled ∷ rs) entry c there = ground arith
read_loop-mark_error flag id (timeout ∷ rs) entry c there =
    ground (arith, read_loop-mark_error flag id rs entry c)
read_loop-mark_error flag id (blocking ∷ rs) entry c there =
    ground (arith, read_loop-mark_error flag id rs entry c)
read_loop-mark_error flag id (os_error true ∷ rs) entry c there =
    ground (arith, read_loop-mark_error flag id rs entry c)
read_loop-mark_error flag id (os_error false ∷ rs) entry c there = ground arith
read_loop-mark_error flag id (other_exception ∷ rs) entry c there = ground arith

-- On a connection that is there, the read loop calls `on_message` for the payload of every message up
-- to the first result that ends it, once each and in order, with the address and the port of the
-- connection; notifications and empty messages make no call. If an error ended the loop, the connection
-- is then in the state ERROR, with everything else of it as before. No other association changes, no
-- name is given out and no socket closed.
pub read_loop_lem :
    (flag : ℕ) (id : Text) (rs : List Received) (entry : Conn) (c : SctpClient)
    → get text_eq id c.conns ≡ some entry
    → let (calls, c') = read_loop flag id rs c in
      (calls ≡ map (from entry) (sent_before flag rs))
      × ((j : Text)
          → get text_eq j c'.conns ≡ (
              if has_failed rs && text_eq id j
              then some (record {
                socket = entry.socket;
                host = entry.host;
                port = entry.port;
                ppid = entry.ppid;
                state = Client.error;
              })
              else get text_eq j c.conns))
      × (c'.counter ≡ c.counter)
      × (c'.closed ≡ c.closed)
unfolding mark_error
read_loop_lem flag id rs entry c there =
    rw (read_loop-mark_error flag id rs entry c there)
      (let (same, counter, closed) = marked (has_failed rs) in (refl, same, counter, closed))
  where
    marked :
        (failed : Bool)
        → let c' = if failed then mark_error id c else c in
          ((j : Text)
            → get text_eq j c'.conns ≡ (
                if failed && text_eq id j
                then some (record {
                  socket = entry.socket;
                  host = entry.host;
                  port = entry.port;
                  ppid = entry.ppid;
                  state = Client.error;
                })
                else get text_eq j c.conns))
          × (c'.counter ≡ c.counter)
          × (c'.closed ≡ c.closed)
    marked false = (λ j. refl, refl, refl)
    marked true = rw there (λ j. get-put text_eq text_eq_iff id j _ c.conns, refl, refl)
