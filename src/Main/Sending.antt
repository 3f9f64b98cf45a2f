-- ===== src/Main/Sending.antt =====
-- POST /api/send: which requests change nothing, and what one with a hexadecimal text does.
use sctp_probe.Prelude.{
  inl, inr, ℕ, ◌<◌, ◌≡◌, refl, ◌/◌, ◌%◌, List, [], ◌∷◌, ◌++◌, Option, none, some, Text, codes, ◌+◌,
  ◌*◌, arith, length, ap, ◌∙◌, false, if◌then◌else◌,
}
use sctp_probe.Table.{Row, insert}
use sctp_probe.Store.{Message, save_message, message_columns}
use sctp_probe.Value.{hex, hex_digit}
use sctp_probe.Numeral.{digit_value}
use sctp_probe.Base64.{b64decode}
use sctp_probe.Base64.RoundTrip.{AreBytes}
use sctp_probe.Decoder.{decode, hex_spaced}
use sctp_probe.Decoder.Raw.{decode_keeps_bytes}
use sctp_probe.Client
use sctp_probe.Rules.{Env, World}
use sctp_probe.Main.Attempts.{Ends, send_out-Ends}
use sctp_probe.Main.{
  SendBody, sent_bytes, http_error, server_error, drop_blanks, from_hex, is_blank, with_byte,
  send_bytes, Attempt, went, failed, bytes_of, hex_bytes, with_bytes, send_out, on_connection,
  log_sent, sent_message, put_out,
}

digit_value-hex_digit : (d : ℕ) → d < 16 → digit_value (hex_digit d) ≡ some d
unfolding digit_value hex_digit
digit_value-hex_digit d h = ground arith

is_blank-hex_digit : (d : ℕ) → d < 16 → is_blank (hex_digit d) ≡ false
unfolding is_blank hex_digit
is_blank-hex_digit d h = ground arith

keeps_digit :
    (d : ℕ) (s : Text) → d < 16 → drop_blanks (hex_digit d ∷ s) ≡ hex_digit d ∷ drop_blanks s
unfolding drop_blanks hex_digit
keeps_digit d s h = ground arith

keeps_byte :
    (b : ℕ) (s : Text)
    → b < 256
    → drop_blanks (hex_digit (b / 16) ∷ hex_digit (b % 16) ∷ s)
      ≡ hex_digit (b / 16) ∷ hex_digit (b % 16) ∷ drop_blanks s
keeps_byte b s h =
    keeps_digit (b / 16) (hex_digit (b % 16) ∷ s) (omega arith)
    ∙ ap (λ l. hex_digit (b / 16) ∷ l) (keeps_digit (b % 16) s (omega arith))

drop_blanks-hex_spaced : (bs : List ℕ) → AreBytes bs → drop_blanks (hex_spaced bs) ≡ hex bs
unfolding hex_spaced hex drop_blanks
drop_blanks-hex_spaced [] h = refl
drop_blanks-hex_spaced (b ∷ []) h = keeps_byte b [] h.0 ∙ refl
drop_blanks-hex_spaced (b ∷ c ∷ bs) h =
    keeps_byte b (b' ' ∷ hex_spaced (c ∷ bs)) h.0
    ∙ ap (λ l. hex_digit (b / 16) ∷ hex_digit (b % 16) ∷ l) (drop_blanks-hex_spaced (c ∷ bs) h.1)

from_hex_byte :
    (c d high low : ℕ) (s : Text)
    → is_blank c ≡ false
    → digit_value c ≡ some high
    → digit_value d ≡ some low
    → from_hex (c ∷ d ∷ s) ≡ with_byte (some high) (some low) (from_hex s)
unfolding from_hex
from_hex_byte c d high low s dark h l = ground arith

from_hex-hex : (bs : List ℕ) → AreBytes bs → from_hex (hex bs) ≡ some bs
unfolding hex with_byte
from_hex-hex [] h = unfold from_hex in refl
from_hex-hex (b ∷ bs) h =
    from_hex_byte (hex_digit (b / 16)) (hex_digit (b % 16)) (b / 16) (b % 16) (hex bs)
      (is_blank-hex_digit (b / 16) (omega arith)) (digit_value-hex_digit (b / 16) (omega arith))
      (digit_value-hex_digit (b % 16) (omega arith))
    ∙ ap (with_byte (some (b / 16)) (some (b % 16))) (from_hex-hex bs h.1)
    ∙ ap (λ n. some (n ∷ bs)) sum
  where
    sum : b / 16 * 16 + b % 16 ≡ b
    sum = omega arith

log_sent-refused :
    (env : Env) (raw : List ℕ) (w : World) (a : Attempt) (code : ℕ)
    → Ends w (λ x. Unit) a
    → (log_sent env raw a).0 ≡ http_error code
    → (log_sent env raw a).1 ≡ w
unfolding log_sent
log_sent-refused env raw w (went w') code h e = absurd (cc e)
log_sent-refused env raw w (failed reply w') code (_, inl other) e = absurd (cc (other, e))
log_sent-refused env raw w (failed reply w') code (_, inr (same, _)) e = same

-- A request that is refused with an HTTP error sends nothing and changes nothing.
pub send_bytes-refused :
    (env : Env) (body : SendBody) (w : World) (code : ℕ)
    → (send_bytes env body w).0 ≡ http_error code
    → (send_bytes env body w).1 ≡ w
unfolding send_bytes
send_bytes-refused env body w code = at (bytes_of env body body.template)
  where
    at :
        (o : Option (List ℕ))
        → (with_bytes env body o w).0 ≡ http_error code
        → (with_bytes env body o w).1 ≡ w
    at none = unfold with_bytes in λ e. refl
    at (some raw) =
        unfold with_bytes in
        λ e.
          log_sent-refused env raw w _ code
            (send_out-Ends env w (λ x. Unit) (λ socket bytes x u. tt) tt body.connection_id raw) e

hex_bytes-hex_spaced :
    (b : ℕ) (bs : List ℕ)
    → AreBytes (b ∷ bs)
    → hex_bytes (some (hex_spaced (b ∷ bs))) ≡ some (b ∷ bs)
unfolding hex_bytes hex_spaced
hex_bytes-hex_spaced b [] h =
    ap from_hex (drop_blanks-hex_spaced (b ∷ []) h) ∙ from_hex-hex (b ∷ []) h
hex_bytes-hex_spaced b (c ∷ bs) h =
    ap from_hex (drop_blanks-hex_spaced (b ∷ c ∷ bs) h) ∙ from_hex-hex (b ∷ c ∷ bs) h

-- A request with the hexadecimal text that the log shows for some bytes, on a connection that can be
-- sent on, is answered with the number of the bytes. It sends these bytes there, once, and one outbound
-- row with them is added to the log.
pub send_bytes_lem :
    (env : Env) (body : SendBody) (w : World) (c b socket : ℕ) (id : Text) (bs : List ℕ)
    → let raw = b ∷ bs in
      AreBytes raw
      → body.template ≡ none
      → body.hex ≡ some (hex_spaced raw)
      → body.connection_id ≡ some (c ∷ id)
      → Client.send (c ∷ id) raw env.client ≡ Client.sends socket raw
      → env.send_fails socket raw ≡ false
      → let (reply, w') = send_bytes env body w in
        (reply ≡ sent_bytes (length raw))
        × (w'.wire ≡ w.wire ++ (socket, raw) ∷ [])
        × ((row : Row Message) × (w'.store.messages.rows ≡ w.store.messages.rows ++ row ∷ [])
            × (row.cols.direction ≡ codes "outbound")
            × (b64decode row.cols.raw_bytes_b64 ≡ some raw))
unfolding send_bytes bytes_of with_bytes send_out on_connection log_sent put_out save_message insert
    message_columns sent_message
send_bytes_lem env body w c b socket id bs are_bytes no_template hex_text on_id sends works =
    let raw = b ∷ bs in
    let after = put_out socket raw w in
    rw
      (ap (λ t. with_bytes env body (bytes_of env body t) w) no_template
        ∙ ap (λ h. with_bytes env body (hex_bytes h) w) hex_text
        ∙ ap (λ o. with_bytes env body o w) (hex_bytes-hex_spaced b bs are_bytes)
        ∙ ap (λ i. log_sent env raw (send_out env i raw w)) on_id
        ∙ ap (λ r. log_sent env raw (on_connection env r w)) sends
        ∙ ap (λ f. log_sent env raw (if f then failed server_error w else went after)) works)
      (
        refl,
        refl,
        (
          (save_message env.now (sent_message env after.store (decode env.py raw)) after.store).0,
          refl,
          refl,
          decode_keeps_bytes env.py raw are_bytes,
        ),
      )
