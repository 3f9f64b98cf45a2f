-- ===== src/Main/Pipeline.antt =====
-- What happens to a message that comes in, from its bytes to the log and to the reply.
use sctp_probe.Prelude.{
  ℕ, ◌≤◌, ◌≡◌, refl, List, [], ◌∷◌, ◌++◌, none, some, Text, codes, All, length, ◌∙◌,
}
use mathlib.Core.List.{append_assoc}
use sctp_probe.Table.{Row, Table, insert}
use sctp_probe.Store.{Message, save_message, message_columns}
use sctp_probe.Base64.{b64decode}
use sctp_probe.Base64.RoundTrip.{AreBytes}
use sctp_probe.Decoder.Raw.{decode_keeps_bytes}
use sctp_probe.Rules.{Env, World}
use sctp_probe.Rules.Growth.{evaluate-Grows}
use sctp_probe.Main.{receive, on_message}

-- The log behind `old`: first the inbound message with its peer, its port and its bytes, then at most
-- one reply.
pub record IsPipelined (raw : List ℕ) (peer : Text) (port : ℕ) (old new : Table Message)
    : Type 0 where
  pub saved : Row Message
  pub replies : List (Row Message)
  pub at_end : new.rows ≡ old.rows ++ saved ∷ replies
  pub is_inbound : saved.cols.direction ≡ codes "inbound"
  pub from_peer : saved.cols.peer_addr ≡ some peer
  pub on_port : saved.cols.local_port ≡ some port
  pub keeps_bytes : b64decode saved.cols.raw_bytes_b64 ≡ some raw
  pub at_most_one : length replies ≤ 1
  pub are_outbound : All (λ r. r.cols.direction ≡ codes "outbound") replies

-- Every message that comes in is logged, with its peer, its port and all its bytes, whether or not it
-- can be decoded and whatever the rules do; behind it comes at most one row, an outbound one.
pub on_message-IsPipelined :
    (env : Env) (raw : List ℕ) (peer : Text) (port : ℕ) (w : World)
    → AreBytes raw
    → IsPipelined raw peer port w.store.messages (on_message env raw peer port w).store.messages
unfolding on_message receive save_message insert message_columns
on_message-IsPipelined env raw peer port w are_bytes =
    let (saved, w') = receive env raw peer port w in
    let grown = evaluate-Grows env saved none w' in
    record {
      saved = saved;
      replies = grown.replies;
      at_end = grown.at_end ∙ append_assoc w.store.messages.rows (saved ∷ []) grown.replies;
      is_inbound = refl;
      from_peer = refl;
      on_port = refl;
      keeps_bytes = decode_keeps_bytes env.py raw are_bytes;
      at_most_one = grown.at_most_one;
      are_outbound = grown.are_outbound;
    }
