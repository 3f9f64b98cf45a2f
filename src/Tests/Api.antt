-- ===== src/Tests/Api.antt =====
-- Messages that come in and POST /api/send: sctp_probe/main.py
use sctp_probe.Prelude.{◌≡◌, refl, false, [], ◌∷◌, none, some, codes, text_eq, arith}
use sctp_probe.Table.{Row}
use sctp_probe.Store.{Message}
use sctp_probe.Value.{hex_digit}
use sctp_probe.Base64.{b64decode}
use sctp_probe.Pycrate.{Pycrate}
use sctp_probe.Server
use sctp_probe.Client
use sctp_probe.Client.{SctpClient}
use sctp_probe.Dict.{get}
use sctp_probe.Decoder.{hex_spaced}
use sctp_probe.Rules.{Env, World}
use sctp_probe.Main.{SendBody, on_message, send_bytes, sent_bytes}
use sctp_probe.Main.Pipeline.{IsPipelined, on_message-IsPipelined}
use sctp_probe.Main.Sending.{send_bytes_lem}

abbrev no_codec : Pycrate
no_codec = record { from_aper = λ bytes. none; to_aper = λ v. none; repr = λ v. [] }

abbrev client : SctpClient
client = record {
  conns =
      (
        codes "conn-1",
        record {
          socket = 5;
          host = codes "10.0.0.9";
          port = 29168;
          ppid = 24;
          state = Client.connected;
        },
      )
      ∷ [];
  counter = 2;
  closed = [];
}

abbrev env : Env
env = record {
  py = no_codec;
  server = Server.no_listeners;
  client = client;
  send_fails = λ socket raw. false;
  gone = λ ws. false;
  now = codes "t1";
  uuid = codes "u";
}

abbrev world : World
world = record {
  store = record {
    messages = record { rows = []; seq = 0 };
    rules = record { rows = []; seq = 0 };
    session = some (codes "s1");
  };
  hub = 11 ∷ [];
  wire = [];
  received = [];
}

abbrev on_one : SendBody
on_one = record {
  hex = some (codes "0a ff");
  connection_id = some (codes "conn-1");
  template = none;
  message_identifier = none;
  serial_number = none;
}

on_message-IsPipelined_example :
    IsPipelined
      (1 ∷ 255 ∷ [])
      (codes "10.0.0.2:40000")
      29168
      world.store.messages
      (on_message env (1 ∷ 255 ∷ []) (codes "10.0.0.2:40000") 29168 world).store.messages
on_message-IsPipelined_example =
    on_message-IsPipelined env (1 ∷ 255 ∷ []) (codes "10.0.0.2:40000") 29168 world (omega arith)

send_bytes_lem_example :
    let (reply, w') = send_bytes env on_one world in
    (reply ≡ sent_bytes 2)
    × (w'.wire ≡ (5, 10 ∷ 255 ∷ []) ∷ [])
    × ((row : Row Message) × (w'.store.messages.rows ≡ row ∷ [])
        × (row.cols.direction ≡ codes "outbound")
        × (b64decode row.cols.raw_bytes_b64 ≡ some (10 ∷ 255 ∷ [])))
send_bytes_lem_example =
    send_bytes_lem env on_one world _ 10 5 _ (255 ∷ []) (omega arith) refl shown refl usable refl
  where
    shown : some (codes "0a ff") ≡ some (hex_spaced (10 ∷ 255 ∷ []))
    shown = unfold hex_spaced hex_digit in refl

    usable : Client.send (codes "conn-1") (10 ∷ 255 ∷ []) client ≡ Client.sends 5 (10 ∷ 255 ∷ [])
    usable = unfold Client.send get text_eq in refl
