-- ===== src/Tests/App.antt =====
-- The application: sctp_probe/main.py
use sctp_probe.Prelude.{◌≡◌, refl, false, true, List, [], ◌∷◌, none, some, codes, pos}
use sctp_probe.Pycrate.{Pycrate}
use sctp_probe.Store
use sctp_probe.Store.History.{IsExtension}
use sctp_probe.Export.Capture.{Clock}
use sctp_probe.Server.Receive.{bytes}
use sctp_probe.Client
use sctp_probe.Client.Loops.{result, os_error}
use sctp_probe.Main.App.{App, Outside, started, shut_down}
use sctp_probe.Main.App.Shutdown.{shut_down_lem}
use sctp_probe.Server.Shutdown.{IsShut}
use sctp_probe.Client.Shutdown.{IsLeft}
use sctp_probe.Main.App.Endpoints
use sctp_probe.Main.App.Endpoints.{RuleBody, handle}
use sctp_probe.Main.App.Steps.{Input, accepts, receives, reads, requests, subscribes, run}
use sctp_probe.Main.App.{env_of}
use sctp_probe.Main.App.Steps.{step}
use sctp_probe.Main.App.Answers.{IsAnswered, receives_answered}
use sctp_probe.Main.{receive}
use sctp_probe.Rules.{first_match, matches, filter_fails}
use sctp_probe.Store.{Message, Rule, get_rules, save_message, message_columns}
use sctp_probe.Table.{Row, select, insert}
use sctp_probe.Prelude.{opt_text_eq, text_eq, ◌++◌}
use sctp_probe.Base64.{b64encode}
use sctp_probe.Dict.{get}
use sctp_probe.Server.{peer_conn}
use sctp_probe.Decoder.{decode}
use sctp_probe.Encoder.{encode, build, mi_sn}
use sctp_probe.Numeral.{scan, read_digit}
use mathlib.Core.Option
use sctp_probe.Main.App.Runs.{app_log_append_only}
use sctp_probe.Main.App.Invariants.{IsApp, run-IsApp}
use sctp_probe.Main.App.Refusals.{IsUnchanged, IsReason, handle-refused}

abbrev no_codec : Pycrate
no_codec = record { from_aper = λ bytes. none; to_aper = λ v. none; repr = λ v. [] }

abbrev clock : Clock
clock = record {
  from_iso_format = λ text. none;
  now = record { seconds = pos 1704067200; microsecond = 0 };
}

abbrev pub outside : Outside
outside = record {
  py = no_codec;
  clock = clock;
  send_fails = λ socket raw. false;
  gone = λ ws. false;
  now = codes "t1";
  uuid = codes "s2";
  sctp_available = true;
  created = some 5;
}

abbrev rule : RuleBody
rule = record {
  match_pdu_type = codes "*";
  match_message_identifier = none;
  match_serial_number = none;
  match_peer_addr = none;
  action = codes "log_only";
  reply_template = none;
  delay_ms = pos 0;
  count = pos 1;
}

-- A listener, a rule, a peer that sends two messages, an association that a message comes in on before
-- it fails, and a reset.
abbrev inputs : List Input
inputs =
    subscribes 1
    ∷ requests outside (Endpoints.server_start 29168 24 (codes "127.0.0.1"))
    ∷ requests outside (Endpoints.create_rule rule)
    ∷ accepts outside 29168 (codes "10.0.0.2:40000") 7
    ∷ receives outside 29168 (codes "10.0.0.2:40000") 7 (bytes (1 ∷ 2 ∷ []))
    ∷ receives outside 29168 (codes "10.0.0.2:40000") 7 (bytes (3 ∷ []))
    ∷ requests outside (Endpoints.client_connect (codes "10.0.0.9") 29168 24)
    ∷ reads outside 2 (codes "conn-1") (result 0 (4 ∷ []))
    ∷ reads outside 2 (codes "conn-1") (os_error false)
    ∷ requests outside Endpoints.reset_session
    ∷ receives outside 29168 (codes "10.0.0.2:40000") 7 (bytes [])
    ∷ []

run-IsApp_example : IsApp (run (started (codes "s1")) inputs)
run-IsApp_example = run-IsApp (codes "s1") inputs

app_log_append_only_example :
    IsExtension [] (run (started (codes "s1")) inputs).world.store.messages.rows
unfolding started Store.init_db
app_log_append_only_example = app_log_append_only inputs (started (codes "s1")) (
  (λ h. h),
  (
    (λ h. h),
    (
      (λ h. h),
      (
        (λ h. h),
        ((λ h. h), ((λ h. h), ((λ h. h), ((λ h. h), ((λ h. h), ((λ h. h), ((λ h. h), tt))))))),
      ),
    ),
  ),
)

abbrev unreachable : Outside
unreachable = record outside { created = none }

handle-refused_example :
    let request = Endpoints.client_connect (codes "10.0.0.9") 29168 24 in
    let app = started (codes "s1") in
    IsUnchanged 502 app (handle unreachable request app).1 × IsReason unreachable app request 502
handle-refused_example =
    handle-refused unreachable (Endpoints.client_connect (codes "10.0.0.9") 29168 24)
      (started (codes "s1")) 502 (unfold handle Client.connect in refl)

abbrev busy : App
busy = record (started (codes "s1")) {
  server = record {
    listeners =
        (
          29168,
          record {
            socket = 3;
            ppid = 24;
            bind_host = codes "127.0.0.1";
            peers = (codes "10.0.0.2:40000", 7) ∷ [];
          },
        )
        ∷ [];
    closed = [];
  };
}

shut_down_lem_example :
    IsShut 29168 busy.server (shut_down busy).server
    × IsLeft (codes "conn-1") busy.client (shut_down busy).client
    × ((shut_down busy).world ≡ busy.world)
shut_down_lem_example = shut_down_lem busy 29168 (codes "conn-1")

abbrev pub replying : Outside
replying = record outside { py = record no_codec { to_aper = λ v. some (9 ∷ []) } }

abbrev answer_all : Row Rule
answer_all = record {
  id = 1;
  cols = record {
    active = true;
    match_pdu_type = codes "*";
    match_message_identifier = none;
    match_serial_number = none;
    match_peer_addr = none;
    action = codes "auto_reply";
    reply_template = some (codes "WRR_SUCCESS");
    delay_ms = pos 0;
    count = pos 0;
    fired = 4;
  };
}

abbrev pub ruled : App
ruled = record busy {
  world = record busy.world {
    store = record busy.world.store { rules = record { rows = answer_all ∷ []; seq = 1 } };
  };
}

abbrev saved : Row Message
saved = (receive (env_of replying ruled) (1 ∷ []) (codes "10.0.0.2:40000") 29168 ruled.world).0

answered : IsAnswered replying ruled saved 7 (codes "10.0.0.2:40000") answer_all (9 ∷ [])
answered = record {
  taken =
      unfold started Store.init_db first_match matches get_rules select text_eq filter_fails
        opt_text_eq in
      refl;
  automatic = refl;
  first = _;
  name = _;
  template = refl;
  encoded =
      unfold receive env_of save_message insert message_columns decode encode build mi_sn text_eq
        scan read_digit Option.bind in
      refl;
  connected = unfold started peer_conn get text_eq in refl;
  works = refl;
}

receives_answered_example :
    let w' =
      (step ruled (receives replying 29168 (codes "10.0.0.2:40000") 7 (bytes (1 ∷ [])))).world in
    (w'.wire ≡ ruled.world.wire ++ (7, 9 ∷ []) ∷ [])
    × ((answer : Row Message) × (w'.store.messages.rows
          ≡ ruled.world.store.messages.rows ++ saved ∷ answer ∷ [])
        × (answer.cols.direction ≡ codes "outbound")
        × (answer.cols.rule_id ≡ some 1)
        × (answer.cols.peer_addr ≡ some (codes "10.0.0.2:40000"))
        × (answer.cols.raw_bytes_b64 ≡ b64encode (9 ∷ [])))
receives_answered_example =
    receives_answered replying ruled 29168 _ _ 7 1 [] answer_all (9 ∷ []) answered
