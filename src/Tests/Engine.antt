-- ===== src/Tests/Engine.antt =====
-- The rule engine: sctp_probe/rules.py
use sctp_probe.Prelude.{
  ◌≤◌, ◌+◌, ◌≡◌, ◌↔◌, ◌⊎◌, refl, true, false, [], ◌∷◌, none, some, codes, text_eq, opt_text_eq, All,
  pos, arith, ◌<ℤ◌,
}
use mathlib.Core.Option
use sctp_probe.Table.{Row, select}
use sctp_probe.Table.Find.{find}
use sctp_probe.Store.{Message, Rule, get_rules}
use sctp_probe.Store.RuleTable.{find_rule}
use sctp_probe.Pycrate.{Pycrate}
use sctp_probe.Numeral.{scan, read_digit}
use sctp_probe.Encoder.{encode, no_kwargs, build, mi_sn}
use sctp_probe.Server.{SctpServer, peer_conn}
use sctp_probe.Client
use sctp_probe.Dict.{get}
use sctp_probe.Rules.{Env, World, matches, first_match, filter_fails, evaluate, execute, request_of}
use sctp_probe.Rules.Matching.{IsMatch, IsFirst, matches_iff, evaluate-IsFirst}
use sctp_probe.Rules.Effects.{IsLogged}
use sctp_probe.Rules.Replies.{IsSilent, reply_sent, reply_failed, reply-IsLogged_unsent}
use sctp_probe.Rules.Budget.{WithinBudget}
use sctp_probe.Rules.Races.{Engine, Reach, Task, arrives, wakes, fired_once, overshoot}
use sctp_probe.Rules.Races.Bound.{ReachWithin, here, next, overshoot_bound}
use sctp_probe.Store.{count_firing}

abbrev codec : Pycrate
codec = record { from_aper = λ bytes. none; to_aper = λ v. some (1 ∷ []); repr = λ v. [] }

abbrev server : SctpServer
server = record {
  listeners =
      (
        29168,
        record {
          socket = 3;
          ppid = 24;
          bind_host = codes "127.0.0.1";
          peers = (codes "10.0.0.2:40000", 7) ∷ [];
        },
      )
      ∷ [];
  closed = [];
}

abbrev env : Env
env = record {
  py = codec;
  server = server;
  client = Client.no_conns;
  send_fails = λ socket raw. false;
  gone = λ ws. false;
  now = codes "t9";
  uuid = codes "u";
}

abbrev broken : Env
broken = record env { send_fails = λ socket raw. true }

abbrev once : Rule
once = record {
  active = true;
  match_pdu_type = codes "WRR_REQ";
  match_message_identifier = none;
  match_serial_number = none;
  match_peer_addr = none;
  action = codes "auto_reply";
  reply_template = some (codes "WRR_SUCCESS");
  delay_ms = pos 0;
  count = pos 1;
  fired = 0;
}

abbrev rule : Row Rule
rule = record { id = 1; cols = once }

abbrev timeout_rule : Row Rule
timeout_rule = record { id = 3; cols = record once { reply_template = some (codes "WRR_TIMEOUT") } }

abbrev request : Message
request = record {
  session_id = codes "s1";
  timestamp = codes "t1";
  direction = codes "inbound";
  transport = codes "sctp";
  local_port = some 29168;
  peer_addr = some (codes "10.0.0.2:40000");
  protocol = codes "SBc-AP";
  pdu_type = some (codes "WRR_REQ");
  message_identifier = some (codes "0x1112");
  serial_number = some (codes "0x0001");
  decoded = none;
  raw_hex = codes "00";
  raw_bytes_b64 = codes "AA==";
  rule_id = none;
}

abbrev msg : Row Message
msg = record { id = 1; cols = request }

abbrev again : Row Message
again = record { id = 2; cols = request }

abbrev from_far : Row Message
from_far = record { id = 2; cols = record request { peer_addr = some (codes "10.0.0.9:29168") } }

abbrev world : World
world = record {
  store = record {
    messages = record { rows = msg ∷ []; seq = 1 };
    rules = record { rows = rule ∷ []; seq = 1 };
    session = some (codes "s1");
  };
  hub = 11 ∷ [];
  wire = [];
  received = [];
}

matches_iff_example : (matches once request ≡ true) ↔ IsMatch once request
matches_iff_example = matches_iff once request

found : first_match request (get_rules world.store) ≡ some rule
unfolding first_match matches get_rules select text_eq filter_fails opt_text_eq
found = refl

evaluate-IsFirst_example :
    ((r : Row Rule) × IsFirst request (get_rules world.store) r
      × (evaluate env msg none world ≡ execute env r msg none world))
    ⊎ (All (λ r. ¬ IsMatch r.cols request) (get_rules world.store)
        × (evaluate env msg none world ≡ world))
evaluate-IsFirst_example = evaluate-IsFirst env msg none world

unspent : WithinBudget world.store.rules
unspent = unfold find in λ k c r e h. ground arith

encoded : encode codec (codes "WRR_SUCCESS") (some (request_of request)) no_kwargs ≡ some (1 ∷ [])
unfolding encode build mi_sn text_eq scan read_digit Option.bind
encoded = refl

connected : peer_conn (codes "10.0.0.2:40000") server.listeners ≡ some 7
unfolding peer_conn get text_eq
connected = refl

unconnected : peer_conn (codes "10.0.0.9:29168") server.listeners ≡ none
unfolding peer_conn get text_eq
unconnected = refl

reply_sent_example :
    ((execute env rule msg none world).wire ≡ (7, 1 ∷ []) ∷ [])
    × IsLogged rule msg
        (1 ∷ [])
        world.store.messages
        (execute env rule msg none world).store.messages
reply_sent_example =
    reply_sent env rule msg none world _ _ (1 ∷ []) _ _ refl refl encoded refl 7 connected refl

reply_failed_example : IsSilent world (execute broken rule msg none world)
reply_failed_example =
    reply_failed broken rule msg none world _ _ (1 ∷ []) _ _ refl refl encoded refl 7 connected refl

reply-IsLogged_unsent_example :
    ((execute env rule from_far none world).wire ≡ [])
    × IsLogged rule from_far
        (1 ∷ [])
        world.store.messages
        (execute env rule from_far none world).store.messages
reply-IsLogged_unsent_example =
    reply-IsLogged_unsent env rule from_far none world _ _ (1 ∷ []) _ _ refl refl encoded refl
      unconnected

overshoot_example :
    (e : Engine) × Reach env (record { world = world; tasks = [] }) e
    × (r : Rule) × (find_rule 1 e.world.store ≡ some r)
    × (r.count <ℤ pos r.fired)
overshoot_example = overshoot env world rule msg again found found (unfold find in refl) refl

abbrev twice : Engine
twice = record { world = execute env rule again none (execute env rule msg none world); tasks = [] }

both_fire : ReachWithin 2 (record { world = world; tasks = [] }) twice
both_fire =
    let t1 : Task = record { rule = rule; msg = msg } in
    let t2 : Task = record { rule = rule; msg = again } in
    let w1 = execute env rule msg none world in
    next {e' = record { world = w1; tasks = t2 ∷ [] }} env
      (next {e' = record { world = world; tasks = t1 ∷ t2 ∷ [] }} env
        (next {e' = record { world = world; tasks = t1 ∷ [] }} env
          (next env here (arrives rule msg found refl) (omega arith))
          (arrives rule again found refl) (omega arith))
        (wakes [] (t2 ∷ []) t1 refl refl) (omega arith))
      (wakes [] [] t2 refl refl) (omega arith)

overshoot_bound_example : (count_firing (count_firing once)).fired ≤ 1 + 1
overshoot_bound_example =
    overshoot_bound 1 world twice (ground arith) unspent both_fire 1 0
      (count_firing (count_firing once))
      (fired_once env (execute env rule msg none world) rule again _
        (fired_once env world rule msg once (unfold find in refl)))
      refl
