-- ===== src/Lib.antt =====
-- sctp-probe: a test instrument that speaks SBc-AP over SCTP. It listens for peers and opens
-- associations, decodes and logs the messages that come in, and answers them by rules.
--
-- The parts of the program and the files that model them:
--   sctp_probe/store.py, session.py   Store (and Table for what it uses of SQLite): the database is a
--       value, and each `_…_sync` method, which runs as a whole under `_conn_lock`, is a function from
--       the old value to its result and the new value. Store/Connections has the methods as the
--       statements that they execute, on a file or in memory, where connecting, the PRAGMA or a statement
--       may raise.
--   sctp_probe/decoder.py   Decoder: `decode` over the Python value that pycrate returns. Value is the
--       type of such values and what the code does with them (`get`, unpacking, `str`, json.dumps and
--       json.loads of a column).
--   sctp_probe/encoder.py   Encoder: `encode` with all its templates; a PDU is the value that is
--       handed to pycrate.
--   sctp_probe/rules.py   Rules: `_match`, `evaluate` and `_execute`. The engine calls the store, the
--       encoder, the decoder, the server, the client and the hub; what these share is the record World.
--   sctp_probe/export.py   Export: the checksum and the frame around one message. Export/Capture: the
--       messages of an export and the capture file. Export/Capture/Reader is a reader of such files that
--       is written from their format and not from the code.
--   sctp_probe/sctp_server.py   Server: the listeners and their peers. Server/Receive: the receive loop
--       of a connection. Server/Accepting: the accept loop of a port. Server/Life: any sequence of calls,
--       accepts and ends of connections.
--   sctp_probe/sctp_client.py   Client: the outgoing associations. Client/Loops: a turn of the read loop
--       and of the heartbeat loop. Client/Life: any sequence of calls and turns. Sockets: the calls that
--       open and close a socket, for both.
--   sctp_probe/ws.py   Ws: the subscribers of events.
--   sctp_probe/main.py   Main: what happens to an inbound message from its bytes to the reply, and the
--       send endpoint. Main/App: the record App of the singletons; Main/App/Endpoints: each endpoint, as
--       a function from the request and the App to the response and the new App; Main/App/Steps: the
--       application as a sequence of inputs (a peer is accepted, a recv or sctp_recv ends, a request
--       comes in, a WebSocket opens or closes), each handled to its end before the next. Main/Tasks: the
--       handling of messages as tasks that run from one await to the next or are cancelled there, in any
--       order, with such inputs in between.
-- Store/Spec is an abstract store, a list of messages and a function from keys to rules.
-- Numeral models the number formats that the code uses (int(s, 16), f"{n:04x}", f"{n}"), Base64 the
-- encoding of Python's base64 module, Dict Python's dict. Prelude has shared types and lemmas, and
-- Tests the runs on concrete inputs.
--
-- pycrate is third-party code: Pycrate is a record of its operations `from_aper` with `get_val`,
-- `set_val` with `to_aper`, and `repr`, each an argument; an operation that raises returns `none`, and
-- so does every operation where the generated module could not be imported. What a theorem needs of
-- it, such as that it reads back what it wrote, is a hypothesis. The network is an argument as well: the
-- socket that a bind, a connect or an accept yields, what a recv gives, and whether a send raises. So are
-- the time, fresh UUIDs and what datetime makes of a text (Clock); for an input of the application these
-- are the record Outside.
--
-- Bounds and fuel: `digits_of` writes the digits of n on fuel n + 1 and `fold_carries` folds a sum s on
-- fuel s + 1, since each round makes the number smaller; a poller (Store.Polling) that has one more
-- poll than there are messages to get has them all; the reader of capture files spends one unit of fuel
-- on each record and has as many as the file has bytes. Texts are lists of code points, and bytes are
-- numbers; `struct.pack` returns `none` for a number that does not fit its field.
--
-- Not modelled: threads as such; in Main/App/Steps what else happens between two waits of one handler,
-- which runs there from end to end (the tasks of messages overlap in Main/Tasks, those of rules in
-- Rules/Races, and the turns of the loops in Client/Life); whose task a stop, a disconnect or the shutdown
-- cancels (in Main/Tasks any task may be cancelled at any time); the sends of one broadcast as separate
-- waits; SQLite's files, the difference between a missing and an empty table and the 64-bit bound of its
-- numbers; a name of an IE that is neither a text nor a number, which json.dumps would refuse when the
-- message is saved (pycrate's names are texts; the decoder falls back to the raw message here); white
-- space in int(s, 16) beyond ASCII, logging, the text of JSON replies, the checks of request bodies that
-- FastAPI makes, modprobe, the static page, and the generated module specs/SbcAP_gen.py.
mod Prelude
pub mod Value
pub mod Numeral
pub mod Base64
pub mod Pycrate
pub mod Decoder
pub mod Encoder
pub mod Table
pub mod Store
pub mod Export
pub mod Dict
pub mod Sockets
pub mod Server
pub mod Client
pub mod Ws
pub mod Rules
pub mod Main
mod Tests
