-- ===== src/Lib.antt =====
-- A model of xtce_sim, a simulator of satellites that are described in XTCE, with proofs.
--
-- The program loads a definition (xtce_sim/parser, generate.py, definition.py), serves it over TCP
-- (server.py) in CCSDS packets (ccsds.py, codec.py), keeps uploaded files (fileservice.py), runs
-- command sequences (sequences.py, sequencer.py, seqservice.py), and simulates behaviour and physics
-- (xtce_sim/behavior, xtce_sim/dynamics). Bytes that a client sends are cut into packets by
-- `deframe`; packets of the file-uplink APID go to the file service, all others to the dispatch of
-- commands, of which the FILE_* commands go to the file service too, and the sequencer's to it. The
-- sequencer fires commands through the same dispatch, so a fired command may act on it again.
--
-- Files and the code that they model:
--   Ccsds        xtce_sim/ccsds.py. Ccsds/Header: `CCSDSHeader`; Ccsds/Packets: the builders and
--                parsers of telemetry, command and echo packets; Ccsds/Counter: `SequenceCounter`;
--                Ccsds/Uplink: `build_file_start` to `_parse_file_start`; Ccsds/Frame: `frame` and
--                `deframe`.
--   Schema       the data classes of xtce_sim/definition.py.
--   Codec        xtce_sim/codec.py. Codec: the formats of struct; Codec/Telemetry: `pack_telemetry` and
--                what it calls; Codec/Command: `encode_command`, `decode_command`, `range_violations`;
--                Codec/IntLiteral: `int(s, 0)`.
--   Server       xtce_sim/server.py. Server: `SimServer.__init__`, `send_packet` and the queues;
--                Server/Receive: the loop of `_handle_client`; Server/Beacon: `_emit_due_packets` and
--                `_beacon_loop`; Server/Link: `_apply_link_conventions`; Server/Dispatch: `_dispatch`,
--                `_apply_command`, the file uplink and `_sequence_execute`; Server/SequenceLoop:
--                `_sequence_loop`.
--   FileStore    xtce_sim/fileservice.py, `name_problem` and `FileStore`.
--   FileService  the same file, `FileService`: FileService/Uplink has the reassembly of uploads,
--                FileService/Commands the FILE_* commands.
--   Sequencer    xtce_sim/sequencer.py. Sequencer: `_Slot` and the data; Sequencer/Commands: `load`
--                to `abort`, and `status`; Sequencer/Tick: `tick`, `_fire`, `_next_due`.
--   SequenceFile xtce_sim/sequences.py: `kind_for`, and `_parse` with all that it calls.
--   SeqService   xtce_sim/seqservice.py: `handle_command`, `_cmd_load`, `_read_plan`, `values_for`.
--   Client       xtce_sim/client.py: `upload_file` up to its socket, and `_ReceiptMatcher`.
--   Generate     xtce_sim/generate.py. Generate/Opcodes: `_reserve_real_opcodes` and
--                `_assign_synthetic_opcodes`.
--   Definition   xtce_sim/definition.py: `command_by_name`, `command_by_opcode`, `label_for` and
--                `resolve_enum_arg`.
--   Struct, Utf8, Zlib   what the code uses of Python's struct, str and zlib.
--   Prelude      shared types and lemmas; Tests: the theorems at concrete inputs.
-- The methods keep their names, without a leading underscore. A method that changes its object takes
-- the object's state and returns the new one; an exception is the value `err`, by its class.
--
-- Bounds and fuel. Fields are numbers, and masks and shifts of the code are written out, so a field
-- that is too wide is cut or refused where the code cuts or refuses it. `deframe_loop` has the
-- buffer's length as fuel; every round takes four bytes at least. `tick` has as fuel one more than
-- the number of entries that it may fire: the code's loop does not end when fired commands start
-- their own run again and again, so the bound on it is a theorem under a hypothesis on the executor.
-- `skip` has 256 less the first opcode that it tries, since no taken opcode is above 255. Times of
-- the sequencer and of the beacon are whole microseconds.
--
-- Parameters: the CRC-16 of the package crcmod, what `datetime.fromisoformat` answers, the callables
-- and the behaviour engine that the server's constructor is given, each of which may raise, the clock's
-- readings, and whether the disk takes a write. The reads of the file store's directory are taken to
-- succeed.
--
-- Not modelled: log lines and the texts of answers; concurrency, since each handler runs to its end
-- before another one starts, and the tasks that write queues to sockets; floating-point code (the
-- types float32 and float64 of fields and arguments, dynamics, synth.py, calibrators); texts beyond
-- ASCII where case, digits and white space matter; the XML parser, the command line, the web console,
-- the clients' sockets and the bridge, which are input and output; the rest of the definition and of its
-- generator, the ground's tools of sequences.py, and the behaviour engine.
pub mod Ccsds
pub mod Client
pub mod Codec
pub mod Definition
pub mod FileService
pub mod FileStore
pub mod Generate
pub mod Prelude
pub mod Schema
pub mod SeqService
pub mod SequenceFile
pub mod Sequencer
pub mod Server
pub mod Struct
pub mod Tests
pub mod Utf8
pub mod Zlib
