-- ===== src/Lib.antt =====
-- Gate Zero: a command gate for a controller, in C. Signed commands come in over sockets; an evaluator decides
-- on each; state machines around it follow heartbeats and threats; attackers are fed decoys and scored; and
-- what happened is logged in hash chains, a Merkle tree and files.
--
-- The parts of the program and the modules that model them (paths from the repository's root):
--
-- Command: src/gate0.h (CommandEnvelope, SignedCommand, SenderRecord, SafetyInterlocks, GateOResult) and
--   src/interlocks.c. encode_envelope and decode_envelope are the packed struct in memory.
-- Core: src/core.c, evaluate_command with one sender record that is enrolled on first contact; Core.Suite:
--   tests/test_gate0.c.
-- Multi: src/core_multiclient.c, evaluate_command_multiclient with a table of senders.
-- Strict: src/gate0_core.c and src/pure_core.c, the evaluator with nodes, authority and blocked types;
--   Strict.Harness: tests/gate0_adversarial.c, which runs 100000 trials against it. Client: the clients
--   (src/gate0_client.c and gate0_client.c); the first speaks to Strict.
-- Executive: src/executive.c, the loop that decodes commands and calls Core, and src/gate0_daemon.c, which
--   serves one client (Executive.OneShot). Executive.Program is main whole, from the set-up of the socket
--   to its end, and the one of evidence/g0_integration_pass/executive.c; Executive.ReadExact is read_exact.
-- Engine: state_engine.c (transition, state_event as dispatch, state_tick). Dark: dark_controller.c, which
--   reads the engine's state after each of its steps.
-- Heartbeat: src/heartbeat.c. Pending: pending_state.c.
-- Attrib: attrib.c. Shadow: shadow.c; Shadow.Suite: shadow_test.c. Daemon: gate0_daemon.c, whose TCP side calls
--   Shadow for clients that misbehave and Core for whole commands.
-- Merkle: src/tree.c. Wal: src/wal.c. Audit: src/audit_log.c. Persist: src/persistence.c.
-- Ring: src/mesh_sync.c, as calls in turn; Ring.Threads: the same with a producer and a consumer that run at the
--   same time, whose accesses to the ring are steps in any order. Telemetry: src/telemetry.c. Mtk: mtk.c
--   and mtk.h, as calls of one thread; Mtk.Readers: a rotation beside other threads that hold hazard slots.
-- Cage: rolling_cage.c. Phantom: phantom.c. Mesh: src/mesh.c.
-- Sockets: src/transport.c and the set-up in gate0_daemon.c, as lists of what took effect on descriptors, which
--   Executive.Program and Trap (src/main.c) use too.
-- Consequence: consequence_state.c and gate0_signer.c, with Text, what they use of fgets and strtoull.
-- Tarpit: tarpit_sim.c. Chain: gate0_chain.c. Recover: wal_test.c and wal_recover.c. Aead: gate0_crypto.c.
-- Legacy: the gate of evidence/g0_integration_pass (core.c, gate0.h).
-- Adversarial: gate0_adversarial.c, a gate of its own with nonces; Adversarial.Random: its random numbers and its
--   tests as far as the file goes.
--
-- A module of a part holds its state as a record and its operations under the names of the C functions; its
-- children hold proofs, and its Examples child the tests. Base holds what the parts share: Boolean tests and
-- lists over the native numbers, words and their bytes, exclusive or, and hashes that collide.
--
-- Conventions. Pointers that a function changes are passed in and returned. Unsigned arithmetic wraps, written
-- out as a remainder. A clock reading is an argument. Static arrays are lists, or functions of the index
-- where all of the array is always there. Loops are recursions on what is left to read, or on a number of rounds
-- that their definitions fix: the eight levels of the tree, the records of a log, the length of the table that
-- eviction goes through, one more than the bytes of a file for its records; none of these can run out before
-- the C loop ends. The signatures and the hashes of libsodium are parameters, with no hypothesis but, where
-- a theorem says so, that a hash has 32 bytes, that what is signed with a key pair verifies under it, and that a
-- signature that was changed does not; so are the outcomes of open and write.
--
-- Floating-point numbers are a parameter, a record of a type and its operations. A system call is modelled by its
-- outcome, an argument, and by its effect on descriptors and files; a program that serves for ever is a function of
-- the list of what its accept calls give, and its exit code is none while it runs. read_exact is a recursion on the
-- results of its read calls, and is shown to return once as many of them as the bytes asked for are not interrupted.
--
-- Not modelled: printing, signals, several threads at once but for the message ring and the rotating key (elsewhere
-- atomics are plain variables); programs that print sizes, and the test in gate0_test.c; the functions that
-- gate0_crypto.h declares and no file defines.
pub mod Base
pub mod Client
pub mod Command
pub mod Core
pub mod Engine
pub mod Dark
pub mod Heartbeat
pub mod Pending
pub mod Multi
pub mod Strict
pub mod Attrib
pub mod Shadow
pub mod Daemon
pub mod Merkle
pub mod Wal
pub mod Ring
pub mod Audit
pub mod Persist
pub mod Executive
pub mod Mtk
pub mod Telemetry
pub mod Adversarial
pub mod Cage
pub mod Phantom
pub mod Mesh
pub mod Consequence
pub mod Tarpit
pub mod Sockets
pub mod Trap
pub mod Chain
pub mod Recover
pub mod Aead
pub mod Legacy
pub mod Text
