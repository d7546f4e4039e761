-- ===== src/Lib.antt =====
-- A model of kiss-tnc-bridge, a daemon that shares one KISS TNC (a radio's modem) between several
-- packet radio applications, with the theorems that make it correct.
--
-- The parts, from the wire up. A byte stream carries KISS frames between FEND delimiters. A reader
-- puts what it reads into a reassembly buffer and takes whole frames out of it; a writer puts the
-- delimiters around a frame. A bridge task has one link to a TNC, with a reader task and a writer
-- task, and any number of app sessions, each with a bounded queue. Frames from apps pass a filter
-- and go to the TNC only; frames from the TNC go to every app. The bridge connects and disconnects
-- the link as its settings, its sessions and an operator's commands ask, and retries with pauses.
-- Before that the TNC is put into KISS mode, by commands and replies between which frames may come;
-- they are kept for the bridge.
-- A TCP server takes clients as its allow list and its limit let it, each of them an app session.
-- Each frame is counted for an event hub, which tells subscribers of the bytes, some at a time.
-- An announcer publishes the servers that listen by DNS-SD, one group of services for each bridge,
-- and takes another name for a bridge when its name is taken on the network.
-- The configuration is a list of files. Resolving turns them into the effective config: values are
-- parsed, defaults filled in, references to adapters and TNCs followed. Each fault is a problem, and
-- a port that has one is left out or marked. Validation then compares names, addresses and devices
-- across the whole config.
-- When the configuration changes, a planner compares the old one with the new one, bridge by bridge
-- and port by port, and says what would be restarted and which sessions would be disconnected.
--
-- Files and code:
--   Prelude, Prelude/*        shared lemmas on lists, maps, sorting, Booleans and texts
--   Kiss/Frame                src/kiss/frame.rs: `KissFrame::decode`, `encode`
--   Kiss/Buffer               src/kiss/buffer.rs: `KissReassemblyBuffer`
--   Kiss/Stream               src/port/stream.rs: `KissReader`, `KissWriter::write_frame`; and
--                             `reader_task` of src/bridge/mod.rs
--   Config/Settings, File     src/config/model.rs: the enumerations of the settings, and a file
--   Config/Addresses          src/config/resolve.rs: adapters, `Listen`
--   Config/Model              src/config/resolve.rs: the effective config
--   Config/Networks           src/port/listen.rs: `allowed`; networks are a parameter
--   Config/Ports              src/config/resolve.rs: the ports and the TNC of a bridge
--   Config/Problem            src/config/mod.rs: `Problem`, by what it says
--   Config/Text               functions on texts of the standard library that resolve.rs calls
--   Config/Values             src/config/resolve.rs: the parsing of values
--   Config/Resolve, below it Tncs and Ports
--                             src/config/resolve.rs: `resolve`
--   Config/Validate, below it Duplicates, Clashes and Warnings
--                             src/config/validate.rs: `validate` and its rules
--   Reconcile/Report          src/reconcile.rs: `Plan`, its disruptions
--   Reconcile/Ports           src/reconcile.rs: `Runtime`, `newest_beyond`
--   Reconcile/Compare         src/reconcile.rs: `compare_port`
--   Reconcile/Bridges         src/reconcile.rs: `compare_bridge`, `stop_bridge`, `plan`
--   Port/Server               src/port/tcp_server.rs: `TcpServerPort::run`, `Rejections`
--   Port/Scan, Radio, Init    src/port/tnc_init.rs: `Radio::push`, its commands, `init`
--   Port/Prefixed             src/port/tnc_init.rs: `Prefixed`
--   Control/Events            src/control/events.rs: `coalesce`
--   Control/Times             src/control/protocol.rs: `rfc3339`
--   Config/State              src/config/state.rs: `State`, `StateStore::update`
--   Announce/Service          src/announce.rs: `Service`, `distinct`
--   Announce/Names            src/announce.rs: `next_name`, `effective_public_name`
--   Announce/Backend          src/announce.rs: `Cmd`, `Event`, `Backend`, the state of `Announcer`;
--                             and src/supervisor.rs: `public_name_changed`, as far as the announcer
--                             sees it
--   Announce/Announcer        src/announce.rs: the operations of `Announcer`
--   Ax25                      src/ax25.rs: `parse`, `address`, `printable`
--   Ax25/Decode               src/ax25.rs: `decode`, `hex`
--   Bridge/Policy             src/bridge/policy.rs: `filter_app_frame`
--   Bridge/Channel            the bounded queues of tokio, a parameter with its laws
--   Bridge/State              src/bridge/mod.rs: the types, `Run` as the record of the state
--   Bridge/Link               src/bridge/mod.rs: `set_state`, `start_connect`, `start_wait`,
--                             `start_backoff`, `disconnect`, `close`, `wants_link`
--   Bridge/Apps               `on_app`, `uplink`, `queue_pending`
--   Bridge/Commands           `on_cmd`, `apply_settings`
--   Bridge/Tnc                `on_tnc`, `on_link`, the idle timer
--   Bridge/Writer             `writer_task`
--   Bridge/Snapshot           `Snapshot`
--   Bridge/Run                `Bridge::run`, `main`: the select loop as a step relation
-- The other files below these have proofs: in Bridge, Accounts, Waiting, Filtered, Hold,
-- Broadcast, Backoff, Late, Teardown and Going, Writer/Written and Writer/Teardown; in Port,
-- Server/Admission and Refusals, Scan/Apart and Items, Radio/Kept, Init/Heard and
-- Prefixed/Handed; in Control, Events/Totals, Times/Calendar and Dates; in Announce,
-- Service/Apart, Announcer/Given, Groups, Kept, Runs and Synced; in Prelude, Maps/Counting and Keys; in
-- Reconcile, Quiet, Noop, Complete, Unchanged, Newest and Reload; in Config, Conflicts and Macs,
-- Resolve/Proper, References and Sound, Validate/Distinct, Structure, Compatible and Valid; in
-- Kiss, Frame/Stuffing, Bounds and RoundTrip, Buffer/Receiver, Refines and Chunks, and
-- Stream/Delivery; in Ax25, Limit, Station, Wire, Rounds, Printable and Summary. The files Tests have runs on
-- small inputs.
--
-- Conventions. A handler is a function from the state before to the state after; the current time
-- is an argument of it, in milliseconds. Counters wrap as in a release build, at 2 ^ 64 or 2 ^
-- 32. A hash map of sessions is an association list, so that an order of its entries is fixed.
-- The hub for events is what it was told; the coalescing of activity stands on its own. A derived
-- equality test is a decision of the equality. A `BTreeMap` is a list of entries in the order of
-- their keys. A read of a stream is a value: bytes, an error, or the end. A function that pushes
-- problems onto a list it is given returns them with its value. A problem has what it says and
-- the values it shows, not its text, its line or its file; an adapter, a TNC and a bridge keep
-- the kind of file that they come from. The standard library's parsers of socket addresses, the
-- networks of ipnet, the questions put to the host and the answers of a DNS-SD backend are
-- parameters.
--
-- Fuel: `reader_task` takes a bound on its rounds; one round more than there are frames is enough.
-- The digits of a number `n` are shown with `n + 1` rounds, and it has fewer digits than that.
-- `sync_rounds` takes the number of rounds, which the code fixes at 20.
-- `read_prefix` takes a bound on the reads; as many as the prefix has bytes are enough.
-- The loop of `parse` in Ax25 has eleven rounds: the code leaves it in the eleventh at the latest.
--
-- Not modelled: logging, except the warnings of refused connections; the tasks' handles and their
-- abortion, the shutdown of a bridge; and the rest of the program: sockets, Bluetooth and serial
-- devices, the reading and writing of the configuration's files, the calls of Avahi by D-Bus, the
-- supervisor but for the names that it gives bridges, the control API but for its times, and its clients; of the event hub, all but the
-- coalescing.

pub mod Prelude
pub mod Kiss
pub mod Config
pub mod Bridge
pub mod Port
pub mod Reconcile
pub mod Control
pub mod Announce
pub mod Ax25
