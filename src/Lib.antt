-- ===== src/Lib.antt =====
-- Verification of coding_agent_mesh_presence, a library that makes agents on a LAN known to each
-- other over mDNS. A node announces itself (agent id, role, project, branch, status, capabilities,
-- metadata) as a DNS-SD service, listens for the announcements of others, and keeps a registry of who
-- is there; the registry tells subscribers of every join, update and leave.
--
-- The parts and their files:
--   Error          src/error.rs        the errors, and results that carry them
--   Types          src/types.rs        keys, statuses, normalisation, capabilities (Keys, Status,
--                                      Normalize, Capabilities), announcements and their setters
--                                      (Announcement), the registry's snapshots (Info), TXT properties
--                                      (Txt) and signatures (Auth)
--   Events         src/events.rs       the events a subscriber receives
--   Registry       src/registry.rs     the agents, with every operation; Api and Queries are the
--                                      public names on top; the other children hold the laws
--   Config         src/config.rs       the configuration; Config.Secret is `SharedSecretAuth`
--   Builder        src/builder.rs      the builder of a configuration
--   Broadcaster    src/broadcaster.rs  announcing, over the mDNS daemon
--   Listener       src/listener.rs     the loop from browse events to registry updates
--   Mesh           src/mesh.rs         the node: start (Mesh), its calls and the rounds of its tasks
--                                      (Mesh.Runtime), all their interleavings (Mesh.Steps), and the
--                                      calls that only read it (Mesh.Queries)
--   Camp           src/bin/camp.rs     the command-line tool: the filters (Camp), the options and the
--                                      config file (Camp.Options), the parsers of their values
--                                      (Camp.Parse), slugs (Camp.Slug), `init` (Camp.Init) and its block
--                                      in AGENTS.md (Camp.Guidance), the builders of announced agents and
--                                      of observers (Camp.Settings), the files (Camp.Files), what is
--                                      printed and served (Camp.Records), and the event stream and the
--                                      watch loop (Camp.Stream)
--   Prelude        what the crate uses of Rust's library: text, sorted and hashed maps, sorting
--   Tests          runs on small inputs, and the theorems at concrete arguments
--
-- How they correspond. A struct is a record with its fields' names and an enum a data type; a function
-- has the source's name. `&mut self` is an argument and a result. An operation of the registry holds
-- its lock from the first read to the last write, so it is one step on the state; what has gone into
-- the broadcast channel is the list `sent`, without the capacity and the lagging of receivers, which
-- are the channel's. A `HashMap` is an association list in some order, and a `BTreeMap` one that is
-- sorted by key. Instants and durations are nanoseconds as numbers, and a call that reads the clock
-- takes the time as an argument; a difference of instants stops at 0, as in the source.
-- `Mesh.Steps` lets any task go on after any other at each release of a lock, and between a call of
-- the daemon and the lock behind it, which is more than the scheduler and the timers allow. When
-- `from_config` stores the local agent, the listener runs already; the inputs that it has handled by
-- then are an argument.
--
-- The tool's results are `Outcome`s, whose error is its text. What it does to files is a list of
-- operations on a disk, a function from paths to texts; a write is one operation for each character,
-- and an I/O error or a crash ends the list after any of them. A path is the components in front of
-- its file name, and the file name. `watch` is the list of its effects. What a receiver of events gets
-- is an argument, up to its first error, at which the source ends both loops; for `watch` it depends on
-- the number of events that were sent before the receiver subscribed. What a run of the exec hook does
-- to the disk is an argument, too: any function of its command, its input and the disk.
--
-- Of other crates: the TXT property type (`TxtApi`), HMAC-SHA256 with the base64 encoder (`MacApi`),
-- the mDNS daemon (`MdnsApi`), the regex compiler (`RegexApi`), generated ids and the default mDNS
-- port are parameters. What is assumed of them: a TXT property made of a pair has its key and value,
-- and an encoded digest is not blank. The tool's TOML codec (`TomlApi`) reads back what it printed,
-- with a newline behind it, for a config whose metadata is a sorted map; its JSON printer (`JsonApi`),
-- the parser and the printer of IP addresses, the exec hook, the environment and the outputs of `git`
-- and `hostname` are parameters of which nothing is assumed, but that a theorem about the state file
-- asks of the hook to leave that file alone.
--
-- Bounds. A port is printed in six rounds of division by ten, enough for its sixteen bits. All other
-- recursion is structural.
--
-- Not modelled: of src/bin/camp.rs the argument parser, the server that calls the handlers, the
-- completions, the banner and the running of processes, which are calls of other crates and of the
-- system; the texts of the errors of the library, logging, the spawning of tasks, and src/lib.rs, which
-- only passes names on.
pub mod Prelude
pub mod Error
pub mod Types
pub mod Events
pub mod Registry
pub mod Config
pub mod Builder
pub mod Broadcaster
pub mod Listener
pub mod Mesh
pub mod Camp
pub mod Tests
