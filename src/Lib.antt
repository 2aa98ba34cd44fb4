-- ===== src/Lib.antt =====
-- A verification library for the privileged parts of sower's command line program and for its guest
-- agent.
--
-- The activator (src/commands/activator) is a root process that systemd starts for each connection.
-- It reads one request. A network request provisions, revokes or releases a point-to-point network
-- for one execution of a garden; other requests activate a NixOS or home-manager profile, a set of
-- services, or a reboot.
--
-- Policy models network_policy.rs: Policy/Address the texts of IPv4 addresses, Policy/Subnet
-- `Subnet::from_str`, `contains` and `canonical`, and Policy/Defs `Policy::validate`, `slots` and
-- `addresses`. Addresses are numbers below 2 ^ 32, with the wrap-around of `u32` written out.
--
-- Network models network.rs and network_host.rs. Network/Lease has the lease and its checks,
-- Network/Files the checks of paths and locks, Network/Peer the identification of the caller,
-- Network/Store the journal with `load`, `save` and `reserve`, Network/Operations `provision`,
-- `revoke`, `release`, `operate` and `cleanup`, Network/Requests the entry points, Network/Script the firewall scripts
-- and the checks of routes, and Network/Host the sequences of commands. Network/Os is the world: the
-- journal, its left-over temporary files, the lease under way (the source's `&mut Lease`), and the list of
-- all that was asked. Each answer of the kernel or of a program comes from an `Env`, may depend on
-- all that was asked before, and may be a failure; so a theorem for every `Env` covers failures at
-- every point. An action that fails keeps what it did before. JSON parsers and the digest are
-- fields of `Env` too. A journal file that is replaced by a rename is replaced at once. Operations
-- run one after another: no other process changes the journal between the two loads of `operate`, so the
-- second load, which the source makes under the lock, finds what the first one found. Paths are lists of components
-- below the root, so that `secure_path` need not ask whether a path is absolute. The exit status and the encoding of a
-- program's output are judged in the `Env`: `command` and `nft` of network_host.rs answer with the output of a
-- success or with a failure.
--
-- Network/Logic and Network/Passive have the rules for what actions keep; Network/Ownership,
-- Network/Reserve, Network/Disjoint, Network/Provision, Network/Revoke, Network/Release,
-- Network/Order, Network/Isolation, Network/Names, Network/Routes,
-- Network/Cgroup, Network/Identity and Network/Asking have the proofs. Tests runs the models at concrete inputs.
--
-- Protocol models protocol.rs. Activate models handler.rs, activate.rs and services.rs: Activate/Platform
-- is the world of activation, Activate/Run `activate::run`, Activate/Hash `content_hash`,
-- Activate/Services `services::run`, and Activate/Handler `run_with_network`, which composes them
-- with the network operations. Activate/Current and Activate/Answers have the proofs.
--
-- Deploy models src/commands/deploy/sudo.rs. Deploy/Target has the targets and the arguments of ssh,
-- Deploy/Quote `shell_quote` and beside it, as its specification, a reader of shell words,
-- Deploy/Remote `download_base` and `remote_command`, and Deploy/Decoder `Decoder` and `stream`, with
-- proofs in Deploy/Frames, Deploy/Accept, Deploy/Completion and Deploy/Scan. `reqwest::Url` and the JSON parser are parameters.
--
-- Guest models guest/src/lib.rs, the agent that runs one command per connection. Guest/Io has the
-- descriptors: what a read, a write, `waitpid`, `kill` or a listing of /proc will answer is a list, so
-- a theorem for every list covers any order of data, refusals and failures. Guest/Action has actions
-- on a state and the rules for what they keep. Guest/Frame models `frame`, `metadata` and `request`,
-- Guest/Control `Control::read`, Guest/Output `Output`, Guest/Tree `CommandTree` with `wait_child` and
-- `kill_child`, Guest/Run `run`, and Guest/Serve `serve_connection`. The kernel's record logs what happened to processes: listings with what they held, signals, exits,
-- new processes, and each `waitpid` that answered ECHILD with its argument. FAILED is a field of that
-- record, and the runtime keeps the `CommandTree` of every command as it was left. serde_json and
-- `ExitStatus` are the interface `Json`. A panic of `unwrap` is an error. Guest/Sweep,
-- Guest/Cleanup, Guest/Reported, Guest/Kills, Guest/Ending and Guest/Deadline have the proofs about
-- cleaning up, Guest/Clean and Guest/Reach those about connections, Guest/Control/Refines, Chunks and
-- Cancel those about cancel requests, Guest/Output/Buffered, Guest/Output/Filled and Guest/Run/Relays
-- those about the output.
--
-- Garden models the client of the garden's admin socket: Garden/Protocol the types and the limits of
-- src/commands/garden/protocol.rs, Garden/Client `read_line_capped`, `stream_replies` and what they
-- print, of src/commands/garden/client.rs, and Garden/Config `resolve_socket` of
-- src/commands/garden/config.rs; Garden/Line and Garden/Replies have the proofs.
--
-- The loops that run over a list are structural recursion. Fuel is used in these places. In the decimal
-- printer of Prelude/Numbers a number is its own fuel: it has at most that many digits beyond
-- the first. In `Control::read` it is one more than the bytes and errnos that can arrive, and each turn takes
-- one. In `cleanup` it is the number of turns of the reaping loop, each of which reads the clock; Guest/Deadline says how
-- many are enough. In `Decoder::push` it is one more than the bytes that are pending; Deploy/Scan says
-- that this is enough. In `stream_replies` it is one more than the bytes and failures to come; Garden/Replies
-- says that this is enough. `run` of the guest agent goes on for as long as the command does, so its model takes a
-- number of turns and says when it is running still.
--
-- Not modelled: JSON encoding, the threads that pump a child's output (a command answers with its lines in the
-- order of their arrival), the walk of a directory tree in `warn_collisions`, tracing and its tee to
-- the client, system calls behind locks and sockets, and the other parts of the program
-- (src/commands/deploy.rs, the ssh process of `run` in deploy/sudo.rs, the connection of
-- garden, seed, client and build.rs).
mod Prelude
pub mod Policy
pub mod Protocol
pub mod Network
pub mod Activate
pub mod Deploy
pub mod Guest
pub mod Garden
pub mod Tests
