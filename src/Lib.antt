-- ===== src/Lib.antt =====
-- mews: the Hub of a personal agent installation. A Hub keeps Sessions, Turns and effects in one
-- SQLite database, records what happens in a journal, and delivers client events to consumers; an
-- agent loop sends the conversation to a model provider within a budget; a relay forwards encrypted
-- frames between the peers of an installation.
--
-- The parts and their files:
--   Protocol          crates/mews-protocol/src/domain: the shared vocabulary.
--     Values          ids.rs; opaque JSON values and times.
--     Messages, Turns messages.rs, turns.rs, sessions.rs, agents.rs, installation.rs;
--                     Messages/History has portable_history, Messages/Input
--                     validate_turn_input.
--     Events          events.rs: Journal has the journal's types, Names the stored names of its
--                     enumerations, Validate the checks of an entry, Client the client events.
--   Store             crates/mews-store/src.
--     Feed            delivery.rs: subscribe_session, unsubscribe_session, delete_consumer,
--                     client_events, acknowledge_events and prune_client_events over the tables
--                     client_events, client_consumers and client_subscriptions. Feed/Steps makes them
--                     the steps of a machine whose runs are lists of calls.
--     Tables, Tx      schema.rs: the other tables as lists of rows; a transaction as a function of
--                     them that fails or returns a value and the tables it leaves.
--     Journal         events.rs: validate_append, append_journal_entries_in, insert_entry,
--                     record_journal_entry and the receipts of commands. Journal/Check has the
--                     validation, Journal/Record the entries made inside other transactions.
--     Session         sessions.rs, turns.rs, the inserts of delivery.rs, and recover_interrupted_work of
--                     schema.rs. The rows: Entries, Signals, Turns, Effects, Bindings, Transcript.
--                     Apply is apply_session_journal_entry, Record the events made and applied in one
--                     go. The operations of a Store: Sessions, Admission (accept_turn_idempotent),
--                     Actions (effects, transcript appends, observations), Acp (bindings), Finish
--                     (finish_turn_with_stop_reason) and Recover. Calls has them all as one data
--                     type, and runs a list of them. Steps shows that each of them is built of a few
--                     changes of rows; Active, Progress, Numbers, Finish/Laws and Recover/Laws are
--                     about Turns, effects, entries, the end of a Turn and the recovery, and
--                     Admission/Laws and Actions/Laws about calls that are repeated. Pages has
--                     page_entries and session_entries_page.
--   Agent             crates/mews-agent/src: Model has the types of model.rs and capabilities.rs,
--                     Budget the file context_budget.rs, Calls the check of tool-call
--                     IDs of loop.rs.
--   Relay             crates/mews-relay/src/lib.rs: Frame has identities, frames and their limits,
--                     Admission the signed admissions, Router the functions of RelayRouter and
--                     RelayConnection, Delivery the events of a relay's life.
--   Prelude           helpers on tests, options and lists.
-- Files called Examples apply the theorems at concrete data.
--
-- How the parts interact: a command's entries are appended to the journal in the transaction that
-- changes the state, which also inserts the client events; consumers poll the feed and acknowledge a
-- checkpoint; what all have acknowledged is pruned.
--
-- How the code is read:
--   - An ID is a prefix, told by its kind, and a text, told by a number; a text that is no ID is kept.
--   - Times are in nanoseconds. The comparison of julianday values in the expiry of consumers rounds
--     to milliseconds, which is not modelled.
--   - A JSON value is told by its text. Error messages are constructors.
--   - A table is the list of its rows in the order of insertion, which for tables with an
--     AUTOINCREMENT key is the order of the key, and the watermark of that key is a field. UNIQUE
--     constraints are tests before the insertion; a failed call leaves the tables as they were, as its
--     transaction is rolled back. Errors of the database itself (disk, locks) do not occur.
--   - Drawn UUIDs, the readings of the clock, and the sizes of serialized values are parameters:
--     functions of the number of the draw or of the value, `none` for a value that cannot be
--     serialized. The size of a message is positive in the theorem on the budget, which holds of JSON.
--   - Rust's usize arithmetic in the budget saturates at 2^64 - 1 as written. Sequence numbers and
--     positions are unbounded: SQLite's 2^63 - 1 is out of reach.
--   - A call of a Store that fails is rolled back with all it did, and the state is as before, the draws
--     of IDs and the clock included. The hashes of requests and contexts, the tests of paths, the JSON
--     of receipts and observations and the texts of IDs are parameters. Statuses, requests and tool
--     results never fail to serialize: their types have no such values.
--   - The relay's connections are told by their place in a list that only grows, and each holds its
--     channel; a route holds the place. Channels are tokio's, by the interface Mpsc: what waits in a
--     channel is what was sent less what was received. Whether an identity is enrolled
--     at a time and whether a signature verifies are parameters; Relay/Admission has the authenticator
--     of signed admissions. The router lives as long as its connections.
--   - Loops are recursion on the list they walk, so no fuel is needed.
--
-- Not modelled: the active branch of a Session, its compaction, and the lists of
-- Sessions, Turns and messages (sessions.rs); agents.rs, hosts.rs and installation.rs of the Store;
-- the rest of the agent loop; the relay's challenges and its network; the ACP bridge, the provider
-- clients, channels, hosts, the client, the terminal interface and the command line, which are mostly
-- input and output.
pub mod Prelude
pub mod Protocol
pub mod Agent
pub mod Store
pub mod Relay
