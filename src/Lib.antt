-- ===== src/Lib.antt =====
-- A verification of Whatunga, a monitor for network devices, which is written in Go.
--
-- The program reads its devices and notifiers from a file (internal/config) and polls the devices
-- in rounds (cmd/whatunga/main.go). A poller (internal/monitor) asks a RouterOS device over its API
-- (internal/routeros), a firewall over SNMP (internal/snmp), a server over Redfish, or a Windows
-- server over WinRM. Each result goes to the manager of alerts (internal/notify/manager.go), which
-- calls the notifiers (telegram.go, email.go and webhook.go there); each snapshot also goes to a
-- bounded history (internal/store/history.go). A REST API (internal/api) serves the history. The admin panel
-- (internal/webui) shows both, behind a login that rests on sessions in memory and on accounts in a
-- database (internal/db).
--
-- Files and sources:
--   Prelude: shared lists, tests, byte strings, maps, signed and machine integers, Go's bit
--     operators, and what the program uses of strconv (Decimal, Atoi), strings (Split, Trim), time
--     (Duration) and net/http (Paths: the mux, with its cleaning and redirecting of paths).
--   Config: internal/config/config.go. The file itself has the data and the fields (valueAfterColon
--     is value_after_colon, applyNotifierField is apply_notifier_field), Load is Load, whose switch
--     on a line is switch and setting. Print is a printer for the proofs; Values, Lines, Fields,
--     Entries, Newlines and RoundTrip lead to the round trip.
--   Monitor: internal/monitor. The file itself is types.go; RouterOsPoller, SnmpPoller,
--     WindowsPoller and IloPoller are routeros_poller.go, snmp_poller.go, winrm_poller.go and
--     ilo_poller.go, each with its proofs below it; Fields is what they share.
--   RouterOs: internal/routeros. Protocol is protocol.go (writeLength is length_bytes, readWord
--     is read_word, readSentence is read_sentence), Client is client.go (Run is run, readReply is
--     read_reply); Length, Sentence, Reply, Run, Attributes and Login hold the proofs.
--   Snmp: internal/snmp. Ber and Integer are ber.go, Oid is oid.go, Message and Walk are client.go
--     (parseResponse is parse_response, GetNext is get_next, Walk is walk). Lengths, Tlvs,
--     Integer/RoundTrip, and the children of Oid, Message and Walk hold the proofs.
--   Store: internal/store/history.go (Add is add, All is all, Latest is latest).
--   Notify: internal/notify/manager.go (RecordSuccess is record_success, RecordFailure is
--     record_failure, Status is status_of). Senders is telegram.go, email.go and webhook.go.
--   Db: internal/db/db.go.
--   I18n: internal/i18n/i18n.go, with a file for the texts of each language.
--   Webui: internal/webui. The file itself is session.go, Page, Server and Labels are server.go, with
--     a definition for each handler and for each function that the templates use; Sessions, Access
--     and Account hold the proofs.
--   Api: internal/api/server.go (handleDeviceRoute is handle_device_route).
--   Daemon: cmd/whatunga/main.go (pollAllInto is poll_all_into). Commands has the notifiers, status,
--     and watch (pollAllOnce is poll_all_once). Routers makes the RouterOS poller of Monitor a poller
--     of the daemon; Runs, Watch, Service and Pollers hold the proofs.
-- The modules called Examples run the definitions and the theorems at concrete inputs.
--
-- How the code is read. A Go string or byte slice is the list of its bytes; an int is a 64-bit
-- word, with its wrap-around written out where it can happen. A map is an association list with one
-- entry for each key, in the order of the first insertions. A method that holds its lock for its
-- whole body is one step; state is passed on explicitly, and an error is a value. `panic` in Snmp
-- is a Go panic.
--
-- Bounds and fuel. A loop that shortens a number recurses on the accessibility of the order. Reading
-- a sentence or a reply has the number of bytes still to come as fuel, and parseVarbinds the length
-- of its data; each round takes at least one of these bytes, so that `stuck`, which stands for fuel
-- used up, is never returned. Walk has no bound in the source: the number of rounds is an argument,
-- and 10001 are enough where the agent answers in an increasing order. A duration is read with the
-- number of its bytes as fuel, since each number has a unit behind it.
--
-- Parameters. Connections are the bytes that will still arrive and those sent; datagrams, random
-- bytes, salts and readings of the clock are arguments. So are the answers of HTTP, SMTP and
-- WinRM and the decoding of JSON; the pollers of the daemon are any, as is the agent of a walk.
-- The SQL engine and bcrypt are parameters with laws: what an INSERT or UPDATE stores is what a
-- SELECT reads, and a generated hash matches its password. The order in which a range visits a
-- map is one too: a round of polls is given as the list of the pollers in that order. Go's
-- float64 is an argument where the program uses it: the fraction of a duration, the memory of a
-- server, and the tenths of a shown number of bytes. A file of the configuration is its bytes and
-- whether reading it ends by an error; a line of 65536 bytes and more does not fit in the
-- Scanner's buffer.
--
-- Not modelled: the execution of templates, the attributes of cookies, flags, tickers, listeners,
-- timeouts and log lines other than those of a failed poll and of a notifier that failed, the
-- texts of the PowerShell scripts, and the schema of the database. They are I/O or calls of
-- libraries.
pub mod Prelude
pub mod Monitor
pub mod Store
pub mod Notify
pub mod RouterOs
pub mod Snmp
pub mod Db
pub mod I18n
pub mod Webui
pub mod Daemon
pub mod Api
pub mod Config
