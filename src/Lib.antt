-- ===== src/Lib.antt =====
-- A verification library for socat: the syntax of its addresses (internal/parse), the transport core
-- of its DTLS 1.3 implementation (internal/dtls13) and the relay between two streams
-- (internal/relay).
--
-- socat parses two addresses from its command line, opens them and relays data between them. The relay copies each direction in its
-- own worker, counts and dumps the data, and combines what the two workers return. A DTLS address
-- splits datagrams into records, decrypts them, drops replays, reassembles handshake messages from
-- fragments, keeps outgoing flights until they are acknowledged, and searches for the datagram size
-- that the path carries.
--
-- Prelude: what the modules share. Lists and bytes are measured by native numbers (Prelude/Lists),
-- Prelude/Bits relates the machine operations to single bits, Prelude/Bitset is the bit set that the
-- reassembler and the flights keep, Prelude/Assoc are Go's maps.
--
-- Dtls/Error: the error values and Go's pair of a value and an error.
-- Dtls/Wire: internal/dtls13/wire.go, the reader as a state monad, the writer as state passing.
-- Dtls/Budget: internal/dtls13/budget.go.
-- Dtls/Fragment: the messages and fragments of internal/dtls13/fragment.go.
-- Dtls/Reassembler: its reassembler, one function per method; `insert` is split where the Go
-- function creates a pending message (insert_new) and where it fills one (fill, mark_bytes).
-- Dtls/Replay: reconstructSequence and replayWindow of internal/dtls13/record.go.
-- Dtls/Record: the layouts of internal/dtls13/record.go. Dtls/Protection: its protected records and
-- internal/dtls13/protection.go, the AEAD and the header cipher being functions that the keys carry.
-- Dtls/Flight, Dtls/Flight/Send: internal/dtls13/flight.go; the callback that sends is a parameter.
-- Dtls/MtuSearch: internal/dtls13/pmtu_search.go.
-- Dtls/Pmtu: the sizes of internal/dtls13/pmtu.go, on the working size and the ceiling of a session.
-- Dtls/Ack, Dtls/Rtt, Dtls/ConnectionId: internal/dtls13/ack.go, rtt.go and the lists of
-- connection_id.go; the timers are functions of the round-trip time.
-- Dtls/Sending: how internal/dtls13/session.go makes the packet of a record. Dtls/Path,
-- Dtls/Path/Receive: internal/dtls13/path.go. Addresses and times are numbers, random bytes are an
-- argument of each event, and the transport answers by a function of what was handed to it.
-- Dtls/Discovery, Dtls/Discovery/Probe: internal/dtls13/pmtu_discover.go and pmtu_probe.go, with
-- what they read of the rest of the session as a record.
-- Relay/Dump, Relay/Dump/Chunks: internal/relay/dump.go; the writer is a parameter.
-- Relay/Outcome, Relay/Transfer, Relay/Copy: the results of the directions, the loop of Transfer and
-- writeBlock of internal/relay/relay.go; what the loop receives is a list of events. Relay/Buffered:
-- its copyBuffered, the streams, dumps and the poll being functions of the state of the world. The
-- rounds of writeBlock are counted by the bytes left and by the patience of the destination, a bound
-- on the retries in a row that write nothing; byte counters are uint64.
-- OptionMeta: the maps and lookups of internal/optionmeta/catalog.go over any list of options.
-- AddrConfig/Integer: internal/addrconfig/integer.go; strconv.ParseUint is a parameter, which the
-- grammar of ports takes to keep to the bits it is given.
-- Parse/Scanner: internal/parse/scanner.go; the unread bytes are an argument beside the record.
-- Parse/Scanner/TopLevel describes the top level without the scanner, by a grammar of quotes and
-- escapes and the depth of each kind of bracket; Parse/Trim/White does so for white space.
-- Parse/Trim, Parse/Escapes, Parse/Unquote: trimUnescapedSpace, expandSlashEscapes and unquote of
-- internal/parse/parse.go. Parse/Path: internal/parse/path.go. Parse/Options, Parse/Address: the rest
-- of parse.go, with the types of spec.go; a loop that cuts pieces keeps the piece that it reads.
-- Parse/Print: how any address can be written, which the parser is held against.
-- Tests: the theorems at concrete inputs.
--
-- Numbers are natural numbers; a uint64 keeps its bound written out. Lengths and sizes are never
-- negative in the model, so guards against negative arguments have no counterpart. Fuel: `add` has
-- the length of its input, since each fragment has a header; the rows and the chunks of a dump have
-- the number of bytes, since each takes at least one; `writeBlock` has the number of bytes under a
-- hypothesis on the destination, as a destination can ask for a retry forever; a flight's message
-- has its length and one round more; the connection ids have the number of bytes. The loops of the
-- parser are by recursion on the unread bytes; its trimming has the length of the string, since each
-- round takes a byte. copyBuffered
-- reads as long as its source does, so no fuel is enough for it.
--
-- Not modelled: the handshake state machine, keys and certificates, sockets, polling, zero copy,
-- timers, the tables of options and what they mean, the address types, the command line.
pub mod Prelude
pub mod Dtls
pub mod Relay
pub mod OptionMeta
pub mod AddrConfig
pub mod Parse
pub mod Tests
