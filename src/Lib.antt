-- ===== src/Lib.antt =====
-- Verification of lotun, which exposes local services through a public server.
--
-- A client (internal/client, cmd/lotun) keeps one control connection to the server and registers
-- tunnels on it. The server (internal/server) routes public HTTP requests by the Host header and
-- public TCP connections by port to the sessions of the clients, and stores the claimed subdomains
-- in a file (internal/store). Both ends speak framed JSON messages (internal/protocol) and copy the
-- bytes of a tunnel in both directions (internal/netutil).
--
-- Files and the code that they model:
--   Base      Go's strings as lists of bytes, int as a signed integer, strconv.Itoa and Atoi,
--             sort.Strings, and lemmas that the components share.
--   Dict      Go maps as association lists: a lookup finds the first entry of a key.
--   Json      JSON values, and what the program relies on of their text (encoding/json).
--   Names     internal/names/names.go.
--   Protocol  internal/protocol/protocol.go: Frame is readFrame and writeFrame, Encode and Decode are
--             what json.Marshal and json.Unmarshal do with each struct, Codec is WriteMessage,
--             ReadMessage and the stream headers.
--   Store     internal/store/store.go: FileStore is the map (`none` is a nil map), Disk the file, and
--             Faults the errors that the system calls of one save give.
--   Registry  internal/server/registry.go: the two maps and the range of ports; Registry/Tables is the
--             same without the order of the entries, a quotient.
--   Http      internal/server/http.go, the checks of internal/server/server.go that guard public
--             traffic, and the test of acceptTCP in internal/server/tcp.go.
--   Server    internal/server/server.go and startTCPTunnel of internal/server/tcp.go: the handlers;
--             Server/Control is authenticate, serveControl and handleControlConn, and Server/Peer the
--             same connection message by message.
--   Running   Run, listenControl and acceptControl of internal/server/server.go.
--   Splice    internal/netutil/splice.go.
--   DataPath  acceptTCP and spliceTCP of internal/server/tcp.go, openDataStream of internal/server/http.go
--             and handleStream of internal/client/client.go: the bytes of one connection, from the
--             visitor to the local service and back.
--   Config    internal/config/config.go; ClientConfig and TunnelConfig stand in Cli.
--   Lotund    cmd/lotund/main.go.
--   Client    internal/client/client.go: the handshake, the requests and their replies, and the address
--             that a data stream is forwarded to; Client/Serving is Serve, and
--             Client/Handles what connectOverConn and Close leave open.
--   Cli       cmd/lotun/commands.go: the checks of ports, flags and the tunnels list, the requests of
--             `lotun http` and `lotun tcp`, and the pauses of `lotun serve`; Cli/Login is `lotun login`,
--             Cli/Remote the commands that talk to a server, Cli/Table what `lotun status` prints.
--   Examples  the theorems on concrete states, with a text for JSON that has the law asked of it.
--
-- State is passed explicitly. A method that holds a mutex is one step; Server/Connections has the
-- steps that sessions take in any order. Where goroutines run beside each other (Run, Splice, Serve),
-- a run is a list of turns, in any order, and a turn is one call that may wait or fail. What a call
-- draws from its surroundings (random bytes, the errors of the system, a listener) is an argument.
-- Of a stream of yamux DataPath takes what yamux documents: bytes that are written at one end arrive at
-- the other in order, at any time and in any pieces, and the close after the last of them.
-- The client talks to a Remote, an interface of which Server/Peer is the server's side.
--
-- Loops: the port scan runs for portMax - portMin + 1 rounds, which is what its bounds allow, and
-- freeName for its 1000 tries, and Itoa of n for n + 1 rounds, each of which takes a digit off; a
-- goroutine that waits is one that gets another turn; all else is structural recursion. Go's int is a
-- signed integer without bounds; int64 bounds are hypotheses where decoding checks them.
--
-- Parameters: the text of JSON (a record of a printer, a parser and the law that a value whose
-- strings are valid is read back), viper and yaml (a record of
-- ReadInConfig, Unmarshal and Marshal, which may depend on the path), and
-- the numbers that random sources yield. A fresh tunnel ID is a hypothesis (eight random bytes).
--
-- Not modelled: sockets, TLS, yamux, cobra, signals, and the version command. The accesses of Run's
-- goroutines to the same memory are one turn each. A panic of the store is an outcome without a
-- reply, though in Go it ends the program. A repeated key whose value is a list is read as its last
-- list. The counter of the port scan cannot overflow, which it could at a portMax of 2^63 - 1. The
-- widths of the status table count bytes. The directory that SaveClient makes is not modelled.
pub mod Base
pub mod Dict
pub mod Json
pub mod Names
pub mod Protocol
pub mod Store
pub mod Registry
pub mod Http
pub mod Server
pub mod Config
pub mod Running
pub mod Lotund
pub mod DataPath
pub mod Splice
pub mod Client
pub mod Cli
pub mod Examples
