-- ===== src/Lib.antt =====
-- A verification library of dproxy, the HTTPS CONNECT proxy over an authenticated tunnel.
--
-- The local side takes a CONNECT authority, checks it and sends OPEN through the tunnel; the remote
-- side authenticates HELLO, checks the destination again, resolves it over DoH, checks every
-- address and dials. The library models the core of both checks and of the exchange:
--
-- - Base: shared names, lists over the native numbers, and the functions on byte strings that the
--   program takes from the language's library (strings, unicode, bufio).
-- - Net: net/netip's addresses and ParseAddr, and net.SplitHostPort. Base and Net stand for
--   documented library functions, not for code of the repository.
-- - Policy: internal/policy. Decision is decision.go; Hostname is canonicalHostname and
--   validateLabel of allowlist.go; Destination is destination.go (NewDestination, ParseAuthority,
--   parsePort, Authority, DenyReasonOf); Allowlist is the rest of allowlist.go (ParseHostPattern,
--   matches, add, Permits, ParseAllowlist, ReadAllowlist); Addresses is addresses.go; Checker is
--   checker.go. The child modules hold the proofs.
-- - Config: Token is internal/config/token.go. Pin is pin.go and pinset.go, over parameters for
--   SHA-256, hex and base64. Toml is toml.go: the document, with the order of its entries in place
--   of the map, and in Toml/Values what the settings make of the values, over parameters for
--   strconv.Unquote and time.ParseDuration.
-- - Protocol: Message is internal/protocol/messages.go and protocol.go, Codec is codec.go. A reader
--   is the list of the bytes it still has, a written message the list of its bytes.
-- - SecureTransport: Dns is internal/securetransport/dns.go: names, queries and, in Dns/Parse, the
--   parsing of responses. Ech is ech.go and canonicalDNSName of dns.go, over a parameter for
--   strings.ToLower; the map of SvcParams is the list of its entries.
-- - Tunnel: Frames is internal/tunnel/websocket_conn.go: readHeader, nextDataFrame, Read, writeFrame
--   and Write over a reader that gives its bytes and then the end. Handshake is websocket.go:
--   AcceptWebSocket, validateUpgrade and the header of the request, over parameters for SHA-1 and
--   base64.
-- - Relay: Session is handleSession of internal/relay/server.go, as the list of what it does; Dialer
--   is TCPDialer.Dial of dialer.go; Limiter is limiter.go: its linked list is the sequence of its
--   entries from oldest to newest, and its map finds an entry by its source.
-- - LocalProxy: internal/localproxy/server.go: ServeHTTP as the list of what it does, proxyStatus,
--   and in Sessions the tracked sessions and the channel that Shutdown waits for.
-- - Tests: runs on concrete inputs, and the theorems at inputs that meet their hypotheses.
--
-- A byte is a natural number, and a string is the list of its bytes. Parameters stand for what is
-- not code of the repository: hashes and base64, the resolver's lookup, which endpoints accept a
-- connection, in Session what the handshake, the writes and the deadlines do, and in LocalProxy how
-- the opening of the tunnel and the takeover of the connection end. Errors keep what the callers
-- tell apart; their prose, logging and formatting are left out.
--
-- Bounds: an IPv6 text is read with fuel for its eight groups and a decimal port is written with
-- five digits, which a uint16 never exceeds; the scanner of lines keeps bufio's limit of 65536
-- bytes; the codec's lengths are written as the bytes of 16 and 32 bits.
-- decodeName has fuel for 272 turns: one for each of its 16 pointers and of the 255 bytes of the
-- name limit, and one to end.
-- nextDataFrame has fuel for the bytes its reader has, and one turn more; each turn reads two bytes
-- or more.
-- The loops over SvcParams and over the configurations of a list have fuel for each byte; each turn
-- takes four bytes or more.
--
-- Not modelled: sockets, goroutines and timers, the byte copy of an open relay, crypto/tls and
-- certificates, the DoH client, the exchange around the WebSocket handshake, locks and
-- deadlines, writes that fail half way, the settings and their loading, the life cycle of both
-- HTTP servers, logging, file permissions, the command line and the tools. A session's inner
-- handshake is its outcome only, and what it logs is left out.
pub mod Base
pub mod Net
pub mod Policy
pub mod Config
pub mod Protocol
pub mod SecureTransport
pub mod Tunnel
pub mod Relay
pub mod LocalProxy
mod Tests
