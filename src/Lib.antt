-- ===== src/Lib.antt =====
-- ISCP, the secure device session protocol (Go module github.com/Infinimesh-ai/ISCP): the protocol
-- packages under pkg/iscp, the building blocks of its servers under pkg/server, and the relay under
-- services/relay-reference.
--
-- A device has an identity key and proves that it holds it (identity). A trust root signs grants that
-- let one device speak to another (trust). Two devices exchange signed hello frames, agree on keys and
-- confirm them with ready frames (session), then seal payloads under those keys (envelope); control
-- frames reopen and close a session. New devices join by pairing tickets and a provisioning bundle
-- (provisioning), and get lost relay credentials back sealed to a fresh key (recovery). The relay
-- registers devices by proofs of possession and tickets, gives them access and refresh credentials,
-- takes envelopes and delivers them over a connection; it limits request rates, remembers used proof
-- nonces, and keeps messages in a queue in memory or in a repository. The trust root rotates its
-- signing keys. Everything that is signed goes through canonical JSON (canonical) and
-- the crypto package.
--
-- Files and the code that they model:
--   Errors               pkg/iscp/errors/errors.go
--   Crypto               pkg/iscp/crypto/crypto.go
--   Canonical            pkg/iscp/canonical/canonical.go: the writer and the signature input; Parser
--                        the strict parser, Order the order of fields, TopLevel the check of
--                        the field names, Raw the JSON texts inside signed objects
--   Identity             pkg/iscp/identity/identity.go
--   Trust                pkg/iscp/trust/trust.go
--   Descriptor           pkg/iscp/descriptor/descriptor.go; reading a descriptor's JSON is a parameter
--   Provisioning         pkg/iscp/provisioning/provisioning.go: tickets, Store the ticket store,
--                        Bundle the local channel and the bundle
--   Session              pkg/iscp/session/session.go (Frames: the frames and their JSON);
--                        Control: pkg/iscp/session/control.go
--   Envelope             pkg/iscp/envelope/envelope.go
--   Config               pkg/iscp/config/config.go
--   HotSession           pkg/iscp/hotsession/hotsession.go
--   Recovery             pkg/iscp/recovery/recovery.go
--   Server.Queue         pkg/server/queue/queue.go
--   Server.RateLimit     pkg/server/ratelimit/ratelimit.go
--   Server.Replay        pkg/server/replay/replay.go
--   Server.Keyring       pkg/server/keyring/keyring.go
--   Server.Policy        pkg/server/policy/policy.go
--   Server.Httpx         pkg/server/httpx/httpx.go: the body of an error
--   Repository           pkg/server/repository/domain.go, and tables with statements that may fail;
--                        Relay, Messages: pkg/server/repository/relay.go; Nonces:
--                        pkg/server/repository/proof_nonce.go; the columns and constraints are those
--                        of deploy/migrations/postgres/0001_init.sql
--   Relay                services/relay-reference/internal/relay/server.go: configuration and state;
--                        Requests the headers, Access proofs of possession, Credentials, Registration,
--                        Delivery envelopes, Connect the WebSocket, Admin the views and the handler of
--                        all requests; Stability what every handler keeps, Runs any sequence of requests
-- Effect is the shape of a method (a new state beside an outcome, with early ends), with rules for what
-- methods keep, reach and leave. Prelude holds shared tests, lists, texts, integers, maps and sorting; Examples applies each
-- theorem at concrete inputs, with simple functions in the place of the cryptographic library.
--
-- A Go function is a function of the same name in snake case. A method that changes its receiver
-- takes the state and gives back the new one, beside its result; a mutex makes a method one step. An
-- error return is `err` of Errors.Result, with the code, the message and the retryable mark.
--   - Times are natural numbers of nanoseconds since Go's zero time, durations likewise; adding to a
--     time does not overflow. Go's int is an unbounded integer; the sequence number of a session is a
--     uint64 that wraps.
--   - Go maps are Prelude.Map, of which only lookup laws are used outside its own file; a loop that
--     visits the entries visits them in the order of the list behind it.
--   - Crypto.Primitives stands for the Go library and golang.org/x/crypto: signatures, key agreement,
--     key derivation, the AEAD, base64url and the JSON text of a time. Crypto.Laws.IsSound names what
--     they are documented to do. Random keys and nonces are arguments.
--   - sort.Slice is a Prelude.Sort.SliceSort: any function that rearranges without an inversion.
--   - A handler of the relay is an Effect over its state: it ends early with a response, which is a
--     refusal, or at its end. It reads the clock once, where the code reads it at each use; random
--     tokens and UUIDs are drawn beforehand (Relay.Moment). A request runs to its end before the next.
--   - Relay.Library holds what the relay takes from libraries: the decoders of encoding/json for each
--     body, net, net/url, strings and sort. JSON that the relay writes of an identity for the
--     repository, to read it back, stands as the identity.
--   - A Database is its tables with a schedule of faults: a statement whose turn is `true` fails and
--     changes nothing. Repository.Messages.Planner holds what SQL leaves open.
--   - The strict parser works on the tokens that json.Decoder gives. Its fuel is twice their number,
--     which is enough for every value (a value takes less than twice its tokens).
--   - Canonical.format_int runs on fuel, one more than the number: no number has more digits.
--
-- Not modelled: the trust root service under services, the relay's descriptor, metrics and version,
-- the interleaving of two requests between two sections under the relay's lock, the trust root's
-- repository and the connection to the database, payload types, logging, the key store,
-- and the tools. A nil session state
-- and the difference between a nil and an empty slice are not modelled, nor is the cause that an
-- error wraps. Canonical.parse_strict, for signed objects, reads
-- the value that json.Marshal has written from a struct rather than its tokens; members of type
-- json.RawMessage are texts, read by the strict parser (Canonical.Raw). That json.Unmarshal into an
-- identity in memory also adds to the metadata of the one that the relay keeps is not modelled.
pub mod Prelude
pub mod Errors
pub mod Effect
pub mod Repository
pub mod Relay
pub mod Crypto
pub mod Descriptor
pub mod Canonical
pub mod Identity
pub mod Trust
pub mod Provisioning
pub mod Session
pub mod Envelope
pub mod Config
pub mod HotSession
pub mod Recovery
pub mod Server
pub mod Examples
