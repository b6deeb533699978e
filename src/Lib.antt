-- ===== src/Lib.antt =====
-- Verification library of fxtun.dev, a tunnel server: it gives a program behind a NAT a public HTTP
-- subdomain or a TCP or UDP port, and relays what arrives there over one multiplexed connection.
--
-- The parts and how they interact. A client connects (internal/server/auth_handler.go), asks for tunnels in
-- control messages (internal/protocol), and the server (internal/server/server.go) allots a subdomain in the
-- routing table (http_router.go) or a port (port_allocator.go). Data streams begin with a binary header;
-- UDP packets are framed (udp_manager.go). HTTP exchanges are captured in one ring per tunnel
-- (internal/inspect).
-- Users pay for plans: the payment handlers (internal/api) open subscriptions and payments, YooKassa reports on
-- them through a webhook, and the scheduler (internal/scheduler) ends, renews and changes the subscriptions.
--
-- Which file models which part:
--   Base, Base/*             numbers, lists, byte strings, Go maps as association lists, sets
--   Protocol/Io              io.Writer, as far as the protocol uses it
--   Protocol/Header          internal/protocol/stream_header.go
--   Protocol/Codec           internal/protocol/codec.go
--   Protocol/Messages        internal/protocol/messages.go, and ParseMessage of codec.go
--   Protocol/Compress        internal/protocol/compress.go
--   Server/Udp               internal/server/udp_manager.go
--   Server/Ports             internal/server/port_allocator.go, and AllocatePort of tcp_manager.go and
--                            udp_manager.go
--   Server/Router            the table of internal/server/http_router.go
--   Server/Tunnels           internal/server/server.go and client_manager.go: the state, the clients and their
--                            users; Tunnels/Requests has handleTunnelRequest with the three kinds of tunnel,
--                            Tunnels/Closing has closeTunnel, Client.Close and the closings by identifier,
--                            Tunnels/Steps has the histories of calls, Tunnels/Limits the limits,
--                            Tunnels/Queries the queries of the API, and
--                            Tunnels/Overtaken the request whose client ends
--   Server/Hosts             extractSubdomain and limitedWriter of internal/server/http_router.go, and the custom
--                            domains of server.go
--   Server/Streams           handleJoinSession and findClientBySecret of internal/server/server.go, and the choice
--                            of a session in internal/server/stream_pool.go
--   Server/Auth              authenticate, with the clients that it makes, of internal/server/auth_handler.go
--   Client/Udp               handleUDPStream of internal/client/udp_proxy.go
--   Client/Reconnect         the reconnect loop of internal/client/client.go; its rounds are the fuel
--   Client/Control           the messages of the server, RequestTunnel and the flags of the reconnection of
--                            client.go
--   Accounts/BackupCodes     the backup codes of internal/auth/totp.go
--   Accounts/Rows            the rows and statements of session_repo.go, totp_repo.go and user_repo.go of
--                            internal/database that the accounts use
--   Accounts/Service         the service of internal/auth/auth.go; Service/Histories has the histories of calls
--   Accounts/Tokens          internal/api/handlers_tokens.go and internal/database/token_repo.go; Tokens/Device
--                            has internal/api/device_store.go and handlers_device.go
--   Accounts/OneTime         internal/api/oauth_store.go
--   Accounts/Subdomains, Accounts/Domains
--                            the reserved domains of internal/api/handlers_domains.go and
--                            internal/database/domain_repo.go
--   Billing                  the rows of internal/database/models.go that billing uses; Billing/Plans,
--                            Billing/Subscriptions and Billing/Payments have the statements of
--                            plan_repo.go and user_repo.go, subscription_repo.go and payment_repo.go of
--                            internal/database; Billing/Expiry, Billing/Renewal and Billing/Changes the
--                            steps of internal/scheduler/scheduler.go; Billing/Handlers (the webhook),
--                            Billing/Requests and Billing/Domains internal/api/handlers_payment.go
--   Config                   Validate of internal/config/server.go
--   Access                   CanUseSubdomain and FindToken of internal/config/server.go, and the patterns and
--                            addresses of a token in internal/database/models.go
--   Inspect/Exchange         internal/inspect/exchange.go
--   Inspect/Buffer           internal/inspect/buffer.go, with Inspect/Channels for the channels it sends to
--   Inspect/Manager          internal/inspect/manager.go
-- A function has the name of its Go function in antt's spelling. Each method is a function from the state to
-- the state and what is returned; errors are values. The files below a component hold its proofs, and the
-- Tests modules run the functions and apply the theorems at concrete inputs.
--
-- Bounds: bytes, ports and lengths are natural numbers, with the wrap-around of a conversion written out. The
-- loops of the source are recursions on the list or the number of rounds they have, so that none runs out of
-- fuel. Host names and subdomains are ASCII.
--
-- The database: a table is a dictionary of rows by their ids, a query filters it, and a loop over the rows of a
-- query goes over the rows as they were when it was made (Base/Tables). Which statements of a run fail is a
-- parameter; one run has one time. The error in an event of the scheduler is left out.
--
-- Interleavings: a call of the server runs to its end before the next one; a handler that a client's end
-- overtakes is a call on a client that is no longer registered. RingBuffer.Add is split where it gives its lock
-- back, and a poll of a device between its read and its deletion.
--
-- Not modelled: encoding/json, the zstd codec, the strings of network addresses and the answers of the
-- system to a bind, which are parameters; the relaying of bytes itself (ServeHTTP), the SQL engine, the
-- HTTP client of YooKassa, the HTTP API but for payments, tokens, devices and reserved domains,
-- registration and the logins through GitHub and Google, e-mail, certificates, the rest of the client
-- program and the user interfaces.
pub mod Base
pub mod Protocol
pub mod Server
pub mod Inspect
pub mod Access
pub mod Config
pub mod Billing
pub mod Client
pub mod Accounts
