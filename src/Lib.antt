-- ===== src/Lib.antt =====
-- The web client of corplink (web/): a Go service that keeps a WireGuard tunnel to a company
-- gateway alive and serves a local mixed HTTP and SOCKS5 proxy through it. The gateway revokes
-- sessions under load, so the proxy resumes stalled transfers on fresh tunnels and keeps
-- content-hashed assets in a cache.
--
-- Files and the code they are about:
--   Common           shared names: tests on numbers, lists, Go strings (bytes as numbers), maps as
--                    association lists (Table), decimal numbers (Decimal).
--   Assets           web/internal/corplink/proxy_cache.go. Cache has one function per method of
--                    assetCache; a pointer into container/list is a number. Order and Invariant:
--                    the list, the map and the byte count agree. Recency: the cache as a list of
--                    entries, most recent first. Progress: partial prefixes. Names: the regular
--                    expression of isImmutableAssetPath.
--   Tunnel           web/internal/corplink/proxy.go: SetTunnel, RefreshKick, kickRefresh and
--                    waitTunnelSwap, with runs as lists of events.
--   Forward          web/internal/corplink/proxy_http.go. Wire: client writes, responses, header
--                    blocks. State: forwardState. Body: relayForwardBody and forwardBuffered. Once:
--                    forwardOnce. Request: handleForward. Origin: what is relied on in an origin.
--                    Pieces, Writes, Genuine, Relay, Buffered, Collect, Attempts, Resume, Seamless,
--                    Replays and Handled: the proofs, from pieces of a body to a whole request.
--   Routes           web/internal/corplink/wgconf.go. Carve: subtractCIDR on addresses as lists of
--                    bits. Cover and Subtract: the proofs. Build: BuildWgConf and its helpers
--                    (web/internal/corplink/connect.go) on strings. Left and Endpoint: what is not
--                    routed.
--   Manager          web/internal/vpnmgr. State: the fields of Manager and what its operations meet.
--                    Lifecycle: Connect, Disconnect, Logout, refreshTunnelKicked and reconnect
--                    (connect.go, admin.go), taken apart where the mutex is given up. Sections:
--                    these parts in any order. Events, Whole and Coherence: runs of whole
--                    operations. Tally and Ledger: devices. Races: a state that is overwritten.
--                    Health: reconnectReason and probeTunnel (probe.go).
--   Admin            web/internal/vpnmgr/admin.go. Sessions: adminAuth. Lockout and Guesses: the
--                    lifetime of a session and runs of wrong passwords.
--   Socks            handleSocks5 of web/internal/corplink/proxy.go. Handshake: what is read and
--                    written. Exchange: a client's side of it.
--   Upstream         web/internal/corplink/upstream.go. Address: socks5Request and socks5ReadAddr.
--                    Lines: lineReader and leftoverConn. Parse: ParseUpstreamProxy. Dial: httpConnect,
--                    socks5Connect and DialContext. Kinds, Replies and Trip: the proofs.
--   Dial             web/internal/corplink/proxy.go: how a request is dialed. Recent and Live: the
--                    tables of dials. Lookup: the name cache and resolveHost. Attempt: dialOnce and
--                    dialContext. Order, Marks, Genuine and Kicks: the proofs.
--   Session          the client of the VPN service, web/internal/corplink. Jar: cookiejar.go. Api:
--                    api.go. Totp: totp.go and pkcs7Pad. Client, Login, Discover, Nodes: client.go, and
--                    SelectVPN of connect.go. Cookies, Codes, Choice and Reports: the proofs.
--   Settings         Config: web/internal/corplink/config.go. Update: web/internal/vpnmgr/config_ops.go.
--                    Complete and Choices: the proofs.
--   Netstack         web/internal/corplink/netstack.go. Device: connections and counters. Setup: addresses,
--                    name servers and buildUAPI. Stats: PeerStats. Counts: the proofs.
--
-- How the parts interact: a request looks into the asset cache, replays what it has, and runs
-- attempts against the tunnel; an attempt that stalls kicks the refresher and waits for the tunnel
-- to be swapped; a whole body goes into the cache, a cut one leaves its prefix there.
--
-- The environment is a parameter. Client writes fail where the client's list of faults says so, and
-- leave a part of the data. The body of a response is the list of its Reads; behind the last one
-- the read deadline passes, which is the stall. Each attempt is answered by a function of its number
-- and of the Range header it carries. Header.Write and StatusText of net/http are parameters. The
-- loop of evictions runs on as many rounds as there are elements, since each takes one off; the loop
-- over attempts on forward_max_attempts as in the code; the loops over a body on its Reads.
--
-- The proxy dials through Dial, and a failed dial to a live host kicks the refresher of Tunnel; what
-- Upstream sends as a SOCKS5 client is read by the server of Socks. Session chooses a node and asks it
-- for the peer of a tunnel, and Routes makes the configuration from the answer. The service is a
-- function of the requests that it was sent before; net/url, net/netip, encoding/json, HMAC and the
-- digests are parameters, as is what another goroutine's lookup in flight comes to. The loop over
-- header lines runs on one round more than there are bytes, since a line has at least one.
--
-- A method that holds its mutex throughout is one step. Those of the manager that give it up in the
-- middle are taken apart into what each lock does, and Manager.Sections puts these in any order; the
-- definitions named like the methods are their runs with nothing in between.
--
-- Not modelled: other goroutines, deadlines as times, logs, the
-- wireguard-go copy under web/third_party, the network stack that
-- StartNetstackWithProxy starts, the handlers of the web
-- server, handleHTTP and handleConnect of the proxy, the traffic sampler and the server list of the
-- manager, the files that settings and cookies are kept in, and
-- the user interface.

pub mod Common
pub mod Assets
pub mod Tunnel
pub mod Forward
pub mod Routes
pub mod Manager
pub mod Admin
pub mod Socks
pub mod Upstream
pub mod Dial
pub mod Session
pub mod Settings
pub mod Netstack
