-- ===== src/Lib.antt =====
-- wgxdp: a VPN server that admits devices to a WireGuard network and filters their traffic by an XDP
-- program, whose rules are in an eBPF map.
--
-- Parts. HTTP handlers (internal/) read and write an SQLite database (internal/database.go), configure
-- the WireGuard interface (wireguard/) and write the eBPF map (firewall/service.go) that the XDP program
-- (firewall/c/program.c) looks packets up in. A device asks for a device code, a user approves it in the
-- browser, the device polls for an access token and spends the token on a join, which gives it an
-- address and adds it to the interface.
--
-- Files.
-- - Base: shared names, Boolean tests, lists, Go's integers, texts (`strings.ReplaceAll`,
--   `url.QueryEscape`), bit operations.
-- - World: the state (tables, interface, map, files) and the environment, that is what SQLite, the
--   kernel, the clock and the random source answer to the call of each number. Any of them may fail at any call.
-- - Act: a Go function as an action that reads the environment and changes the state; what is done
--   before an error stays done. Act.Keeps: what an action keeps, by one rule for each way to build it; Act.Leads:
--   what holds after it.
-- - Files: what the server does to files by package os.
-- - Sql: SELECT, INSERT, UPDATE and DELETE on the rows of a table, with the lemmas on rows.
-- - Net: Go's net package as the program uses it: ParseIP, ParseCIDR, IP.String, To4, byte orders.
-- - Database (internal/database.go): Peers, Codes, Rules and Alloc (NextAvailableIP) hold the methods of
--   DB under their names in snake case; Random the two generators; Open the creation of the
--   tables; Integrity and Lifecycle the invariants; Tokens the access tokens, Approval the rows that an
--   approval changes.
-- - Firewall (firewall/service.go): the keys and the map; Load is `New`; Filter is firewall/c/program.c;
--   Verdicts, Keys and Subnet relate the two; Permits says what a map stands for.
-- - Wireguard (wireguard/device.go, wireguard/utils.go): peers added to and removed from the interface;
--   Keys is the key file, Setup the creation of the interface with its address and route.
-- - Config (config/config.go): the settings; Load reads them.
-- - Server (internal/server.go): requests, responses, and in its children Middleware, DeviceFlow, Rules
--   and Peers the handlers of internal/middleware.go, internal/handlers_device.go,
--   internal/handlers_rules.go and internal/handlers_peers.go. Calls holds the handlers of the API, and
--   Mux the requests as they arrive: the patterns, the files and spaFallback. Its Routing names the call
--   of each path and method once more, without patterns; Patterns and Paths relate the two, Simulation the
--   state after any arrivals to the calls, and Open a request to its user. Answers describes the replies
--   to a polling device, code by code. Plain and Serving show that what the writing methods keep
--   every sequence of requests keeps; Covering, with the Covering of Rules and of Peers, that the map
--   holds no key but those of stored rules; Blind compares a deletion of a peer under two maps.
-- - Startup (cmd/wgxdp-server/main.go): the server from its configuration file to its routes; Tables
--   shows that no table changes, Restore, Loading and Traffic what is in the map then, Peers what is on
--   the interface, and Running what holds after any requests that follow.
-- - Client (cmd/wgxdp/main.go): the command `wgxdp join`; Polling, Ending and Joining are about any network,
--   Served about this server, Mask about `maskFromCIDR`; Poll and Join hold its functions.
-- - Tests: the theorems at concrete states and requests.
--
-- Choices. A SELECT without ORDER BY is read in the order of insertion, which SQLite does not promise:
-- a scan of the index behind the UNIQUE columns of firewall_rules would give another. The world's
-- `link` is the sequence of configurations that the kernel has taken, since what it makes of them is
-- not modelled. `wgtypes.ParseKey` and `Key.String` are fields of the environment. A body is what the
-- JSON decoder makes of it: nothing, malformed, or a value; the decoder's own error text is left out,
-- and a text printed with the verb for quoted strings is written without the quotes. Times are seconds
-- in ℕ. The address search has fuel for one round per address up to the broadcast address and one
-- more, which is enough because the candidate grows in each round and stays below 2 ^ 32; decimals
-- have fuel for the 20 digits of a 64-bit word. Requests are served one after the other.
--
-- The polling loop of the client has fuel for its rounds, one more than there are intervals up to the
-- deadline being enough; the durations of the client are nanoseconds in ℕ, and those that do not fit 64
-- bits are not considered. A configuration of the kernel, an address and a route are calls of netlink or
-- wgctrl, any of which may be refused; `yaml.Unmarshal` and package flag are arguments. Where the code
-- ends the process by a Fatal call, the action ends in an error with the text of the call. What is
-- logged or printed on the way is left out, and so is the umask of a new file.
--
-- Not modelled: the listening socket; the arrival of signals; GetIP of wireguard/utils.go, which nothing
-- calls; the browser client, and the bindings that bpf2go generates. http.FileServerFS and the embedded
-- files, which the build copies, are parameters of Server.Mux. A request has a clean path there, since
-- ServeMux redirects any other.
pub mod Base
pub mod World
pub mod Files
pub mod Net
pub mod Act
pub mod Sql
pub mod Database
pub mod Firewall
pub mod Wireguard
pub mod Config
pub mod Server
pub mod Startup
pub mod Client
pub mod Tests
