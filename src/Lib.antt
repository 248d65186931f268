-- ===== src/Lib.antt =====
-- CascadeVPN: the portal service (portal/app), the bridge between the TrustTunnel endpoint and the
-- 3x-ui panel (bridge/ttx_bridge.py), and a script that exchanges an outbound's credentials in the
-- panel (deploy/xui_outbound_client_recovery.py).
--
-- Base: what the modules share: Boolean tests, lists measured by native numbers, fallible results,
-- dictionaries, and tests over the characters of a text.
--
-- Portal/Limiter: class _LoginLimiter of portal/app/main.py, with its clients, the failures and
-- attempts of each, and the shared budget. The clock readings are arguments, in exact ticks where the
-- code has floats. Children: Budget (the number of admissions), Clients (one client's entry),
-- Interleaving (the steps of several request threads, as a relation), Lockout (refusal and release).
-- Portal/Store: the tables of portal/migrations and the SQL statements that the portal runs on them.
-- An INSERT that breaks a constraint has no result.
-- Portal/Security: portal/app/security.py, the stored password hash and the pattern of short codes.
-- Portal/Outbound: portal/app/outbound.py, validate_outbound_url and validate_redirect_target;
-- Portal/Outbound/Fetch: _read_limited and fetch_url, which also gives the connections that it made.
-- The loop recurses on the redirections that are left, so it needs no fuel.
-- Portal/Request: a request, and the checks of main.py that come before an endpoint's work: _body,
-- get_session, _require_session, _same_origin, url_origin.
-- Portal/App: the state that the requests share (tables, limiter, password slots), create_session,
-- delete_session and _login. A handler takes a state to a result or an APIError and a state, so what
-- was done before an error stays done. What the environment answers during one request (clocks,
-- random tokens, drawn codes) is a record.
-- Portal/Client: _rate_limit_client, the client that an attempt counts for.
-- Portal/Links: _list_links, _create_link, _redirect_short_link and the deletion of a link.
-- Portal/Monitor: portal/app/services/monitor.py over the table of services and Portal/Outbound.
-- Portal/Xml: parse_feed of portal/app/services/rss_reader.py, on the tree of elements that the XML
-- parser gives. Portal/Feeds: the rest of that file over the tables, with the statements on the items
-- in Portal/Store/Items. Children: Items (numbers, upserts and pruning), Refresh.
-- Portal/Pages: list_references, get_reference and _serve_static of main.py.
-- Portal/Api: _dispatch and _dispatch_api of main.py; Routes is the table of endpoints, Access says
-- which requests may change a table.
-- Portal/Config: portal/app/config.py, from_env; Bounds says what an accepted configuration satisfies.
-- Portal/Database: initialize of portal/app/database.py, with what is committed and what is pending;
-- Migrations is about two starts. The clean-up of sessions is in Portal/Store.
-- Portal/Security/RoundTrip: a password and its hash.
-- Portal/Proxy: portal/configure_reverse_proxy.py on the code points of the file; RoundTrip adds and
-- removes. The search in a text is in Base/Search.
--
-- Bridge/Files: atomic_write, capture_file_state, restore_file_state and _fsync_directory, over a
-- store of files and an environment that decides how each system call ends. Children: Ensures and
-- Plain (rules for the handlers), Replace and Atomic (atomic_write), Service.
-- Bridge/Apply: apply_trusttunnel_config and what it calls: the lock, the staging, the restart, the
-- health check and the recovery. Children: Target, Endings, Transaction, Commit (the ways it ends).
-- That the lock file is not the target is a hypothesis. The directories and the lock file that are
-- made stand in the store.
-- Bridge/Json: JSON values. Bridge/Panel: class PanelClient, over the requests sent and an arbitrary
-- server; Writes is about the requests that change the panel. Bridge/Ingress: build_ingress_payload to
-- reconcile_ingress; children Writes and Settled.
-- Bridge/Settings: class Config, from the JSON of its file; Bounds says what it accepts.
-- Bridge/Render: the loop of strip_tables, on the lines of a text; Bridge/Render/Config: strip_tables,
-- render_vpn_config and guard_loop. Bridge/Versions: parse_version and check_compat.
-- Bridge/Command: cmd_reconcile, which runs all of these; Exit is about its exit codes.
--
-- Deploy/Outbound: the commands apply and rollback of the script, over the panel's template, the state
-- file and a list that says how each step ends. Children: Template (the reading and the editing of
-- the JSON), Triples (rules for what holds after a command), Ends (apply), Rollback, and Undo and Single
-- (apply where at most one step fails).
--
-- The standard library (URL and cookie parsing, SHA-256, PBKDF2, base64, zlib, sockets, TOML,
-- mkstemp, systemctl) is a parameter, as a record of functions. Requests to the tables are handled
-- one at a time; the limiter alone is modelled under interleaving. The deadline loop of apply_lock is
-- one outcome of the environment.
--
-- Not modelled: the HTTP headers, entrypoint.py, the file writing of configure_reverse_proxy.py; of the
-- bridge the commands that only print and the endless loop; the other scripts of deploy. The browser
-- code, the shell scripts and the unit files are outside.
pub mod Base
pub mod Portal
pub mod Bridge
pub mod Deploy
