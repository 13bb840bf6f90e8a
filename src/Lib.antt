-- ===== src/Lib.antt =====
-- edgehost is an HTTP edge host in C. Its core keeps no sockets: it is an event ring by which the
-- core tells the host what it needs, a table of buffers that the host owns, the active configuration,
-- a store of namespaces of JSON values, and a table of requests that wait for an upstream answer.
-- The host pulls events from the ring, provides buffers, applies configurations, and parks inbound
-- connections in the pending table until the outbound request completes. Changes of the store go out to
-- WebSocket subscribers through a hub that keeps a short queue for each connection.
--
-- Files and code:
--   Core            src/core/edgecore.c, include/edgecore.h: the records and creation
--     Core.Types      the event record, event types and buffer kinds with their names
--     Core.Ring       emit_event, edgecore_next_event; Core.Ring.Queue is the abstract queue
--     Core.Buffers    edgecore_request_alloc, _request_realloc, _provide_buffer, _detach_buffer
--     Core.Settings   edgecore_apply_config, edgecore_notify_config_rejected
--   Config          src/core/edge_config.c: edge_config_defaults, edge_config_validate
--   Pending         src/core/pending_table.c: edge_pending_insert, the finders and the releases
--   State           src/core/state_store.c: edge_state_put, _get, _delete, _list, _ns_set_enabled,
--                   _apply_config and the creation; State.Namespace is one namespace's entry table,
--                   State.View the map from names and keys to values
--   Auth            src/core/auth_rbac.c: edge_auth_rbac_check and edge_auth_classify, the roles
--     Auth.Password   edge_auth_password_ok
--     Auth.Cookie     edge_auth_cookie_extract
--     Auth.Csv        edge_auth_roles_from_csv
--     Auth.Base64     b64_encode, b64_decode
--     Auth.Login      edge_auth_parse_login_password, parse_json_string_field, and the body that
--                     spa/home.js sends
--     Auth.Sha256     sha256_init, sha256_update, sha256_final, sha256_transform
--     Auth.Hmac       hmac_sha256, ct_eq
--     Auth.Session    edge_auth_session_issue, edge_auth_session_verify and their JSON helpers
--     Auth.Proxy      edge_auth_proxy_canonical, _proxy_sign, _proxy_verify
--     Auth.Number     strtoll of the C library in base 10
--   Stream          src/host/ws_stream.c: the hub; Stream.Message edge_ws_format_state_changed and the
--                   broadcast; Stream.Handshake and Stream.Sha1 edge_ws_accept_key, _build_101;
--                   Stream.Run the mailboxes that the hub implements
--   Plugin          src/host/plugin_host.c: registration, routes, edge_plugin_host_dispatch_http and
--                   _complete_outbound over the tables of Pending and State; what a handler does is a
--                   tree of the host calls it makes
--   Prelude         names of the libraries, Boolean tests, lists, slot tables and texts
--
-- State is a record, an operation a function that returns its result with the new record. Pointers
-- into an array are indices, host pointers are numbers with 0 for NULL, a pointer that may be NULL is
-- an option where the code checks it, and a text is the list of the bytes before its NUL. Numbers are
-- natural; where the code's integers can wrap (the 32-bit ids, the 64-bit generation and drop count,
-- the signed sum of a proxy header's expiry) the remainder is written out. An allocation is a parameter that says whether it succeeds. Loops over
-- arrays and most loops over texts are recursion on the list. The loops over a Cookie header and over a
-- list of roles have the text's length as fuel, and each round takes a byte at least; a decimal number
-- has twenty digits at most, which every 64-bit number fits. The value that base64 decoding shifts is
-- kept to 32 bits. Enumerations have only the declared values.
--
-- Not modelled: freeing memory, the host programs (sockets, io_uring, TLS, signals, files), the
-- plugins themselves and the loader of YAML files. What time(NULL) returns is an argument.
pub mod Prelude
pub mod Config
pub mod Pending
pub mod State
pub mod Core
pub mod Auth
pub mod Stream
pub mod Plugin
