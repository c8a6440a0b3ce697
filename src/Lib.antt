-- ===== src/Lib.antt =====
-- A verification library for the configurable HTTP and HTTPS server.
--
-- The server reads an nginx-like config file, takes its ports and key paths from it, builds a
-- dispatcher of request handlers from its `location` blocks for each of two servers, one for HTTP and
-- one for HTTPS, and serves each connection through a session that finds the handler for the request's
-- target and writes its response. The model follows that order.
--
--   Config      include/config_parser.h: the tree of statements, with `ToString` and `Reset` of
--               src/config_parser.cc.
--   Lexer       src/config_parser.cc, `ParseToken`: `parse_token` takes the bytes left of the stream
--               and returns the token's type, its value and what is left. Its children: Steps,
--               Types, Words and Quotes, what it does on some inputs; Grammar and Insides, the
--               tokens as a grammar, with no states and no loop; Follows and Complete, the code by the
--               grammar; Merged, a backslash at the front of a token.
--   Parser      src/config_parser.cc, `Parse`: `parse` with its two stacks, its last token, and the
--               config that the caller finds. Its children: Tokens, what is gathered from the tokens
--               of an input, and Written, of a text that `ToString` wrote; Machine, a specification
--               over symbols; Refinement and Loop, that the code follows it; Grammar, what the
--               machine accepts; Syntax, the files that it accepts by the grammar of the tokens;
--               RoundTrip and Truncated, what comes of texts; Appending, a config that holds
--               statements; Shape, the configs that are left; Output, what `Parse` prints.
--   Settings    src/config_parser.cc, `GetPortNumber` and `GetKeyPath`, which search the text of
--               each statement. Its children: Values, the value behind a key word; Port, Results and
--               Keys; Shadowed, a port that another statement hides.
--   Handlers    what the constructors in src/file_handler.cc, src/proxy_handler.cc and the other
--               handlers make of a `location` block, and `parse_url`. Its children: Kinds, what they
--               make; Urls, and Slashes, what `parse_url` makes of a text; Constructed, where the
--               constructors come to their end.
--   Dispatcher  src/dispatcher.cc, and `get_handler_name` of src/session.cc. Its children: Paths and
--               Search, the handler of a URI; Induction, Register, Total, Unblocked, Excluded, Parsed
--               and Assigned, `init_handlers`; Routed, the handler of a URI by the config alone.
--   Http        the messages of Boost.Beast, and the library's part as the record `Beast`.
--   Session     src/session.cc and include/session.h: `start`, the handlers of completed operations,
--               `send_response` and the static metrics. `Step` is the completion of the operation
--               that a session waits for. Its children: Lifecycle, what a session waits for; Text
--               and Reassembly, requests in several reads, and Overrun, where they fill the buffer;
--               Answers, Metering and Counting, `send_response` and the metrics; Races, the counter
--               where threads run at once; Bounds, the buffer, and Reading, where in it the next
--               read goes; Filled, a session that a test fills;
--               Liveness, a session's run to its end.
--   Status      src/status_handler.cc: the page of the metrics. Its children: Sums and Counts, its
--               counts; Split and Rows, its rows; Views, what it shows of the
--               metrics.
--   Files       src/file_handler.cc: `handle_request` and `mime_type`, over a file system as a
--               parameter. Its children: Served, which file is sent, and Types, with which type.
--   Proxy       src/proxy_handler.cc: `issue_outside_request` and `handle_request`, over a network
--               as a parameter, which answers a host, a port and a target always alike, and says
--               which codes Boost.Beast has a status for. Its
--               children: Redirects, the chains of redirections, and Locations, one that ends in
--               nothing; Requests, what is asked for and returned.
--   Replies     `handle_request` of src/echo_handler.cc, src/404_handler.cc, src/health_handler.cc
--               and src/sleep_handler.cc.
--   Requests    include/handler.h: the virtual `handle_request`, which the sessions call, by the
--               class of the handler, in a `World` of files, hosts and Boost.Beast. Its children:
--               Safety, the answers; Delivery, a file on its way to the peer, and Passing, a
--               response of another host.
--   Server      src/server.cc and include/server.h: the constructors, the accept loop, and a server
--               as a step relation on the sessions it has started. Its child: Serving, its
--               invariant.
--   Main        src/server_main.cc: from the arguments to the two servers, on a `Host` with files,
--               ports and keys. Its children: Settled and Starts, when the servers come to run;
--               Failures, how the program ends where they do not; Running, the program as the two
--               servers then step; Routing, which handlers it finds, and Unrouted, where there is no
--               location; Delivering, a file's way to the peer, and Proxying, that of a response of
--               another host, and Astray, where that has none; Statistics, the status
--               page; Answering, what it answers; Defined and Unset, when it does nothing
--               undefined.
--   Tool        src/config_parser_main.cc: what the tool prints. Its child: Runs, on a text that
--               `ToString` wrote, and on one that is refused.
--   StdString, StdMap   the members of `std::string` and `std::map` that the program calls.
--   Prelude     shared names, tests and lists.
--   Tests       each theorem at concrete inputs, and runs of the code.
--
-- A text is the list of its bytes. A call that may throw, or be undefined where the code reads an
-- empty vector, an empty text or a null pointer, has a result type that says so. Loops of the code
-- are recursions on lists, or on fuel: `ParseToken` takes at least one byte, so `Parse` has one round
-- more than the input has bytes; a loop that drops a trailing slash has one round more than its text
-- has bytes. The redirections that the proxy follows have no bound, and the result says where the
-- fuel is used up. Positions are natural numbers with `npos` at 2^64 - 1; no text is that long. A
-- port is the `short` that the code stores, read modulo 2^16.
--
-- A session's parameters are Boost.Beast (the parser of requests and `prepare_payload`), the dispatcher,
-- and the virtual `handle_request` of the handlers, which may read the metrics and may throw or not
-- return; Requests gives the one of the program. A session's buffer `data_` of `max_length` bytes is
-- given by its leading bytes; a read that is stored beyond it, and a text in it that no zero byte
-- ends, are faults. The steps of the sessions, and of the two servers, may come in any order, one at a
-- time. Threads that run handlers at once are modelled for the increment of the counter alone, as a
-- load and a store that each are done at once; the language leaves such a race undefined. A step that
-- throws, hangs or faults has no state behind it, and the step relations of Server and Main follow the
-- steps that have one.
--
-- The echo handler takes the method and the target of a request, which are views, for texts that a zero
-- byte ends. What stands behind them in their storage up to such a byte is a parameter of `World`, and
-- where there is none, the answer is undefined.
--
-- A peer may go at any time: the log line of a response asks for its address, and throws then.
--
-- The counter of requests is an `int`, and a natural number here.
--
-- Not modelled: the logging calls, Boost.Asio, Boost.Beast, Boost.Filesystem and OpenSSL, whose answers
-- are the parameters `Beast`, `World` and `Host`; the password and the options of OpenSSL, which the
-- constructors of the server set; and the sockets themselves.
pub mod Prelude
pub mod StdString
pub mod StdMap
pub mod Config
pub mod Lexer
pub mod Parser
pub mod Settings
pub mod Handlers
pub mod Dispatcher
pub mod Http
pub mod Session
pub mod Status
pub mod Files
pub mod Proxy
pub mod Replies
pub mod Requests
pub mod Server
pub mod Main
pub mod Tool
pub mod Tests
