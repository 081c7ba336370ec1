-- ===== src/Lib.antt =====
-- The web stack wpp: its HTTP and WebSocket layers, web framework and Redis client, modelled and proved.
--
-- The program is a set of C++ libraries. libraries/prio is the event loop with its connections, and the
-- helpers for text and urls; libraries/prio-http speaks HTTP on it; libraries/repro-web adds a front
-- controller, sessions, templates and WebSockets; libraries/repro-redis is a client for Redis. A
-- `HttpConversation` reads chunks of bytes from its connection and hands them to a `HttpHeaderReader`,
-- which keeps them until the empty line behind the headers and calls `HttpRequest::parse`. That cuts the
-- request line (`PathInfo`) and the header lines (`Headers`, with the cookies in them). A
-- `HttpContentLengthBodyReader` then collects the body, and the conversation hands the request to its
-- handler. The front controller finds that by the path; filters keep its session. A handler reads query
-- parameters (`QueryParams`), cookies and headers, fills the `Response`, and calls `flush` or `chunk`,
-- upon which a writer sends it, and the conversation begins anew or closes. A WebSocket connection takes
-- over the socket of a request that asks for it, and exchanges frames.
--
-- Which file models what:
--   Text         `trim` of libraries/prio/src/common.cpp; `unquote`, `escape_html`, `unescape_html` and
--                both `split` of libraries/prio-http/src/common.cpp
--   Base64       `base64_encode` and `base64_decode` of libraries/prio/src/common.cpp
--   UrlEncode    class `Urlencode`, libraries/prio-http/src/urlencode.cpp
--   QueryParams  class `QueryParams`, libraries/prio-http/src/queryparams.cpp
--   Cookie       classes `Cookie` and `Cookies`, libraries/prio-http/src/cookie.cpp
--   Headers      classes `HeaderValue`, `HeaderValues` and `Headers`, libraries/prio-http/src/header.cpp
--   Path         classes `PathInfo` and `Args`, libraries/prio-http/src/path.cpp and arg.cpp
--   Request      class `Request` and `HttpRequest::parse`, libraries/prio-http/src/request.cpp
--   Reader       the readers of libraries/prio-http/src/server_reader.cpp
--   Response     classes `Response` and `HttpResponse`, libraries/prio-http/src/response.cpp
--   Writer       the writers of libraries/prio-http/src/server_writer.cpp
--   Conversation class `HttpConversation`, libraries/prio-http/src/conversation.cpp
--   Sessions     `MemorySessionProvider` and `SessionFilter`, libraries/repro-web/src/session.cpp
--   FrontController  routes, exception handlers and static files of
--                libraries/repro-web/src/front_controller.cpp and handler_info.cpp
--   Ssi          class `SSIResolver`, libraries/repro-web/src/ssi.cpp
--   Translations class `I18N`, libraries/repro-web/src/i18n.cpp
--   Redis        the parser and serializer of libraries/repro-redis/src/redis.cpp and
--                libraries/repro-redis/include/reproredis/redis.h
--   Pool         class `Resource::Pool`, libraries/prio/include/priocpp/res.h
--   Jwt          class `JWT`, libraries/repro-web/src/jwt.cpp
--   Client       the readers of a client and `HttpClientConversation`,
--                libraries/prio-http/src/client_conversation.cpp
--   Url          class `Url`, libraries/prio/src/url.cpp
--   Frame        class `WebsocketWriter`, libraries/repro-web/src/websocket.cpp
--   WebSocket    class `WsConnection` behind its handshake, same file
--   Prelude      lists and byte strings, the searches and cuts of `std::string`, and the numbers of
--                `atoi`, `operator<<` and `operator>>`
--   Tests        the theorems at concrete inputs
-- The modules below a file (Cookie/Jar, Headers/Laws, ...) hold its theorems.
--
-- How the code corresponds: a byte is a number below 256 and a `std::string` a list of bytes. An object
-- is a record with the members' names, a method a function from the object to the new object, and a
-- constant method a function of it. A method keeps its name in lower case with underscores (`setQuery`
-- is `set_query`; where only the new member matters, `parse_query` and the like give just that). An
-- access behind a vector or a buffer, an undefined `atoi` and a loop out of fuel are `none` or `fault`,
-- and a throw is `thrown`. Arithmetic of `char`, `unsigned int` and `uint64_t` is modulo 2 ^ 8, 2 ^ 32
-- and 2 ^ 64.
--
-- Fuel: the loops of `split(s, string)` and `setQuery` are given one round for each byte and one more,
-- since every round passes a delimiter, and so are those of `match` of SSIResolver and `render`;
-- Text/Words and Url/Ends are about whether they come to an end.
-- `unescape_html` is given a round for each byte, and each of its rounds passes at least one.
--
-- The Redis parser calls itself for the elements of an array; Redis/Fuel is about how much fuel is
-- enough for given bytes, and Redis/RoundTrip for the text of a reply.
--
-- Conversation and Writer: promises are explicit here, too. `reading` and `writing` say what a
-- conversation waits for; `data_read`, `read_failed`, `write_ended` and `write_failed` are the ends of
-- reads and writes, and `hear` feeds the chunks that a connection reads. The handler's calls are `flush`
-- and `chunk`. A chunked writer has its own events (`run`), and the compressor is a parameter.
--
-- Parameters: the JSON values, clock and random names of sessions; the regular expressions of routes
-- (`regex_match`) and of includes and keys (`regex_search`), the types of exceptions, the system's
-- `real_path`, and Base64Url, HMAC, signatures and JSON of tokens (`Outside`, with `Lawful` for what is
-- documented of them).
--
-- WebSocket: the event loop is explicit. `reading` is the read that is outstanding, with its
-- continuation, and `deliver`, `read_failed` and `written` are what the event loop calls back. The
-- application's `onMsg_` is a parameter. `arrive` serves reads from the bytes that have come in. A read of
-- no bytes is never served, since `TcpConnection::read(size_t)` rejects it or throws at it.
--
-- Numbers of Client and Redis: `iss >> value` leaves a variable unset where the text is blank. Where the
-- code then uses one that has no value, the model has an outcome of its own (`unset`, `fault`, `none`).
--
-- Client: a read of the connection is a call of `hear_at`, and `hear` makes the calls for the reads of a
-- connection. `cut_at` takes the bytes behind the head from the last read, as the code does, so `hear` is
-- `undefined` where that reads behind the end of the read. `consume_chunked` calls itself for each chunk;
-- its fuel is the length of the stream and one, and a chunk takes more than two bytes of it.
--
-- Pool: Pool/System has the steps of a pool, with the shared pointers that are alive and the openings
-- that have not ended; a resource that `L::retrieve` gives is one that is not in the pool. Times are
-- arguments, and freed resources effects.
--
-- Not modelled: the event loops, sockets, TLS, timeouts and threads of prio (calls of libevent,
-- Boost.Asio and OpenSSL); sub requests, HTTP/2 and compression of prio-http; host, locale and regular
-- expressions of a request; the WebSocket handshake, which needs a SHA-1 from a library outside; filter
-- chains, whose order at equal priorities is that of `std::sort`; what opens the connections of pools,
-- and the MySQL, SQLite and curl bindings; templates of repro-web, and the files of translations.
pub mod Prelude
pub mod Text
pub mod Base64
pub mod UrlEncode
pub mod QueryParams
pub mod Cookie
pub mod Headers
pub mod Path
pub mod Request
pub mod Reader
pub mod Url
pub mod Frame
pub mod WebSocket
pub mod Pool
pub mod Redis
pub mod Response
pub mod Writer
pub mod Conversation
pub mod Sessions
pub mod FrontController
pub mod Ssi
pub mod Jwt
pub mod Client
pub mod Translations
pub mod Tests
