-- ===== src/Lib.antt =====
-- Verification of RMVL: the message transfer protocol, the discovery of nodes and the transform tree
-- of modules/lpss, the HTTP messages, requests on a connection and WebSocket frames of modules/io,
-- the string functions of modules/core and the containers of modules/algorithm.
--
-- Parts, and the sources they stand for:
-- - Lpss/Guid: Guid and Locator of modules/lpss/include/rmvl/lpss/details/node_util.hpp.
-- - Lpss/Rsd: RNDPMessage and REDPMessage of modules/lpss/src/node_rsd.cpp. A node announces itself
--   by the first and its endpoints by the second; serialize and deserialize are rndp_serialize,
--   rndp_deserialize, redp_serialize and redp_deserialize. A write or a read outside of a buffer is
--   `none`.
-- - Lpss/Mtp: modules/lpss/src/node_rmtp.cpp. A writer cuts a message into datagrams (Header,
--   Capacity, Send), and a reader puts it together again (Assembly). MTPHeader::create and
--   set_fragment are create and set_fragment, parse_header keeps its name, sendMTPMessage is
--   send_mtp_message, and accept_fragment is accept_fragment with its blocks as functions:
--   remove_expired, accept_parsed, store, store_new, reserve_memory and finish. The state of the
--   reader is the record Reassembly: `_asms` and `_asm_bytes`.
-- - Lpss/Mtp/Endpoints: DataWriterBase and DataReaderBase. The tables of targets and sources, by
--   GUID, choose between shared memory and UDP; write and read join them with Send and Assembly.
--   The two `add` and `remove` are add_reader_endpoint, remove_reader_endpoint, add_writer_endpoint
--   and remove_writer_endpoint.
-- - Lpss/Node: Node of modules/lpss/src/node.cpp, by its tables. A message in rndp_listener and in
--   redp_listener is a step rndp_listen and redp_listen, a round of heartbeat_detect keeps its name, and
--   shutdown gives what it sends. They join Rsd, which reads the messages, with the tables of the
--   local writers and readers of Mtp/Endpoints. The blocks that a loop runs under its locks follow one
--   another without another thread in between.
-- - Lpss/Tf: tf::Buffer of modules/lpss/src/transform.cpp, the tree of coordinate frames. setImpl is
--   set_impl, with its search and its changes as set_transform and store_transform; lookup keeps its
--   name, with a function for each of its loops. Geometry has the transforms, Times the times
--   (with their sum and difference, of modules/lpss/src/node.cpp), Edges the samples of an edge, Forest the shape of the tree, Invariant and Lookup the proofs on
--   changes and lookups.
-- - Algorithm/Heap and Algorithm/Union: RaHeap and UnionFind of
--   modules/algorithm/include/rmvl/algorithm/datastruct.hpp, as definitions.
-- - Core/Str: rm::str of modules/core/src/core.cpp, under its names.
-- - Io/Http: modules/io/src/netapp.cpp. Request::parse and generate are parse_request and
--   generate_request, and likewise for Response; set, status, get, attachment, redirect, send and
--   sendFile are functions on responses; statics and cors are the middleware, which change a
--   response that a request gets; parseURL is parse_url.
-- - Io/Http/Boundary: get_http_request_boundary and read_http_request. A connection is the list of the
--   chunks that its reads give before it is closed; each read after them gives an empty string.
--   Io/Http/Client: _generate and requests::request, as generate_client
--   and request.
-- - Io/Routes and Io/Webapp: RoutePattern, Router and Webapp. The constructor of a pattern is
--   route_pattern, match is match_route, _handle is handle, the two Webapp::use are use_router and
--   use_middleware, and handle_client keeps its name: it joins Boundary, the parser, the routes and
--   the handshake of Io/Websocket. What it writes is the result.
-- - Io/Websocket/Frames: WebSocket::send and recv.
-- - Io/Websocket: SHA1, base64_encode and generate_accept_key of modules/io/src/ws_aux.hpp. Padding
--   has the padding of a text by RFC 3174, in one place, and Updates how updates are joined.
-- - Bytes and Dict: strings and buffers as lists of bytes, std::unordered_map as an association
--   list, whose order stands for the iteration order that the sources leave open.
--
-- Machine integers keep their wrap-around (`% 2 ^ w`). Integers that are copied byte by byte are
-- little-endian, as on the hosts that the library is built for. Time is a number of clock ticks that
-- comes with each datagram. The host's network interfaces, its shared memory and its files, the
-- library's version, the date and the parameters that the build generates (para::lpss_param) are
-- arguments, and so are std::regex, the handlers of routes and the resolution of hosts.
-- Signed integers of Lpss/Tf are written as what they exceed their least value by. Its doubles are a
-- parameter, a type with the operations and the constants that the code uses; no law is assumed.
--
-- Bounds: most loops are structural. The rounds of reserve4Memory are the number of entries: each
-- round removes one. Fragments are sent with the number of rounds that the code computes. The loops
-- of split and of the HTTP head lines have one round more than there are characters: a round takes
-- at least one, for a delimiter that is not empty. `decimal` writes 20 digits at most, which a
-- 64-bit word never exceeds. The heap's loops have as many rounds as elements, since an index at
-- least halves or doubles, and findRep one more than there are parents. The loops over the tree of
-- frames have one round more than there are edges, which Steps-le shows to be enough. The
-- loop over the lines of a request's head has one round more than there are characters, and that of a
-- route's pattern too: boundary-Ends and route_pattern_lem show that these are enough. The loop of
-- read_http_request and those of recv over the header of a frame have no bound in the code: they get
-- a number of rounds, one more than there are chunks for the first (read_until-Ends), and as many as
-- the caller names for the others, which recv_closed shows not to end on a connection that is closed.
--
-- Not modelled: sockets, the loops that accept connections, signals, locks, pauses and logging; the
-- coroutine versions of the endpoints and of the client's requests, which repeat the same
-- operations; the floating-point parts (algorithm, controllers, filters, navigation maps); the
-- wrappers of third-party libraries (OPC UA, cameras, inference, YAML, TLS, JSON).
pub mod Prelude
pub mod Dict
pub mod Bytes
pub mod Lpss
pub mod Core
pub mod Algorithm
pub mod Io
mod Tests
