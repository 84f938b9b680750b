-- ===== src/Lib.antt =====
-- The C client of the repository, ably-c: its hash map, its base64 and VCDIFF codecs, its channels,
-- presence members and connection, its frames in JSON and MessagePack, its REST client over HTTP and
-- its WebSocket transport. The realtime client sends and receives frames over the WebSocket; a
-- channel that has lost messages fetches them with the REST client.
--
-- Prelude: numbers, tests, lists as arrays, bit operations as arithmetic.
--
-- Hashmap (ably-c/src/hashmap.c, hashmap.h): the fixed-capacity map behind presence. `init`, `put`,
--   `get`, `remove`, `clear` and `iter_next` are the `ably_hashmap_` functions; the probing loops
--   are `put_probe`, `get_probe` and `remove_probe`, on a count of probes that the source bounds by
--   the capacity. A NULL pointer is `none`, a C string the list of its bytes. Hashmap.Valid has the
--   invariant, Hashmap.Spec the abstract map, Hashmap.Refine the refinement, Hashmap.Iterate the
--   iteration.
--
-- Base64 (ably-c/src/base64.c): `encode`, `decode` and the two size functions on byte lists.
--   `decode` answers `none` for -1.
--
-- Vcdiff (ably-c/src/delta/vcdiff.c): the decoder of message deltas. Vcdiff.Varint is `read_varint`,
--   Vcdiff.Table `build_code_table`, Vcdiff.Machine `execute_copy` and the loop over instructions,
--   Vcdiff.Window the rest of `ably_vcdiff_decode`. A read or write outside a buffer is the result
--   `undefined`, the end of the model's fuel the result `stuck`; each round of a loop takes a byte,
--   so the length of the input is the fuel. The sum of the section lengths can wrap, which is why
--   Vcdiff.Small is about deltas without large numbers.
--
-- Realtime (ably-c/src/realtime): Realtime.SendRing is the outbound ring and the serial counter of
--   realtime_client.c, Realtime.SendQueue the queue that it implements. Realtime.Presence is the
--   pool, the map and the SYNC sequence of presence.c, over the hash map; Realtime.Members, Joins,
--   Sync, Pages, Kept and Frames have its invariant and what a SYNC sequence makes of the members.
--   Realtime.Subscribers and Subscribed are the subscriber table of presence.c. The threads take
--   `send_mutex` around each operation on the ring, so a run of theirs is a sequence of operations.
--
-- Types (ably-c/include/ably/ably_types.h, ably-c/src/realtime/protocol.h): the types that the parts
--   share. The encoders of protocol.h are a record of functions that the other parts take;
--   `Json.Encode.json_codec` and `Msgpack.Encode.msgpack_codec` fill it.
--
-- Json (ably-c/src/realtime/protocol_json.c): Json.Tree is the tree that cJSON parses and prints,
--   Json.Encode the encoders, with the frame of `encode_action_channel` byte by byte, Json.Decode
--   `ably_proto_decode_json` for the fields that the client reads. `cJSON_Parse` and
--   `cJSON_PrintUnformatted` are parameters.
--
-- Msgpack (ably-c/src/realtime/protocol_msgpack.c): the same over mpack, whose parser and writer are
--   parameters. Msgpack.Nodes threads the string pool of the frame and the error state of the tree
--   through the reads, Msgpack.Decode is `ably_proto_decode_msgpack`, Msgpack.Encode the encoders.
--
-- Channel (ably-c/src/realtime/channel.c, channel.h): Channel.Listeners is the subscriber array and
--   the loop that calls it, Channel.Delta the payload of a message (a buffer that a dropped delta
--   has written over is `none`), Channel.Pending the queue for
--   messages published while the channel attaches. Channel.Site has `ably_channel_t` with what it
--   uses of its client, and the calls of the user's callbacks as a list of events; Channel.Receive
--   is `ably_channel_on_frame` with `rt_recover_gap`, Channel.Control the operations that send
--   frames or set options, Channel.Steps a run of all of them, Channel.Delivered the queue with the
--   frames of Json. The other modules are named for what they prove. A callback for messages may
--   change the subscriber array; what else it does is left out. Gap recovery asks for 50 pages at
--   most, as the source does.
--
-- Client (ably-c/src/realtime/realtime_client.c, realtime_client.h): Client.State is the client and
--   its channel table, Client.Dispatch `rt_dispatch_frame`, Client.Service one pass of the outer
--   loop of `service_thread_fn`, Client.Polling `ably_rt_step`, Client.Url the URL. The network, the
--   clock, `auth_cb` and the other threads are inputs of a pass; the double arithmetic of the
--   backoff is a parameter, and its clamp is modelled. Options below 0 are the case of 0. Frames that
--   arrive while the service thread waits in `ably_ws_close` are left out.
--
-- Http (ably-c/src/http/http_client.c): Http.Headers is `parse_response_headers`, on the bytes read
--   so far; a pointer into them is an index. Http.Exchange has the requests and the loop that fills
--   the response buffer; connecting, the TLS handshake, `send_all` and the reads are a parameter
--   that answers a request by a list of read results.
--
-- Rest (ably-c/src/rest/rest_client.c): Rest.Text, Rest.Paths and Rest.Cursor are the texts
--   (encoding, paths, the cursor of a Link header), Rest.Bodies the trees that are sent and read,
--   Rest.Calls the calls over the HTTP client, Rest.Stats the stats, Rest.Token the token request. A
--   path that the code writes behind its array is `none`. Rest.History is `ably_channel_history`.
--   Rest.Recovery joins the history with the gap recovery of the channels.
--
-- WebSocket (ably-c/src/ws/ws_client.c): WebSocket.Upgrade is the opening handshake and
--   `ably_ws_connect`, WebSocket.Transport receiving, sending and closing. What mbedTLS, wslay and
--   `poll` answer is given call by call; inputs that run out are a peer that goes away or is silent.
--
-- A `size_t` and a `uint64_t` have 64 bits, and their wrap-around is written out where it can occur.
-- Numbers of JSON and MessagePack are natural numbers, the type double of the stats included; an
-- `int` that is read from one is its bit pattern.
--
-- Not modelled: logging, assertions (`rt_enqueue_frame`, `ably_hashmap_init`), allocation, mutexes, threads, sockets and TLS, which are calls of the
-- system and of the vendored mbedtls; cJSON, mpack and wslay themselves, whose answers are
-- parameters; creating and freeing the clients; `ably_rt_client_connect` and `ably_rt_client_close`,
-- which start and stop threads; negative numbers in frames, queries and answers; the C++ wrapper,
-- the examples and the Java connector.
pub mod Prelude
pub mod Hashmap
pub mod Base64
pub mod Vcdiff
pub mod Types
pub mod Channel
pub mod Client
pub mod Http
pub mod Realtime
pub mod Msgpack
pub mod WebSocket
pub mod Json
pub mod Rest
