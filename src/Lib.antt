-- ===== src/Lib.antt =====
-- The message bus eagine-msgbus: its messages and queues, the transfer of blobs, the security
-- context, the endpoint, and the router.
--
-- A message has a header with ids, a hop counter, an age and a priority. Connections and endpoints
-- keep messages in queues. A blob that does not fit a message travels as fragments, which a pending
-- blob puts together in any order and hands to a target. A router forwards messages between the
-- nodes that are connected to it and its parent router; it assigns ids, knows the subscriptions of
-- the endpoints, and adopts the connections that it accepted once they are known. An endpoint asks a
-- router for an id, keeps what is posted before it has one, and sorts incoming messages into the
-- queues of its subscriptions. A context keeps the certificates and keys of the other nodes.
--
-- Paths are from the repository's root; `core` stands for source/modules/eagine/core.
--
-- Prelude: the library's names, Boolean tests, lists and integers that the other files share.
-- Core: priorities, the broadcast id, and the parts of the library eagine.core that the bus calls,
--   as records of operations with the laws that its documentation gives (memory blocks, the double
--   buffer, timers), and the operations of `float`. The conversion to `std::int8_t` is such a record
--   in Message/Info.
-- Samples: an instance of each of these records for the tests.
-- Message/Info: `message_info` and `message_view` (core/message.cpp, core/message_impl.cpp).
-- Message/Sweep: the loop that the queues share. Message/Queue: `message_priority_queue`.
--   Message/Storage: `message_storage`; Message/Serialized: `serialized_message_storage`, with the
--   bits of the packed messages as a number (Serialized/Bits, Serialized/Marked). Message/Connection:
--   `serialize_message`, `connection_outgoing_messages` and `connection_incoming_messages`, over
--   the record `HeaderCodec`, whose law is that a header is read back with the bytes behind it.
-- Blobs/Parts: the loop over `fragment_parts` in `pending_blob::merge_fragment` and
--   `merge_resend_request` (core/blobs_impl.cpp), which the rounds of Blobs/Pending share.
-- Blobs/Io: `source_blob_io` and `target_blob_io`, with the laws of a source that holds a blob and of
--   a target that collects one as interfaces.
-- Blobs/Pending: `pending_blob`, as a receiver; Blobs/Pending/Source: as a sender. Blobs/Buffer:
--   `buffer_blob_io`, which fills both interfaces. Blobs/Stream: `blob_stream_io`.
-- Blobs/Manipulator: `blob_manipulator` (core/blobs_impl.cpp). Its child Outgoing has
--   `process_outgoing` and what it calls, Incoming has `push_incoming_fragment` and
--   `process_incoming`, Upkeep has the requests of the other side, cleanup and complete blobs. The
--   serialization is the record `BlobCodec`, whose law is that a header that was written is read back
--   with the bytes behind it.
-- Context: `context` (core/context.cpp, core/context_impl.cpp). The library eagine.sslplus is the
--   record `Ssl`; what the random number engine yields is an argument. Context/Steps has the calls
--   that change a context, Context/Certified is about the certificates of other nodes, Context/Keys
--   about signatures, Context/Renewed about a certificate that replaces another.
-- Endpoint: the state of `endpoint` and what it sends (core/endpoint.cpp, core/endpoint_impl.cpp).
--   Endpoint/Say: the messages to routers and other endpoints. Endpoint/Queues: subscriptions and
--   their queues. Endpoint/Special: the handlers of special messages. Endpoint/Receive:
--   `_handle_special`, `_store_message` and `_accept_message`. Endpoint/Update: `update`,
--   `flush_outbox` and what they call. Endpoint/Signed: `post_signed` and `store_and_sign`. What a
--   connection does in its own `update` and hands over in `fetch_messages` is the argument
--   `ConnectionWork`. The modules called Kept show what no operation changes; Endpoint/Steps joins
--   the operations to a step relation, and Endpoint/Reachable is about sequences of steps.
-- Router/Ident: message ids. Router/Ids: `router_ids`. Router/Subscriptions: `router_endpoint_info`.
--   Router/Wire: what is handed to connections. Router/Node: `adjacent_node` and `parent_router`.
--   Router/Nodes: `router_nodes`. Router/Pending: `router_pending`. Router/Routing: `_forward_to`,
--   `_route_targeted_message`, `_route_broadcast_message` and `_route_message`. Router/Handlers:
--   handlers of special messages. Router/Blobs: `router_blobs`. Router/Dispatch: the other handlers,
--   `_handle_special_common` and `_do_handle_special`. Router/Messages: `_handle_node_message`,
--   `_handle_parent_message` and `say_bye`. Router/Adoption: `_adopt_pending`. Router/Timeouts:
--   `remove_timeouted` and the link to the parent router (core/router.cpp, core/router_impl.cpp).
-- The modules below a component are named for what they show.
--
-- State: an operation of a class takes the state as a record and returns the new one with its
-- result. Containers are lists and maps are association lists. Times are numbers, and a clock is
-- read into an argument. Sizes and offsets are natural numbers, as the code asks for them in the
-- range of `span_size_t`; ids wrap at 2 ^ 64; the hop counter and the age are signed and bounded.
-- A connection accepts or refuses a message depending on all that was sent before. What a handler
-- or a target does is a parameter too.
--
-- An `assert` of the source is no part of a definition, which does what a build without assertions
-- does. `IsAsserted` in Blobs/Stream says what those of `blob_stream_io::store_fragment` demand.
--
-- Fuel: only the loop of `get_next_id` runs on fuel. Twice the end of the range is enough where the
-- search ends.
--
-- Not modelled: locks and worker threads (the calls are taken one after another); logging and
-- statistics but for counters of messages; the encryption of messages and the format in which
-- values are serialized, which other libraries do; the template `post_value` of the endpoint; the
-- buffer pool of the blobs, which only recycles memory; what statistics contain; the certificates
-- that the router keeps; the loops of the router over its connections; the connections themselves,
-- the bridge, the registry, the services and the cache of remote nodes.
pub mod Prelude
pub mod Core
pub mod Message
pub mod Blobs
pub mod Context
pub mod Endpoint
pub mod Router
pub mod Samples
