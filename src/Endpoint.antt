-- ===== src/Endpoint.antt =====
-- `endpoint` of source/modules/eagine/core/endpoint.cpp and endpoint_impl.cpp: the client of the bus,
-- with its connection to a router, the messages that wait to be sent and those that were received.
-- Logging is left out. The sources and targets of its blobs are blocks in memory. A slot
-- of a signal is not part of the model: `signals` records the calls, the newest last.
pub mod Kept
pub mod Say
pub mod Queues
pub mod Special
pub mod Receive
pub mod Update
pub mod Steps
pub mod Reachable
pub mod Outbox
pub mod Delivered
pub mod Signed
mod Tests
use eagine_msgbus.Prelude.{
  ℕ, ◌+◌, ◌-◌, Bool, true, false, not, ◌&&◌, Option, none, some, List, [], ◌∷◌, ◌++◌, ◌==◌, leb,
  if◌then◌else◌,
}
use eagine_msgbus.Core.{Priority, normal, Memory, is_valid_id, broadcast_id}
use eagine_msgbus.Message.Info.{Message, MessageInfo, Int8, default_info, setup_response}
use eagine_msgbus.Message.Storage.{Stored}
use eagine_msgbus.Message.Storage
use eagine_msgbus.Router.Ident.{
  MessageId, special, same, still_alive, not_a_router, bye_bye_endp, ept_cert_pem, ept_cert_qry,
  subscrib_to, not_sub_to, unsub_from, qry_subscrp, qry_subscrb, clr_blk_list, clr_alw_list,
  msg_blk_list, msg_alw_list,
}
use eagine_msgbus.Router.Wire.{Wire, Accepts, send_on}
use eagine_msgbus.Router.Blobs.{MemoryBlobs}
use eagine_msgbus.Blobs.Manipulator.{BlobEnvironment, push_outgoing}
use eagine_msgbus.Context.{
  next_sequence_no, Context, Ssl, has_bytes, add_own_certificate_pem, add_ca_certificate_pem,
}

pub data Signal : Type 0 where
  id_assigned : ℕ → Signal
  connection_established : Bool → Signal
  connection_lost : Signal

-- `incoming_state`
pub record IncomingState : Type 0 where
  pub subscription_count : ℕ
  pub queue : List Message

-- The map `_incoming`, of which no operation here depends on the order.
abbrev pub IncomingMap : Type 0
IncomingMap = List (MessageId × IncomingState)

-- `endpoint_statistics`
pub record EndpointStatistics : Type 0 where
  pub sent_messages : ℕ
  pub received_messages : ℕ
  pub dropped_messages : ℕ

-- The members of `endpoint`; `flow_info` is the average message age in milliseconds. The
-- connection is known by a number, and `wire` is what was handed to connections.
pub record Endpoint (Timeout F Cert Key Store : Type 0) : Type 0 where
  pub context : Context Cert Key Store
  pub preconfd_id : ℕ
  pub endpoint_id : ℕ
  pub router_id : ℕ
  pub instance_id : ℕ
  pub stats : EndpointStatistics
  pub flow_info : ℕ
  pub no_id_timeout : Timeout
  pub should_notify_alive : Timeout
  pub connection : Option ℕ
  pub had_working_connection : Bool
  pub outgoing : List (Stored MessageId)
  pub incoming : IncomingMap
  pub blobs : MemoryBlobs Timeout F
  pub wire : Wire
  pub signals : List Signal

-- What the operations call: connections, blobs, eagine.sslplus, the encryption of the password and
-- the serialization of eagine.core (of a message id, of the endpoint and instance ids, of the
-- statistics; and from a block the average message age).
pub record EndpointEnvironment (Timeout F Cert Key Store : Type 0) : Type 0 where
  pub accepts : Accepts
  pub int8 : Int8
  pub blob_env : BlobEnvironment (List ℕ) (List ℕ) Timeout F
  pub ssl : Ssl Cert Key Store
  pub encrypt_shared_password : List ℕ → Option (List ℕ)
  pub serialize : MessageId → Option (List ℕ)
  pub topology_info : ℕ → ℕ → Option (List ℕ)
  pub statistics : EndpointStatistics → Option (List ℕ)
  pub flow_info_of : List ℕ → Option ℕ

-- A message without content, `message_view{}`.
abbrev pub empty_message : Message
empty_message = record { info = default_info; content = [] }

module _ {Timeout F Cert Key Store : Type 0} where
  abbrev pub has_id : Endpoint Timeout F Cert Key Store → Bool
  has_id e = is_valid_id e.endpoint_id

  abbrev pub has_preconfigured_id : Endpoint Timeout F Cert Key Store → Bool
  has_preconfigured_id e = is_valid_id e.preconfd_id

  -- `set_id` and `preconfigure_id`
  unfoldable pub set_id : ℕ → Endpoint Timeout F Cert Key Store → Endpoint Timeout F Cert Key Store
  set_id id e = record e { endpoint_id = id }

  unfoldable pub preconfigure_id :
      ℕ → Endpoint Timeout F Cert Key Store → Endpoint Timeout F Cert Key Store
  preconfigure_id id e = record e { preconfd_id = id }

  -- `set_next_sequence_id`
  unfoldable pub set_next_sequence_id :
      MessageId
      → MessageInfo
      → Endpoint Timeout F Cert Key Store
      → Endpoint Timeout F Cert Key Store × MessageInfo × Bool
  set_next_sequence_id msg_id info e =
      let (context, number) = next_sequence_no msg_id e.context in
      (record e { context = context }, record info { sequence_no = number }, true)

  unfoldable pub emit :
      Signal → Endpoint Timeout F Cert Key Store → Endpoint Timeout F Cert Key Store
  emit signal e = record e { signals = e.signals ++ signal ∷ [] }

  -- After a message was sent,
  unfoldable pub connection_works :
      Endpoint Timeout F Cert Key Store → Endpoint Timeout F Cert Key Store
  connection_works e =
      if e.had_working_connection
      then e
      else emit (connection_established (has_id e)) (record e { had_working_connection = true })

  -- and after it could not be sent.
  unfoldable pub connection_fails :
      Endpoint Timeout F Cert Key Store → Endpoint Timeout F Cert Key Store
  connection_fails e =
      if e.had_working_connection
      then emit connection_lost (record e { had_working_connection = false })
      else e

  unfoldable pub count_sent : Endpoint Timeout F Cert Key Store → Endpoint Timeout F Cert Key Store
  count_sent e = record e { stats = record e.stats { sent_messages = e.stats.sent_messages + 1 } }

  unfoldable pub count_dropped :
      Endpoint Timeout F Cert Key Store → Endpoint Timeout F Cert Key Store
  count_dropped e = record e {
    stats = record e.stats { dropped_messages = e.stats.dropped_messages + 1 };
  }

module _ {Timeout F Cert Key Store : Type 0}
    (env : EndpointEnvironment Timeout F Cert Key Store) where
  open env use {accepts, blob_env, ssl}
  open blob_env use {mem}

  abbrev pub State : Type 0
  State = Endpoint Timeout F Cert Key Store

  -- `_do_send` behind the call of `send`, with its result,
  unfoldable pub note_sent : State → Wire × Bool → State × Bool
  note_sent e (wire, sent) =
      let e' = record e { wire = wire } in
      if sent then (connection_works (count_sent e'), true) else (connection_fails e', false)

  -- and all of it.
  unfoldable pub do_send : MessageId → Message → State → State × Bool
  do_send msg_id message e =
      let own : Message = record message {
        info = record message.info { source_id = e.endpoint_id };
      } in
      note_sent e (elim e.connection [
        | none ↦ (e.wire, false)
        | some link ↦ send_on accepts link msg_id own e.wire
      ])

  module _ (now : ℕ) where
    -- `post`
    unfoldable pub post : MessageId → Message → State → State × Bool
    post msg_id message e =
        if has_id e
        then do_send msg_id message e
        else (record e { outgoing = Storage.push mem e.outgoing msg_id message now }, true)

    -- `post_blob`, whose result is the id of the blob, and `broadcast_blob`
    unfoldable pub post_blob : MessageId → ℕ → ℕ → List ℕ → ℕ → Priority → State → State × ℕ
    post_blob msg_id target_id target_blob_id blob max_time priority e =
        let (blobs, id) =
          push_outgoing blob_env now msg_id e.endpoint_id target_id target_blob_id blob max_time 0
            priority e.blobs in
        (record e { blobs = blobs }, id)

    unfoldable pub broadcast_blob : MessageId → List ℕ → ℕ → Priority → State → State × Bool
    broadcast_blob msg_id blob max_time priority e =
        let (e', id) = post_blob msg_id broadcast_id 0 blob max_time priority e in
        (e', not (id == 0))

    -- `post_certificate` and `broadcast_certificate`
    unfoldable pub post_certificate : ℕ → ℕ → State → State × Bool
    post_certificate target_id target_blob_id e =
        let cert_pem = e.context.own_cert_pem in
        let (e', id) =
          post_blob (special ept_cert_pem) target_id target_blob_id cert_pem 30 normal e in
        if has_bytes cert_pem then (e', not (id == 0)) else (e, false)

    unfoldable pub broadcast_certificate : State → State × Bool
    broadcast_certificate e =
        let cert_pem = e.context.own_cert_pem in
        if has_bytes cert_pem
        then broadcast_blob (special ept_cert_pem) cert_pem 30 normal e
        else (e, false)

    -- `add_certificate_pem` and `add_ca_certificate_pem`
    unfoldable pub add_certificate_pem : List ℕ → State → State
    add_certificate_pem blk e =
        let (context, added) = add_own_certificate_pem mem ssl blk e.context in
        let e' = record e { context = context } in
        if added then (broadcast_certificate e').0 else e'

    unfoldable pub add_ca_certificate : List ℕ → State → State
    add_ca_certificate blk e =
        let (context, added) = add_ca_certificate_pem mem ssl blk e.context in
        let e' = record e { context = context } in
        if added then (broadcast_certificate e').0 else e'
