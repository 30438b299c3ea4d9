-- ===== src/Endpoint/Update.antt =====
-- The work of an endpoint: `add_connection`, `max_data_size`, `_process_blobs`, `flush_outbox`,
-- `finish` and `update` with its parts, of source/modules/eagine/core/endpoint_impl.cpp. The result
-- of most tells whether something was done. `post_value` and `post_signed`, which serialize and sign
-- with other libraries, and `process_everything` are left out.
pub mod Kept
use eagine_msgbus.Prelude.{
  ℕ, ◌+◌, Bool, true, false, not, ◌&&◌, ◌||◌, Option, none, some, List, [], ◌∷◌, ltb, length,
  if◌then◌else◌,
}
use eagine_msgbus.Prelude.Int.{ℤ}
use eagine_msgbus.Message.Info.{Message, default_info}
use eagine_msgbus.Message.Storage.{fetch_all}
use eagine_msgbus.Router.Ident.{MessageId, special, request_id, ann_endpt_id, rtr_cert_qry}
use eagine_msgbus.Router.Wire.{send_on}
use eagine_msgbus.Blobs.Manipulator.{Sent}
use eagine_msgbus.Blobs.Manipulator.Outgoing.{process_outgoing}
use eagine_msgbus.Blobs.Manipulator.Upkeep.{handle_complete}
use eagine_msgbus.Blobs.Manipulator.Upkeep
use eagine_msgbus.Endpoint.{
  Endpoint, EndpointEnvironment, State, connection_established, connection_lost, has_id,
  has_preconfigured_id, emit, count_sent, connection_works, connection_fails, empty_message,
  do_send, post,
}
use eagine_msgbus.Endpoint.Say.{say_still_alive, say_bye}
use eagine_msgbus.Endpoint.Receive.{store_message}

-- A message that the connection hands to the store handler.
pub record Arrival : Type 0 where
  pub msg_id : MessageId
  pub age : ℤ
  pub message : Message

-- What the connection says during an update: whether it is usable, when blobs are processed and
-- later; the size of the messages that it takes; what its `update` returns, what it fetches, and the
-- result of `fetch_messages`.
pub record ConnectionWork : Type 0 where
  pub usable_first : Bool
  pub usable : Bool
  pub max_data_size : Option ℕ
  pub updated : Bool
  pub arrived : List Arrival
  pub fetched : Bool

-- What else an update depends on: the clock, random bytes and the ages of complete blobs.
pub record Moment : Type 0 where
  pub now : ℕ
  pub random : List ℕ
  pub blob_age : MessageId → Message → ℤ

module _ {Timeout F Cert Key Store : Type 0} where
  -- `add_connection`, of a connection that is there.
  unfoldable pub add_connection :
      ℕ → Endpoint Timeout F Cert Key Store → Endpoint Timeout F Cert Key Store × Bool
  add_connection link e = (record e { connection = some link }, true)

  -- `max_data_size`; a size of 0 is no size.
  unfoldable pub max_data_size : Bool → Option ℕ → Endpoint Timeout F Cert Key Store → Option ℕ
  max_data_size usable size e = elim e.connection [
    | none ↦ none
    | some _ ↦ elim size [ none ↦ none | some n ↦ if usable && ltb 0 n then some n else none ]
  ]

  -- `_update_no_connection`
  unfoldable pub update_no_connection :
      Endpoint Timeout F Cert Key Store → Endpoint Timeout F Cert Key Store × Bool
  update_no_connection e = (connection_fails e, e.had_working_connection)

  -- The look at the connection in `update`.
  unfoldable pub check_connection :
      Bool → Endpoint Timeout F Cert Key Store → Endpoint Timeout F Cert Key Store × Bool
  check_connection usable e =
      if e.had_working_connection
      then (if usable then (e, false) else (connection_fails e, true))
      else (if usable then (connection_works e, true) else (e, false))

module _ {Timeout F Cert Key Store : Type 0}
    (env : EndpointEnvironment Timeout F Cert Key Store) where
  open env use {accepts, blob_env}
  open blob_env use {timers}

  -- A call of `connection::send` whose result is not looked at.
  unfoldable pub send_raw : ℕ → MessageId → Message → State env → State env
  send_raw link msg_id message e = record e {
    wire = (send_on accepts link msg_id message e.wire).0;
  }

  -- The calls of the post handler.
  unfoldable pub post_all : ℕ → List Sent → State env → State env
  post_all now [] e = e
  post_all now (x ∷ xs) e = post_all now xs (post env now x.0 x.1 e).0

  -- What the post handler returns, after what was posted before.
  unfoldable pub posts : ℕ → State env → List Sent → Sent → Bool
  posts now e earlier x = (post env now x.0 x.1 (post_all now earlier e)).1

  -- `_process_blobs`; a target in memory does nothing in `handle_finished`.
  unfoldable pub process_blobs : ℕ → Bool → Option ℕ → State env → State env × Bool
  process_blobs now usable size e =
      let (complete, calls) = handle_complete e.blobs in
      let e1 : State env = record e { blobs = complete } in
      let done = ltb 0 (length calls) in
      elim (max_data_size usable size e1) [
        | none ↦ (e1, done)
        | some max_size ↦
            let (blobs2, sent2, done2) =
              Upkeep.update blob_env (posts now e1) now max_size complete [] in
            let e2 = post_all now sent2 (record e1 { blobs = blobs2 }) in
            let (blobs3, sent3, done3) =
              process_outgoing blob_env (posts now e2) now max_size 2 blobs2 [] in
            (post_all now sent3 (record e2 { blobs = blobs3 }), done || (done2 || done3))
      ]

  -- `_update_request_id`, on the connection `link`
  unfoldable pub update_request_id : ℕ → ℕ → State env → State env × Bool
  update_request_id now link e =
      let asked = count_sent (send_raw link (special request_id) empty_message e) in
      if has_preconfigured_id e
      then (e, false)
      else (record asked { no_id_timeout = timers.reset now asked.no_id_timeout }, true)

  -- `_update_check_id`
  unfoldable pub update_check_id : ℕ → ℕ → State env → State env × Bool
  update_check_id now link e =
      let announced = (do_send env (special ann_endpt_id) empty_message e).0 in
      let preconfigured = count_sent (
        send_raw link (special ann_endpt_id)
          (record empty_message { info = record default_info { source_id = e.preconfd_id } }) e) in
      if has_id e
      then ((do_send env (special rtr_cert_qry) empty_message announced).0, true)
      else (if has_preconfigured_id e && timers.is_expired now e.no_id_timeout
          then (record preconfigured { no_id_timeout = timers.reset now e.no_id_timeout }, true)
          else (e, false))

  -- `_update_send_outbox`: `fetch_all` of the outgoing messages with `_handle_send`.
  unfoldable pub send_outbox : State env → State env × Bool
  send_outbox e =
      let (e', left, sent) =
        fetch_all (λ t. t) (λ s msg_id age message. do_send env msg_id message s) e e.outgoing in
      (record e' { outgoing = left }, sent)

  -- `flush_outbox`; what the connection does in its own `update` and `cleanup` is not modelled.
  unfoldable pub flush_outbox : State env → State env
  flush_outbox e = if has_id e then (send_outbox e).0 else e

  -- `finish`
  unfoldable pub finish : ℕ → State env → State env
  finish now e = flush_outbox (say_bye env now e).0

  -- The calls of the store handler in `fetch_messages`.
  unfoldable pub store_arrived : Moment → List Arrival → State env → State env
  store_arrived t [] e = e
  store_arrived t (x ∷ xs) e =
      store_arrived t xs (store_message env t.now t.random t.blob_age x.msg_id x.age x.message e)

  -- What `update` does with a connection.
  unfoldable pub update_connection : Moment → ConnectionWork → ℕ → State env → State env × Bool
  update_connection t w link e =
      let (e1, done1) = check_connection w.usable e in
      let requested = update_request_id t.now link e1 in
      let (e2, done2) =
        if not (has_id e) && timers.is_expired t.now e1.no_id_timeout
        then requested
        else (e1, false) in
      let e3 = store_arrived t w.arrived e2 in
      let (e4, done4) = if has_id e then (e3, false) else update_check_id t.now link e3 in
      (e4, done1 || (done2 || (w.updated || (w.fetched || done4))))

  -- The notice that the endpoint is alive, from time to time (`resetting_timeout`).
  unfoldable pub notify_alive : ℕ → State env → State env
  notify_alive now e =
      if timers.is_expired now e.should_notify_alive
      then (say_still_alive env now
          (record e { should_notify_alive = timers.reset now e.should_notify_alive })).0
      else e

  -- `update`
  unfoldable pub update : Moment → ConnectionWork → State env → State env × Bool
  update t w e =
      let (e1, done1) = process_blobs t.now w.usable_first w.max_data_size e in
      let (e2, done2) : State env × Bool = elim e1.connection [
        | none ↦ update_no_connection e1
        | some link ↦ update_connection t w link e1
      ] in
      let e3 = notify_alive t.now e2 in
      let (e4, done4) =
        if has_id e3 && ltb 0 (length e3.outgoing) then send_outbox e3 else (e3, false) in
      (e4, done1 || (done2 || done4))
