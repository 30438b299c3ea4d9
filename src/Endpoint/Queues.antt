-- ===== src/Endpoint/Queues.antt =====
-- The queues of the messages that an endpoint has received: `subscribe`, `unsubscribe`, `process_one`,
-- `process_all` and `process_everything` of source/modules/eagine/core/endpoint_impl.cpp.
use eagine_msgbus.Prelude.{
  ℕ, ◌+◌, ◌-◌, Bool, false, Option, none, some, [], ◌∷◌, leb, if◌then◌else◌,
}
use eagine_msgbus.Message.Info.{Message}
use eagine_msgbus.Message.Queue
use eagine_msgbus.Router.Ident.{MessageId, same}
use eagine_msgbus.Endpoint.{Endpoint, IncomingState, IncomingMap}

-- The operations of `_incoming`: a look-up,
unfoldable pub find_incoming : IncomingMap → MessageId → Option IncomingState
find_incoming [] msg_id = none
find_incoming (x ∷ xs) msg_id =
    let rest = find_incoming xs msg_id in if same x.0 msg_id then some x.1 else rest

-- a change of the state of a message id, which is there or is made new (`_ensure_incoming`),
unfoldable pub change_incoming :
    (IncomingState → IncomingState) → MessageId → IncomingMap → IncomingMap
change_incoming f msg_id [] = (msg_id, f (record { subscription_count = 0; queue = [] })) ∷ []
change_incoming f msg_id (x ∷ xs) =
    let rest = change_incoming f msg_id xs in
    if same x.0 msg_id then (x.0, f x.1) ∷ xs else x ∷ rest

-- and the removal.
unfoldable pub erase_incoming : MessageId → IncomingMap → IncomingMap
erase_incoming msg_id [] = []
erase_incoming msg_id (x ∷ xs) =
    let rest = erase_incoming msg_id xs in if same x.0 msg_id then xs else x ∷ rest

-- All messages of all queues go to a handler, which may change the state `S`.
unfoldable pub process_queues :
    {S : Type 0} → (S → MessageId → Message → S × Bool) → S → IncomingMap → S × IncomingMap × ℕ
process_queues handler s [] = (s, [], 0)
process_queues handler s ((msg_id, state) ∷ rest) =
    let (s', queue, gone) = Queue.process_all (λ t. handler t msg_id) s state.queue in
    let (s'', rest', more) = process_queues handler s' rest in
    (s'', (msg_id, record state { queue = queue }) ∷ rest', gone + more)

module _ {Timeout F Cert Key Store : Type 0} where
  -- `subscribe`
  unfoldable pub subscribe :
      MessageId → Endpoint Timeout F Cert Key Store → Endpoint Timeout F Cert Key Store
  subscribe msg_id e = record e {
    incoming =
        change_incoming (λ s. record s { subscription_count = s.subscription_count + 1 }) msg_id
          e.incoming;
  }

  -- `ensure_queue`, whose result is a reference to the queue.
  unfoldable pub ensure_queue :
      MessageId → Endpoint Timeout F Cert Key Store → Endpoint Timeout F Cert Key Store
  ensure_queue msg_id e = record e { incoming = change_incoming (λ s. s) msg_id e.incoming }

  -- `unsubscribe`; a count that falls to 0, or is 0 before, ends the queue with its messages.
  unfoldable pub unsubscribe :
      MessageId → Endpoint Timeout F Cert Key Store → Endpoint Timeout F Cert Key Store
  unsubscribe msg_id e = elim (find_incoming e.incoming msg_id) [
    | none ↦ e
    | some state ↦
        if leb state.subscription_count 1
        then record e { incoming = erase_incoming msg_id e.incoming }
        else record e {
          incoming =
              change_incoming (λ s. record s { subscription_count = s.subscription_count - 1 })
                msg_id e.incoming;
        }
  ]

  module _ {S : Type 0} where
    -- `process_one` and `process_all`, with the state of the handler.
    unfoldable pub process_one :
        (S → Message → S × Bool)
        → MessageId
        → S
        → Endpoint Timeout F Cert Key Store
        → S × Endpoint Timeout F Cert Key Store × Bool
    process_one handler msg_id s e = elim (find_incoming e.incoming msg_id) [
      | none ↦ (s, e, false)
      | some state ↦
          let (s', queue, handled) = Queue.process_one handler s state.queue in
          (
            s',
            record e {
              incoming = change_incoming (λ x. record x { queue = queue }) msg_id e.incoming;
            },
            handled,
          )
    ]

    unfoldable pub process_all :
        (S → Message → S × Bool)
        → MessageId
        → S
        → Endpoint Timeout F Cert Key Store
        → S × Endpoint Timeout F Cert Key Store × ℕ
    process_all handler msg_id s e = elim (find_incoming e.incoming msg_id) [
      | none ↦ (s, e, 0)
      | some state ↦
          let (s', queue, gone) = Queue.process_all handler s state.queue in
          (
            s',
            record e {
              incoming = change_incoming (λ x. record x { queue = queue }) msg_id e.incoming;
            },
            gone,
          )
    ]

    -- `process_everything`
    unfoldable pub process_everything :
        (S → MessageId → Message → S × Bool)
        → S
        → Endpoint Timeout F Cert Key Store
        → S × Endpoint Timeout F Cert Key Store × ℕ
    process_everything handler s e =
        let (s', incoming, gone) = process_queues handler s e.incoming in
        (s', record e { incoming = incoming }, gone)
