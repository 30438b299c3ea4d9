-- ===== src/Endpoint/Steps.antt =====
-- The operations of an endpoint as steps, and what those that do not set its ids keep
-- (source/modules/eagine/core/endpoint.cpp and endpoint_impl.cpp).
use eagine_msgbus.Prelude.{ℕ, refl, Bool, Option, List, leb, if◌then◌else◌}
use eagine_msgbus.Core.{Priority, broadcast_id}
use eagine_msgbus.Context.{Context, has_bytes, add_own_certificate_pem, add_ca_certificate_pem}
use eagine_msgbus.Message.Info.{Message, MessageInfo}
use eagine_msgbus.Router.Ident.{MessageId}
use eagine_msgbus.Endpoint.{
  set_id, preconfigure_id, IncomingMap, set_next_sequence_id, EndpointEnvironment, State, post,
  post_blob, broadcast_blob, broadcast_certificate, add_certificate_pem, add_ca_certificate,
}
use eagine_msgbus.Endpoint.Say.{post_meta_message, post_meta_message_to}
use eagine_msgbus.Endpoint.Kept.{
  Kept, Kept-trans, Kept-others, Kept-refl, Kept-if, Kept-option, post-Kept,
}
use eagine_msgbus.Endpoint.Queues.{
  find_incoming, subscribe, unsubscribe, process_one, process_all, process_everything, ensure_queue,
}
use eagine_msgbus.Endpoint.Receive.{accept_message}
use eagine_msgbus.Endpoint.Special.Kept.{post_blob-Kept}
use eagine_msgbus.Endpoint.Receive.Kept.{accept_message-Kept}
use eagine_msgbus.Endpoint.Update.{
  max_data_size, Moment, ConnectionWork, add_connection, flush_outbox, finish, update,
}
use eagine_msgbus.Endpoint.Signed.{Signing, post_signed}
use eagine_msgbus.Endpoint.Update.Kept.{flush_outbox-Kept, finish-Kept, update-Kept}

-- `set_id` and `preconfigure_id` change the ids; all other operations are at work.
pub data Kind : Type 0 where
  working setting_id preconfiguring : Kind

module _ {Timeout F Cert Key Store : Type 0}
    (env : EndpointEnvironment Timeout F Cert Key Store) where
  -- The public operations of an endpoint with the default store handler, and `_accept_message`, which is for friends
  -- of the class; but for `post_value`, which cannot be called. What is not here is one of these with other arguments:
  -- the messages that an endpoint says, queries, broadcasts and responses are posted. `used_directly` stands for all that
  -- callers do with the references that `ctx` and `ensure_queue` return.
  pub data Step : Kind → State env → State env → Type 1 where
    updated :
        (t : Moment) (w : ConnectionWork) (e : State env) → Step working e (update env t w e).0
    connected : (link : ℕ) (e : State env) → Step working e (add_connection link e).0
    flushed : (e : State env) → Step working e (flush_outbox env e)
    finished : (now : ℕ) (e : State env) → Step working e (finish env now e)
    posted :
        (now : ℕ) (msg_id : MessageId) (message : Message) (e : State env)
        → Step working e (post env now msg_id message e).0
    posted_meta :
        (now : ℕ) (meta_msg_id msg_id : MessageId) (e : State env)
        → Step working e (post_meta_message env now meta_msg_id msg_id e)
    posted_meta_to :
        (now target_id : ℕ) (meta_msg_id msg_id : MessageId) (e : State env)
        → Step working e (post_meta_message_to env now target_id meta_msg_id msg_id e)
    posted_blob :
        (now : ℕ) (msg_id : MessageId) (target_id target_blob_id : ℕ) (blob : List ℕ) (max_time : ℕ)
        (priority : Priority) (e : State env)
        → Step working e
            (post_blob env now msg_id target_id target_blob_id blob max_time priority e).0
    certified :
        (now : ℕ) (blk : List ℕ) (e : State env)
        → Step working e (add_certificate_pem env now blk e)
    ca_certified :
        (now : ℕ) (blk : List ℕ) (e : State env) → Step working e (add_ca_certificate env now blk e)
    subscribed : (msg_id : MessageId) (e : State env) → Step working e (subscribe msg_id e)
    unsubscribed : (msg_id : MessageId) (e : State env) → Step working e (unsubscribe msg_id e)
    accepted :
        (t : Moment) (msg_id : MessageId) (message : Message) (e : State env)
        → Step working e (accept_message env t.now t.random t.blob_age msg_id message e).0
    processed_one :
        {S : Type 0} (handler : S → Message → S × Bool) (msg_id : MessageId) (s : S) (e : State env)
        → Step working e (process_one handler msg_id s e).1
    processed_all :
        {S : Type 0} (handler : S → Message → S × Bool) (msg_id : MessageId) (s : S) (e : State env)
        → Step working e (process_all handler msg_id s e).1
    processed_everything :
        {S : Type 0} (handler : S → MessageId → Message → S × Bool) (s : S) (e : State env)
        → Step working e (process_everything handler s e).1
    signed_posted :
        (signing : Signing Key) (now : ℕ) (usable : Bool) (size : Option ℕ) (msg_id : MessageId)
        (message : Message) (e : State env)
        → Step working e (post_signed signing env now usable size msg_id message e).0
    sequence_set :
        (msg_id : MessageId) (info : MessageInfo) (e : State env)
        → Step working e (set_next_sequence_id msg_id info e).0
    queue_ensured : (msg_id : MessageId) (e : State env) → Step working e (ensure_queue msg_id e)
    used_directly :
        (context : Context Cert Key Store) (incoming : IncomingMap) (e : State env)
        → Step working e (record e { context = context; incoming = incoming })
    id_set : (id : ℕ) (e : State env) → Step setting_id e (set_id id e)
    preconfigured : (id : ℕ) (e : State env) → Step preconfiguring e (preconfigure_id id e)

  meta-Kept :
      (now : ℕ) (meta_msg_id msg_id : MessageId) (e : State env)
      → Kept e (post_meta_message env now meta_msg_id msg_id e)
  unfolding post_meta_message
  meta-Kept now meta_msg_id msg_id e =
      Kept-option (λ x. x) e (env.serialize msg_id) _ _ (Kept-refl e)
        (λ serialized. post-Kept env now meta_msg_id _ e)

  meta_to-Kept :
      (now target_id : ℕ) (meta_msg_id msg_id : MessageId) (e : State env)
      → Kept e (post_meta_message_to env now target_id meta_msg_id msg_id e)
  unfolding post_meta_message_to
  meta_to-Kept now target_id meta_msg_id msg_id e =
      Kept-option (λ x. x) e (env.serialize msg_id) _ _ (Kept-refl e)
        (λ serialized. post-Kept env now meta_msg_id _ e)

  broadcast_certificate-Kept :
      (now : ℕ) (e : State env) → Kept e (broadcast_certificate env now e).0
  unfolding broadcast_certificate broadcast_blob
  broadcast_certificate-Kept now e =
      Kept-if {X = State env × Bool} (λ x. x.0) e (has_bytes e.context.own_cert_pem) _ _
        (λ _. post_blob-Kept env now _ broadcast_id 0 _ _ _ e) (λ _. Kept-refl e)

  added-Kept :
      (now : ℕ) (context : Context Cert Key Store) (added : Bool) (e : State env)
      → let e' : State env = record e { context = context } in
        Kept e (if added then (broadcast_certificate env now e').0 else e')
  added-Kept now context added e =
      let e' : State env = record e { context = context } in
      let k : Kept e e' = Kept-others e e' refl refl refl refl refl in
      Kept-if (λ x. x) e added _ _ (λ _. Kept-trans k (broadcast_certificate-Kept now e')) (λ _. k)

  unsubscribe-Kept : (msg_id : MessageId) (e : State env) → Kept e (unsubscribe msg_id e)
  unfolding unsubscribe
  unsubscribe-Kept msg_id e =
      Kept-option (λ x. x) e (find_incoming e.incoming msg_id) _ _ (Kept-refl e)
        (λ state.
          Kept-if (λ x. x) e (leb state.subscription_count 1) _ _
            (λ _. Kept-others e _ refl refl refl refl refl)
            (λ _. Kept-others e _ refl refl refl refl refl))

  pub Step-Kept : {e e' : State env} → Step working e e' → Kept e e'
  unfolding add_connection subscribe add_certificate_pem add_ca_certificate process_one process_all
      process_everything post_signed set_next_sequence_id ensure_queue
  Step-Kept (updated t w e) = update-Kept env t w e
  Step-Kept (connected link e) = Kept-others e _ refl refl refl refl refl
  Step-Kept (flushed e) = flush_outbox-Kept env e
  Step-Kept (finished now e) = finish-Kept env now e
  Step-Kept (posted now msg_id message e) = post-Kept env now msg_id message e
  Step-Kept (posted_meta now meta_msg_id msg_id e) = meta-Kept now meta_msg_id msg_id e
  Step-Kept (posted_meta_to now target_id meta_msg_id msg_id e) =
      meta_to-Kept now target_id meta_msg_id msg_id e
  Step-Kept (posted_blob now msg_id target_id target_blob_id blob max_time priority e) =
      post_blob-Kept env now msg_id target_id target_blob_id blob max_time priority e
  Step-Kept (certified now blk e) =
      let r = add_own_certificate_pem env.blob_env.mem env.ssl blk e.context in
      added-Kept now r.0 r.1 e
  Step-Kept (ca_certified now blk e) =
      let r = add_ca_certificate_pem env.blob_env.mem env.ssl blk e.context in
      added-Kept now r.0 r.1 e
  Step-Kept (subscribed msg_id e) = Kept-others e _ refl refl refl refl refl
  Step-Kept (unsubscribed msg_id e) = unsubscribe-Kept msg_id e
  Step-Kept (accepted t msg_id message e) =
      accept_message-Kept env t.now t.random t.blob_age msg_id message e
  Step-Kept (processed_one {S} handler msg_id s e) =
      Kept-option {X = S × State env × Bool} (λ x. x.1) e (find_incoming e.incoming msg_id) _ _
        (Kept-refl e) (λ state. Kept-others e _ refl refl refl refl refl)
  Step-Kept (processed_all {S} handler msg_id s e) =
      Kept-option {X = S × State env × ℕ} (λ x. x.1) e (find_incoming e.incoming msg_id) _ _
        (Kept-refl e) (λ state. Kept-others e _ refl refl refl refl refl)
  Step-Kept (processed_everything handler s e) = Kept-others e _ refl refl refl refl refl
  Step-Kept (signed_posted signing now usable size msg_id message e) =
      Kept-option {X = State env × Bool} (λ x. x.0) e (max_data_size usable size e) _ _
        (Kept-refl e) (λ n. Kept-others e _ refl refl refl refl refl)
  Step-Kept (sequence_set msg_id info e) = Kept-others e _ refl refl refl refl refl
  Step-Kept (queue_ensured msg_id e) = Kept-others e _ refl refl refl refl refl
  Step-Kept (used_directly context incoming e) = Kept-others e _ refl refl refl refl refl
