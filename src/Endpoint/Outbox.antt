-- ===== src/Endpoint/Outbox.antt =====
-- What becomes of the messages that are posted before the endpoint has an id
-- (`post`, `_handle_send` and `flush_outbox` of source/modules/eagine/core/endpoint_impl.cpp).
use mathlib.Core.Path.{subst, ap₂}
use mathlib.Core.List.{append-nil, append_assoc}
use eagine_msgbus.Prelude.{
  ℕ, ◌≡◌, refl, sym, ap, ◌∙◌, arith, Bool, true, false, none, some, List, [], ◌∷◌, ◌++◌, map,
  length, if◌then◌else◌,
}
use eagine_msgbus.Core.{is_valid_id}
use eagine_msgbus.Message.Sweep.{sweep}
use eagine_msgbus.Message.Storage.{Stored, fetch_all, release_stored, is_released}
use eagine_msgbus.Message.Storage
use eagine_msgbus.Router.Ident.{MessageId}
use eagine_msgbus.Router.Wire.{Sending, send_on}
use eagine_msgbus.Endpoint.{
  EndpointEnvironment, State, has_id, emit, count_sent, connection_works, connection_fails,
  note_sent, do_send, post,
}
use eagine_msgbus.Blobs.Manipulator.{Sent}
use eagine_msgbus.Endpoint.Update.{post_all, send_outbox, flush_outbox}

-- A stored message as it goes out.
pub sending_of : ℕ → ℕ → Stored MessageId → Sending
sending_of link id x = record {
  link = link;
  msg_id = x.msg_id;
  message = record x.message { info = record x.message.info { source_id = id } };
}

module _ {Timeout F Cert Key Store : Type 0}
    (env : EndpointEnvironment Timeout F Cert Key Store) where
  -- What a call of `_do_send` leaves alone, and that it hands the message to the connection.
  record SendsOne (e e' : State env) (sending : Sending) : Type 0 where
    same_link : e'.connection ≡ e.connection
    same_id : e'.endpoint_id ≡ e.endpoint_id
    handed_on : e'.wire ≡ e.wire ++ sending ∷ []

  note_sent-SendsOne :
      (e : State env) (sending : Sending) (sent : Bool)
      → SendsOne e (note_sent env e (e.wire ++ sending ∷ [], sent)).0 sending
  unfolding note_sent connection_works connection_fails count_sent emit
  note_sent-SendsOne e sending true = ground arith
  note_sent-SendsOne e sending false = ground arith

  do_send-SendsOne :
      (link : ℕ) (x : Stored MessageId) (e : State env)
      → e.connection ≡ some link
      → SendsOne e (do_send env x.msg_id x.message e).0 (sending_of link e.endpoint_id x)
  unfolding do_send send_on sending_of
  do_send-SendsOne link x e c =
      subst
        (λ o.
          SendsOne e
            (note_sent env e (elim o [
              | none ↦ (e.wire, false)
              | some l ↦
                  send_on env.accepts l x.msg_id
                    (record x.message {
                      info = record x.message.info { source_id = e.endpoint_id };
                    })
                    e.wire
            ])).0
            (sending_of link e.endpoint_id x))
        (sym c)
        (note_sent-SendsOne e (sending_of link e.endpoint_id x)
          (env.accepts e.wire (sending_of link e.endpoint_id x)))

  sweep-wire :
      (link : ℕ) (xs : List (Stored MessageId)) (e : State env)
      → e.connection ≡ some link
      → (sweep (λ s x. do_send env x.msg_id x.message s) release_stored e xs).state.wire
        ≡ e.wire ++ map (sending_of link e.endpoint_id) xs
  unfolding sweep
  sweep-wire link [] e c = sym (append-nil e.wire)
  sweep-wire link (x ∷ xs) e c =
      let s = do_send-SendsOne link x e c in
      sweep-wire link xs (do_send env x.msg_id x.message e).0 (s.same_link ∙ c)
      ∙ (ap (λ i. (do_send env x.msg_id x.message e).0.wire ++ map (sending_of link i) xs) s.same_id
          ∙ (ap (λ w. w ++ map (sending_of link e.endpoint_id) xs) s.handed_on
              ∙ append_assoc e.wire _ _))

  -- Flushing hands every waiting message to the connection once, in order.
  flush_outbox-wire :
      (link : ℕ) (e : State env)
      → has_id e ≡ true
      → e.connection ≡ some link
      → (flush_outbox env e).wire ≡ e.wire ++ map (sending_of link e.endpoint_id) e.outgoing
  unfolding flush_outbox send_outbox fetch_all
  flush_outbox-wire link e h c =
      ap (λ b. (if b then (send_outbox env e).0 else e).wire) h ∙ sweep-wire link e.outgoing e c

  -- A message that was posted, as it is stored.
  pub stored_of : ℕ → Sent → Stored MessageId
  stored_of now x = record { msg_id = x.0; message = x.1; insert_time = now }

  post-outgoing :
      (now : ℕ) (x : Sent) (e : State env)
      → has_id e ≡ false
      → let e' = (post env now x.0 x.1 e).0 in
        (e'.outgoing ≡ e.outgoing ++ stored_of now x ∷ [])
        × (e'.endpoint_id ≡ e.endpoint_id)
        × (e'.wire ≡ e.wire)
  unfolding post stored_of Storage.push
  post-outgoing now x e n = ground (
    arith,
    env.blob_env.mem.copy_into_lem x.1.content (env.blob_env.mem.get_buffer (length x.1.content)),
  )

  post_all-outgoing :
      (now : ℕ) (xs : List Sent) (e : State env)
      → has_id e ≡ false
      → let e' = post_all env now xs e in
        (e'.outgoing ≡ e.outgoing ++ map (stored_of now) xs)
        × (e'.endpoint_id ≡ e.endpoint_id)
        × (e'.wire ≡ e.wire)
  unfolding post_all
  post_all-outgoing now [] e n = (sym (append-nil e.outgoing), refl, refl)
  post_all-outgoing now (x ∷ xs) e n =
      let (o, i, w) = post-outgoing now x e n in
      let (o', i', w') =
        post_all-outgoing now xs (post env now x.0 x.1 e).0 (ap is_valid_id i ∙ n) in
      (o' ∙ (ap (λ l. l ++ map (stored_of now) xs) o ∙ append_assoc e.outgoing _ _), i' ∙ i, w' ∙ w)

  -- Nothing that is posted before an endpoint has an id is lost: when it has got one and a connection,
  -- flushing the outbox hands the messages that waited before, and then those that were posted, to
  -- the connection, each once, in order, and under the new id.
  pub flush_outbox-post_all :
      (now : ℕ) (xs : List Sent) (link id : ℕ) (e : State env)
      → has_id e ≡ false
      → is_valid_id id ≡ true
      → let posted = post_all env now xs e in
        (flush_outbox env (record posted { endpoint_id = id; connection = some link })).wire
        ≡ e.wire ++ map (sending_of link id) (e.outgoing ++ map (stored_of now) xs)
  flush_outbox-post_all now xs link id e n valid =
      let posted = post_all env now xs e in
      let (o, i, w) = post_all-outgoing now xs e n in
      flush_outbox-wire link (record posted { endpoint_id = id; connection = some link }) valid refl
      ∙ ap₂ (λ x y. x ++ map (sending_of link id) y) w o
