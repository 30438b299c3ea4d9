-- ===== src/Endpoint/Update/Kept.antt =====
-- The work of an endpoint keeps to the relation of Endpoint/Kept: `update` with its parts,
-- `flush_outbox` and `finish` of source/modules/eagine/core/endpoint_impl.cpp.
use eagine_msgbus.Prelude.{
  ℕ, ◌≡◌, refl, ap, ◌∙◌, inl, inr, arith, Bool, true, false, not, ◌&&◌, Option, none, some, List,
  [], ◌∷◌, ltb, length, if◌then◌else◌, ◌⊎◌,
}
use eagine_msgbus.Core.{is_valid_id}
use eagine_msgbus.Message.Info.{Message, default_info}
use eagine_msgbus.Message.Sweep.{sweep}
use eagine_msgbus.Message.Storage.{Stored, fetch_all, release_stored}
use eagine_msgbus.Router.Ident.{MessageId, special, request_id, ann_endpt_id, rtr_cert_qry}
use eagine_msgbus.Blobs.Manipulator.{Sent}
use eagine_msgbus.Blobs.Manipulator.Outgoing.{process_outgoing}
use eagine_msgbus.Blobs.Manipulator.Upkeep.{handle_complete}
use eagine_msgbus.Blobs.Manipulator.Upkeep
use eagine_msgbus.Endpoint.{
  Endpoint, EndpointEnvironment, State, has_id, has_preconfigured_id, count_sent, empty_message,
  do_send,
}
use eagine_msgbus.Endpoint.Say.{say_still_alive, say_bye}
use eagine_msgbus.Endpoint.Kept.{
  Kept, Kept-trans, Kept-others, Kept-refl, Kept-if, Kept-option, Kept-sent, count_sent-Kept,
  do_send-Kept, post-Kept, connection_works-Kept, connection_fails-Kept,
}
use eagine_msgbus.Endpoint.Receive.Kept.{store_message-Kept}
use eagine_msgbus.Endpoint.Update.{
  Arrival, ConnectionWork, Moment, max_data_size, update_no_connection, check_connection, send_raw,
  post_all, posts, process_blobs, update_request_id, update_check_id, send_outbox, flush_outbox,
  finish, store_arrived, update_connection, notify_alive, update,
}

module _ {Timeout F Cert Key Store : Type 0} where
  check_connection-Kept :
      (usable : Bool) (e : Endpoint Timeout F Cert Key Store) → Kept e (check_connection usable e).0
  unfolding check_connection
  check_connection-Kept true e =
      Kept-if {X = Endpoint Timeout F Cert Key Store × Bool} (λ x. x.0) e e.had_working_connection _
        _ (λ _. Kept-refl e) (λ _. connection_works-Kept e)
  check_connection-Kept false e =
      Kept-if {X = Endpoint Timeout F Cert Key Store × Bool} (λ x. x.0) e e.had_working_connection _
        _ (λ _. connection_fails-Kept e) (λ _. Kept-refl e)

module _ {Timeout F Cert Key Store : Type 0}
    (env : EndpointEnvironment Timeout F Cert Key Store) where
  open env use {blob_env}
  open blob_env use {timers}

  post_all-Kept : (now : ℕ) (xs : List Sent) (e : State env) → Kept e (post_all env now xs e)
  unfolding post_all
  post_all-Kept now [] e = Kept-refl e
  post_all-Kept now (x ∷ xs) e = Kept-trans (post-Kept env now x.0 x.1 e) (post_all-Kept now xs _)

  process_blobs-Kept :
      (now : ℕ) (usable : Bool) (size : Option ℕ) (e : State env)
      → Kept e (process_blobs env now usable size e).0
  unfolding process_blobs
  process_blobs-Kept now usable size e =
      let complete = (handle_complete e.blobs).0 in
      let e1 : State env = record e { blobs = complete } in
      let k : Kept e e1 = Kept-others e e1 refl refl refl refl refl in
      Kept-option {X = State env × Bool} (λ x. x.0) e (max_data_size usable size e1) _ _ k
        (λ max_size.
          let r2 = Upkeep.update blob_env (posts env now e1) now max_size complete [] in
          let e1' : State env = record e1 { blobs = r2.0 } in
          let e2 = post_all env now r2.1 e1' in
          let r3 = process_outgoing blob_env (posts env now e2) now max_size 2 r2.0 [] in
          let e2' : State env = record e2 { blobs = r3.0 } in
          Kept-trans (Kept-others e e1' refl refl refl refl refl) (
            Kept-trans (post_all-Kept now r2.1 e1') (
              Kept-trans (Kept-others e2 e2' refl refl refl refl refl)
                (post_all-Kept now r3.1 e2'))))

  raw-Kept :
      (link : ℕ) (msg_id : MessageId) (message : Message) (e : State env)
      → (msg_id ≡ special request_id)
        ⊎ ((msg_id ≡ special ann_endpt_id) × (message.info.source_id ≡ e.preconfd_id))
      → Kept e (count_sent (send_raw env link msg_id message e))
  unfolding send_raw
  raw-Kept link msg_id message e may =
      Kept-trans (Kept-sent env link msg_id message e (inr may)) (count_sent-Kept env _)

  update_request_id-Kept :
      (now link : ℕ) (e : State env) → Kept e (update_request_id env now link e).0
  unfolding update_request_id
  update_request_id-Kept now link e =
      Kept-if {X = State env × Bool} (λ x. x.0) e (has_preconfigured_id e) _ _ (λ _. Kept-refl e)
        (λ _.
          Kept-trans (raw-Kept link (special request_id) empty_message e (inl refl))
            (Kept-others _ _ refl refl refl refl refl))

  update_check_id-Kept : (now link : ℕ) (e : State env) → Kept e (update_check_id env now link e).0
  unfolding update_check_id
  update_check_id-Kept now link e =
      Kept-if {X = State env × Bool} (λ x. x.0) e (has_id e) _ _
        (λ h.
          let k = do_send-Kept env (special ann_endpt_id) empty_message e h in
          Kept-trans k (
            do_send-Kept env (special rtr_cert_qry) empty_message _
              (ap is_valid_id (k.same_id h) ∙ h)))
        (λ _.
          Kept-if {X = State env × Bool} (λ x. x.0) e
            (has_preconfigured_id e && timers.is_expired now e.no_id_timeout) _ _
            (λ _.
              Kept-trans
                (raw-Kept link (special ann_endpt_id)
                  (record empty_message {
                    info = record default_info { source_id = e.preconfd_id };
                  })
                  e (inr (refl, refl)))
                (Kept-others _ _ refl refl refl refl refl))
            (λ _. Kept-refl e))

  -- The handler of `fetch_all`, called for message after message.
  sweep-Kept :
      (mark : Stored MessageId → Stored MessageId) (xs : List (Stored MessageId)) (e : State env)
      → has_id e ≡ true
      → Kept e (sweep (λ s x. do_send env x.msg_id x.message s) mark e xs).state
  unfolding sweep
  sweep-Kept mark [] e h = Kept-refl e
  sweep-Kept mark (x ∷ xs) e h =
      let k = do_send-Kept env x.msg_id x.message e h in
      Kept-trans k (sweep-Kept mark xs _ (ap is_valid_id (k.same_id h) ∙ h))

  send_outbox-Kept : (e : State env) → has_id e ≡ true → Kept e (send_outbox env e).0
  unfolding send_outbox fetch_all
  send_outbox-Kept e h =
      Kept-trans (sweep-Kept release_stored e.outgoing e h)
        (Kept-others _ _ refl refl refl refl refl)

  pub flush_outbox-Kept : (e : State env) → Kept e (flush_outbox env e)
  unfolding flush_outbox
  flush_outbox-Kept e = Kept-if (λ x. x) e (has_id e) _ _ (send_outbox-Kept e) (λ _. Kept-refl e)

  pub finish-Kept : (now : ℕ) (e : State env) → Kept e (finish env now e)
  unfolding finish say_bye
  finish-Kept now e = Kept-trans (post-Kept env now _ _ e) (flush_outbox-Kept _)

  store_arrived-Kept :
      (t : Moment) (xs : List Arrival) (e : State env) → Kept e (store_arrived env t xs e)
  unfolding store_arrived
  store_arrived-Kept t [] e = Kept-refl e
  store_arrived-Kept t (x ∷ xs) e =
      Kept-trans (store_message-Kept env t.now t.random t.blob_age x.msg_id x.age x.message e)
        (store_arrived-Kept t xs _)

  update_connection-Kept :
      (t : Moment) (w : ConnectionWork) (link : ℕ) (e : State env)
      → Kept e (update_connection env t w link e).0
  unfolding update_connection
  update_connection-Kept t w link e =
      let e1 = (check_connection w.usable e).0 in
      let r2 : State env × Bool =
        if not (has_id e) && timers.is_expired t.now e1.no_id_timeout
        then update_request_id env t.now link e1
        else (e1, false) in
      let e3 = store_arrived env t w.arrived r2.0 in
      Kept-trans (check_connection-Kept w.usable e) (
        Kept-trans
          (Kept-if {X = State env × Bool} (λ x. x.0) e1
            (not (has_id e) && timers.is_expired t.now e1.no_id_timeout) _ _
            (λ _. update_request_id-Kept t.now link e1) (λ _. Kept-refl e1))
          (Kept-trans (store_arrived-Kept t w.arrived r2.0) (
            Kept-if {X = State env × Bool} (λ x. x.0) e3 (has_id e) _ _ (λ _. Kept-refl e3)
              (λ _. update_check_id-Kept t.now link e3))))

  notify_alive-Kept : (now : ℕ) (e : State env) → Kept e (notify_alive env now e)
  unfolding notify_alive say_still_alive
  notify_alive-Kept now e =
      Kept-if (λ x. x) e (timers.is_expired now e.should_notify_alive) _ _
        (λ _. Kept-trans (Kept-others e _ refl refl refl refl refl) (post-Kept env now _ _ _))
        (λ _. Kept-refl e)

  pub update-Kept : (t : Moment) (w : ConnectionWork) (e : State env) → Kept e (update env t w e).0
  unfolding update update_no_connection
  update-Kept t w e =
      let e1 = (process_blobs env t.now w.usable_first w.max_data_size e).0 in
      let r2 : State env × Bool = elim e1.connection [
        | none ↦ update_no_connection e1
        | some link ↦ update_connection env t w link e1
      ] in
      let e3 = notify_alive env t.now r2.0 in
      Kept-trans (process_blobs-Kept t.now w.usable_first w.max_data_size e) (
        Kept-trans
          (Kept-option {X = State env × Bool} (λ x. x.0) e1 e1.connection (update_no_connection e1)
            (λ link. update_connection env t w link e1) (connection_fails-Kept e1)
            (λ link. update_connection-Kept t w link e1))
          (Kept-trans (notify_alive-Kept t.now r2.0) (
            Kept-if {X = State env × Bool} (λ x. x.0) e3 (has_id e3 && ltb 0 (length e3.outgoing)) _
              _ (λ h. send_outbox-Kept e3 (ground arith)) (λ _. Kept-refl e3))))
