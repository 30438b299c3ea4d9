-- ===== src/Endpoint/Tests.antt =====
-- Runs of an endpoint on concrete messages (source/modules/eagine/core/endpoint_impl.cpp).
use eagine_msgbus.Prelude.{
  ℕ, ◌≡◌, refl, Bool, true, false, some, List, [], ◌∷◌, ◌++◌, ◌&&◌, map, if◌then◌else◌, leb, length,
  drop,
}
use eagine_msgbus.Prelude.Int.{pos}
use eagine_msgbus.Message.Info.{Message, default_info, add_age}
use eagine_msgbus.Message.Queue
use eagine_msgbus.Router.Ident.{special, user, assign_id, same}
use eagine_msgbus.Samples.{int8, packing}
use eagine_msgbus.Samples.Blobs.{environment}
use eagine_msgbus.Samples.Ssl.{ssl}
use eagine_msgbus.Blobs.Manipulator.{Sent}
use eagine_msgbus.Context.{new_context}
use eagine_msgbus.Context.Steps.{made}
use eagine_msgbus.Message.Storage
use eagine_msgbus.Endpoint.Signed.{Signing, is_signed, post_signed, posts_unsigned}
use eagine_msgbus.Endpoint.{EndpointEnvironment, State, post, preconfigure_id}
use eagine_msgbus.Endpoint.Kept.{works_after, MaySendAll}
use eagine_msgbus.Endpoint.Queues.{find_incoming}
use eagine_msgbus.Endpoint.Receive.{store_message, is_for}
use eagine_msgbus.Endpoint.Update.{
  Moment, ConnectionWork, max_data_size, update, post_all, flush_outbox,
}
use eagine_msgbus.Endpoint.Steps.{Kind, working, preconfigured, updated, posted}
use eagine_msgbus.Endpoint.Reachable.{
  all_kinds, without_set_id, only_working, Reach, here, then_step, id_never_changes,
  signals_take_turns, sends_under_own_id,
}
use eagine_msgbus.Endpoint.Outbox.{sending_of, stored_of, flush_outbox-post_all}
use eagine_msgbus.Endpoint.Delivered.{state_of, store_message-incoming}

-- A connection that takes the first three messages.
abbrev env : EndpointEnvironment ℕ ℕ ℕ ℕ ℕ
env = record {
  accepts = λ wire sending. leb (length wire) 2;
  int8 = int8;
  blob_env = environment;
  ssl = ssl;
  encrypt_shared_password = λ nonce. some nonce;
  serialize = λ msg_id. some (1 ∷ []);
  topology_info = λ id instance. some (id ∷ []);
  statistics = λ stats. some (1 ∷ []);
  flow_info_of = λ bytes. some 5;
}

abbrev endpoint_with : ℕ → State env
endpoint_with id = record {
  context = new_context 0;
  preconfd_id = 0;
  endpoint_id = id;
  router_id = 0;
  instance_id = 77;
  stats = record { sent_messages = 0; received_messages = 0; dropped_messages = 0 };
  flow_info = 0;
  no_id_timeout = 0;
  should_notify_alive = 1000;
  connection = some 3;
  had_working_connection = false;
  outgoing = [];
  incoming = [];
  blobs = record {
    fragment_msg_id = user 1 1;
    resend_msg_id = user 1 2;
    prepare_msg_id = user 1 3;
    max_blob_size = 100;
    blob_id_sequence = 0;
    outgoing_index = 0;
    outgoing = [];
    incoming = [];
  };
  wire = [];
  signals = [];
}

abbrev hello : Message
hello = record { info = record default_info { source_id = 4; target_id = 6 }; content = 1 ∷ [] }

abbrev moment : Moment
moment = record { now = 10; random = 1 ∷ []; blob_age = λ msg_id message. pos 0 }

-- The router assigns the id 6, or tries to.
abbrev id_comes : ConnectionWork
id_comes = record {
  usable_first = true;
  usable = true;
  max_data_size = some 200;
  updated = true;
  arrived = record { msg_id = special assign_id; age = pos 0; message = hello } ∷ [];
  fetched = false;
}

abbrev later : State env → State env
later e = (post env 11 (user 1 2) hello (update env moment id_comes e).0).0

works :
    (allowed : Kind → Bool) (e : State env) → allowed working ≡ true → Reach env allowed e (later e)
works allowed e ok =
    then_step (then_step (here e) (updated moment id_comes e) ok)
      (posted 11 (user 1 2) hello (update env moment id_comes e).0) ok

id_never_changes_example : (preconfigure_id 3 (later (endpoint_with 8))).endpoint_id ≡ 8
id_never_changes_example =
    id_never_changes env
      (then_step (works without_set_id (endpoint_with 8) refl)
        (preconfigured 3 (later (endpoint_with 8))) refl)
      refl

signals_take_turns_example :
    works_after false (later (endpoint_with 0)).signals
    ≡ some (later (endpoint_with 0)).had_working_connection
signals_take_turns_example =
    signals_take_turns env (works all_kinds (endpoint_with 0) refl) refl refl

sends_under_own_id_example : MaySendAll (later (endpoint_with 0)) (later (endpoint_with 0)).wire
sends_under_own_id_example = sends_under_own_id env (works only_working (endpoint_with 0) refl) refl

abbrev two_posts : List Sent
two_posts = (user 1 2, hello) ∷ (user 1 3, hello) ∷ []

flush_outbox-post_all_example :
    let waiting = post_all env 10 two_posts (endpoint_with 0) in
    (flush_outbox env (record waiting { endpoint_id = 6; connection = some 3 })).wire
    ≡ [] ++ map (sending_of 3 6) ([] ++ map (stored_of env 10) two_posts)
flush_outbox-post_all_example =
    flush_outbox-post_all env 10 two_posts 3 6 (endpoint_with 0) refl refl

store_message-incoming_example :
    let e = endpoint_with 6 in
    let e' = store_message env 10 (1 ∷ []) (λ i x. pos 0) (user 1 2) (pos 100) hello e in
    let aged : Message = record hello { info = add_age int8 (pos 100) hello.info } in
    let old = state_of [] (user 1 2) in
    find_incoming e'.incoming (user 1 2) ≡ (
      if is_for env 10 (1 ∷ []) hello e && same (user 1 2) (user 1 2)
      then some (record old { queue = Queue.push environment.mem old.queue aged })
      else find_incoming [] (user 1 2))
store_message-incoming_example =
    store_message-incoming env 10 (1 ∷ []) (λ i x. pos 0) 1 2 (pos 100) hello (endpoint_with 6)
      (user 1 2)

abbrev signing : Signing ℕ
signing = record {
  packing = packing;
  get_data_with_size = λ block. drop 1 block;
  sign_final = λ key content room. some (key ∷ []);
  no_id = user 0 0;
}

posts_unsigned_example :
    post_signed signing env 10 true (some 50) (user 1 2) hello (endpoint_with 6) ≡ (
      record (endpoint_with 6) { outgoing = Storage.push environment.mem [] (user 1 2) hello 10 },
      true,
    )
unfolding is_signed max_data_size default_info
posts_unsigned_example =
    posts_unsigned signing env 10 true (some 50) (user 1 2) hello (endpoint_with 6) 50 (made 0) refl
      refl
