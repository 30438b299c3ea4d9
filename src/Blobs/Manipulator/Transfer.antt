-- ===== src/Blobs/Manipulator/Transfer.antt =====
-- The whole transfer of a blob between two nodes with buffers in memory (`blob_manipulator` and
-- `buffer_blob_io`, source/modules/eagine/core/blobs_impl.cpp).
use eagine_msgbus.Prelude.{
  ℕ, ◌≤◌, ◌<◌, ◌≡◌, ◌≢◌, refl, ap, ◌∙◌, Bool, true, ◌&&◌, ◌||◌, Option, some, List, [], ◌∷◌, arith,
  length, map, ◌==◌, lt→ltb, eq_of_get_elem?,
}
use eagine_msgbus.Core.{Priority, broadcast_id}
use eagine_msgbus.Message.Info.{MessageInfo}
use eagine_msgbus.Router.Ident.{MessageId, same}
use eagine_msgbus.Blobs.Parts.{Part}
use eagine_msgbus.Blobs.Parts.Coverage.{covers}
use eagine_msgbus.Blobs.Buffer.{
  buffer_source, buffer_target, buffer-Provides, buffer-Collects, total_size,
}
use eagine_msgbus.Blobs.Pending.{PendingBlob, parts_size, received_everything}
use eagine_msgbus.Blobs.Manipulator.{
  BlobEnvironment, BlobManipulator, Sent, message_size, next_blob_id, new_pending_blob,
  push_outgoing, make_target_io,
}
use eagine_msgbus.Blobs.Manipulator.Outgoing.{fragment_header, fragment_message}
use eagine_msgbus.Blobs.Manipulator.Incoming.{comes_from, is_expected, incoming_of}
use eagine_msgbus.Blobs.Manipulator.Upkeep.{fetched_message, completed, fetch_blobs}
use eagine_msgbus.Blobs.Manipulator.Fetching.{fetch_blobs-last}
use eagine_msgbus.Blobs.Manipulator.Pieces.{CarryAll}
use eagine_msgbus.Blobs.Manipulator.Rounds.{process_calls, blob_is_sent}
use eagine_msgbus.Blobs.Manipulator.Receiving.{NonePass, piece}
use eagine_msgbus.Blobs.Manipulator.Delivery.{deliver, blob_is_received}

-- An environment in which blobs are read from and stored in buffers.
abbrev pub in_memory :
    {Timeout F : Type 0}
    → BlobEnvironment (List ℕ) (List ℕ) Timeout F
    → BlobEnvironment (List ℕ) (List ℕ) Timeout F
in_memory env = record env {
  source = buffer_source env.mem env.floats.one;
  target = buffer_target env.mem;
}

length-map : {A B : Type 0} (f : A → B) (l : List A) → length (map f l) ≡ length l
length-map f [] = refl
length-map f (x ∷ l) = omega (arith, length-map f l)

module _ {Timeout F : Type 0} (env : BlobEnvironment (List ℕ) (List ℕ) Timeout F)
    (do_send : List Sent → Sent → Bool) (blob : List ℕ) where
  abbrev Pending : Type 0
  Pending = PendingBlob MessageId (List ℕ) (List ℕ) Timeout F

  abbrev Node : Type 0
  Node = BlobManipulator (List ℕ) (List ℕ) Timeout F

  make_target_io-some :
      (m : Node)
      → length blob < m.max_blob_size
      → (io : List ℕ) × (make_target_io (in_memory env) m (length blob) ≡ some io)
        × (length io ≡ length blob)
  unfolding make_target_io
  make_target_io-some m h = (
    map (λ _. 0) (env.mem.get_buffer (length blob)),
    rw (lt→ltb (length blob) m.max_blob_size h) refl,
    length-map _ (env.mem.get_buffer (length blob)) ∙ env.mem.get_buffer_lem (length blob),
  )

  -- What `fetch_all` hands over when the messages of the blob `p` have arrived.
  HandsOver : Pending → Node → Node → Type 0
  HandsOver p before after =
      let r = fetch_blobs some after in
      (r.0.incoming ≡ before.incoming)
      × ((info : MessageInfo) × (r.1
            ≡ fetched_message p.msg_id (record { info = info; content = blob }) ∷ [])
          × (info.source_id ≡ p.info.source_id))

  received_in_memory :
      (clock : ℕ → ℕ) (f : MessageId) (p : Pending) (received : List Sent) (pieces : List Part)
      (m : Node)
      → p.info.total_size ≡ length blob
      → 0 < length blob
      → length blob < m.max_blob_size
      → p.info.source_id ≢ broadcast_id
      → CarryAll (in_memory env) blob p f received pieces
      → ((x : ℕ) → x < length blob → covers pieces x ≡ true)
      → NonePass (comes_from (piece (in_memory env) blob p 0 0)) m.incoming
      → NonePass (is_expected (piece (in_memory env) blob p 0 0)) m.incoming
      → NonePass received_everything m.incoming
      → HandsOver p m (
          deliver
            (in_memory env)
            (λ _ size. make_target_io (in_memory env) m size)
            clock
            received
            m)
  unfolding completed HandsOver
  received_in_memory clock f p received pieces m total pos small known carried all fresh unexpected
        none_waits =
      let e = in_memory env in
      let get_io : MessageId → ℕ → Option (List ℕ) = λ _ size. make_target_io e m size in
      let (io, given, size) = make_target_io-some m small in
      let (q, here, complete, has, w) =
        blob_is_received e get_io blob (buffer-Collects env.mem blob) clock f p io received pieces m
          total pos known carried all fresh unexpected (ap (make_target_io e m) total ∙ given)
          size in
      let same_bytes : q.target_io ≡ blob =
        eq_of_get_elem? q.target_io blob w.assembling.ready has in
      let (left, handed) =
        fetch_blobs-last some (deliver e get_io clock received m) m.incoming q blob here none_waits
          complete (ap some same_bytes) in
      (left, ((completed q).message, rw (← w.msg) handed, w.source))

  -- The pending blob that `push_outgoing` appends.
  abbrev pushed_blob : ℕ → ℕ → MessageId → ℕ → ℕ → ℕ → ℕ → Priority → Node → Pending
  pushed_blob now max_time msg_id source_id target_id target_blob_id options priority sender =
      let fresh_blob : Pending = new_pending_blob (in_memory env) msg_id now in
      record fresh_blob {
        info = record {
          source_id = source_id;
          target_id = target_id;
          total_size = length blob;
          options = options;
          priority = priority;
        };
        source_io = blob;
        fragment_parts = ([], (0, length blob) ∷ []);
        linger_time = env.timers.reset now fresh_blob.linger_time;
        max_time = env.timers.timer now max_time;
        source_blob_id = next_blob_id sender.blob_id_sequence;
        target_blob_id = target_blob_id;
      }

  pushed :
      (now max_time : ℕ) (msg_id : MessageId) (source_id target_id target_blob_id options : ℕ)
      (priority : Priority) (sender : Node)
      → 0 < length blob
      → sender.outgoing ≡ []
      → let m =
          (push_outgoing
            (in_memory env)
            now
            msg_id
            source_id
            target_id
            target_blob_id
            blob
            max_time
            options
            priority
            sender).0 in
        let p =
          pushed_blob now max_time msg_id source_id target_id target_blob_id options priority
            sender in
        (m.outgoing ≡ p ∷ [])
        × (m.fragment_msg_id ≡ sender.fragment_msg_id)
        × (m.prepare_msg_id ≡ sender.prepare_msg_id)
  unfolding push_outgoing total_size
  pushed now max_time msg_id source_id target_id target_blob_id options priority sender pos idle =
      rw (push_outgoing, lt→ltb 0 (length blob) pos, idle) (refl, refl, refl)

  -- A blob that is not empty is pushed at a node that sends no other one, with room for a header in
  -- a message. The node then calls `process_outgoing` as often as the blob has bytes, or more often,
  -- and the messages reach another node, which knows no blob with this source and id, expects none
  -- that fits, has no complete blob that waits, and takes blobs of this size. Then `fetch_all` there
  -- hands over exactly one message, with the message id and the source of the transfer and the bytes
  -- of the blob, and leaves the incoming blobs as they were before the transfer.
  pub blob_is_transferred :
      (now max_time max_message_size max_messages : ℕ) (times : List ℕ) (clock : ℕ → ℕ)
      (msg_id : MessageId) (source_id target_id target_blob_id options : ℕ) (priority : Priority)
      (sender receiver : Node)
      → 0 < length blob
      → length blob ≤ length times
      → length blob < receiver.max_blob_size
      → 0 < max_messages
      → env.codec.max_header_size < message_size priority max_message_size
      → source_id ≢ broadcast_id
      → sender.outgoing ≡ []
      → let id = next_blob_id sender.blob_id_sequence in
        NonePass
          (λ (q : Pending). (q.info.source_id == source_id) && (q.source_blob_id == id))
          receiver.incoming
        → NonePass
            (λ (q : Pending).
              same q.msg_id msg_id
              && ((q.target_blob_id == target_blob_id)
                  && ((q.info.source_id == source_id) || (q.info.source_id == broadcast_id))))
            receiver.incoming
        → NonePass received_everything receiver.incoming
        → let pushed =
            push_outgoing
              (in_memory env)
              now
              msg_id
              source_id
              target_id
              target_blob_id
              blob
              max_time
              options
              priority
              sender in
          let sent =
            (process_calls
              (in_memory env)
              do_send
              max_message_size
              max_messages
              times
              pushed.0
              []).1 in
          let get_io : MessageId → ℕ → Option (List ℕ) =
            λ _ size. make_target_io (in_memory env) receiver size in
          let r = fetch_blobs some (deliver (in_memory env) get_io clock sent receiver) in
          (r.0.incoming ≡ receiver.incoming)
          × ((info : MessageInfo) × (r.1
                ≡ fetched_message msg_id (record { info = info; content = blob }) ∷ [])
              × (info.source_id ≡ source_id))
  unfolding new_pending_blob comes_from is_expected piece incoming_of fragment_message
      fragment_header parts_size HandsOver
  blob_is_transferred now max_time max_message_size max_messages times clock msg_id source_id
        target_id target_blob_id options priority sender receiver pos enough small some_messages
        room known idle fresh unexpected none_waits =
      let e = in_memory env in
      let p =
        pushed_blob now max_time msg_id source_id target_id target_blob_id options priority
          sender in
      let m =
        (push_outgoing e now msg_id source_id target_id target_blob_id blob max_time options
          priority sender).0 in
      let (there, fragment_id, prepare_id) =
        pushed now max_time msg_id source_id target_id target_blob_id options priority sender pos
          idle in
      let (_, new, pieces, _, _, sent, carried, all) =
        blob_is_sent e blob (buffer-Provides env.mem blob env.floats.one) do_send max_message_size
          sender.fragment_msg_id sender.prepare_msg_id max_messages times m p [] there some_messages
          fragment_id prepare_id room
          (record { full = (pos, omega arith, tt); total = refl; ready = refl }) (omega arith) in
      rw sent (
        received_in_memory clock sender.fragment_msg_id p new pieces receiver refl pos small known
          carried (λ x h. ground (arith, h, all x)) fresh unexpected none_waits)
