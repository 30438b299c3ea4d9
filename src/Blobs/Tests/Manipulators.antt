-- ===== src/Blobs/Tests/Manipulators.antt =====
-- Runs of the blob manipulator on a small blob (source/modules/eagine/core/blobs_impl.cpp).
use eagine_msgbus.Prelude.{
  ℕ, ◌≤◌, ◌<◌, ◌≡◌, refl, Bool, true, false, not, ◌&&◌, List, [], ◌∷◌, ◌++◌, arith, length, Option,
  some, none, ◌*◌, ◌/◌, if◌then◌else◌,
}
use eagine_msgbus.Core.{normal}
use eagine_msgbus.Message.Info.{Message, MessageInfo, default_info}
use eagine_msgbus.Router.Ident.{MessageId, user}
use eagine_msgbus.Samples.Blobs.{environment}
use eagine_msgbus.Blobs.Parts.{Part}
use eagine_msgbus.Blobs.Parts.Coverage.{covers}
use eagine_msgbus.Blobs.Buffer.{buffer-Provides}
use eagine_msgbus.Blobs.Pending.{PendingBlob, todo_parts, parts_size, merge_resend_request}
use eagine_msgbus.Blobs.Manipulator.{
  message_size, BlobManipulator, Sent, push_outgoing, make_target_io,
}
use eagine_msgbus.Blobs.Manipulator.Upkeep.{fetched_message, fetch_blobs, done_begin_end}
use eagine_msgbus.Blobs.Manipulator.Refused.{is_well_formed, process_incoming_lem}
use eagine_msgbus.Blobs.Manipulator.Missing.{IsMissing, done_begin_end-IsMissing}
use eagine_msgbus.Blobs.Manipulator.Stalled.{process_pending_at, resend_stalls}
use eagine_msgbus.Blobs.Manipulator.Incoming.{process_incoming}
use eagine_msgbus.Blobs.Manipulator.Pieces.{CarryAll}
use eagine_msgbus.Blobs.Manipulator.Rounds.{process_calls, blob_is_sent}
use eagine_msgbus.Blobs.Manipulator.Delivery.{deliver}
use eagine_msgbus.Blobs.Manipulator.Transfer.{in_memory, blob_is_transferred}

abbrev blob : List ℕ
blob = 7 ∷ 8 ∷ 9 ∷ []

abbrev node : BlobManipulator (List ℕ) (List ℕ) ℕ ℕ
node = record {
  fragment_msg_id = user 1 1;
  resend_msg_id = user 1 2;
  prepare_msg_id = user 1 3;
  max_blob_size = 100;
  blob_id_sequence = 0;
  outgoing_index = 0;
  outgoing = [];
  incoming = [];
}

abbrev accept_all : List Sent → Sent → Bool
accept_all sent s = true

abbrev pending : PendingBlob MessageId (List ℕ) (List ℕ) ℕ ℕ
pending = record {
  msg_id = user 2 1;
  info = record { source_id = 5; target_id = 6; total_size = 3; options = 0; priority = normal };
  source_io = blob;
  target_io = [];
  fragment_parts = ([], (0, 3) ∷ []);
  latest_update = 0;
  linger_time = 15;
  prepare_update_time = 5;
  max_time = 60;
  source_blob_id = 1;
  target_blob_id = 2;
  prepare_progress = 0;
  previous_progress = 0;
}

abbrev sender : BlobManipulator (List ℕ) (List ℕ) ℕ ℕ
sender = record node { outgoing = pending ∷ [] }

abbrev times : List ℕ
times = 1 ∷ 2 ∷ 3 ∷ []

three_to_do : parts_size (todo_parts pending) ≤ length times
unfolding parts_size
three_to_do = omega arith

room : 10 < message_size normal 16
unfolding message_size
room = omega arith

blob_is_sent_example :
    let r = process_calls environment accept_all 16 4 times sender [] in
    (q : PendingBlob MessageId (List ℕ) (List ℕ) ℕ ℕ) × (new : List Sent) × (pieces : List Part)
    × (r.0.outgoing ≡ q ∷ [])
    × (todo_parts q ≡ [])
    × (r.1 ≡ [] ++ new)
    × CarryAll environment blob pending (user 1 1) new pieces
    × ((x : ℕ) → (covers (todo_parts pending) x && not (covers pieces x)) ≡ false)
blob_is_sent_example =
    blob_is_sent environment blob (buffer-Provides environment.mem blob 1000) accept_all 16
      (user 1 1) (user 1 3) 4 times sender pending [] refl (omega arith) refl refl room
      (record { full = (omega arith, omega arith, tt); total = refl; ready = refl }) three_to_do

blob_is_transferred_example :
    let pushed = push_outgoing (in_memory environment) 0 (user 2 1) 5 6 2 blob 60 0 normal node in
    let sent = (process_calls (in_memory environment) accept_all 16 4 times pushed.0 []).1 in
    let get_io : MessageId → ℕ → Option (List ℕ) =
      λ _ size. make_target_io (in_memory environment) node size in
    let r = fetch_blobs some (deliver (in_memory environment) get_io (λ i. i) sent node) in
    (r.0.incoming ≡ [])
    × ((info : MessageInfo) × (r.1
          ≡ fetched_message (user 2 1) (record { info = info; content = blob }) ∷ [])
        × (info.source_id ≡ 5))
blob_is_transferred_example =
    blob_is_transferred environment accept_all blob 0 60 16 4 times (λ i. i) (user 2 1) 5 6 2 0
      normal node node (omega arith) (omega arith) (omega arith) (omega arith) room (omega arith)
      refl tt tt tt

-- A message that is too short for a header.
abbrev short_message : Message
short_message = record { info = default_info; content = 1 ∷ 2 ∷ [] }

process_incoming_lem_example :
    let r = process_incoming environment 0 (λ _ _. none) short_message node in
    (r.1 ≡ is_well_formed (environment.codec.read_header (1 ∷ 2 ∷ [])))
    × (if r.1 then Unit {0} else r.0 ≡ node)
process_incoming_lem_example = process_incoming_lem environment (λ _ _. none) 0 short_message node

abbrev some_done : List Part
some_done = (0, 3) ∷ (6, 9) ∷ []

done_begin_end-IsMissing_example :
    IsMissing some_done 12 (2 * 30 / 3) (done_begin_end some_done 12 30)
done_begin_end-IsMissing_example =
    done_begin_end-IsMissing some_done 12 30 (λ e. cc)
      (omega arith, omega arith, (omega arith, omega arith, tt)) (omega arith, (omega arith, tt))
      (omega arith)

resend_stalls_example :
    (process_pending_at environment blob
      (buffer-Provides environment.mem blob 1000)
      accept_all
      (user 1 1)
      (user 1 3)
      16
      times
      (merge_resend_request environment.buffers pending 5 6)
      []).1
    ≡ []
resend_stalls_example =
    resend_stalls environment blob (buffer-Provides environment.mem blob 1000) accept_all (user 1 1)
      (user 1 3) 16 times pending [] 0 3 5 6 refl refl (omega arith) (omega arith) (omega arith)
      (omega arith)
