-- ===== src/Router/Blobs.antt =====
-- `router_blobs` and `router::_handle_blob` of source/modules/eagine/core/router_impl.cpp: the blobs
-- that a router sends, receives and passes on, which are certificates. The router keeps all of them
-- in buffers in memory.
use eagine_msgbus.Prelude.{ℕ, Bool, Option, none, some, List, [], ◌∷◌, ◌==◌, if◌then◌else◌}
use eagine_msgbus.Core.{high}
use eagine_msgbus.Message.Info.{Message}
use eagine_msgbus.Router.Ident.{MessageId, special, ept_cert_pem, same}
use eagine_msgbus.Router.Nodes.{find}
use eagine_msgbus.Router.Routing.{Router, Traffic}
use eagine_msgbus.Blobs.Manipulator.{
  BlobEnvironment, BlobManipulator, push_outgoing, make_target_io,
}
use eagine_msgbus.Blobs.Manipulator.Incoming.{process_incoming}
use eagine_msgbus.Blobs.Manipulator.Upkeep.{Fetched, fetched_message, finished_target, fetch_blobs}

-- `router_context`: the certificates of the context, which the ssl library checks. An empty block
-- stands for a certificate that is not there.
pub record RouterContext (C : Type 0) : Type 0 where
  pub own_certificate_pem : C → List ℕ
  pub remote_certificate_pem : C → ℕ → List ℕ
  pub add_remote_certificate_pem : C → ℕ → List ℕ → C × Bool

abbrev pub MemoryBlobs : Type 0 → Type 0 → Type 0
MemoryBlobs Timeout F = BlobManipulator (List ℕ) (List ℕ) Timeout F

-- The router, what it sends, its blobs and its certificates.
pub record RouterState (Timeout F C : Type 0) : Type 0 where
  pub router : Router
  pub traffic : Traffic
  pub blobs : MemoryBlobs Timeout F
  pub certificates : C

module _ {Timeout F C : Type 0} (env : BlobEnvironment (List ℕ) (List ℕ) Timeout F)
    (context : RouterContext C) where
  -- `router_blobs::_get_blob_target_io`
  pub get_blob_target_io : MemoryBlobs Timeout F → MessageId → ℕ → Option (List ℕ)
  get_blob_target_io blobs msg_id size =
      if same msg_id (special ept_cert_pem) then make_target_io env blobs size else none

  -- `router::_handle_blob` for one blob. A source or target id of 0 is no id.
  unfoldable pub handle_blob :
      MessageId → Message → RouterState Timeout F C → RouterState Timeout F C
  handle_blob msg_id message s =
      let source_id = message.info.source_id in
      let stored : C = elim (find s.router.nodes.nodes source_id) [
        | none ↦ s.certificates
        | some node ↦
            (context.add_remote_certificate_pem s.certificates source_id message.content).0
      ] in
      let pushed =
        push_outgoing env s.router.now (special ept_cert_pem) source_id message.info.target_id
          message.info.sequence_no message.content 30 0 high s.blobs in
      if same msg_id (special ept_cert_pem)
      then record s {
        certificates = stored;
        blobs = if message.info.target_id == 0 then s.blobs else pushed.0;
      }
      else s

  -- The calls of `fetch_all`, one after another. A target of the router is a buffer.
  unfoldable pub handle_fetched :
      List (Fetched (List ℕ) (List ℕ) Timeout F) → RouterState Timeout F C → RouterState Timeout F C
  handle_fetched [] s = s
  handle_fetched (fetched_message msg_id message ∷ calls) s =
      handle_fetched calls (handle_blob msg_id message s)
  handle_fetched (finished_target c ∷ calls) s = handle_fetched calls s

  -- `router_blobs::handle_fragment`
  unfoldable pub handle_fragment : Message → RouterState Timeout F C → RouterState Timeout F C
  handle_fragment message s =
      let (blobs, taken) =
        process_incoming env s.router.now (get_blob_target_io s.blobs) message s.blobs in
      let (left, calls) = fetch_blobs some blobs in
      if taken then handle_fetched calls (record s { blobs = left }) else record s { blobs = blobs }
