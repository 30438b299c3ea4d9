-- ===== src/Endpoint/Kept.antt =====
-- What an endpoint keeps while it works, and what it says and sends: the relation between its states
-- before and after, and that sending and posting keep to it
-- (source/modules/eagine/core/endpoint_impl.cpp).
use mathlib.Core.Bool.{true≢false}
use mathlib.Core.List.{append-nil, append_assoc}
use eagine_msgbus.Prelude.{
  ℕ, ◌≡◌, ◌⊎◌, refl, sym, ap, ◌∙◌, inl, inr, arith, Bool, true, false, Option, none, some, List, [],
  ◌∷◌, ◌++◌, if◌then◌else◌,
}
use eagine_msgbus.Core.{is_valid_id}
use eagine_msgbus.Message.Info.{Message}
use eagine_msgbus.Router.Ident.{MessageId, special, request_id, ann_endpt_id}
use eagine_msgbus.Router.Wire.{Sending, Wire, send_on}
use eagine_msgbus.Endpoint.{
  Endpoint, EndpointEnvironment, Signal, State, id_assigned, connection_established,
  connection_lost, has_id, emit, count_sent, connection_works, connection_fails, note_sent, do_send,
  post,
}

-- Whether the connection works after these signals, if it did so before or not. A connection that
-- works is not established again, and one that does not is not lost.
unfoldable pub works_after : Bool → List Signal → Option Bool
works_after b [] = some b
works_after b (id_assigned id ∷ signals) = works_after b signals
works_after b (connection_established had_id ∷ signals) = elim b [
  | true ↦ none
  | false ↦ works_after true signals
]
works_after b (connection_lost ∷ signals) = elim b [
  | true ↦ works_after false signals
  | false ↦ none
]

pub works_after-append :
    (b b' : Bool) (xs ys : List Signal)
    → works_after b xs ≡ some b'
    → works_after b (xs ++ ys) ≡ works_after b' ys
unfolding works_after
works_after-append b b' [] ys h = ground arith
works_after-append b b' (id_assigned id ∷ xs) ys h = works_after-append b b' xs ys h
works_after-append true b' (connection_established had_id ∷ xs) ys h = ground arith
works_after-append false b' (connection_established had_id ∷ xs) ys h =
    works_after-append true b' xs ys h
works_after-append true b' (connection_lost ∷ xs) ys h = works_after-append false b' xs ys h
works_after-append false b' (connection_lost ∷ xs) ys h = ground arith

module _ {Timeout F Cert Key Store : Type 0} where
  -- A message that an endpoint with this state may send: under its own id, or without an id the
  -- request for one or the announcement of the preconfigured one.
  abbrev pub MaySend : Endpoint Timeout F Cert Key Store → Sending → Type 0
  MaySend e s =
      ((has_id e ≡ true) × (s.message.info.source_id ≡ e.endpoint_id))
      ⊎ ((s.msg_id ≡ special request_id)
          ⊎ ((s.msg_id ≡ special ann_endpt_id) × (s.message.info.source_id ≡ e.preconfd_id)))

  abbrev pub MaySendAll : Endpoint Timeout F Cert Key Store → List Sending → Type 0
  MaySendAll e [] = Unit {0}
  MaySendAll e (s ∷ sent) = MaySend e s × MaySendAll e sent

  -- What may have happened between two states.
  pub record Kept (e e' : Endpoint Timeout F Cert Key Store) : Type 0 where
    pub added : List Signal
    pub signals_grow : e'.signals ≡ e.signals ++ added
    pub works : works_after e.had_working_connection added ≡ some e'.had_working_connection
    pub sent : List Sending
    pub wire_grows : e'.wire ≡ e.wire ++ sent
    pub may_send : MaySendAll e' sent
    pub same_id : has_id e ≡ true → e'.endpoint_id ≡ e.endpoint_id
    pub same_preconfd : e'.preconfd_id ≡ e.preconfd_id

  MaySend-later :
      (e e' : Endpoint Timeout F Cert Key Store) (s : Sending)
      → (has_id e ≡ true → e'.endpoint_id ≡ e.endpoint_id)
      → e'.preconfd_id ≡ e.preconfd_id
      → MaySend e s
      → MaySend e' s
  MaySend-later e e' s same_id same_preconfd (inl (h, own)) =
      inl (ap is_valid_id (same_id h) ∙ h, own ∙ sym (same_id h))
  MaySend-later e e' s same_id same_preconfd (inr (inl request)) = inr (inl request)
  MaySend-later e e' s same_id same_preconfd (inr (inr (announce, own))) =
      inr (inr (announce, own ∙ sym same_preconfd))

  MaySendAll-append :
      (e e' : Endpoint Timeout F Cert Key Store) (xs ys : List Sending)
      → (has_id e ≡ true → e'.endpoint_id ≡ e.endpoint_id)
      → e'.preconfd_id ≡ e.preconfd_id
      → MaySendAll e xs
      → MaySendAll e' ys
      → MaySendAll e' (xs ++ ys)
  MaySendAll-append e e' [] ys same_id same_preconfd h k = k
  MaySendAll-append e e' (x ∷ xs) ys same_id same_preconfd (m, h) k = (
    MaySend-later e e' x same_id same_preconfd m,
    MaySendAll-append e e' xs ys same_id same_preconfd h k,
  )

  pub Kept-trans :
      {e e' e'' : Endpoint Timeout F Cert Key Store} → Kept e e' → Kept e' e'' → Kept e e''
  Kept-trans {e} {e'} {e''} k l = record {
    added = k.added ++ l.added;
    signals_grow =
        l.signals_grow
        ∙ (ap (λ x. x ++ l.added) k.signals_grow ∙ append_assoc e.signals k.added l.added);
    works = works_after-append _ _ k.added l.added k.works ∙ l.works;
    sent = k.sent ++ l.sent;
    wire_grows =
        l.wire_grows ∙ (ap (λ x. x ++ l.sent) k.wire_grows ∙ append_assoc e.wire k.sent l.sent);
    may_send =
        MaySendAll-append e' e'' k.sent l.sent l.same_id l.same_preconfd k.may_send l.may_send;
    same_id = λ h. l.same_id (ap is_valid_id (k.same_id h) ∙ h) ∙ k.same_id h;
    same_preconfd = l.same_preconfd ∙ k.same_preconfd;
  }

  -- A change of other members.
  pub Kept-others :
      (e e' : Endpoint Timeout F Cert Key Store)
      → e'.signals ≡ e.signals
      → e'.had_working_connection ≡ e.had_working_connection
      → e'.wire ≡ e.wire
      → e'.endpoint_id ≡ e.endpoint_id
      → e'.preconfd_id ≡ e.preconfd_id
      → Kept e e'
  unfolding works_after
  Kept-others e e' signals had wire id preconfd = record {
    added = [];
    signals_grow = signals ∙ sym (append-nil e.signals);
    works = ap some (sym had);
    sent = [];
    wire_grows = wire ∙ sym (append-nil e.wire);
    may_send = tt;
    same_id = λ _. id;
    same_preconfd = preconfd;
  }

  pub Kept-refl : (e : Endpoint Timeout F Cert Key Store) → Kept e e
  Kept-refl e = Kept-others e e refl refl refl refl refl

  -- A result of which one of two branches is taken; `state` is the part of it that is looked at.
  pub Kept-if :
      {X : Type 0} (state : X → Endpoint Timeout F Cert Key Store)
      (e : Endpoint Timeout F Cert Key Store) (b : Bool) (x y : X)
      → (b ≡ true → Kept e (state x))
      → (b ≡ false → Kept e (state y))
      → Kept e (state (if b then x else y))
  Kept-if state e true x y k l = k refl
  Kept-if state e false x y k l = l refl

  pub Kept-option :
      {A X : Type 0} (state : X → Endpoint Timeout F Cert Key Store)
      (e : Endpoint Timeout F Cert Key Store) (o : Option A) (x : X) (f : A → X)
      → Kept e (state x)
      → ((a : A) → Kept e (state (f a)))
      → Kept e (state (elim o [ none ↦ x | some a ↦ f a ]))
  Kept-option state e none x f k l = k
  Kept-option state e (some a) x f k l = l a

  established-Kept :
      (e : Endpoint Timeout F Cert Key Store)
      → e.had_working_connection ≡ false
      → Kept e
          (emit (connection_established (has_id e)) (record e { had_working_connection = true }))
  unfolding emit works_after
  established-Kept e h = record {
    added = connection_established (has_id e) ∷ [];
    signals_grow = refl;
    works = ap (λ b. works_after b (connection_established (has_id e) ∷ [])) h;
    sent = [];
    wire_grows = sym (append-nil e.wire);
    may_send = tt;
    same_id = λ _. refl;
    same_preconfd = refl;
  }

  lost-Kept :
      (e : Endpoint Timeout F Cert Key Store)
      → e.had_working_connection ≡ true
      → Kept e (emit connection_lost (record e { had_working_connection = false }))
  unfolding emit works_after
  lost-Kept e h = record {
    added = connection_lost ∷ [];
    signals_grow = refl;
    works = ap (λ b. works_after b (connection_lost ∷ [])) h;
    sent = [];
    wire_grows = sym (append-nil e.wire);
    may_send = tt;
    same_id = λ _. refl;
    same_preconfd = refl;
  }

  -- An id for an endpoint that has none.
  pub assigned-Kept :
      (router_id id : ℕ) (e : Endpoint Timeout F Cert Key Store)
      → has_id e ≡ false
      → Kept e (emit (id_assigned id) (record e { router_id = router_id; endpoint_id = id }))
  unfolding emit works_after
  assigned-Kept router_id id e n = record {
    added = id_assigned id ∷ [];
    signals_grow = refl;
    works = refl;
    sent = [];
    wire_grows = sym (append-nil e.wire);
    may_send = tt;
    same_id = λ h. absurd (true≢false (sym h ∙ n));
    same_preconfd = refl;
  }

  pub renamed-Kept :
      (router_id id : ℕ) (e : Endpoint Timeout F Cert Key Store)
      → has_id e ≡ false
      → Kept e (record e { router_id = router_id; endpoint_id = id })
  unfolding works_after
  renamed-Kept router_id id e n = record {
    added = [];
    signals_grow = sym (append-nil e.signals);
    works = refl;
    sent = [];
    wire_grows = sym (append-nil e.wire);
    may_send = tt;
    same_id = λ h. absurd (true≢false (sym h ∙ n));
    same_preconfd = refl;
  }

  pub connection_works-Kept : (e : Endpoint Timeout F Cert Key Store) → Kept e (connection_works e)
  unfolding connection_works
  connection_works-Kept e =
      Kept-if (λ x. x) e e.had_working_connection _ _ (λ _. Kept-refl e) (established-Kept e)

  pub connection_fails-Kept : (e : Endpoint Timeout F Cert Key Store) → Kept e (connection_fails e)
  unfolding connection_fails
  connection_fails-Kept e =
      Kept-if (λ x. x) e e.had_working_connection _ _ (lost-Kept e) (λ _. Kept-refl e)

module _ {Timeout F Cert Key Store : Type 0}
    (env : EndpointEnvironment Timeout F Cert Key Store) where
  open env use {accepts}

  -- One message that goes out.
  pub Kept-sent :
      (link : ℕ) (msg_id : MessageId) (message : Message) (e : State env)
      → MaySend e (record { link = link; msg_id = msg_id; message = message })
      → Kept e (record e { wire = (send_on accepts link msg_id message e.wire).0 })
  unfolding send_on works_after
  Kept-sent link msg_id message e may = record {
    added = [];
    signals_grow = sym (append-nil e.signals);
    works = refl;
    sent = record { link = link; msg_id = msg_id; message = message } ∷ [];
    wire_grows = refl;
    may_send = (may, tt);
    same_id = λ _. refl;
    same_preconfd = refl;
  }

  pub count_sent-Kept : (e : State env) → Kept e (count_sent e)
  unfolding count_sent
  count_sent-Kept e = Kept-others e (count_sent e) refl refl refl refl refl

  note_sent-Kept :
      (e : State env) (wire : Wire) (sent : Bool)
      → Kept e (record e { wire = wire })
      → Kept e (note_sent env e (wire, sent)).0
  unfolding note_sent
  note_sent-Kept e wire true k =
      Kept-trans k (Kept-trans (count_sent-Kept _) (connection_works-Kept _))
  note_sent-Kept e wire false k = Kept-trans k (connection_fails-Kept _)

  pub do_send-Kept :
      (msg_id : MessageId) (message : Message) (e : State env)
      → has_id e ≡ true
      → Kept e (do_send env msg_id message e).0
  unfolding do_send
  do_send-Kept msg_id message e h =
      let own : Message = record message {
        info = record message.info { source_id = e.endpoint_id };
      } in
      Kept-option (λ x. (note_sent env e x).0) e e.connection (e.wire, false)
        (λ link. send_on accepts link msg_id own e.wire)
        (note_sent-Kept e e.wire false (Kept-refl e))
        (λ link.
          note_sent-Kept e (send_on accepts link msg_id own e.wire).0
            (send_on accepts link msg_id own e.wire).1
            (Kept-sent link msg_id own e (inl (h, refl))))

  pub post-Kept :
      (now : ℕ) (msg_id : MessageId) (message : Message) (e : State env)
      → Kept e (post env now msg_id message e).0
  unfolding post
  post-Kept now msg_id message e =
      Kept-if {X = State env × Bool} (λ x. x.0) e (has_id e) _ _ (do_send-Kept msg_id message e)
        (λ _. Kept-others e _ refl refl refl refl refl)
