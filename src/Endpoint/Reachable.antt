-- ===== src/Endpoint/Reachable.antt =====
-- The endpoint over time: sequences of its operations
-- (source/modules/eagine/core/endpoint.cpp and endpoint_impl.cpp).
use eagine_msgbus.Prelude.{◌≡◌, refl, sym, ap, ◌∙◌, Bool, true, false, some, List, [], ◌++◌}
use mathlib.Core.Path.{subst}
use mathlib.Core.Bool.{true≢false}
use mathlib.Core.List.{append-nil, append_assoc}
use eagine_msgbus.Core.{is_valid_id}
use eagine_msgbus.Endpoint.{set_id, preconfigure_id, Signal, EndpointEnvironment, State, has_id}
use eagine_msgbus.Endpoint.Kept.{
  Kept, Kept-trans, Kept-refl, works_after, works_after-append, MaySendAll,
}
use eagine_msgbus.Endpoint.Steps.{
  Kind, working, setting_id, preconfiguring, Step, id_set, preconfigured, Step-Kept,
}

abbrev pub all_kinds : Kind → Bool
all_kinds kind = true

-- All but `set_id`.
abbrev pub without_set_id : Kind → Bool
without_set_id setting_id = false
without_set_id working = true
without_set_id preconfiguring = true

-- Neither of the two.
abbrev pub only_working : Kind → Bool
only_working working = true
only_working setting_id = false
only_working preconfiguring = false

module _ {Timeout F Cert Key Store : Type 0}
    (env : EndpointEnvironment Timeout F Cert Key Store) where
  -- Any number of operations of the kinds that are allowed.
  pub data Reach (allowed : Kind → Bool) : State env → State env → Type 1 where
    here : (e : State env) → Reach allowed e e
    then_step :
        {e e' e'' : State env} {kind : Kind}
        → Reach allowed e e'
        → Step env kind e' e''
        → allowed kind ≡ true
        → Reach allowed e e''

  Reach-Kept : {e e' : State env} → Reach only_working e e' → Kept e e'
  Reach-Kept (here e) = Kept-refl e
  Reach-Kept (then_step {kind = working} r s ok) = Kept-trans (Reach-Kept r) (Step-Kept env s)
  Reach-Kept (then_step {kind = setting_id} r s ok) = absurd (true≢false (sym ok))
  Reach-Kept (then_step {kind = preconfiguring} r s ok) = absurd (true≢false (sym ok))

  -- Once an endpoint has an id, no sequence of operations without `set_id` changes it, whatever messages
  -- come in, and also if `preconfigure_id` is called.
  pub id_never_changes :
      {e e' : State env}
      → Reach without_set_id e e'
      → has_id e ≡ true
      → e'.endpoint_id ≡ e.endpoint_id
  unfolding preconfigure_id
  id_never_changes (here e) h = refl
  id_never_changes (then_step {kind = working} r s ok) h =
      let same = id_never_changes r h in (Step-Kept env s).same_id (ap is_valid_id same ∙ h) ∙ same
  id_never_changes (then_step {kind = setting_id} r s ok) h = absurd (true≢false (sym ok))
  id_never_changes (then_step {kind = preconfiguring} r (preconfigured id e) ok) h =
      id_never_changes r h

  -- The signals added between two states alternate.
  record Signalled (e e' : State env) : Type 0 where
    added : List Signal
    signals_grow : e'.signals ≡ e.signals ++ added
    works : works_after e.had_working_connection added ≡ some e'.had_working_connection

  Step-Signalled : {kind : Kind} {e e' : State env} → Step env kind e e' → Signalled e e'
  unfolding set_id preconfigure_id works_after
  Step-Signalled {kind = working} s =
      let k = Step-Kept env s in
      record { added = k.added; signals_grow = k.signals_grow; works = k.works }
  Step-Signalled {kind = setting_id} (id_set id e) = record {
    added = [];
    signals_grow = sym (append-nil e.signals);
    works = refl;
  }
  Step-Signalled {kind = preconfiguring} (preconfigured id e) = record {
    added = [];
    signals_grow = sym (append-nil e.signals);
    works = refl;
  }

  Reach-Signalled : {e e' : State env} → Reach all_kinds e e' → Signalled e e'
  unfolding works_after
  Reach-Signalled (here e) = record {
    added = [];
    signals_grow = sym (append-nil e.signals);
    works = refl;
  }
  Reach-Signalled (then_step {e = e} r s ok) =
      let k = Reach-Signalled r in
      let l = Step-Signalled s in
      record {
        added = k.added ++ l.added;
        signals_grow =
            l.signals_grow
            ∙ (ap (λ x. x ++ l.added) k.signals_grow ∙ append_assoc e.signals k.added l.added);
        works = works_after-append _ _ k.added l.added k.works ∙ l.works;
      }

  -- From an endpoint that has said nothing of a connection yet, whatever operations are called, the signals that a
  -- connection is established and that it is lost take turns, and the last of them tells what the endpoint thinks of
  -- its connection.
  pub signals_take_turns :
      {e e' : State env}
      → Reach all_kinds e e'
      → e.signals ≡ []
      → e.had_working_connection ≡ false
      → works_after false e'.signals ≡ some e'.had_working_connection
  signals_take_turns r none_yet not_yet =
      let k = Reach-Signalled r in
      ap (λ x. works_after false x) (k.signals_grow ∙ ap (λ x. x ++ k.added) none_yet)
      ∙ (ap (λ b. works_after b k.added) (sym not_yet) ∙ k.works)

  -- From an endpoint that has sent nothing, if `set_id` and `preconfigure_id` are not called any more, every message
  -- that goes out carries the id that the endpoint has in the end, but for requests for an id and
  -- announcements of the preconfigured one, which may go out before.
  pub sends_under_own_id :
      {e e' : State env} → Reach only_working e e' → e.wire ≡ [] → MaySendAll e' e'.wire
  sends_under_own_id {e' = e'} r nothing =
      let k = Reach-Kept r in
      subst (λ x. MaySendAll e' x) (sym (k.wire_grows ∙ ap (λ x. x ++ k.sent) nothing)) k.may_send
