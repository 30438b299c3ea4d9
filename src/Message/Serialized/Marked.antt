-- ===== src/Message/Serialized/Marked.antt =====
-- What `serialized_message_storage::cleanup` of source/modules/eagine/core/message_impl.cpp takes
-- from the messages, one at a time.
use eagine_msgbus.Prelude.{
  ℕ, zero, suc, ◌/◌, ◌%◌, ◌≡◌, ◌<◌, refl, sym, ap, arith, inl, inr, Bool, false, List, [], ◌∷◌,
  ◌++◌, ◌==◌, ltb, if◌then◌else◌, length, Bool-cases,
}
use eagine_msgbus.Core.{Memory, Priority}
use eagine_msgbus.Message.Sweep.{erase_if, refused, remaining-sweep, some_handled-sweep}
use eagine_msgbus.Message.Serialized.{
  Serialized, push_serialized, fetch_serialized, PackInfo, cleanup_packed, eat_marked,
  has_no_buffer,
}
use eagine_msgbus.Message.Serialized.Bits.{bit_and_one}

-- Every message waits with its buffer.
unfoldable pub HaveBuffers : List Serialized → Type 0
HaveBuffers [] = Unit
HaveBuffers (e ∷ es) = (0 < length e.message) × HaveBuffers es

pub erase_if-kept :
    (e : Serialized) (es : List Serialized)
    → 0 < length e.message
    → erase_if has_no_buffer (e ∷ es) ≡ e ∷ erase_if has_no_buffer es
unfolding erase_if has_no_buffer
erase_if-kept e es h = ground arith

pub erase_if-emptied :
    (e : Serialized) (es : List Serialized)
    → erase_if has_no_buffer (record e { message = [] } ∷ es) ≡ erase_if has_no_buffer es
unfolding erase_if has_no_buffer
erase_if-emptied e es = refl

pub keep_all : (es : List Serialized) → HaveBuffers es → erase_if has_no_buffer es ≡ es
unfolding erase_if has_no_buffer HaveBuffers
keep_all [] h = refl
keep_all (e ∷ es) (p, h) = rw (erase_if-kept e es p, keep_all es h) refl

pub eat_marked-zero : (es : List Serialized) → eat_marked 0 es ≡ es
unfolding eat_marked
eat_marked-zero [] = refl
eat_marked-zero (e ∷ es) = refl

pub nonzero : (b : ℕ) → (suc b == 0) ≡ false
nonzero b = ground arith

pub eat_marked-cons :
    (b : ℕ) (e : Serialized) (es : List Serialized)
    → eat_marked b (e ∷ es)
      ≡ (if b % 2 == 1 then record e { message = [] } else e) ∷ eat_marked (b / 2) es
unfolding eat_marked
eat_marked-cons zero e es = rw (eat_marked-zero es) refl
eat_marked-cons (suc b) e es = rw (bit_and_one (suc b), nonzero b) refl

pub cleanup_packed-eat_marked :
    (info : PackInfo) (es : List Serialized)
    → HaveBuffers es
    → cleanup_packed info es ≡ erase_if has_no_buffer (eat_marked info.packed_bits es)
unfolding cleanup_packed
cleanup_packed-eat_marked info es h = elim (Bool-cases (info.packed_bits == 0)) [
  | inl z ↦
      let none_set : info.packed_bits ≡ 0 = ground arith in
      rw (none_set, eat_marked-zero es) (sym (keep_all es h))
  | inr n ↦ rw n refl
]

append-HaveBuffers :
    (es : List Serialized) (e : Serialized)
    → HaveBuffers es
    → 0 < length e.message
    → HaveBuffers (es ++ e ∷ [])
unfolding HaveBuffers
append-HaveBuffers [] e h p = (p, tt)
append-HaveBuffers (x ∷ es) e (q, h) p = (q, append-HaveBuffers es e h p)

-- The message that `push` adds has a buffer; an empty one is not added.
push_serialized-HaveBuffers :
    (mem : Memory) (es : List Serialized) (message : List ℕ) (priority : Priority) (now : ℕ)
    → HaveBuffers es
    → HaveBuffers (push_serialized mem es message priority now)
unfolding push_serialized
push_serialized-HaveBuffers mem es message priority now h =
    elim (Bool-cases (length message == 0)) [
      | inl z ↦ rw z h
      | inr n ↦
          let copied : length (mem.copy_into message (mem.get_buffer (length message)))
              ≡ length message =
            ap (λ l. length l) (mem.copy_into_lem message (mem.get_buffer (length message))) in
          rw n (append-HaveBuffers es _ h (ground arith))
    ]

-- `fetch_all` keeps the refused messages, in order, and tells whether any was taken.
fetch_serialized_lem :
    {S : Type 0} (handler : S → ℕ → Priority → List ℕ → S × Bool) (s : S) (es : List Serialized)
    → let (s', left, fetched_some) = fetch_serialized handler s es in
      let refuses = refused (λ s e. handler s e.timestamp e.priority e.message) s es in
      (left ≡ erase_if has_no_buffer refuses) × (fetched_some ≡ ltb (length refuses) (length es))
unfolding fetch_serialized has_no_buffer
fetch_serialized_lem handler s es = (
  remaining-sweep (λ s e. handler s e.timestamp e.priority e.message)
      (λ e. record e { message = [] }) has_no_buffer (λ e. refl) s es,
  some_handled-sweep (λ s e. handler s e.timestamp e.priority e.message)
      (λ e. record e { message = [] }) has_no_buffer (λ e. refl) s es,
)
