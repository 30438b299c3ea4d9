-- ===== src/Router/Ident.antt =====
-- Message ids: the class and the method of a message (`message_id` of the library eagine.core), and
-- `msgbus_id` and `is_special_message` of source/modules/eagine/core/message.cpp. The class
-- "eagiMsgBus" holds the special messages of the bus itself: those that the router handles have a
-- constructor of `Method`, and `method n` stands for every other method of that class.
use eagine_msgbus.Prelude.{
  ℕ, Bool, true, false, ◌≡◌, ◌≢◌, refl, inl, inr, arith, Bool-cases, ℕ_discrete,
}

pub data Method : Type 0 where
  request_id assign_id announce_id ann_endpt_id confirm_id req_rutr_pwd enc_rutr_pwd : Method
  ping pong subscrib_to unsub_from not_sub_to not_a_router clr_blk_list clr_alw_list : Method
  still_alive msg_alw_list msg_blk_list bye_bye_endp bye_bye_rutr bye_bye_brdg : Method
  qry_subscrb qry_subscrp blob_frgmnt blob_resend blob_prpare rtr_cert_qry ept_cert_qry : Method
  rtr_cert_pem ept_cert_pem topo_query stats_query topo_rutr_cn topo_brdg_cn topo_endpt : Method
  stats_rutr stats_brdg stats_endpt stats_conn msg_flow_inf ept_sig_nnce ept_nnce_sig : Method
  method : ℕ → Method

pub data MessageId : Type 0 where
  special : Method → MessageId
  user : ℕ → ℕ → MessageId

unfoldable pub Method-discrete : Discrete Method
Method-discrete = hlevel ℕ_discrete

unfoldable pub MessageId-discrete : Discrete MessageId
MessageId-discrete = hlevel (ℕ_discrete, Method-discrete)

-- `is_special_message`
abbrev pub is_special_message : MessageId → Bool
is_special_message (special m) = true
is_special_message (user c m) = false

-- `==` of message ids
unfoldable pub same : MessageId → MessageId → Bool
same m x = elim (MessageId-discrete m x) [ yes _ ↦ true | no _ ↦ false ]

pub same_refl : (m : MessageId) → same m m ≡ true
unfolding same
same_refl m =
    elim (MessageId-discrete m m) as (λ d. elim d [ yes _ ↦ true | no _ ↦ false ] ≡ true) [
      | yes _ ↦ refl
      | no p ↦ absurd (p refl)
    ]

pub same→≡ : (m x : MessageId) → same m x ≡ true → m ≡ x
unfolding same
same→≡ m x =
    elim (MessageId-discrete m x) as (λ d. elim d [ yes _ ↦ true | no _ ↦ false ] ≡ true → m ≡ x) [
      | yes p ↦ λ _. p
      | no _ ↦ λ e. ground arith
    ]

pub ≢→same : (m x : MessageId) → m ≢ x → same m x ≡ false
≢→same m x ne = elim (Bool-cases (same m x)) [ inl e ↦ absurd (ne (same→≡ m x e)) | inr e ↦ e ]
