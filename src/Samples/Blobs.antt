-- ===== src/Samples/Blobs.antt =====
-- An instance of what the blob manipulator calls of the library eagine.core, for the tests: a header
-- is ten numbers, a timer is the time when it expires, and `float` is a number of thousandths.
use eagine_msgbus.Prelude.{
  ℕ, ◌+◌, ◌-◌, ◌≤◌, ◌≡◌, refl, ap, Bool, true, false, Option, none, some, List, [], ◌∷◌, ◌++◌,
  length, leb, ltb, get_elem?, arith, if◌then◌else◌, le→leb,
}
use eagine_msgbus.Prelude.Int.{ℤ, pos, negsuc}
use eagine_msgbus.Core.{Timers, Floats}
use eagine_msgbus.Samples.{memory, buffers}
use eagine_msgbus.Router.Ident.{
  Method, MessageId, special, user, request_id, assign_id, announce_id, ann_endpt_id, confirm_id,
  req_rutr_pwd, enc_rutr_pwd, ping, pong, subscrib_to, unsub_from, not_sub_to, not_a_router,
  clr_blk_list, clr_alw_list, still_alive, msg_alw_list, msg_blk_list, bye_bye_endp, bye_bye_rutr,
  bye_bye_brdg, qry_subscrb, qry_subscrp, blob_frgmnt, blob_resend, blob_prpare, rtr_cert_qry,
  ept_cert_qry, rtr_cert_pem, ept_cert_pem, topo_query, stats_query, topo_rutr_cn, topo_brdg_cn,
  topo_endpt, stats_rutr, stats_brdg, stats_endpt, stats_conn, msg_flow_inf, ept_sig_nnce,
  ept_nnce_sig, method,
}
use eagine_msgbus.Blobs.Buffer.{buffer_source, buffer_target}
use eagine_msgbus.Blobs.Manipulator.{FragmentHeader, BlobCodec, BlobEnvironment}

methods : List Method
methods =
    request_id ∷ assign_id ∷ announce_id ∷ ann_endpt_id ∷ confirm_id ∷ req_rutr_pwd ∷ enc_rutr_pwd
    ∷ ping ∷ pong ∷ subscrib_to ∷ unsub_from ∷ not_sub_to ∷ not_a_router ∷ clr_blk_list
    ∷ clr_alw_list ∷ still_alive ∷ msg_alw_list ∷ msg_blk_list ∷ bye_bye_endp ∷ bye_bye_rutr
    ∷ bye_bye_brdg ∷ qry_subscrb ∷ qry_subscrp ∷ blob_frgmnt ∷ blob_resend ∷ blob_prpare
    ∷ rtr_cert_qry ∷ ept_cert_qry ∷ rtr_cert_pem ∷ ept_cert_pem ∷ topo_query ∷ stats_query
    ∷ topo_rutr_cn ∷ topo_brdg_cn ∷ topo_endpt ∷ stats_rutr ∷ stats_brdg ∷ stats_endpt ∷ stats_conn
    ∷ msg_flow_inf ∷ ept_sig_nnce ∷ ept_nnce_sig ∷ []

method_code : Method → ℕ
method_code request_id = 0
method_code assign_id = 1
method_code announce_id = 2
method_code ann_endpt_id = 3
method_code confirm_id = 4
method_code req_rutr_pwd = 5
method_code enc_rutr_pwd = 6
method_code ping = 7
method_code pong = 8
method_code subscrib_to = 9
method_code unsub_from = 10
method_code not_sub_to = 11
method_code not_a_router = 12
method_code clr_blk_list = 13
method_code clr_alw_list = 14
method_code still_alive = 15
method_code msg_alw_list = 16
method_code msg_blk_list = 17
method_code bye_bye_endp = 18
method_code bye_bye_rutr = 19
method_code bye_bye_brdg = 20
method_code qry_subscrb = 21
method_code qry_subscrp = 22
method_code blob_frgmnt = 23
method_code blob_resend = 24
method_code blob_prpare = 25
method_code rtr_cert_qry = 26
method_code ept_cert_qry = 27
method_code rtr_cert_pem = 28
method_code ept_cert_pem = 29
method_code topo_query = 30
method_code stats_query = 31
method_code topo_rutr_cn = 32
method_code topo_brdg_cn = 33
method_code topo_endpt = 34
method_code stats_rutr = 35
method_code stats_brdg = 36
method_code stats_endpt = 37
method_code stats_conn = 38
method_code msg_flow_inf = 39
method_code ept_sig_nnce = 40
method_code ept_nnce_sig = 41
method_code (method n) = 42

method_arg : Method → ℕ
method_arg (method n) = n
method_arg _ = 0

method_of : ℕ → ℕ → Method
unfolding methods
method_of code arg = elim (get_elem? methods code) [ none ↦ method arg | some m ↦ m ]

method_of-method_code : (m : Method) → method_of (method_code m) (method_arg m) ≡ m
unfolding method_of method_code method_arg
method_of-method_code request_id = refl
method_of-method_code assign_id = refl
method_of-method_code announce_id = refl
method_of-method_code ann_endpt_id = refl
method_of-method_code confirm_id = refl
method_of-method_code req_rutr_pwd = refl
method_of-method_code enc_rutr_pwd = refl
method_of-method_code ping = refl
method_of-method_code pong = refl
method_of-method_code subscrib_to = refl
method_of-method_code unsub_from = refl
method_of-method_code not_sub_to = refl
method_of-method_code not_a_router = refl
method_of-method_code clr_blk_list = refl
method_of-method_code clr_alw_list = refl
method_of-method_code still_alive = refl
method_of-method_code msg_alw_list = refl
method_of-method_code msg_blk_list = refl
method_of-method_code bye_bye_endp = refl
method_of-method_code bye_bye_rutr = refl
method_of-method_code bye_bye_brdg = refl
method_of-method_code qry_subscrb = refl
method_of-method_code qry_subscrp = refl
method_of-method_code blob_frgmnt = refl
method_of-method_code blob_resend = refl
method_of-method_code blob_prpare = refl
method_of-method_code rtr_cert_qry = refl
method_of-method_code ept_cert_qry = refl
method_of-method_code rtr_cert_pem = refl
method_of-method_code ept_cert_pem = refl
method_of-method_code topo_query = refl
method_of-method_code stats_query = refl
method_of-method_code topo_rutr_cn = refl
method_of-method_code topo_brdg_cn = refl
method_of-method_code topo_endpt = refl
method_of-method_code stats_rutr = refl
method_of-method_code stats_brdg = refl
method_of-method_code stats_endpt = refl
method_of-method_code stats_conn = refl
method_of-method_code msg_flow_inf = refl
method_of-method_code ept_sig_nnce = refl
method_of-method_code ept_nnce_sig = refl
method_of-method_code (method n) = refl

tag : MessageId → ℕ
tag (special m) = 0
tag (user c m) = 1

first : MessageId → ℕ
unfolding method_code
first (special m) = method_code m
first (user c m) = c

second : MessageId → ℕ
unfolding method_arg
second (special m) = method_arg m
second (user c m) = m

id_of : ℕ → ℕ → ℕ → MessageId
unfolding method_of
id_of t a b = if leb 1 t then user a b else special (method_of a b)

id_of-tag : (m : MessageId) → id_of (tag m) (first m) (second m) ≡ m
unfolding id_of tag first second
id_of-tag (special m) = ap special (method_of-method_code m)
id_of-tag (user c m) = refl

sign : ℤ → ℕ
sign (pos n) = 0
sign (negsuc n) = 1

size : ℤ → ℕ
size (pos n) = n
size (negsuc n) = n

int_of : ℕ → ℕ → ℤ
int_of s n = if leb 1 s then negsuc n else pos n

int_of-sign : (z : ℤ) → int_of (sign z) (size z) ≡ z
unfolding int_of sign size
int_of-sign (pos n) = refl
int_of-sign (negsuc n) = refl

encode : FragmentHeader → List ℕ
unfolding tag first second sign size
encode h =
    tag h.msg_id
    ∷ first h.msg_id
    ∷ second h.msg_id
    ∷ h.source_blob_id
    ∷ h.target_blob_id
    ∷ sign h.offset
    ∷ size h.offset
    ∷ sign h.total_size
    ∷ size h.total_size
    ∷ h.options
    ∷ []

pub decode : List ℕ → Option (FragmentHeader × List ℕ)
unfolding id_of int_of
decode (t ∷ a ∷ b ∷ s ∷ d ∷ os ∷ on ∷ ts ∷ tn ∷ opts ∷ rest) = some (
  record {
    msg_id = id_of t a b;
    source_blob_id = s;
    target_blob_id = d;
    offset = int_of os on;
    total_size = int_of ts tn;
    options = opts;
  },
  rest,
)
decode _ = none

decode-encode : (h : FragmentHeader) (rest : List ℕ) → decode (encode h ++ rest) ≡ some (h, rest)
unfolding decode encode
decode-encode h rest = rw (id_of-tag h.msg_id, int_of-sign h.offset, int_of-sign h.total_size) refl

pub write : FragmentHeader → ℕ → Option (List ℕ)
unfolding encode
write h n = if leb 10 n then some (encode h) else none

written :
    (fits : Bool) (code bytes : List ℕ)
    → (if fits then some code else none) ≡ some bytes
    → code ≡ bytes
written true code bytes e = ap (λ o. elim o [ none ↦ [] | some b ↦ b ]) e
written false code bytes e = ground arith

pub read-write :
    (h : FragmentHeader) (n : ℕ) (bytes rest : List ℕ)
    → write h n ≡ some bytes
    → decode (bytes ++ rest) ≡ some (h, rest)
unfolding write
read-write h n bytes rest e =
    let same : encode h ≡ bytes = written (leb 10 n) (encode h) bytes e in
    rw (← same) (decode-encode h rest)

pub write-some :
    (h : FragmentHeader) (n : ℕ)
    → 10 ≤ n
    → (bytes : List ℕ) × (write h n ≡ some bytes) × (length bytes ≤ 10)
unfolding write encode
write-some h n k = (encode h, rw (le→leb 10 n k) refl, omega arith)

pub three : List ℕ → Option (ℕ × ℕ × ℕ)
three (id ∷ bgn ∷ end ∷ []) = some (id, bgn, end)
three _ = none

pub three-some : (id bgn end : ℕ) → three (id ∷ bgn ∷ end ∷ []) ≡ some (id, bgn, end)
unfolding three
three-some id bgn end = refl

pub two : List ℕ → Option (ℕ × ℕ)
two (id ∷ progress ∷ []) = some (id, progress)
two _ = none

abbrev pub codec : BlobCodec ℕ
codec = record {
  write_header = write;
  read_header = decode;
  read-write_header = read-write;
  max_header_size = 10;
  write_header-some = write-some;
  write_resend = λ id bgn end. id ∷ bgn ∷ end ∷ [];
  read_resend = three;
  read-write_resend = three-some;
  write_progress = λ id progress. id ∷ progress ∷ [];
  read_progress = two;
}

abbrev pub timers : Timers ℕ
timers = record {
  unset = 0;
  timer = λ now secs. now + secs;
  reset = λ now ends. now + 15;
  is_expired = λ now ends. leb ends now;
}

abbrev pub floats : Floats ℕ
floats = record { less = ltb; minus = λ a b. a - b; zero = 0; one = 1000; thousandth = 1 }

abbrev pub environment : BlobEnvironment (List ℕ) (List ℕ) ℕ ℕ
environment = record {
  mem = memory;
  buffers = buffers;
  timers = timers;
  floats = floats;
  codec = codec;
  source = buffer_source memory 1000;
  target = buffer_target memory;
  handle_prepared = λ target progress. target;
  no_source = [];
  no_target = [];
}
