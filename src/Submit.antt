-- ===== src/Submit.antt =====
-- crates/postbud-api/src/messages.rs: `submit` and `status`, the requests of a tenant, with
-- `ApiError` of error.rs. The decoder of base64 and a fresh random key are arguments.
pub mod Checked
use mathlib.Core.Option
use postbud.Address.{normalize, message}
use postbud.Authz.{may_send_as}
use postbud.Prelude.{
  ℕ, Bool, true, false, not, ◌&&◌, List, [], ◌∷◌, ◌++◌, Option, none, some, if◌then◌else◌, is_empty,
  is_none, or_else,
}
use postbud.Queue.{Attachment, NewMessage, MessageStatus, Accepted, accept}
use postbud.Queue
use postbud.Result.{Result, ok, err, ◌>>=◌, map_err}
use postbud.Store.{Platform, Db, Status, RelayState}
use postbud.Tenants.{Tenant}
use postbud.Text.{Str, codes, trim, join}

pub record AttachmentRequest : Type 0 where
  pub filename : Str
  pub content_type : Str
  pub content_base64 : Str

pub record SubmitRequest : Type 0 where
  pub idempotency_key : Option Str
  pub from : Str
  pub from_name : Option Str
  pub to : Str
  pub reply_to : Option Str
  pub subject : Str
  pub text : Option Str
  pub html : Option Str
  pub attachments : List AttachmentRequest

pub record SubmitResponse : Type 0 where
  pub id : ℕ
  pub status : Status
  pub deduplicated : Bool

pub data ApiError : Type 0 where
  unauthorized not_found forbidden admin_disabled : ApiError
  bad_request : Str → ApiError
  internal : Str → ApiError

-- `decode` of the `base64` crate: the bytes, or the text of the error.
abbrev pub Decoder : Type 0
Decoder = Str → Result (List ℕ) Str

-- `normalize` with the error of the field.
unfoldable pub address_of : Str → Str → Result Str ApiError
address_of field raw =
    map_err (λ e. bad_request (field ++ (codes ": " ++ message e))) (normalize raw)

-- `map(normalize).transpose()`
unfoldable pub reply_address : Option Str → Result (Option Str) ApiError
reply_address none = ok none
reply_address (some raw) = address_of (codes "reply_to") raw >>= λ a. ok (some a)

unfoldable pub may_not_send : Tenant → Str → ApiError
may_not_send tenant mail_from = bad_request (
    codes "tenant '"
    ++ (tenant.name
        ++ (codes "' may not send as "
            ++ (mail_from
                ++ (codes " (allowed domains: "
                    ++ (join (codes ", ") tenant.from_domains ++ codes ")"))))))

unfoldable pub decode_one : Decoder → AttachmentRequest → Result Attachment ApiError
decode_one decode a =
    map_err
      (λ e. bad_request (
        codes "attachment '"
        ++ (a.filename ++ (codes "': content_base64 is not valid base64: " ++ e))))
      (decode a.content_base64)
    >>= λ content.
        ok (record { filename = a.filename; content_type = a.content_type; content = content })

-- The loop over the attachments, which stops at the first that is not base64.
unfoldable pub decode_all : Decoder → List AttachmentRequest → Result (List Attachment) ApiError
decode_all decode [] = ok []
decode_all decode (a ∷ rest) =
    decode_one decode a >>= λ x. decode_all decode rest >>= λ xs. ok (x ∷ xs)

-- The checks before the attachments.
unfoldable pub check_request : Tenant → SubmitRequest → Str → Result Unit ApiError
check_request tenant req mail_from =
    if not (may_send_as mail_from tenant.from_domains)
    then err (may_not_send tenant mail_from)
    else if is_none req.text && is_none req.html
    then err (bad_request (codes "one of 'text' or 'html' is required"))
    else if is_empty (trim req.subject)
    then err (bad_request (codes "subject is required"))
    else ok tt

-- The message that the queue is given.
unfoldable pub to_message : Decoder → Str → Tenant → SubmitRequest → Result NewMessage ApiError
unfolding address_of reply_address check_request decode_all decode_one
to_message decode fresh_key tenant req = address_of (codes "from") req.from >>= λ mail_from.
    address_of (codes "to") req.to >>= λ rcpt_to. reply_address req.reply_to >>= λ reply_to.
    check_request tenant req mail_from >>= λ checked.
    decode_all decode req.attachments >>= λ attachments. ok (record {
      tenant_id = tenant.id;
      idempotency_key = or_else req.idempotency_key fresh_key;
      mail_from = mail_from;
      from_name = req.from_name;
      rcpt_to = rcpt_to;
      reply_to = reply_to;
      subject = req.subject;
      body_text = req.text;
      body_html = req.html;
      attachments = attachments;
    })

abbrev pub to_response : Accepted → SubmitResponse
to_response a = record { id = a.id; status = a.status; deduplicated = a.deduplicated }

unfoldable pub submit :
    Platform
    → Decoder
    → ℕ
    → ℕ
    → Str
    → Db
    → Tenant
    → SubmitRequest
    → Result (Db × SubmitResponse) ApiError
submit env decode now id fresh_key db tenant req = to_message decode fresh_key tenant req >>= λ msg.
    let (db', accepted) = accept env now id db msg in ok (db', to_response accepted)

-- The response of `status` has the fields of the row that it is made from.
unfoldable pub status : Db → Tenant → ℕ → Result MessageStatus ApiError
status db tenant id = elim (Queue.status db tenant.id id) [ none ↦ err not_found | some s ↦ ok s ]
