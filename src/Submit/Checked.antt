-- ===== src/Submit/Checked.antt =====
-- Which requests are accepted, and what becomes of them.
use postbud.Address.{normalize}
use postbud.Authz.{may_send_as}
use postbud.Prelude.{
  ℕ, ◌≡◌, subst, refl, sym, ap, ◌∙◌, ◌↔◌, true, false, ◌||◌, List, [], ◌∷◌, Option, none, some,
  arith, is_empty, is_some, or_else,
}
use postbud.Queue.{Attachment, NewMessage, accept}
use postbud.Result.{Result, ok, err, map_err}
use postbud.Store.{Platform, Db}
use postbud.Submit.{
  AttachmentRequest, SubmitRequest, SubmitResponse, ApiError, Decoder, address_of, reply_address,
  decode_one, decode_all, check_request, to_message, to_response, submit,
}
use postbud.Tenants.{Tenant}
use postbud.Text.{Str, codes, trim}

-- The address to reply to: none where none was given, and the normalized one otherwise.
abbrev pub Replies : Option Str → Option Str → Type 0
Replies none none = Unit
Replies (some raw) (some a) = normalize raw ≡ ok a
Replies _ _ = ⊥

-- The attachments in their order, each with its content decoded.
abbrev pub Decodes : Decoder → List AttachmentRequest → List Attachment → Type 0
Decodes decode [] [] = Unit
Decodes decode (a ∷ rest) (x ∷ xs) =
    (x.filename ≡ a.filename)
    × (x.content_type ≡ a.content_type)
    × (decode a.content_base64 ≡ ok x.content)
    × Decodes decode rest xs
Decodes decode _ _ = ⊥

-- The message is the request's, for that tenant, and passes every check.
pub record IsChecked (decode : Decoder) (fresh_key : Str) (tenant : Tenant) (req : SubmitRequest)
    (msg : NewMessage) : Type 0 where
  pub sender : normalize req.from ≡ ok msg.mail_from
  pub recipient : normalize req.to ≡ ok msg.rcpt_to
  pub replies : Replies req.reply_to msg.reply_to
  pub allowed : may_send_as msg.mail_from tenant.from_domains ≡ true
  pub body : (is_some msg.body_text || is_some msg.body_html) ≡ true
  pub titled : is_empty (trim msg.subject) ≡ false
  pub attached : Decodes decode req.attachments msg.attachments
  pub owner : msg.tenant_id ≡ tenant.id
  pub key : msg.idempotency_key ≡ or_else req.idempotency_key fresh_key
  pub name : msg.from_name ≡ req.from_name
  pub subject : msg.subject ≡ req.subject
  pub text : msg.body_text ≡ req.text
  pub html : msg.body_html ≡ req.html

map_err_ok : {A E F : Type 0} (f : E → F) (x : Result A E) {a : A} → map_err f x ≡ ok a → x ≡ ok a
map_err_ok f (ok a) h = cc
map_err_ok f (err e) h = cc

address_of_ok : (field raw : Str) {a : Str} → address_of field raw ≡ ok a → normalize raw ≡ ok a
unfolding address_of
address_of_ok field raw h = map_err_ok _ (normalize raw) h

address_of-of_normalize :
    (field raw : Str) {a : Str} → normalize raw ≡ ok a → address_of field raw ≡ ok a
unfolding address_of
address_of-of_normalize field raw h = rw h refl

reply_address_ok : (o : Option Str) {r : Option Str} → reply_address o ≡ ok r → Replies o r
unfolding reply_address
reply_address_ok none {r = none} h = tt
reply_address_ok none {r = some a} h = cc
reply_address_ok (some raw) {r} h = go (address_of (codes "reply_to") raw) refl
  where
    go : (x : Result Str ApiError) → address_of (codes "reply_to") raw ≡ x → Replies (some raw) r
    go (err e) p = absurd (ground arith)
    go (ok a) p =
        let e : some a ≡ r = ground arith in
        subst (Replies (some raw)) e (address_of_ok (codes "reply_to") raw p)

Replies-reply_address : (o r : Option Str) → Replies o r → reply_address o ≡ ok r
unfolding reply_address
Replies-reply_address none none h = refl
Replies-reply_address none (some a) h = absurd h
Replies-reply_address (some raw) none h = absurd h
Replies-reply_address (some raw) (some a) h = rw (address_of-of_normalize _ raw h) refl

decode_all-Decodes :
    (decode : Decoder) (rest : List AttachmentRequest) {xs : List Attachment}
    → decode_all decode rest ≡ ok xs
    → Decodes decode rest xs
unfolding decode_all decode_one
decode_all-Decodes decode [] {xs = []} h = tt
decode_all-Decodes decode [] {xs = x ∷ xs} h = cc
decode_all-Decodes decode (a ∷ rest) {xs} h =
    go (decode a.content_base64) refl (decode_all decode rest) refl
      (λ ys q. decode_all-Decodes decode rest q)
  where
    go :
        (x : Result (List ℕ) Str)
        → decode a.content_base64 ≡ x
        → (r : Result (List Attachment) ApiError) → decode_all decode rest ≡ r
        → ((ys : List Attachment) → decode_all decode rest ≡ ok ys → Decodes decode rest ys)
        → Decodes decode (a ∷ rest) xs
    go (err e) p r q ih = absurd (ground arith)
    go (ok c) p (err e) q ih = absurd (ground arith)
    go (ok c) p (ok ys) q ih =
        let x : Attachment = record {
          filename = a.filename;
          content_type = a.content_type;
          content = c;
        } in
        let e : x ∷ ys ≡ xs = ground arith in
        subst (Decodes decode (a ∷ rest)) e (refl, refl, p, ih ys q)

Decodes-decode_all :
    (decode : Decoder) (rest : List AttachmentRequest) (xs : List Attachment)
    → Decodes decode rest xs
    → decode_all decode rest ≡ ok xs
unfolding decode_all decode_one
Decodes-decode_all decode [] [] h = refl
Decodes-decode_all decode [] (x ∷ xs) h = absurd h
Decodes-decode_all decode (a ∷ rest) [] h = absurd h
Decodes-decode_all decode (a ∷ rest) (x ∷ xs) (f, t, c, h) =
    rw (c, Decodes-decode_all decode rest xs h, ← f, ← t) refl

check_request_ok :
    (tenant : Tenant) (req : SubmitRequest) (mail_from : Str)
    → check_request tenant req mail_from ≡ ok tt
    → (may_send_as mail_from tenant.from_domains ≡ true)
      × ((is_some req.text || is_some req.html) ≡ true)
      × (is_empty (trim req.subject) ≡ false)
unfolding check_request
check_request_ok tenant req mail_from h = (ground arith, ground arith, ground arith)

check_request-of_checks :
    (tenant : Tenant) (req : SubmitRequest) (mail_from : Str)
    → may_send_as mail_from tenant.from_domains ≡ true
    → (is_some req.text || is_some req.html) ≡ true
    → is_empty (trim req.subject) ≡ false
    → check_request tenant req mail_from ≡ ok tt
unfolding check_request
check_request-of_checks tenant req mail_from a b c = ground arith

to_message-IsChecked :
    (decode : Decoder) (fresh_key : Str) (tenant : Tenant) (req : SubmitRequest) {msg : NewMessage}
    → to_message decode fresh_key tenant req ≡ ok msg
    → IsChecked decode fresh_key tenant req msg
unfolding to_message
to_message-IsChecked decode fresh_key tenant req {msg} h =
    go (address_of (codes "from") req.from) refl (address_of (codes "to") req.to) refl
      (reply_address req.reply_to) refl
  where
    finish :
        (from to : Str) (reply : Option Str)
        → address_of (codes "from") req.from ≡ ok from
        → address_of (codes "to") req.to ≡ ok to
        → reply_address req.reply_to ≡ ok reply
        → (c : Result Unit ApiError) → check_request tenant req from ≡ c
        → (d : Result (List Attachment) ApiError) → decode_all decode req.attachments ≡ d
        → IsChecked decode fresh_key tenant req msg
    finish from to reply f t r (err e) c x d = absurd (ground arith)
    finish from to reply f t r (ok u) c (err e) d = absurd (ground arith)
    finish from to reply f t r (ok u) c (ok xs) d =
        let built : NewMessage = record {
          tenant_id = tenant.id;
          idempotency_key = or_else req.idempotency_key fresh_key;
          mail_from = from;
          from_name = req.from_name;
          rcpt_to = to;
          reply_to = reply;
          subject = req.subject;
          body_text = req.text;
          body_html = req.html;
          attachments = xs;
        } in
        let e : built ≡ msg = ground arith in
        let checks = check_request_ok tenant req from c in
        subst (IsChecked decode fresh_key tenant req) e (record {
          sender = address_of_ok (codes "from") req.from f;
          recipient = address_of_ok (codes "to") req.to t;
          replies = reply_address_ok req.reply_to r;
          allowed = checks.0;
          body = checks.1;
          titled = checks.2;
          attached = decode_all-Decodes decode req.attachments d;
          owner = refl;
          key = refl;
          name = refl;
          subject = refl;
          text = refl;
          html = refl;
        })

    go :
        (f : Result Str ApiError)
        → address_of (codes "from") req.from ≡ f
        → (t : Result Str ApiError) → address_of (codes "to") req.to ≡ t
        → (r : Result (Option Str) ApiError) → reply_address req.reply_to ≡ r
        → IsChecked decode fresh_key tenant req msg
    go (err e) f t g r k = absurd (ground arith)
    go (ok from) f (err e) g r k = absurd (ground arith)
    go (ok from) f (ok to) g (err e) k = absurd (ground arith)
    go (ok from) f (ok to) g (ok reply) k =
        finish from to reply f g k (check_request tenant req from) refl
          (decode_all decode req.attachments) refl

IsChecked-to_message :
    (decode : Decoder) (fresh_key : Str) (tenant : Tenant) (req : SubmitRequest) (msg : NewMessage)
    → IsChecked decode fresh_key tenant req msg
    → to_message decode fresh_key tenant req ≡ ok msg
unfolding to_message
IsChecked-to_message decode fresh_key tenant req msg c =
    rw
      (
        address_of-of_normalize (codes "from") req.from c.sender,
        address_of-of_normalize (codes "to") req.to c.recipient,
        Replies-reply_address req.reply_to msg.reply_to c.replies,
        check_request-of_checks tenant req msg.mail_from c.allowed
            (ap (λ o. is_some o || is_some req.html) (sym c.text)
              ∙ ap (λ o. is_some msg.body_text || is_some o) (sym c.html)
              ∙ c.body)
            (ap (λ t. is_empty (trim t)) (sym c.subject) ∙ c.titled),
        Decodes-decode_all decode req.attachments msg.attachments c.attached,
        ← c.owner,
        ← c.key,
        ← c.name,
        ← c.subject,
        ← c.text,
        ← c.html,
      )
      refl

-- A submission succeeds exactly if the request passes every check: its addresses are valid and in
-- the stored shape, the tenant may send as the sender, a body and a subject are there, and every
-- attachment decodes. Then the queue accepts the request's message, and the response is its answer.
pub submit_iff :
    (env : Platform) (decode : Decoder) (now id : ℕ) (fresh_key : Str) (db : Db) (tenant : Tenant)
    (req : SubmitRequest) (db' : Db) (response : SubmitResponse)
    → submit env decode now id fresh_key db tenant req ≡ ok (db', response) ↔ (
        (msg : NewMessage) × IsChecked decode fresh_key tenant req msg
        × ((accept env now id db msg).0 ≡ db')
        × (to_response (accept env now id db msg).1 ≡ response))
unfolding submit
submit_iff env decode now id fresh_key db tenant req db' response = (
  λ h. forth (to_message decode fresh_key tenant req) refl h,
  λ (msg, c, d, r). rw (IsChecked-to_message decode fresh_key tenant req msg c, d, r) refl,
)
  where
    forth :
        (m : Result NewMessage ApiError)
        → to_message decode fresh_key tenant req ≡ m
        → submit env decode now id fresh_key db tenant req ≡ ok (db', response)
        → (msg : NewMessage) × IsChecked decode fresh_key tenant req msg
          × ((accept env now id db msg).0 ≡ db')
          × (to_response (accept env now id db msg).1 ≡ response)
    forth (err e) m h = absurd (ground arith)
    forth (ok msg) m h =
        (msg, to_message-IsChecked decode fresh_key tenant req m, ground arith, ground arith)
