-- ===== src/Mail/Send.antt =====
-- mail/app/routers/mail.py: a send outside campaigns, `do_send`. The archive of the messages, the message
-- itself and the recovery of a thread are left out.
use funnelmanager.Prelude.{
  Bool, List, Option, Result, Text, [], all, codes, err, false, if◌then◌else◌, leb, ltb, non_empty,
  none, not, ok, some, strip, true, ℕ, ◌&&◌, ◌++◌, ◌+◌, ◌==◌, ◌||◌, ◌∷◌,
}
use funnelmanager.Mail.Rows.{Db, MailAccount, Settings, edit_accounts}
use funnelmanager.Mail.Quota.{enforce_direct_send, is_nil, record_direct_send}
use funnelmanager.Mail.Drafts.{HttpException, http}

-- What a call of Gmail raises: that the credentials are rejected, or an error with a status code.
pub data GmailFault : Type 0 where
  auth : Text → GmailFault
  fault : ℕ → GmailFault

-- `_gmail_http_error`
unfoldable pub gmail_http_error : ℕ → HttpException
gmail_http_error code =
    if leb 400 code && ltb code 500 && not (code == 401 || code == 403) then http code else http 502

-- `SendRequest`, as far as the guards read it.
pub record SendRequest : Type 0 where
  pub to : List Text
  pub cc : List Text
  pub bcc : List Text
  pub reply_to_message_id : Option ℕ

-- What happens outside in one send: the time until Gmail answers, its answer to the send (the id) and
-- to `get_message` (the ids of the message and its thread).
pub record Exchange : Type 0 where
  pub elapsed : ℕ
  pub send : Result GmailFault Text
  pub get_message : Result GmailFault (Text × Text)

-- `[addr.strip() for addr in addrs if addr.strip()]`
unfoldable pub stripped : List Text → List Text
stripped [] = []
stripped (addr ∷ addrs) =
    let rest = stripped addrs in if non_empty (strip addr) then strip addr ∷ rest else rest

abbrev pub all_recipients : SendRequest → List Text
all_recipients body = (stripped body.to ++ stripped body.cc) ++ stripped body.bcc

unfoldable pub do_fault : MailAccount → GmailFault → Db → Db × Option HttpException
unfolding edit_accounts gmail_http_error
do_fault account (auth error) db = (
  record db {
    accounts =
        edit_accounts account.id (λ a. record a { status = codes "error"; last_error = error })
          db.accounts;
  },
  some (http 502),
)
do_fault account (fault code) db = (db, some (gmail_http_error code))

-- What follows the calls of Gmail: the tables, and the exception that is raised, if any.
unfoldable pub do_answer :
    (Text → Text)
    → ℕ
    → MailAccount
    → List Text
    → Result GmailFault Text
    → Result GmailFault (Text × Text)
    → Db
    → Db × Option HttpException
unfolding do_fault record_direct_send
do_answer lower now account recipients (err e) full db = do_fault account e db
do_answer lower now account recipients (ok id) (err e) db = do_fault account e db
do_answer lower now account recipients (ok id) (ok (gmail_id, thread_id)) db =
    (record_direct_send lower now account recipients gmail_id thread_id db, none)

-- `valid` is the match of `_RECIPIENT_RE`, and `archived` gives the mailbox of a stored message.
module _ (settings : Settings) (lower : Text → Text) (valid : Text → Bool)
    (archived : ℕ → Option ℕ) where
  -- Whether the message to reply to is on this mailbox, where there is one.
  abbrev pub is_reply_ok : MailAccount → Option ℕ → Bool
  is_reply_ok account none = true
  is_reply_ok account (some id) = elim (archived id) [
    | none ↦ false
    | some account_id ↦ account_id == account.id
  ]

  -- The guards before the send.
  unfoldable pub send_refused : ℕ → MailAccount → SendRequest → Db → Option HttpException
  unfolding enforce_direct_send stripped
  send_refused now account body db =
      if is_nil (stripped body.to)
      then some (http 422)
      else if not (all valid (all_recipients body))
      then some (http 422)
      else elim (enforce_direct_send settings lower now db account (all_recipients body)) [
        | some raised ↦ some raised
        | none ↦ if is_reply_ok account body.reply_to_message_id then none else some (http 404)
      ]

  -- `do_send`: the tables after it, and the exception that it raises, if any
  unfoldable pub do_send : ℕ → MailAccount → SendRequest → Exchange → Db → Db × Option HttpException
  unfolding send_refused do_answer stripped
  do_send now account body x db = elim (send_refused now account body db) [
    | some raised ↦ (db, some raised)
    | none ↦ do_answer lower (now + x.elapsed) account (all_recipients body) x.send x.get_message db
  ]
