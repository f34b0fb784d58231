-- ===== src/Rtsp/Teardown/Reading.antt =====
-- RTSP_TEARDOWN.cpp: the steps that only read the request.
use rtsp_server.Base.{
  ℕ, ◌-◌, ◌≡◌, refl, sym, Bool, true, false, Option, none, some, length, if◌then◌else◌, ◌==◌, subst,
  ltb,
}
use rtsp_server.Rtsp.Text.{Bytes, strstr, last_from}
use rtsp_server.Rtsp.Host.{Host}
use rtsp_server.Rtsp.Connection.{
  State, M, ◌>>=◌, pure, crash, the_buffer, within, perform, break, reject, send_err_reply, require,
  demand,
}
use rtsp_server.Rtsp.Connection.Yields.{Yields, yields, stopped, crashed, yields_bind}
use rtsp_server.Rtsp.Request.{
  hdr_session, request_text, session_word, object_of, stays_inside, without_slash, demand_file,
  is_live, word_after,
}
use rtsp_server.Rtsp.Describe.{or_crash}
use rtsp_server.Rtsp.Pause.{check_object, check_file}
use rtsp_server.Rtsp.Teardown.{check_session}

-- Code that returns in the state in which it began.
pub record Reads {A : Type 0} (m : M A) : Type 0 where
  pub kept : (s : State) → Yields (λ a t. t ≡ s) (m s)

-- What holds of code behind such a step.
pub behind :
    {A B : Type 0} {Q : B → State → Type 0} (m : M A) (f : A → M B) (s : State)
    → Reads m
    → ((a : A) → Yields Q (f a s))
    → Yields Q ((m >>= f) s)
behind {A} {B} {Q} m f s r next =
    yields_bind m f s (r.kept s) (λ a t same. subst (λ t'. Yields Q (f a t')) (sym same) (next a))

Reads-bind :
    {A B : Type 0} {m : M A} {f : A → M B} → Reads m → ((a : A) → Reads (f a)) → Reads (m >>= f)
Reads-bind {A} {B} {m} {f} r next = record { kept = λ s. behind m f s r (λ a. (next a).kept s) }

pure-Reads : {A : Type 0} (a : A) → Reads (pure a)
unfolding pure
pure-Reads a = record { kept = λ s. yields refl }

crash-Reads : {A : Type 0} → Reads (crash {A = A})
unfolding crash
crash-Reads = record { kept = λ s. crashed }

the_buffer-Reads : Reads the_buffer
unfolding the_buffer
the_buffer-Reads = record { kept = λ s. yields refl }

within-Reads : (b : Bool) → Reads (within b)
unfolding within
within-Reads true = pure-Reads tt
within-Reads false = crash-Reads

reject-Reads : {A : Type 0} (err : ℕ) → Reads (reject {A = A} err)
unfolding reject send_err_reply ◌>>=◌ the_buffer perform break
reject-Reads err = record { kept = λ s. stopped }

require-Reads : {A : Type 0} (err : ℕ) (o : Option A) → Reads (require err o)
unfolding require
require-Reads err none = reject-Reads err
require-Reads err (some a) = pure-Reads a

demand-Reads : (err : ℕ) (b : Bool) → Reads (demand err b)
unfolding demand
demand-Reads err true = pure-Reads tt
demand-Reads err false = reject-Reads err

pub or_crash-Reads : {A : Type 0} (o : Option A) → Reads (or_crash o)
unfolding or_crash
or_crash-Reads none = crash-Reads
or_crash-Reads (some a) = pure-Reads a

pub request_text-Reads : Reads request_text
unfolding request_text
request_text-Reads =
    Reads-bind the_buffer-Reads (λ b. Reads-bind (within-Reads _) (λ _. pure-Reads _))

pub object_of-Reads : (url : Bytes) → Reads (object_of url)
unfolding object_of
object_of-Reads url = Reads-bind (require-Reads 500 _) (λ u. pure-Reads _)

without_slash-Reads : (object : Bytes) → Reads (without_slash object)
unfolding without_slash
without_slash-Reads object = long (length object == 0) (last_from (length object - 1) b'/' object) _
  where
    cut :
        (o : Option Bytes) (n : Bytes) → Reads (elim o [ none ↦ pure object | some slash ↦ pure n ])
    cut none n = pure-Reads _
    cut (some slash) n = pure-Reads _

    long :
        (b : Bool) (o : Option Bytes) (n : Bytes)
        → Reads (if b then crash else elim o [ none ↦ pure object | some slash ↦ pure n ])
    long true o n = crash-Reads
    long false o n = cut o n

check_file-Reads : (h : Host) (object : Bytes) → Reads (check_file h object)
unfolding check_file stays_inside demand_file
check_file-Reads h object =
    Reads-bind (Reads-bind (demand-Reads 403 _) (λ _. demand-Reads 403 _))
      (λ _. Reads-bind (without_slash-Reads object) (λ name. demand-Reads 404 _))

pub check_object-Reads : (h : Host) (object : Bytes) → Reads (check_object h object)
unfolding check_object
check_object-Reads h object = either (is_live object)
  where
    either : (b : Bool) → Reads (if b then pure tt else check_file h object)
    either true = pure-Reads tt
    either false = check_file-Reads h object

pub check_session-Reads : Reads check_session
unfolding check_session session_word
check_session-Reads = Reads-bind request_text-Reads (λ text. either (strstr text hdr_session))
  where
    either :
        (o : Option Bytes)
        → Reads (elim o [
          | none ↦ pure tt
          | some p ↦
              ((require 454 (word_after p) >>= λ word.
              within (ltb (length word) 65) >>= λ _. pure word)
                >>= λ word. pure tt)
        ])
    either none = pure-Reads tt
    either (some p) =
        Reads-bind
          (Reads-bind (require-Reads 454 _)
            (λ word. Reads-bind (within-Reads _) (λ _. pure-Reads word)))
          (λ word. pure-Reads tt)
