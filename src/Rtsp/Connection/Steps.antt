-- ===== src/Rtsp/Connection/Steps.antt =====
-- Rules for code on a connection: what holds between the state before and the state after.
use rtsp_server.Base.{
  ℕ, ◌+◌, ◌<◌, ◌≤◌, ◌%◌, ◌^◌, Bool-cases, ◌≡◌, refl, Bool, true, false, List, [], ◌∷◌, ◌++◌, Option,
  none, some, arith, length, if◌then◌else◌, get_elem?, inl, inr, ltb, set, ltb→lt,
}
use rtsp_server.Rtsp.Text.{Bytes}
use rtsp_server.Rtsp.Connection.{
  Session, Buffer, Task, sends, adds, executes, State, Result, ret, stop, fault, M, ◌>>=◌, pure,
  break, crash, the_buffer, modify, perform, within, reply_head, send_err_reply, reject, require,
  demand, session_at, update_session, add_out_buffer, answer,
}

-- The state with another list of sessions.
abbrev pub with_sessions : State → List Session → State
with_sessions s l = record s { buffer = record s.buffer { session_list = l } }

-- A chain whose first step is known.
module _ {A B : Type 0} (m : M A) (f : A → M B) (s : State) where
  pub bind_ret : (a : A) (t : State) → m s ≡ ret a t → (m >>= f) s ≡ f a t
  unfolding ◌>>=◌
  bind_ret a t e = ground arith

  pub bind_stop : (t : State) → m s ≡ stop t → (m >>= f) s ≡ stop t
  unfolding ◌>>=◌
  bind_stop t e = ground arith

  pub bind_fault : m s ≡ fault → (m >>= f) s ≡ fault
  unfolding ◌>>=◌
  bind_fault e = ground arith

module _ (s : State) (i : ℕ) (f : Session → Session) where
  pub update_session-some :
      (x : Session)
      → get_elem? s.buffer.session_list i ≡ some x
      → update_session i f s ≡ ret tt (with_sessions s (set s.buffer.session_list i (f x)))
  unfolding update_session session_at ◌>>=◌ modify
  update_session-some x e = ground arith

  pub update_session-none : get_elem? s.buffer.session_list i ≡ none → update_session i f s ≡ fault
  unfolding update_session session_at ◌>>=◌ modify
  update_session-none e = ground arith

abbrev pub Relation : Type 1
Relation = State → State → Type 0

-- A result after which `R` holds, or `E` where the code has stopped.
pub data Holds {A : Type 0} (R E : Relation) (s : State) : Result A → Type 0 where
  rets : {a : A} {t : State} → R s t → Holds R E s (ret a t)
  stops : {t : State} → E s t → Holds R E s (stop t)
  faults : Holds R E s fault

pub record Keeps {A : Type 0} (R E : Relation) (m : M A) : Type 0 where
  pub apply : (s : State) → Holds R E s (m s)

-- What is left alone by a step that `quiet` speaks of.
abbrev pub Quiet : State → State → Type 0
Quiet s t =
    (t.log ≡ s.log)
    × (t.buffer.session_list ≡ s.buffer.session_list)
    × (t.buffer.out_size ≡ s.buffer.out_size)
    × (t.buffer.in_buffer ≡ s.buffer.in_buffer)

-- Relations that the steps of a handler compose to. `R` holds from the beginning up to any step, `F`
-- up to one that comes after the reply is made, `E` where the handler has stopped.
pub record Frame (R F E : Relation) : Type 0 where
  pub quiet : (s t : State) → Quiet s t → R s t
  pub trans : (s t u : State) → R s t → R t u → R s u
  pub final : (s t u : State) → R s t → F t u → F s u
  pub after : (s t u : State) → F s t → R t u → F s u
  pub fails : (s t u : State) → R s t → E t u → E s u
  pub late : (s t u : State) → F s t → E t u → E s u
  pub added : (s : State) (k : Task) → R s (record s { log = s.log ++ (adds k ∷ []) })
  pub executed : (s : State) (k : Task) → R s (record s { log = s.log ++ (executes k ∷ []) })
  pub refused :
      (s : State) (n : ℕ) (bytes : Bytes)
      → 0 < length bytes
      → E s (record s { log = s.log ++ (sends n bytes ∷ []) })
  pub replied :
      (s : State) (b : Buffer)
      → b.session_list ≡ s.buffer.session_list
      → (s.buffer.out_size ≡ 0 → 0 < b.out_size)
      → F s (record s { buffer = b })

module _ {B : Type 0} {Q R E E' : Relation} where
  extend :
      (s t : State) {r : Result B}
      → ((u : State) → Q t u → R s u)
      → ((u : State) → E' t u → E s u)
      → Holds Q E' t r
      → Holds R E s r
  extend s t seq fails (rets q) = rets (seq _ q)
  extend s t seq fails (stops e) = stops (fails _ e)
  extend s t seq fails faults = faults

module _ {A B : Type 0} {P Q R E E' : Relation} where
  Holds-bind :
      (s : State) {r : Result A} (f : A → M B)
      → ((t u : State) → P s t → Q t u → R s u)
      → ((t u : State) → P s t → E' t u → E s u)
      → Holds P E s r
      → ((a : A) → Keeps Q E' (f a))
      → Holds R E s (elim r [ ret a t ↦ f a t | stop t ↦ stop t | fault ↦ fault ])
  Holds-bind s f seq fails (rets {a} {t} p) k =
      extend s t (λ u. seq t u p) (λ u. fails t u p) ((k a).apply t)
  Holds-bind s f seq fails (stops e) k = stops e
  Holds-bind s f seq fails faults k = faults

  pub keeps_bind :
      (seq : (s t u : State) → P s t → Q t u → R s u)
      (fails : (s t u : State) → P s t → E' t u → E s u) {m : M A} {f : A → M B}
      → Keeps P E m
      → ((a : A) → Keeps Q E' (f a))
      → Keeps R E (m >>= f)
  unfolding ◌>>=◌
  keeps_bind seq fails {f} p k = record {
    apply = λ s. Holds-bind s f (seq s) (fails s) (p.apply s) k;
  }

-- Weaker relations hold as well.
module _ {A : Type 0} {R R' E E' : Relation} where
  pub Holds-mono :
      (s : State) {r : Result A}
      → ((t : State) → R s t → R' s t)
      → ((t : State) → E s t → E' s t)
      → Holds R E s r
      → Holds R' E' s r
  Holds-mono s f g (rets p) = rets (f _ p)
  Holds-mono s f g (stops e) = stops (g _ e)
  Holds-mono s f g faults = faults

  pub keeps_mono :
      ((s t : State) → R s t → R' s t)
      → ((s t : State) → E s t → E' s t)
      → {m : M A} → Keeps R E m
      → Keeps R' E' m
  keeps_mono f g k = record { apply = λ s. Holds-mono s (f s) (g s) (k.apply s) }

module _ {R F E : Relation} (frame : Frame R F E) where
  open frame use {quiet, trans, final, after, fails, late, added, executed, refused, replied}

  module _ {A B : Type 0} {m : M A} {f : A → M B} where
    -- A step before the reply, a step that ends with it, and one behind it.
    pub bind : Keeps R E m → ((a : A) → Keeps R E (f a)) → Keeps R E (m >>= f)
    bind = keeps_bind trans fails

    pub last : Keeps R E m → ((a : A) → Keeps F E (f a)) → Keeps F E (m >>= f)
    last = keeps_bind final fails

    pub more : Keeps F E m → ((a : A) → Keeps R E (f a)) → Keeps F E (m >>= f)
    more = keeps_bind after late

  pub pure-Keeps : {A : Type 0} (a : A) → Keeps R E (pure a)
  unfolding pure
  pure-Keeps a = record { apply = λ s. rets (quiet s s (refl, refl, refl, refl)) }

  pub the_buffer-Keeps : Keeps R E the_buffer
  unfolding the_buffer
  the_buffer-Keeps = record { apply = λ s. rets (quiet s s (refl, refl, refl, refl)) }

  pub modify-Keeps :
      (f : Buffer → Buffer)
      → ((s : State) → Quiet s (record s { buffer = f s.buffer }))
      → Keeps R E (modify f)
  unfolding modify
  modify-Keeps f h = record { apply = λ s. rets (quiet s _ (h s)) }

  pub adds-Keeps : (k : Task) → Keeps R E (perform (adds k))
  unfolding perform
  adds-Keeps k = record { apply = λ s. rets (added s k) }

  pub executes-Keeps : (k : Task) → Keeps R E (perform (executes k))
  unfolding perform
  executes-Keeps k = record { apply = λ s. rets (executed s k) }

  pub crash-Keeps : {A : Type 0} → Keeps R E (crash {A = A})
  unfolding crash
  crash-Keeps = record { apply = λ s. faults }

  pub within-Keeps : (b : Bool) → Keeps R E (within b)
  unfolding within
  within-Keeps true = pure-Keeps tt
  within-Keeps false = crash-Keeps

  pub reject-Keeps : {A : Type 0} (Q : Relation) (err : ℕ) → Keeps Q E (reject {A = A} err)
  unfolding reject send_err_reply reply_head ◌>>=◌ the_buffer perform break
  reject-Keeps Q err = record { apply = λ s. stops (refused s _ _ (omega arith)) }

  pub require-Keeps : {A : Type 0} (err : ℕ) (o : Option A) → Keeps R E (require err o)
  unfolding require
  require-Keeps err none = reject-Keeps R err
  require-Keeps err (some a) = pure-Keeps a

  pub demand-Keeps : (err : ℕ) (b : Bool) → Keeps R E (demand err b)
  unfolding demand
  demand-Keeps err true = pure-Keeps tt
  demand-Keeps err false = reject-Keeps R err

  pub session_at-Keeps : (i : ℕ) → Keeps R E (session_at i)
  unfolding session_at
  session_at-Keeps i = record { apply = λ s. read s (get_elem? s.buffer.session_list i) }
    where
      read :
          (s : State) (o : Option Session)
          → Holds R E s (elim o [ none ↦ fault | some x ↦ ret x s ])
      read s none = faults
      read s (some x) = rets (quiet s s (refl, refl, refl, refl))

  pub answer-Keeps :
      (size : ℕ) (reply : Bytes) → size ≤ 4096 → 0 < length reply → Keeps F E (answer size reply)
  unfolding answer add_out_buffer ◌>>=◌ within modify pure crash
  answer-Keeps size reply small some_byte = record {
    apply = λ s. elim (Bool-cases (ltb (length reply) size)) [
      | inl fits ↦ rw fits (rets (replied s _ refl (λ empty. counted s fits empty)))
      | inr over ↦ rw over faults
    ];
  }
    where
      counted :
          (s : State)
          → ltb (length reply) size ≡ true
          → s.buffer.out_size ≡ 0
          → 0 < (s.buffer.out_size + length reply % 2 ^ 16) % 2 ^ 32
      counted s fits empty = omega (arith, ltb→lt (length reply) size fits)

  -- Branches.
  pub if-Keeps :
      {A : Type 0} {Q : Relation} (b : Bool) {m n : M A}
      → Keeps Q E m
      → Keeps Q E n
      → Keeps Q E (if b then m else n)
  if-Keeps true p q = p
  if-Keeps false p q = q

  pub option-Keeps :
      {A B : Type 0} {Q : Relation} (o : Option A) {m : M B} {f : A → M B}
      → Keeps Q E m
      → ((a : A) → Keeps Q E (f a))
      → Keeps Q E (elim o [ none ↦ m | some a ↦ f a ])
  option-Keeps none p q = p
  option-Keeps (some a) p q = q a
