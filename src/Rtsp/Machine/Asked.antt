-- ===== src/Rtsp/Machine/Asked.antt =====
-- RTSP_state_machine.cpp: the session that a request asks for by its Session header.
use rtsp_server.Base.{
  ℕ, zero, suc, ◌+◌, ◌<◌, ◌≡◌, ◌≢◌, refl, sym, ap, ◌∙◌, inl, inr, Bool, true, false, List, [], ◌∷◌,
  Option, none, some, arith, length, get_elem?, Bool-cases, ltb, ==_iff, subst, if_true, if_false,
}
use rtsp_server.Rtsp.Text.{Bytes, c_string, str_eq, strstr}
use rtsp_server.Rtsp.Connection.{
  Session, State, M, ◌>>=◌, pure, crash, the_buffer, within, require, reject, send_err_reply, break,
  perform,
}
use rtsp_server.Rtsp.Connection.Yields.{Yields, yields, stopped, crashed, yields_bind}
use rtsp_server.Rtsp.Request.{hdr_session, request_text, word_after, session_word}
use rtsp_server.Rtsp.Describe.{or_crash}
use rtsp_server.Rtsp.Machine.{find_session, select}

-- The place of the session that the text of the request asks for: the first session with the word
-- behind the Session header as its id; the first of all where there is no such header, and where no
-- session has that id.
pub data Asked (s : State) : ℕ → Type 0 where
  no_header : strstr (c_string s.buffer.in_buffer) hdr_session ≡ none → Asked s 0
  by_id :
      (p : Bytes) (i : ℕ) (x : Session)
      → strstr (c_string s.buffer.in_buffer) hdr_session ≡ some p
      → get_elem? s.buffer.session_list i ≡ some x
      → word_after p ≡ some x.session_id
      → ((j : ℕ) (y : Session)
          → j < i
          → get_elem? s.buffer.session_list j ≡ some y
          → y.session_id ≢ x.session_id)
      → Asked s i
  no_such_id :
      (p id : Bytes)
      → strstr (c_string s.buffer.in_buffer) hdr_session ≡ some p
      → word_after p ≡ some id
      → ((j : ℕ) (y : Session) → get_elem? s.buffer.session_list j ≡ some y → y.session_id ≢ id)
      → Asked s 0

str_eq_self : (s : Bytes) → str_eq s s ≡ true
unfolding str_eq
str_eq_self [] = refl
str_eq_self (c ∷ s) = ground (arith, ==_iff c c, str_eq_self s)

pub str_eq_sound : (s t : Bytes) → str_eq s t ≡ true → s ≡ t
unfolding str_eq
str_eq_sound [] [] e = refl
str_eq_sound [] (d ∷ t) e = absurd (ground arith)
str_eq_sound (c ∷ s) [] e = absurd (ground arith)
str_eq_sound (c ∷ s) (d ∷ t) e = ground (arith, ==_iff c d, str_eq_sound s t)

str_eq-ne : (s t : Bytes) → str_eq s t ≡ false → t ≢ s
str_eq-ne s t e same = true≢false (sym (ap (str_eq s) same ∙ str_eq_self s) ∙ e)
  where
    true≢false : ◌≢◌ {A = Bool} true false
    true≢false q = absurd (ground arith)

-- What find_session gives, counted from `k` on.
data Finds (id : Bytes) (k : ℕ) (l : List Session) : Option (Option ℕ) → Type 0 where
  null_id : Finds id k l none
  missing :
      ((j : ℕ) (y : Session) → get_elem? l j ≡ some y → y.session_id ≢ id)
      → Finds id k l (some none)
  found :
      (i j : ℕ) (x : Session)
      → i ≡ k + j
      → get_elem? l j ≡ some x
      → x.session_id ≡ id
      → ((j' : ℕ) (y : Session) → j' < j → get_elem? l j' ≡ some y → y.session_id ≢ id)
      → Finds id k l (some (some i))

module _ (id : Bytes) (k : ℕ) (z : Session) (l : List Session) (other : z.session_id ≢ id) where
  other_head :
      (j : ℕ) (y : Session)
      → ((j' : ℕ) → j ≡ suc j' → get_elem? l j' ≡ some y → y.session_id ≢ id)
      → get_elem? (z ∷ l) j ≡ some y
      → y.session_id ≢ id
  other_head zero y later e same = other (ap (λ o. id_of o) e ∙ same)
    where
      id_of : Option Session → Bytes
      id_of none = []
      id_of (some x) = x.session_id
  other_head (suc j) y later e same = later j refl e same

  Finds-next : {o : Option (Option ℕ)} → Finds id (k + 1) l o → Finds id k (z ∷ l) o
  Finds-next null_id = null_id
  Finds-next (missing none_has) = missing (λ j y. other_head j y (λ j' e. none_has j' y))
  Finds-next (found i j x place e same before) =
      found i (suc j) x (omega arith) e same
        (λ j' y below. other_head j' y (λ j'' e'. before j'' y (omega arith)))

find_session-Finds : (id : Bytes) (k : ℕ) (l : List Session) → Finds id k l (find_session id k l)
unfolding find_session
find_session-Finds id k [] = missing (λ j y e. absurd (ground arith))
find_session-Finds id k (x ∷ l) = elim (Bool-cases x.id_is_null) [
  | inl e ↦ finds (if_true _ _ _ e) null_id
  | inr e ↦ elim (Bool-cases (str_eq id x.session_id)) [
    | inl same ↦ finds (if_false _ _ _ e ∙ if_true _ _ _ same) (
        found k 0 x (omega arith) refl (sym (str_eq_sound id x.session_id same))
          (λ j y below. absurd (omega arith)))
    | inr other ↦
        finds (if_false _ _ _ e ∙ if_false _ _ _ other)
          (Finds-next id k x l (str_eq-ne id x.session_id other) (find_session-Finds id (k + 1) l))
  ]
]
  where
    finds : {o o' : Option (Option ℕ)} → o ≡ o' → Finds id k (x ∷ l) o' → Finds id k (x ∷ l) o
    finds e f = subst (Finds id k (x ∷ l)) (sym e) f

-- The place of the session with an id.
place_of : Bytes → M ℕ
place_of id = do
  b ← the_buffer
  places ← or_crash (find_session id 0 b.session_list)
  pure (elim places [ none ↦ 0 | some i ↦ i ])

module _ (s : State) where
  request_text-Yields :
      Yields (λ text t. (t ≡ s) × (text ≡ c_string s.buffer.in_buffer)) (request_text s)
  unfolding request_text ◌>>=◌ the_buffer within pure crash
  request_text-Yields =
      ended (ltb (length (c_string s.buffer.in_buffer)) (length s.buffer.in_buffer))
    where
      ended :
          (b : Bool)
          → Yields
              (λ text t. (t ≡ s) × (text ≡ c_string s.buffer.in_buffer))
              ((within b >>= λ _. pure (c_string s.buffer.in_buffer)) s)
      ended true = yields (refl, refl)
      ended false = crashed

  session_word-Yields :
      (p : Bytes) → Yields (λ word t. (t ≡ s) × (word_after p ≡ some word)) (session_word 64 p s)
  unfolding session_word ◌>>=◌ within pure crash require reject send_err_reply break perform
      the_buffer
  session_word-Yields p = read (word_after p) refl
    where
      fitting :
          (word : Bytes) (b : Bool)
          → word_after p ≡ some word
          → Yields
              (λ word' t. (t ≡ s) × (word_after p ≡ some word'))
              ((within b >>= λ _. pure word) s)
      fitting word true e = yields (refl, e)
      fitting word false e = crashed

      read :
          (o : Option Bytes)
          → word_after p ≡ o
          → Yields
              (λ word t. (t ≡ s) × (word_after p ≡ some word))
              ((require 454 o >>= λ word. within (ltb (length word) 64) >>= λ _. pure word) s)
      read none e = stopped
      read (some word) e = fitting word (ltb (length word) 64) e

  place_of-Asked :
      (p id : Bytes)
      → strstr (c_string s.buffer.in_buffer) hdr_session ≡ some p
      → word_after p ≡ some id
      → Yields (λ i t. (t ≡ s) × Asked s i) (place_of id s)
  unfolding place_of ◌>>=◌ the_buffer or_crash pure crash
  place_of-Asked p id header word =
      placed (find_session id 0 s.buffer.session_list)
        (find_session-Finds id 0 s.buffer.session_list)
    where
      placed :
          (o : Option (Option ℕ))
          → Finds id 0 s.buffer.session_list o
          → Yields
              (λ i t. (t ≡ s) × Asked s i)
              ((or_crash o >>= λ places. pure (elim places [ none ↦ 0 | some i ↦ i ])) s)
      placed none null_id = crashed
      placed (some none) (missing none_has) = yields (refl, no_such_id p id header word none_has)
      placed (some (some i)) (found _ j x place e same before) =
          let here : i ≡ j = omega arith in
          yields (
            refl,
            by_id p i x header (ap (get_elem? s.buffer.session_list) here ∙ e)
                (word ∙ ap some (sym same))
                (λ j' y below e' same'. before j' y (omega arith) e' (same' ∙ same)),
          )

  -- Where a session is chosen, it is the one asked for, and nothing has changed.
  pub select-Asked : Yields (λ i t. (t ≡ s) × Asked s i) (select s)
  unfolding select place_of pure
  select-Asked = yields_bind _ _ s request_text-Yields (λ text t read.
      subst (λ t'. Yields (λ i u. (u ≡ s) × Asked s i) (by_header (strstr text hdr_session) t'))
        (sym read.0)
        (by_header-Asked (strstr text hdr_session)
          (ap (λ text'. strstr text' hdr_session) (sym read.1))))
    where
      by_header : Option Bytes → M ℕ
      by_header o = elim o [ none ↦ pure 0 | some p ↦ (session_word 64 p >>= place_of) ]

      by_header-Asked :
          (o : Option Bytes)
          → strstr (c_string s.buffer.in_buffer) hdr_session ≡ o
          → Yields (λ i t. (t ≡ s) × Asked s i) (by_header o s)
      by_header-Asked none e = yields (refl, no_header e)
      by_header-Asked (some p) e = yields_bind _ _ s (session_word-Yields p) (λ word t q.
          subst (λ t'. Yields (λ i u. (u ≡ s) × Asked s i) (place_of word t')) (sym q.0)
            (place_of-Asked p word e q.1))
