-- ===== src/Rtsp/Connection/Yields.antt =====
-- Rules for the value and the state that code on a connection returns.
use rtsp_server.Rtsp.Connection.{State, Result, ret, stop, fault, M, ◌>>=◌}
use rtsp_server.Rtsp.Connection.Steps.{Relation, Holds, rets, stops, faults, Keeps}

-- If a value is returned, `Q` holds of it and of the state.
pub data Yields {A : Type 0} (Q : A → State → Type 0) : Result A → Type 0 where
  yields : {a : A} {t : State} → Q a t → Yields Q (ret a t)
  stopped : {t : State} → Yields Q (stop t)
  crashed : Yields Q fault

module _ {A B : Type 0} {P : A → State → Type 0} {Q : B → State → Type 0} where
  carry :
      {r : Result A} (f : A → M B)
      → Yields P r
      → ((a : A) (t : State) → P a t → Yields Q (f a t))
      → Yields Q (elim r [ ret a t ↦ f a t | stop t ↦ stop t | fault ↦ fault ])
  carry f (yields {a} {t} p) k = k a t p
  carry f stopped k = stopped
  carry f crashed k = crashed

  pub yields_bind :
      (m : M A) (f : A → M B) (s : State)
      → Yields P (m s)
      → ((a : A) (t : State) → P a t → Yields Q (f a t))
      → Yields Q ((m >>= f) s)
  unfolding ◌>>=◌
  yields_bind m f s p k = carry f p k

-- What code keeps is there when it returns.
pub keeps_yields :
    {A : Type 0} {P Q : State → Type 0} {E : Relation} {m : M A} (s : State)
    → Keeps (λ s' t. P s' → Q t) E m
    → P s
    → Yields (λ a t. Q t) (m s)
keeps_yields {A} {P} {Q} {E} {m} s k p = known (k.apply s)
  where
    known : {r : Result A} → Holds (λ s' t. P s' → Q t) E s r → Yields (λ a t. Q t) r
    known (rets q) = yields (q p)
    known (stops e) = stopped
    known faults = crashed

-- Of anything returned there is something to say.
pub any_yields : {A : Type 0} (r : Result A) → Yields (λ a t. Unit {0}) r
any_yields (ret a t) = yields tt
any_yields (stop t) = stopped
any_yields fault = crashed
