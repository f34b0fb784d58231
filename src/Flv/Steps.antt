-- ===== src/Flv/Steps.antt =====
-- What the functions of flvParser have in common: a state, and steps on it that may fail. A step
-- that has failed is a function that returned false, or returned early.
pub mod Ends
use rtsp_server.Base.{◌≡◌, ap, ℕ, Bool, true, false, List, [], ◌∷◌, ◌++◌, Option, none, some}
use rtsp_server.File.Handler.{Handler, Origin, handler, read_file, seek, current_file}
use rtsp_server.Flv.Packet.{PacketType, TimedPacket}

-- flvHeader, without its signature and reserved flags, which are only set to what is required.
-- `none` is a member that nothing has set.
pub record Header : Type 0 where
  pub version : Option ℕ
  pub type_flags_audio : Option ℕ
  pub type_flags_video : Option ℕ
  pub data_offset : Option ℕ

-- The members of flvParser, and the packet that the frame under way fills.
pub record Parser : Type 0 where
  pub file : Handler
  pub header : Header
  pub duration : ℕ
  pub out : TimedPacket

-- The end of a step: its result, a failure, an access outside memory or an allocation of a
-- negative size, or more recursion than the fuel allows.
pub data Outcome (A : Type 0) : Type 0 where
  done : A → Parser → Outcome A
  failed : Parser → Outcome A
  fault : Outcome A
  out_of_fuel : Outcome A

abbrev pub Step : Type 0 → Type 0
Step A = Parser → Outcome A

abbrev pub pure : {A : Type 0} → A → Step A
pure a s = Outcome.done a s

abbrev pub fail : {A : Type 0} → Step A
fail s = Outcome.failed s

abbrev pub crash : {A : Type 0} → Step A
crash s = Outcome.fault

abbrev pub exhausted : {A : Type 0} → Step A
exhausted s = Outcome.out_of_fuel

unfoldable pub then_do : {A B : Type 0} → Outcome A → (A → Step B) → Outcome B
then_do (Outcome.done a s) f = f a s
then_do (Outcome.failed s) f = Outcome.failed s
then_do Outcome.fault f = Outcome.fault
then_do Outcome.out_of_fuel f = Outcome.out_of_fuel

infixl 5 ◌>>=◌ ◌>>◌
unfoldable pub ◌>>=◌ : {A B : Type 0} → Step A → (A → Step B) → Step B
◌>>=◌ m f s = then_do (m s) f

abbrev pub ◌>>◌ : {A B : Type 0} → Step A → Step B → Step B
m >> k = m >>= λ _. k

abbrev pub current : Step Parser
current s = Outcome.done s s

abbrev pub modify : (Parser → Parser) → Step (Unit {0})
modify f s = Outcome.done tt (f s)

-- A failure that the code goes on from, as `none`.
unfoldable pub recover : {A : Type 0} → Outcome A → Outcome (Option A)
recover (Outcome.done a s) = Outcome.done (some a) s
recover (Outcome.failed s) = Outcome.done none s
recover Outcome.fault = Outcome.fault
recover Outcome.out_of_fuel = Outcome.out_of_fuel

unfoldable pub attempt : {A : Type 0} → Step A → Step (Option A)
attempt m s = recover (m s)

abbrev pub require : Bool → Step (Unit {0})
require true s = Outcome.done tt s
require false s = Outcome.failed s

-- A read of the file, from what readFile gives.
unfoldable pub after_read : Option (Option (List ℕ) × Handler) → Step (List ℕ)
after_read none s = Outcome.fault
after_read (some (none, h)) s = Outcome.failed (record s { file = h })
after_read (some (some bytes, h)) s = Outcome.done bytes (record s { file = h })

unfoldable pub read : ℕ → Step (List ℕ)
read n s = after_read (read_file n s.file) s

-- A byte.
unfoldable pub byte_of : List ℕ → ℕ
byte_of [] = 0
byte_of (byte ∷ rest) = byte

abbrev pub position : Step ℕ
position s = Outcome.done (current_file s.file) s

-- A seek whose result nobody looks at.
unfoldable pub seek_to : ℕ → Step (Unit {0})
seek_to offset s =
    Outcome.done tt (record s { file = handler (seek offset Origin.seek_set s.file) })

-- push_back on the units of the packet.
unfoldable pub push : List ℕ → Step (Unit {0})
push unit = modify λ s. record s { out = record s.out { units = s.out.units ++ (unit ∷ []) } }

unfoldable pub set_type : PacketType → Step (Unit {0})
set_type type = modify λ s. record s { out = record s.out { packet_type = some type } }

unfoldable pub set_timestamp : Option ℕ → Step (Unit {0})
set_timestamp timestamp = modify λ s. record s { out = record s.out { timestamp = timestamp } }

-- A step in front of others, once it is known what it does.
pub bind_done :
    {A B : Type 0} (m : Step A) (f : A → Step B) (s s' : Parser) (a : A)
    → m s ≡ Outcome.done a s'
    → (m >>= f) s ≡ f a s'
unfolding ◌>>=◌ then_do
bind_done m f s s' a e = ap (λ o. then_do o f) e

pub attempt_done :
    {A : Type 0} (m : Step A) (s s' : Parser) (a : A)
    → m s ≡ Outcome.done a s'
    → attempt m s ≡ Outcome.done (some a) s'
unfolding attempt recover
attempt_done m s s' a e = ap recover e

pub bind_require :
    {B : Type 0} (test : Bool) (f : Unit {0} → Step B) (s : Parser)
    → test ≡ true
    → (require test >>= f) s ≡ f tt s
bind_require test f s e = bind_done (require test) f s s tt (ap (λ b. require b s) e)
