-- ===== src/Transport/Contract.antt =====
-- transport/base.py: the `Transport` interface as a record of operations, and the laws that the
-- layers above rely on. What the backend does during a call is an argument of it, a `Moment`.
use bedjet_local.Prelude.{◌≡◌, ◌⊎◌, String, Bool, false, Option, List, [], ◌∷◌, ◌++◌}
use bedjet_local.Protocol.Constants.{Bytes}
use bedjet_local.Python.Result.{Result, ok, err}

-- `TransportError`, by its message.
pub data TransportError : Type 0 where
  not_connected not_advertising vanished out_of_slots link_refused translated simulated
        no_scripted_read :
      TransportError

-- An exception of a transport's method: its own, or one of another type that came through.
pub data Raised : Type 0 where
  transport_error : TransportError → Raised
  foreign : Raised

pub record Transport : Type 1 where
  pub State : Type 0
  pub Moment : Type 0
  pub connect : Moment → String → State → Result Raised (Unit {0}) × State
  pub disconnect : Moment → State → Result Raised (Unit {0}) × State
  pub is_connected : Moment → State → Bool
  pub read : Moment → String → State → Result Raised Bytes × State
  pub write : Moment → String → Bytes → Option Bool → State → Result Raised (Unit {0}) × State
  pub subscribe : Moment → String → State → Result Raised (Unit {0}) × State
  pub unsubscribe : Moment → String → State → Result Raised (Unit {0}) × State
  -- the writes handed to the backend, oldest first
  pub handed : State → List (String × Bytes)
  -- moments at which the backend raises nothing but what it documents
  pub IsOrderly : Moment → Type 0

-- Whatever is raised is a `TransportError`.
abbrev pub IsTranslated : {A : Type 0} → Result Raised A → Type 0
IsTranslated (ok a) = Unit {0}
IsTranslated (err (transport_error e)) = Unit {0}
IsTranslated (err foreign) = ⊥

pub record IsTransport (t : Transport) : Type 0 where
  -- a link that was given up is down, even when giving it up raised
  pub released : (m m' : t.Moment) (s : t.State) → t.is_connected m' (t.disconnect m s).1 ≡ false
  -- a failed connection changes nothing about the link
  pub failed_connect :
      (m m' : t.Moment) (address : String) (s : t.State) {e : Raised}
      → (t.connect m address s).0 ≡ err e
      → t.is_connected m' (t.connect m address s).1 ≡ t.is_connected m' s
  -- a write that returns was handed over once; one that raises, at most once
  pub written :
      (m : t.Moment) (uuid : String) (payload : Bytes) (response : Option Bool) (s : t.State)
      → (t.write m uuid payload response s).0 ≡ ok tt
      → t.handed (t.write m uuid payload response s).1 ≡ t.handed s ++ (uuid, payload) ∷ []
  pub written_at_most :
      (m : t.Moment) (uuid : String) (payload : Bytes) (response : Option Bool) (s : t.State)
      → (t.handed (t.write m uuid payload response s).1 ≡ t.handed s)
        ⊎ (t.handed (t.write m uuid payload response s).1 ≡ t.handed s ++ (uuid, payload) ∷ [])
  -- nothing goes out over a link that is down
  pub no_link_no_write :
      (m : t.Moment) (uuid : String) (payload : Bytes) (response : Option Bool) (s : t.State)
      → t.is_connected m s ≡ false
      → (t.write m uuid payload response s).0 ≡ err (transport_error not_connected)
        × t.handed (t.write m uuid payload response s).1 ≡ t.handed s
  pub no_link_no_read :
      (m : t.Moment) (uuid : String) (s : t.State)
      → t.is_connected m s ≡ false
      → (t.read m uuid s).0 ≡ err (transport_error not_connected)
  -- only writes write
  pub reads_quietly :
      (m : t.Moment) (uuid : String) (s : t.State) → t.handed (t.read m uuid s).1 ≡ t.handed s
  -- the layers above need not know the backend's exceptions
  pub connect_translated :
      (m : t.Moment) (address : String) (s : t.State)
      → t.IsOrderly m
      → IsTranslated (t.connect m address s).0
  pub disconnect_translated :
      (m : t.Moment) (s : t.State) → t.IsOrderly m → IsTranslated (t.disconnect m s).0
  pub read_translated :
      (m : t.Moment) (uuid : String) (s : t.State)
      → t.IsOrderly m
      → IsTranslated (t.read m uuid s).0
  pub write_translated :
      (m : t.Moment) (uuid : String) (payload : Bytes) (response : Option Bool) (s : t.State)
      → t.IsOrderly m
      → IsTranslated (t.write m uuid payload response s).0
  pub subscribe_translated :
      (m : t.Moment) (uuid : String) (s : t.State)
      → t.IsOrderly m
      → IsTranslated (t.subscribe m uuid s).0
  pub unsubscribe_translated :
      (m : t.Moment) (uuid : String) (s : t.State)
      → t.IsOrderly m
      → IsTranslated (t.unsubscribe m uuid s).0
