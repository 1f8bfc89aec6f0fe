-- ===== src/Transport/Ble/WriteType.antt =====
-- Which of the two write types a write uses.
use mathlib.Core.List.{Memᴰ}
use text.Mathlib.Text.{◌==◌ as same_text}
use text.Mathlib.TextEquality.{eq_iff}
use bedjet_local.Prelude.{
  ◌≡◌, refl, sym, inl, inr, String, Bool, true, false, none, List, [], ◌∷◌, ◌++◌, map, arith,
  Bool-cases,
}
use bedjet_local.Protocol.Constants.{Bytes}
use bedjet_local.Python.Result.{Result, ok, err}
use bedjet_local.Transport.Contract.{Raised}
use bedjet_local.Transport.Ble.{
  Answer, answered, raised, stranger, Characteristic, Moment, BleakTransport, Outcome, after,
  contains, needs_response, write_type, send, write, still_connected,
}

pub contains_sound : (name : String) (xs : List String) → contains name xs ≡ true → Memᴰ name xs
unfolding contains
contains_sound name [] h = absurd (ground arith)
contains_sound name (x ∷ xs) h = elim (Bool-cases (same_text x name)) [
  | inl same ↦ Memᴰ.head (sym ((eq_iff x name).0 same))
  | inr other ↦ Memᴰ.tail (contains_sound name xs (ground arith))
]

longer : {A : Type 0} (xs : List A) (x : A) → xs ≡ xs ++ x ∷ [] → ⊥
longer [] x h = cc
longer (y ∷ xs) x h = longer xs x (cc)

last_same : {A : Type 0} (xs : List A) (x y : A) → xs ++ x ∷ [] ≡ xs ++ y ∷ [] → x ≡ y
last_same [] x y h = cc
last_same (z ∷ xs) x y h = last_same xs x y (cc)

module _ (lower : String → String) where
  -- A characteristic of this uuid that declares the type without response.
  abbrev pub IsUnacknowledged : String → Characteristic → Type 0
  IsUnacknowledged uuid c =
      (lower c.uuid ≡ lower uuid) × Memᴰ "write-without-response" (map lower c.properties)

  needs_response_sound :
      (uuid : String) (cs : List Characteristic)
      → needs_response lower uuid cs ≡ false
      → (c : Characteristic) × Memᴰ c cs × IsUnacknowledged uuid c
  unfolding needs_response
  needs_response_sound uuid [] h = absurd (ground arith)
  needs_response_sound uuid (c ∷ cs) h = elim (Bool-cases (same_text (lower c.uuid) (lower uuid))) [
    | inl same ↦ (
      c,
      Memᴰ.head refl,
      (
        (eq_iff (lower c.uuid) (lower uuid)).0 same,
        contains_sound "write-without-response" (map lower c.properties) (ground arith),
      ),
    )
    | inr different ↦ further c (needs_response_sound uuid cs (ground arith))
  ]
    where
      further :
          (c : Characteristic) {cs : List Characteristic}
          → (d : Characteristic) × Memᴰ d cs × IsUnacknowledged uuid d
          → (d : Characteristic) × Memᴰ d (c ∷ cs) × IsUnacknowledged uuid d
      further c (d, m, p) = (d, Memᴰ.tail m, p)

  layout_chosen :
      (m : Moment) (uuid : String) (t : BleakTransport) (layout : Answer (List Characteristic))
      → m.layout ≡ layout
      → write_type lower m uuid none t ≡ ok false
      → (cs : List Characteristic) × (m.layout ≡ answered cs)
        × (needs_response lower uuid cs ≡ false)
  unfolding write_type
  layout_chosen m uuid t (answered cs) e h = (cs, e, ground arith)
  layout_chosen m uuid t (raised x) e h = absurd (ground arith)
  layout_chosen m uuid t stranger e h = absurd (ground arith)

  -- A write of one payload is recorded with the type without response.
  abbrev WentUnacknowledged : String → Bytes → BleakTransport → Outcome (Unit {0}) → Type 0
  WentUnacknowledged uuid payload t x = x.1.requests ≡ t.requests ++ (uuid, payload, false) ∷ []

  sent_type :
      (m : Moment) (uuid : String) (payload : Bytes) (t : BleakTransport)
      → (chosen : Result Raised Bool)
      → WentUnacknowledged uuid payload t (after chosen t (send lower m uuid payload t))
      → chosen ≡ ok false
  unfolding send
  sent_type m uuid payload t (err e) h = absurd (longer t.requests (uuid, payload, false) h)
  sent_type m uuid payload t (ok response) h = elim (Bool-cases (still_connected m t)) [
    | inl up ↦
        sent_false
          (last_same t.requests (uuid, payload, response) (uuid, payload, false) (ground arith))
    | inr down ↦ absurd (longer t.requests (uuid, payload, false) (ground arith))
  ]
    where
      sent_false :
          {b : Bool}
          → ◌≡◌ {A = String × Bytes × Bool} (uuid, payload, b) (uuid, payload, false)
          → ◌≡◌ {A = Result Raised Bool} (ok b) (ok false)
      sent_false e = cc

  -- An automatic write goes out without a response only where the device declares it: bleak
  -- enumerated the characteristics, and one of this uuid has the property `write-without-response`.
  pub write-automatic :
      (m : Moment) (uuid : String) (payload : Bytes) (t : BleakTransport)
      → WentUnacknowledged uuid payload t (write lower m uuid payload none t)
      → (cs : List Characteristic) × (m.layout ≡ answered cs)
        × ((c : Characteristic) × Memᴰ c cs × IsUnacknowledged uuid c)
  unfolding write
  write-automatic m uuid payload t h =
      let chosen = sent_type m uuid payload t (write_type lower m uuid none t) h in
      let (cs, e, n) = layout_chosen m uuid t m.layout refl chosen in
      (cs, e, needs_response_sound uuid cs n)
