-- ===== src/Protocol/Decode/Integrity.antt =====
-- The integrity gate: what `is_trustworthy` asks of the bytes that were decoded.
use bedjet_local.Prelude.{
  Bool-cases, inl, inr, subst, ℕ, zero, suc, ◌+◌, ◌%◌, ◌≤◌, ◌<◌, ◌≡◌, ◌≢◌, ◌↔◌, refl, true, false,
  some, [], ◌∷◌, arith, length, get_elem?, set, take,
}
use bedjet_local.Protocol.Constants.{Bytes, sum, verify_checksum}
use bedjet_local.Protocol.Packets.{is_trustworthy}
use bedjet_local.Protocol.Decode.{decode_status}

-- The bytes declare their own length, all of the declared bytes are there, at least eleven bytes
-- came, and the declared ones sum to zero modulo 256.
pub record IsIntact (bytes : Bytes) (declared : ℕ) : Type 0 where
  pub declares : get_elem? bytes 2 ≡ some declared
  pub enough : 11 ≤ length bytes
  pub whole : declared + 4 ≤ length bytes
  pub sums_to_zero : sum (take (declared + 4) bytes) % 256 ≡ 0

pub trustworthy-IsIntact :
    (bytes : Bytes)
    → is_trustworthy (decode_status bytes) ≡ true
    → (declared : ℕ) × IsIntact bytes declared
unfolding is_trustworthy decode_status verify_checksum
trustworthy-IsIntact [] h = cc
trustworthy-IsIntact (a ∷ []) h = cc
trustworthy-IsIntact (a ∷ b ∷ []) h = cc
trustworthy-IsIntact (a ∷ b ∷ d ∷ bs) h = (d, ground arith)

pub IsIntact-trustworthy :
    (bytes : Bytes) (declared : ℕ)
    → IsIntact bytes declared
    → is_trustworthy (decode_status bytes) ≡ true
unfolding is_trustworthy decode_status verify_checksum
IsIntact-trustworthy [] d h = ground arith
IsIntact-trustworthy (b ∷ bs) d h = ground arith

pub take-set : (n : ℕ) (xs : Bytes) (i v : ℕ) → take n (set xs i v) ≡ set (take n xs) i v
take-set zero xs i v = refl
take-set (suc n) [] i v = refl
take-set (suc n) (x ∷ xs) zero v = refl
take-set (suc n) (x ∷ xs) (suc i) v = ground (arith, take-set n xs i v)

pub sum-set :
    (n : ℕ) (xs : Bytes) (i old v : ℕ)
    → get_elem? xs i ≡ some old
    → i < n
    → sum (take n (set xs i v)) + old ≡ sum (take n xs) + v
unfolding sum
sum-set n [] i old v h l = ground arith
sum-set zero (x ∷ xs) i old v h l = ground arith
sum-set (suc n) (x ∷ xs) zero old v h l = ground arith
sum-set (suc n) (x ∷ xs) (suc i) old v h l = ground (arith, sum-set n xs i old v h)

length-set : (xs : Bytes) (i v : ℕ) → length (set xs i v) ≡ length xs
length-set [] i v = refl
length-set (x ∷ xs) zero v = refl
length-set (x ∷ xs) (suc i) v = ground (arith, length-set xs i v)

get_elem?-set_ne : (xs : Bytes) (i j v : ℕ) → i ≢ j → get_elem? (set xs i v) j ≡ get_elem? xs j
get_elem?-set_ne [] i j v h = refl
get_elem?-set_ne (x ∷ xs) zero zero v h = absurd (h refl)
get_elem?-set_ne (x ∷ xs) zero (suc j) v h = refl
get_elem?-set_ne (x ∷ xs) (suc i) zero v h = refl
get_elem?-set_ne (x ∷ xs) (suc i) (suc j) v h = get_elem?-set_ne xs i j v (λ e. h (omega arith))

-- A decoded packet is trustworthy exactly when its bytes are intact: at least eleven came, byte 2
-- declares a length, all the declared bytes are there, and they sum to zero modulo 256.
pub trustworthy_iff :
    (bytes : Bytes)
    → (is_trustworthy (decode_status bytes) ≡ true) ↔ ((declared : ℕ) × IsIntact bytes declared)
trustworthy_iff bytes = (trustworthy-IsIntact bytes, λ h. IsIntact-trustworthy bytes h.0 h.1)

IsIntact-set :
    (bytes : Bytes) (declared declared' i old v : ℕ)
    → IsIntact bytes declared
    → get_elem? bytes i ≡ some old
    → i < declared + 4
    → i ≢ 2
    → old < 256
    → v < 256
    → IsIntact (set bytes i v) declared'
    → v ≡ old
IsIntact-set bytes declared declared' i old v h e l n old_byte v_byte h' =
    let same = get_elem?-set_ne bytes i 2 v n in
    let d : declared' ≡ declared = ground (arith, same, h.declares, h'.declares) in
    let s = sum-set (declared + 4) bytes i old v e l in
    let t = subst (λ k. sum (take (k + 4) (set bytes i v)) % 256 ≡ 0) d h'.sums_to_zero in
    omega (arith, s, t, h.sums_to_zero)

-- One changed byte among the declared ones, the length byte excepted, makes an intact packet
-- untrustworthy.
pub corrupt_byte_untrusted :
    (bytes : Bytes) (declared i old v : ℕ)
    → IsIntact bytes declared
    → get_elem? bytes i ≡ some old
    → i < declared + 4
    → i ≢ 2
    → old < 256
    → v < 256
    → v ≢ old
    → is_trustworthy (decode_status (set bytes i v)) ≡ false
corrupt_byte_untrusted bytes declared i old v h e l n old_byte v_byte changed =
    elim (Bool-cases (is_trustworthy (decode_status (set bytes i v)))) [
      | inl trusted ↦
          let (declared', h') = trustworthy-IsIntact (set bytes i v) trusted in
          absurd
            (changed (IsIntact-set bytes declared declared' i old v h e l n old_byte v_byte h'))
      | inr untrusted ↦ untrusted
    ]

-- What the sum does not cover: bytes past the declared length. Any seven bytes or more behind this
-- header are decoded into fields, and the packet is trustworthy.
pub short_declaration_trusted :
    (rest : Bytes)
    → 7 ≤ length rest
    → is_trustworthy (decode_status (0x00 ∷ 0x56 ∷ 0x00 ∷ 0xaa ∷ rest)) ≡ true
unfolding sum
short_declaration_trusted rest h =
    IsIntact-trustworthy (0x00 ∷ 0x56 ∷ 0x00 ∷ 0xaa ∷ rest) 0
      (record { declares = refl; enough = omega arith; whole = omega arith; sums_to_zero = refl })
