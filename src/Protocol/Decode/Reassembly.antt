-- ===== src/Protocol/Decode/Reassembly.antt =====
-- A packet that arrives in two parts: the first part alone, and the two joined again.
use bedjet_local.Prelude.{
  ℕ, zero, suc, ◌+◌, ◌≤◌, ◌<◌, ◌≡◌, refl, true, false, some, [], ◌∷◌, ◌∙◌, arith, length, get_elem?,
  take, drop, take-append-drop,
}
use bedjet_local.Protocol.Constants.{Bytes}
use bedjet_local.Protocol.Packets.{is_trustworthy, is_complete}
use bedjet_local.Protocol.Decode.{decode_status, reassemble, looks_like_packet_start}
use bedjet_local.Protocol.Decode.Integrity.{IsIntact, trustworthy_iff}

length-take_le : (n : ℕ) (xs : Bytes) → length (take n xs) ≤ n
length-take_le zero xs = omega arith
length-take_le (suc n) [] = omega arith
length-take_le (suc n) (x ∷ xs) = omega (arith, length-take_le n xs)

get_elem?-take : (n i : ℕ) (xs : Bytes) → i < n → get_elem? (take n xs) i ≡ get_elem? xs i
get_elem?-take zero i xs h = absurd (omega arith)
get_elem?-take (suc n) i [] h = refl
get_elem?-take (suc n) zero (x ∷ xs) h = refl
get_elem?-take (suc n) (suc i) (x ∷ xs) h = get_elem?-take n i xs (omega arith)

incomplete_of_declared :
    (bytes : Bytes) (declared : ℕ)
    → get_elem? bytes 2 ≡ some declared
    → length bytes < declared + 4
    → is_complete (decode_status bytes) ≡ false
unfolding is_complete decode_status
incomplete_of_declared [] d e h = cc
incomplete_of_declared (b ∷ bs) d e h = ground arith

-- Cut an intact packet behind its length byte and before its declared end: the first part alone is
-- incomplete, it looks like a packet start if the whole does and only then, and joined with the
-- rest it is trustworthy.
pub split_packet :
    (bytes : Bytes) (declared n : ℕ)
    → IsIntact bytes declared
    → 3 ≤ n
    → n < declared + 4
    → (is_complete (decode_status (take n bytes)) ≡ false)
      × (looks_like_packet_start (take n bytes) ≡ looks_like_packet_start bytes)
      × (is_trustworthy (decode_status (reassemble (take n bytes) (drop n bytes))) ≡ true)
unfolding reassemble looks_like_packet_start
split_packet bytes declared n h low high = (
  incomplete_of_declared (take n bytes) declared
      (get_elem?-take n 2 bytes (omega arith) ∙ h.declares) (omega (arith, length-take_le n bytes)),
  (rw (get_elem?-take n 1 bytes (omega arith), looks_like_packet_start)),
  rw (take-append-drop n bytes) ((trustworthy_iff bytes).1 (declared, h)),
)
