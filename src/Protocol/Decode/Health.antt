-- ===== src/Protocol/Decode/Health.antt =====
-- What a packet that decodes without anomalies has passed.
use bedjet_local.Prelude.{
  ℕ, ◌+◌, ◌%◌, ◌≤◌, ◌≡◌, ◌≢◌, ◌⊎◌, inl, inr, refl, Option, none, some, List, [], ◌∷◌, ◌++◌, ◌∙◌,
  arith, length, get_elem?, take, subst,
}
use bedjet_local.Protocol.Constants.{Offset, offset_value, Bytes, status_mode, sum}
use bedjet_local.Protocol.Packets.{actual, target, ambient, Anomaly, TemperatureLabel}
use bedjet_local.Protocol.Decode.{
  decode_status, decode_mode, decode_fan, decode_checksum, u8, decode_body, format_anomalies,
  length_anomalies, time_remaining, envelope_anomalies, range_anomalies, header_anomalies,
  temperature_anomalies, decode_temp,
}
use bedjet_local.Protocol.Decode.Integrity.{IsIntact}
use bedjet_local.Protocol.Decode.Fields.{size_cases, decode_status_long, decode_status_short}

append-eq-nil : (xs ys : List Anomaly) → xs ++ ys ≡ [] → (xs ≡ []) × (ys ≡ [])
append-eq-nil [] ys h = (refl, h)
append-eq-nil (x ∷ xs) ys h = cc

-- What a packet without anomalies has passed.
pub record IsHealthy (bytes : Bytes) (declared : ℕ) : Type 0 where
  pub intact : IsIntact bytes declared
  pub known_format : (get_elem? bytes 1 ≡ some 0x56) ⊎ (get_elem? bytes 1 ≡ some 0x05)
  pub clock_minutes : (m s : ℕ) → get_elem? bytes 5 ≡ some m → get_elem? bytes 6 ≡ some s → m ≤ 59
  pub clock_seconds : (m s : ℕ) → get_elem? bytes 5 ≡ some m → get_elem? bytes 6 ≡ some s → s ≤ 59
  pub known_mode : (raw : ℕ) → get_elem? bytes 9 ≡ some raw → status_mode raw ≢ none
  pub fan_in_range : (step : ℕ) → get_elem? bytes 10 ≡ some step → step ≤ 19
  pub actual_in_envelope : (t : ℕ) → get_elem? bytes 7 ≡ some t → (10 ≤ t) × (t ≤ 100)
  pub target_in_envelope : (t : ℕ) → get_elem? bytes 8 ≡ some t → (10 ≤ t) × (t ≤ 100)
  pub ambient_in_envelope : (t : ℕ) → get_elem? bytes 17 ≡ some t → (10 ≤ t) × (t ≤ 100)
  pub target_in_range :
      (t low high : ℕ)
      → get_elem? bytes 8 ≡ some t
      → get_elem? bytes 13 ≡ some low
      → get_elem? bytes 14 ≡ some high
      → (low ≤ t) × (t ≤ high)

format_quiet :
    (byte : Option ℕ)
    → format_anomalies byte ≡ []
    → byte ≢ none
    → (byte ≡ some 0x56) ⊎ (byte ≡ some 0x05)
unfolding format_anomalies
format_quiet none h n = absurd (n refl)
format_quiet (some raw) h n = ground arith

envelope_quiet :
    (label : TemperatureLabel) (o : Option ℕ)
    → envelope_anomalies label o ≡ []
    → (t : ℕ) → o ≡ some t
    → (10 ≤ t) × (t ≤ 100)
unfolding envelope_anomalies
envelope_quiet label none h t e = cc
envelope_quiet label (some raw) h t e = ground arith

range_quiet :
    (o p q : Option ℕ)
    → range_anomalies o p q ≡ []
    → (t low high : ℕ) → o ≡ some t
    → p ≡ some low
    → q ≡ some high
    → (low ≤ t) × (t ≤ high)
unfolding range_anomalies
range_quiet (some a) (some b) (some c) h t low high e f g = ground arith
range_quiet _ _ _ h t low high e f g = cc

mode_quiet :
    (o : Option ℕ) → (decode_mode o).1 ≡ [] → (raw : ℕ) → o ≡ some raw → status_mode raw ≢ none
unfolding decode_mode
mode_quiet none h raw e = cc
mode_quiet (some r) h raw e = ground arith

fan_quiet : (o : Option ℕ) → (decode_fan o).1 ≡ [] → (step : ℕ) → o ≡ some step → step ≤ 19
unfolding decode_fan
fan_quiet none h step e = cc
fan_quiet (some r) h step e = ground arith

checksum_quiet :
    (bytes : Bytes) (d : ℕ)
    → length_anomalies (some d) (length bytes) ≡ []
    → (decode_checksum bytes (some d)).1 ≡ []
    → (d + 4 ≤ length bytes) × (sum (take (d + 4) bytes) % 256 ≡ 0)
unfolding length_anomalies decode_checksum
checksum_quiet bytes d h c = ground arith

clock_quiet :
    (bytes : Bytes)
    → 11 ≤ length bytes
    → (time_remaining bytes).1 ≡ []
    → (m s : ℕ) → get_elem? bytes 5 ≡ some m
    → get_elem? bytes 6 ≡ some s
    → (m ≤ 59) × (s ≤ 59)
unfolding time_remaining
clock_quiet (b0 ∷ b1 ∷ b2 ∷ b3 ∷ b4 ∷ b5 ∷ b6 ∷ bs) l h m s e f = ground arith
clock_quiet _ l h m s e f = absurd (omega arith)

decode_temp_lem :
    (bytes : Bytes) (o : Offset) → decode_temp bytes o ≡ get_elem? bytes (offset_value o)
unfolding decode_temp
decode_temp_lem bytes o = ground arith

quiet_body :
    (bytes : Bytes) (declared : ℕ)
    → 11 ≤ length bytes
    → get_elem? bytes 2 ≡ some declared
    → get_elem? bytes 1 ≢ none
    → (decode_body bytes).anomalies ≡ []
    → IsHealthy bytes declared
unfolding decode_body header_anomalies temperature_anomalies u8
quiet_body bytes declared long e f h =
    let (header, h1) = append-eq-nil (header_anomalies bytes) _ h in
    let (format, size) = append-eq-nil (format_anomalies (get_elem? bytes 1)) _ header in
    let (time, h2) = append-eq-nil (time_remaining bytes).1 _ h1 in
    let (temperature, h3) = append-eq-nil (temperature_anomalies bytes) _ h2 in
    let (mode, h4) = append-eq-nil (decode_mode (get_elem? bytes 9)).1 _ h3 in
    let (fan, checksum) = append-eq-nil (decode_fan (get_elem? bytes 10)).1 _ h4 in
    let (actual_quiet, t1) =
      append-eq-nil (envelope_anomalies actual (decode_temp bytes Offset.actual_temp)) _
        temperature in
    let (target_quiet, t2) =
      append-eq-nil (envelope_anomalies target (decode_temp bytes Offset.target_temp)) _ t1 in
    let (ambient_quiet, range) =
      append-eq-nil (envelope_anomalies ambient (decode_temp bytes Offset.ambient_temp)) _ t2 in
    let sums =
      checksum_quiet bytes declared (subst (λ o. length_anomalies o (length bytes) ≡ []) e size)
        (subst (λ o. (decode_checksum bytes o).1 ≡ []) e checksum) in
    record {
      intact = record { declares = e; enough = long; whole = sums.0; sums_to_zero = sums.1 };
      known_format = format_quiet (get_elem? bytes 1) format f;
      clock_minutes = λ m s p q. (clock_quiet bytes long time m s p q).0;
      clock_seconds = λ m s p q. (clock_quiet bytes long time m s p q).1;
      known_mode = mode_quiet (get_elem? bytes 9) mode;
      fan_in_range = fan_quiet (get_elem? bytes 10) fan;
      actual_in_envelope = λ t p.
          envelope_quiet actual (decode_temp bytes Offset.actual_temp) actual_quiet t
            (decode_temp_lem bytes Offset.actual_temp ∙ p);
      target_in_envelope = λ t p.
          envelope_quiet target (decode_temp bytes Offset.target_temp) target_quiet t
            (decode_temp_lem bytes Offset.target_temp ∙ p);
      ambient_in_envelope = λ t p.
          envelope_quiet ambient (decode_temp bytes Offset.ambient_temp) ambient_quiet t
            (decode_temp_lem bytes Offset.ambient_temp ∙ p);
      target_in_range = λ t low high p q r.
          range_quiet (decode_temp bytes Offset.target_temp) (decode_temp bytes Offset.min_temp)
            (decode_temp bytes Offset.max_temp) range t low high
            (decode_temp_lem bytes Offset.target_temp ∙ p)
            (decode_temp_lem bytes Offset.min_temp ∙ q) (decode_temp_lem bytes Offset.max_temp ∙ r);
    }

-- A packet decoded without anomalies has passed every check: it is intact, its format byte is one
-- of the two known, minutes and seconds are below 60, the mode byte is a known mode, the fan step
-- is at most 19, each temperature that is present lies in the sanity envelope, and the target lies
-- in the range that the device reports.
pub quiet-IsHealthy :
    (bytes : Bytes)
    → (decode_status bytes).anomalies ≡ []
    → (declared : ℕ) × IsHealthy bytes declared
quiet-IsHealthy (a ∷ b ∷ d ∷ bs) h = elim (size_cases (a ∷ b ∷ d ∷ bs)) [
  | inl short ↦ absurd ((decode_status_short (a ∷ b ∷ d ∷ bs) short).2 h)
  | inr long ↦ (
    d,
    quiet_body (a ∷ b ∷ d ∷ bs) d long refl (λ e. cc)
        (subst (λ p. p.anomalies ≡ []) (decode_status_long (a ∷ b ∷ d ∷ bs) long) h),
  )
]
quiet-IsHealthy bytes h = absurd ((decode_status_short bytes (omega arith)).2 h)
