-- ===== src/Cli/Watch/Transcript.antt =====
-- What is printed of a watch is the whole sequence of packets.
use mathlib.Core.List.{append-nil, append_assoc}
use bedjet_local.Prelude.{
  ℕ, zero, suc, ◌+◌, ◌≡◌, refl, ap, sym, ◌∙◌, true, false, Option, none, some, List, [], ◌∷◌, ◌++◌,
  map, ltb, if_known, arith,
}
use bedjet_local.Protocol.Constants.{Bytes}
use bedjet_local.Service.Reader.{Update}
use bedjet_local.Cli.Watch.{
  same_bytes, is_last, Line, repeated, packet_line, Watch, new, flush_repeats, on_state, watch,
}

-- A packet repeated.
abbrev pub copies : ℕ → Option Bytes → List Bytes
copies n none = []
copies zero (some raw) = []
copies (suc n) (some raw) = raw ∷ copies n (some raw)

-- The packets that lines stand for, behind a last one.
abbrev pub expand : Option Bytes → List Line → List Bytes
expand last [] = []
expand last (repeated n ∷ ls) = copies n last ++ expand last ls
expand last (packet_line u ∷ ls) = u.1.raw ∷ expand (some u.1.raw) ls

abbrev last_of : Option Bytes → List Line → Option Bytes
last_of last [] = last
last_of last (repeated n ∷ ls) = last_of last ls
last_of last (packet_line u ∷ ls) = last_of (some u.1.raw) ls

-- Every packet that is printed differs from the last one printed.
abbrev pub OnlyChanges : Option Bytes → List Line → Type 0
OnlyChanges last [] = Unit
OnlyChanges last (repeated n ∷ ls) = OnlyChanges last ls
OnlyChanges last (packet_line u ∷ ls) =
    (is_last u.1.raw last ≡ false) × OnlyChanges (some u.1.raw) ls

same_bytes_sound : (s t : Bytes) → same_bytes s t ≡ true → s ≡ t
same_bytes_sound [] [] h = refl
same_bytes_sound [] (y ∷ ys) h = ground arith
same_bytes_sound (x ∷ xs) [] h = ground arith
same_bytes_sound (x ∷ xs) (y ∷ ys) h = ground (arith, same_bytes_sound xs ys)

copies-snoc : (n : ℕ) (raw : Bytes) → copies n (some raw) ++ raw ∷ [] ≡ copies (suc n) (some raw)
copies-snoc zero raw = refl
copies-snoc (suc n) raw = ap (raw ∷◌) (copies-snoc n raw)

copies_zero : (last : Option Bytes) → copies 0 last ≡ []
copies_zero none = refl
copies_zero (some raw) = refl

expand-append :
    (last : Option Bytes) (ls ks : List Line)
    → expand last (ls ++ ks) ≡ expand last ls ++ expand (last_of last ls) ks
expand-append last [] ks = refl
expand-append last (repeated n ∷ ls) ks = cc (
  expand-append last ls ks,
  append_assoc (copies n last) (expand last ls) (expand (last_of last ls) ks),
)
expand-append last (packet_line u ∷ ls) ks = ap (u.1.raw ∷◌) (expand-append (some u.1.raw) ls ks)

last_of-append :
    (last : Option Bytes) (ls ks : List Line)
    → last_of last (ls ++ ks) ≡ last_of (last_of last ls) ks
last_of-append last [] ks = refl
last_of-append last (repeated n ∷ ls) ks = last_of-append last ls ks
last_of-append last (packet_line u ∷ ls) ks = last_of-append (some u.1.raw) ls ks

append-OnlyChanges :
    (last : Option Bytes) (ls ks : List Line)
    → OnlyChanges last ls
    → OnlyChanges (last_of last ls) ks
    → OnlyChanges last (ls ++ ks)
append-OnlyChanges last [] ks h k = k
append-OnlyChanges last (repeated n ∷ ls) ks h k = append-OnlyChanges last ls ks h k
append-OnlyChanges last (packet_line u ∷ ls) ks h k =
    (h.0, append-OnlyChanges (some u.1.raw) ls ks h.1 k)

-- What is printed, with the repeats that were not printed yet, is what was captured.
pub record IsTranscript (w : Watch) : Type 0 where
  pub whole : expand none w.printed ++ copies w.repeats w.last ≡ w.captures
  pub changes : OnlyChanges none w.printed
  pub latest : last_of none w.printed ≡ w.last

new-IsTranscript : IsTranscript new
unfolding new
new-IsTranscript = record { whole = refl; changes = tt; latest = refl }

-- With the repeats printed there are none left.
record IsFlushed (w f : Watch) : Type 0 where
  whole : expand none f.printed ≡ expand none w.printed ++ copies w.repeats w.last
  changes : OnlyChanges none f.printed
  latest : last_of none f.printed ≡ w.last
  repeats : f.repeats ≡ 0
  captures : f.captures ≡ w.captures

flush-IsFlushed :
    (w : Watch)
    → OnlyChanges none w.printed
    → last_of none w.printed ≡ w.last
    → IsFlushed w (flush_repeats w)
unfolding flush_repeats
flush-IsFlushed w changes latest =
    if_known (IsFlushed w) (ltb 0 w.repeats)
      (λ some_left. record {
        whole = cc (
          expand-append none w.printed (repeated w.repeats ∷ []),
          latest,
          append-nil (copies w.repeats w.last),
        );
        changes = append-OnlyChanges none w.printed (repeated w.repeats ∷ []) changes tt;
        latest = last_of-append none w.printed (repeated w.repeats ∷ []) ∙ latest;
        repeats = refl;
        captures = refl;
      })
      (λ none_left.
        let z : w.repeats ≡ 0 = ground arith in
        record {
          whole = cc (z, copies_zero w.last, append-nil (expand none w.printed));
          changes = changes;
          latest = latest;
          repeats = z;
          captures = refl;
        })

last_known : (raw : Bytes) (last : Option Bytes) → is_last raw last ≡ true → last ≡ some raw
last_known raw none h = absurd (cc)
last_known raw (some last) h = cc (same_bytes_sound raw last h)

one_more :
    (n : ℕ) (raw : Bytes) (last : Option Bytes)
    → last ≡ some raw
    → copies (n + 1) last ≡ copies n last ++ raw ∷ []
one_more n raw last e =
    let next : copies (n + 1) (some raw) ≡ copies (suc n) (some raw) =
      let same : n + 1 ≡ suc n = omega arith in ap (λ k. copies k (some raw)) same in
    cc (e, next, copies-snoc n raw)

printed_change :
    (f : Watch) (u : Update)
    → f.repeats ≡ 0
    → expand none (f.printed ++ packet_line u ∷ []) ++ copies f.repeats (some u.1.raw)
      ≡ expand none f.printed ++ u.1.raw ∷ []
printed_change f u z = cc (
  z,
  copies_zero (some u.1.raw),
  expand-append none f.printed (packet_line u ∷ []),
  append-nil (expand none f.printed ++ u.1.raw ∷ []),
)

on_state-IsTranscript :
    (packets : ℕ) (u : Update) (w : Watch) → IsTranscript w → IsTranscript (on_state packets u w)
unfolding on_state
on_state-IsTranscript packets u w h =
    if_known IsTranscript (is_last u.1.raw w.last)
      (λ again.
        let e = last_known u.1.raw w.last again in
        record {
          whole = cc (
            one_more w.repeats u.1.raw w.last e,
            append_assoc (expand none w.printed) (copies w.repeats w.last) (u.1.raw ∷ []),
            h.whole,
          );
          changes = h.changes;
          latest = h.latest;
        })
      (λ change.
        let captured = record w { captures = w.captures ++ u.1.raw ∷ [] } in
        let f = flush-IsFlushed captured h.changes h.latest in
        let printed = (flush_repeats captured).printed in
        record {
          whole =
              cc
                (printed_change (flush_repeats captured) u f.repeats, f.whole, h.whole, f.captures);
          changes =
              append-OnlyChanges none printed (packet_line u ∷ []) f.changes
                (cc (f.latest, change), tt);
          latest = last_of-append none printed (packet_line u ∷ []);
        })

watch-IsTranscript :
    (packets : ℕ) (us : List Update) (w : Watch)
    → IsTranscript w
    → IsTranscript (watch packets us w)
unfolding watch
watch-IsTranscript packets [] w h = h
watch-IsTranscript packets (u ∷ us) w h =
    watch-IsTranscript packets us (on_state packets u w) (on_state-IsTranscript packets u w h)

on_state-captures :
    (packets : ℕ) (u : Update) (w : Watch)
    → (on_state packets u w).captures ≡ w.captures ++ u.1.raw ∷ []
unfolding on_state flush_repeats
on_state-captures packets u w = ground arith

watch-captures :
    (packets : ℕ) (us : List Update) (w : Watch)
    → (watch packets us w).captures ≡ w.captures ++ map (λ (u : Update). u.1.raw) us
unfolding watch
watch-captures packets [] w = sym (append-nil w.captures)
watch-captures packets (u ∷ us) w = cc (
  watch-captures packets us (on_state packets u w),
  on_state-captures packets u w,
  append_assoc w.captures (u.1.raw ∷ []) (map (λ (v : Update). v.1.raw) us),
)

-- What a watch has printed and what it still counts are its packets: the lines with their counters
-- expanded, and then the repeats of the last packet, which are counted and not printed until another
-- packet comes, are the bytes of the packets in the order in which they arrived. No packet is printed
-- twice in a row.
pub watch_transcript :
    (packets : ℕ) (us : List Update)
    → (expand none (watch packets us new).printed
          ++ copies (watch packets us new).repeats (watch packets us new).last
        ≡ map (λ (u : Update). u.1.raw) us)
      × OnlyChanges none (watch packets us new).printed
unfolding new
watch_transcript packets us =
    let h = watch-IsTranscript packets us new new-IsTranscript in
    (h.whole ∙ watch-captures packets us new, h.changes)
