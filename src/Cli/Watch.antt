-- ===== src/Cli/Watch.antt =====
-- cli.py: `cmd_watch`, what it prints of the packets that arrive and how long it watches, and the
-- argument type of `--poll`. A line is a packet with its state, or a count of repeats; the other
-- lines and the file of `--save` are left out.
pub mod Transcript
pub mod Ends
use native.Mathlib.Nat.{mul-pos}
use bedjet_local.Prelude.{
  ℕ, zero, suc, ◌+◌, ◌*◌, ◌^◌, ◌≡◌, refl, ap, sym, ◌∙◌, Bool, true, false, ◌&&◌, ◌||◌, not, Option,
  none, some, List, [], ◌∷◌, ◌++◌, ltb, leb, ◌==◌, length, if◌then◌else◌, arith, Bool-cases, inl,
  inr,
}
use bedjet_local.Prelude.Int.{pos, negsuc}
use bedjet_local.Protocol.Constants.{Bytes}
use bedjet_local.Protocol.Packets.{StatusPacket}
use bedjet_local.Python.Float.{Float, nan, pos_inf, neg_inf, finite, le_zero}
use bedjet_local.Service.Reader.{Update}

abbrev pub same_bytes : Bytes → Bytes → Bool
same_bytes [] [] = true
same_bytes [] (y ∷ ys) = false
same_bytes (x ∷ xs) [] = false
same_bytes (x ∷ xs) (y ∷ ys) = (x == y) && same_bytes xs ys

abbrev pub is_last : Bytes → Option Bytes → Bool
is_last raw none = false
is_last raw (some last) = same_bytes raw last

-- What is printed: `… n identical packet(s)`, or a packet.
pub data Line : Type 0 where
  repeated : ℕ → Line
  packet_line : Update → Line

-- The captures, `_Dedup`, the event `done`, and what was printed.
pub record Watch : Type 0 where
  pub captures : List Bytes
  pub last : Option Bytes
  pub repeats : ℕ
  pub done : Bool
  pub printed : List Line

unfoldable pub new : Watch
new = record { captures = []; last = none; repeats = 0; done = false; printed = [] }

unfoldable pub flush_repeats : Watch → Watch
flush_repeats w =
    if ltb 0 w.repeats
    then record w { printed = w.printed ++ repeated w.repeats ∷ []; repeats = 0 }
    else w

abbrev pub occurs : Bytes → List Bytes → Bool
occurs raw [] = false
occurs raw (c ∷ cs) = same_bytes raw c || occurs raw cs

-- `len({bytes(c) for c in captures})`
unfoldable pub distinct : List Bytes → ℕ
distinct [] = 0
distinct (c ∷ cs) = (if occurs c cs then 0 else 1) + distinct cs

-- `on_state`; `packets` is the limit of `--packets`.
unfoldable pub on_state : ℕ → Update → Watch → Watch
unfolding flush_repeats distinct
on_state packets u w =
    let raw = u.1.raw in
    let captured = record w { captures = w.captures ++ raw ∷ [] } in
    let flushed = flush_repeats captured in
    if is_last raw w.last then record captured { repeats = w.repeats + 1 } else record flushed {
      last = some raw;
      printed = flushed.printed ++ packet_line u ∷ [];
      done = w.done || ltb 0 packets && leb packets (distinct captured.captures);
    }

unfoldable pub watch : ℕ → List Update → Watch → Watch
unfolding on_state
watch packets [] w = w
watch packets (u ∷ us) w = watch packets us (on_state packets u w)

-- `elapsed < deadline`, for whole seconds.
unfoldable pub is_before : ℕ → Float → Bool
is_before elapsed nan = false
is_before elapsed pos_inf = true
is_before elapsed neg_inf = false
is_before elapsed (finite (pos n) k) = ltb (elapsed * 2 ^ k) n
is_before elapsed (finite (negsuc n) k) = false

-- `args.seconds if args.seconds else None`
unfoldable pub deadline_of : Float → Option Float
deadline_of (finite (pos zero) k) = none
deadline_of seconds = some seconds

-- The test of the loop.
unfoldable pub goes_on : Option Float → ℕ → Bool
unfolding is_before
goes_on none elapsed = true
goes_on (some deadline) elapsed = is_before elapsed deadline

-- The seconds that the loop sleeps, on fuel; `none` is a loop that still runs.
unfoldable pub sleep_loop : ℕ → Option Float → ℕ → Option ℕ
unfolding goes_on
sleep_loop zero deadline elapsed = none
sleep_loop (suc fuel) deadline elapsed =
    let rest = sleep_loop fuel deadline (elapsed + 1) in
    if goes_on deadline elapsed then rest else some elapsed

-- `_poll_seconds` of a text that is a float, and nothing where argparse refuses it.
unfoldable pub poll_seconds : Float → Option Float
poll_seconds (finite n k) = if le_zero (finite n k) then none else some (finite n k)
poll_seconds _ = none
