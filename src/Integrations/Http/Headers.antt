-- ===== src/Integrations/Http/Headers.antt =====
-- integrations/http_ws.py: the texts of headers, the hostname in a `Host` header and the comparison
-- of tokens.
use Prim.Native.Char.{code}
use bedjet_local.Prelude.{
  ℕ, suc, String, Bool, true, false, ◌&&◌, ◌||◌, Option, none, some, List, [], ◌∷◌, ltb, ◌==◌,
  if◌then◌else◌,
}

-- A text of which the code reads the characters.
abbrev pub Text : Type 0
Text = List ℕ

abbrev pub codes : String → Text
codes String.[] = []
codes (String.◌∷◌ c s) = code c ∷ codes s

abbrev pub text_eq : Text → Text → Bool
text_eq [] [] = true
text_eq (x ∷ xs) (y ∷ ys) = (x == y) && text_eq xs ys
text_eq _ _ = false

unfoldable pub contains : Text → List Text → Bool
contains t [] = false
contains t (u ∷ us) = text_eq u t || contains t us

-- `value.count(c)`
unfoldable pub count : ℕ → Text → ℕ
count c [] = 0
count c (x ∷ xs) = if x == c then suc (count c xs) else count c xs

-- The part before the first `c`, and whether there is one.
unfoldable pub before_first : ℕ → Text → Text
before_first c [] = []
before_first c (x ∷ xs) = if x == c then [] else x ∷ before_first c xs

-- `value.lstrip(c)`
unfoldable pub strip_left : ℕ → Text → Text
strip_left c [] = []
strip_left c (x ∷ xs) = if x == c then strip_left c xs else x ∷ xs

-- `hostname_of` behind its strip. With one colon, the last is the first.
unfoldable pub hostname_in : Text → Text
unfolding before_first strip_left count
hostname_in [] = []
hostname_in (x ∷ xs) =
    if x == 91
    then if ltb 0 (count 93 xs) then before_first 93 xs else strip_left 91 (x ∷ xs)
    else if count 58 (x ∷ xs) == 1
    then before_first 58 (x ∷ xs)
    else x ∷ xs

unfoldable pub hostname_of : (Text → Text) → Text → Text
hostname_of strip header = hostname_in (strip header)

-- `startswith(prefix)` with the rest behind it, empty otherwise.
unfoldable pub behind : Text → Text → Text
behind [] t = t
behind (p ∷ ps) [] = []
behind (p ∷ ps) (x ∷ xs) = if p == x then behind ps xs else []

unfoldable pub is_ascii : Text → Bool
is_ascii [] = true
is_ascii (x ∷ xs) = ltb x 128 && is_ascii xs

-- `secrets.compare_digest`; `none` is its TypeError on a text that is not ASCII.
unfoldable pub compare_digest : Text → Text → Option Bool
unfolding is_ascii
compare_digest a b = if is_ascii a && is_ascii b then some (text_eq a b) else none
