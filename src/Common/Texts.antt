-- ===== src/Common/Texts.antt =====
-- Text as the list of its code points. Case mapping and blanks are those of ASCII.
use Prim.Native.Char.{code}
use Prim.Native.String.{String}
use Prim.Native.Nat.{ℕ, ◌+◌}
use mathlib.Core.Bool.{Bool, true, false, ◌&&◌, ◌||◌}
use mathlib.Core.List.{List, [], ◌∷◌, ◌++◌, map, reverse}
use argus_sbomguard.Common.Test.{leb, ◌==◌, nat_eq, if◌then◌else◌}

abbrev pub Text : Type 0
Text = List ℕ

-- A literal of the source.
abbrev pub text : String → Text
text String.[] = []
text (String.◌∷◌ c s) = code c ∷ text s

abbrev pub to_lower : ℕ → ℕ
to_lower c = if leb b'A' c && leb c b'Z' then c + 32 else c

-- str.lower
unfoldable pub lower : Text → Text
lower = map to_lower

abbrev is_blank : ℕ → Bool
is_blank c = c == 32 || (leb 9 c && leb c 13) || (leb 28 c && leb c 31)

abbrev lstrip : Text → Text
lstrip [] = []
lstrip (c ∷ s) = let rest = lstrip s in if is_blank c then rest else c ∷ s

-- str.strip
unfoldable pub strip : Text → Text
strip s = reverse (lstrip (reverse (lstrip s)))

-- str.startswith
unfoldable pub starts_with : Text → Text → Bool
starts_with s [] = true
starts_with [] (c ∷ p) = false
starts_with (d ∷ s) (c ∷ p) = d == c && starts_with s p

-- The part before the first `c`, and the part after it: `s.partition(c)` without the separator.
unfoldable pub partition : ℕ → Text → Text × Text
partition c [] = ([], [])
partition c (d ∷ s) = let rest = partition c s in if d == c then ([], s) else (d ∷ rest.0, rest.1)

-- `s.split(c, 1)[0]`
unfoldable pub before : ℕ → Text → Text
unfolding partition
before c s = (partition c s).0

-- `s.rsplit(c, 1)[-1]`
unfoldable pub after_last : ℕ → Text → Text
unfolding before
after_last c s = reverse (before c (reverse s))

-- `s.split(c)`
unfoldable pub split : ℕ → Text → List Text
split c [] = [] ∷ []
split c (d ∷ s) = let rest = split c s in if d == c then [] ∷ rest else push d rest
  where
    push : ℕ → List Text → List Text
    push d [] = (d ∷ []) ∷ []
    push d (w ∷ ws) = (d ∷ w) ∷ ws

-- `sep.join(parts)`
unfoldable pub join : Text → List Text → Text
join sep [] = []
join sep (w ∷ []) = w
join sep (w ∷ v ∷ ws) = w ++ sep ++ join sep (v ∷ ws)

-- Without NUL: `s.replace("\x00", "")`.
unfoldable pub strip_nul : Text → Text
strip_nul [] = []
strip_nul (c ∷ s) = let rest = strip_nul s in if c == 0 then rest else c ∷ rest

-- `s.rstrip(c)`
unfoldable pub rstrip : ℕ → Text → Text
rstrip c s = reverse (without (reverse s))
  where
    without : Text → Text
    without [] = []
    without (d ∷ s) = let rest = without s in if d == c then rest else d ∷ s
