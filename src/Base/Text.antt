-- ===== src/Base/Text.antt =====
-- Python's `str` as the list of its code points, and the methods that the program calls on it.
use Prim.Native.Nat.{ℕ, zero, suc, ◌+◌, ◌-◌, ◌*◌}
use Prim.Native.Char.{code}
use Prim.Native.String.{String}
use mathlib.Core.Path.{◌≡◌, refl}
use mathlib.Core.Logic.{◌↔◌}
use mathlib.Core.Bool.{Bool, true, false, ◌&&◌, ◌||◌}
use mathlib.Core.Option.{Option, none, some}
use mathlib.Core.List.{List, [], ◌∷◌, ◌++◌, reverse}
use native.Mathlib.Omega.{arith}
use graphrag_agent.Base.Tests.{leb, ltb, ◌==◌, if◌then◌else◌}
use graphrag_agent.Base.Int.{ℤ, pos, negsuc}

abbrev pub Str : Type 0
Str = List ℕ

abbrev pub codes : String → Str
codes String.[] = []
codes (String.◌∷◌ c s) = code c ∷ codes s

-- s == t
unfoldable pub str_eq : Str → Str → Bool
str_eq [] [] = true
str_eq [] (d ∷ t) = false
str_eq (c ∷ s) [] = false
str_eq (c ∷ s) (d ∷ t) = c == d && str_eq s t

pub str_eq_iff : (s t : Str) → (str_eq s t ≡ true) ↔ (s ≡ t)
unfolding str_eq
str_eq_iff [] [] = (λ h. refl, λ h. refl)
str_eq_iff [] (d ∷ t) = ground arith
str_eq_iff (c ∷ s) [] = ground arith
str_eq_iff (c ∷ s) (d ∷ t) = ground (arith, str_eq_iff s t)

pub str_eq_refl : (s : Str) → str_eq s s ≡ true
str_eq_refl s = (str_eq_iff s s).1 refl

-- s < t: code points in order, a proper prefix first
unfoldable pub str_lt : Str → Str → Bool
str_lt s [] = false
str_lt [] (d ∷ t) = true
str_lt (c ∷ s) (d ∷ t) = ltb c d || (c == d && str_lt s t)

-- s in items
unfoldable pub elem : Str → List Str → Bool
elem s [] = false
elem s (t ∷ items) = str_eq s t || elem s items

-- `not s` is false
abbrev pub nonempty : Str → Bool
nonempty [] = false
nonempty (c ∷ s) = true

-- the first of two texts that is not empty: s or t
abbrev pub or_else : Str → Str → Str
or_else [] t = t
or_else (c ∷ s) t = c ∷ s

pub or_else-nonempty : (s t : Str) → nonempty s ≡ true → or_else s t ≡ s
or_else-nonempty [] t h = ground (arith, h)
or_else-nonempty (c ∷ s) t h = refl

-- str.isspace of one character
unfoldable pub is_space : ℕ → Bool
is_space c =
    (leb 9 c && leb c 13)
    || (leb 28 c && leb c 32)
    || c == 133
    || c == 160
    || c == 5760
    || (leb 8192 c && leb c 8202)
    || c == 8232
    || c == 8233
    || c == 8239
    || c == 8287
    || c == 12288

unfoldable pub drop_while : (ℕ → Bool) → Str → Str
drop_while p [] = []
drop_while p (c ∷ s) = if p c then drop_while p s else c ∷ s

-- drops from the end: the rest is looked at first
unfoldable pub drop_end : (ℕ → Bool) → Str → Str
drop_end p [] = []
drop_end p (c ∷ s) = elim (drop_end p s) [ [] ↦ if p c then [] else c ∷ [] | d ∷ r ↦ c ∷ d ∷ r ]

-- s.rstrip(), s.strip()
unfoldable pub rstrip : Str → Str
unfolding is_space drop_end
rstrip s = drop_end is_space s

unfoldable pub strip : Str → Str
unfolding is_space drop_end drop_while
strip s = drop_end is_space (drop_while is_space s)

-- s.lower() on ASCII. The program compares the result with ASCII words of whose letters none is
-- the lower case of a character outside ASCII, so that the tests come out the same.
unfoldable pub lower : Str → Str
lower [] = []
lower (c ∷ s) = (if leb b'A' c && leb c b'Z' then c + 32 else c) ∷ lower s

-- s.startswith(p)
unfoldable pub starts_with : Str → Str → Bool
starts_with s [] = true
starts_with [] (d ∷ p) = false
starts_with (c ∷ s) (d ∷ p) = c == d && starts_with s p

-- sep.join(parts)
unfoldable pub join : Str → List Str → Str
join sep [] = []
join sep (s ∷ []) = s
join sep (s ∷ t ∷ parts) = s ++ sep ++ join sep (t ∷ parts)

-- s.split(",") for a one-character separator: `cur` is the part being read, reversed
unfoldable pub split_on : ℕ → Str → Str → List Str
split_on sep cur [] = reverse cur ∷ []
split_on sep cur (c ∷ s) =
    if c == sep then reverse cur ∷ split_on sep [] s else split_on sep (c ∷ cur) s

abbrev is_digit : ℕ → Bool
is_digit c = leb b'0' c && leb c b'9'

-- the digits of int(s): single underscores may stand between two digits. `after_digit` tells
-- whether the character before was a digit.
digits_value : Bool → ℕ → Str → Option ℕ
digits_value true n [] = some n
digits_value false n [] = none
digits_value after n (c ∷ s) =
    let next = digits_value true (n * 10 + (c - b'0')) s in
    let skip = digits_value false n s in
    if is_digit c then next else if after && c == b'_' then skip else none

-- the sign and the digits
signed_value : Str → Option ℤ
unfolding digits_value
signed_value [] = none
signed_value (c ∷ s) =
    if c == b'-'
    then elim (digits_value false 0 s) [
      | none ↦ none
      | some zero ↦ some (pos 0)
      | some (suc n) ↦ some (negsuc n)
    ]
    else elim (digits_value false 0 (if c == b'+' then s else c ∷ s)) [
      | none ↦ none
      | some n ↦ some (pos n)
    ]

-- int(s): `none` is a ValueError. Digits outside ASCII, which int accepts too, are not read.
unfoldable pub parse_int : Str → Option ℤ
unfolding signed_value strip
parse_int s = signed_value (strip s)

parse_int_runs :
    (parse_int (codes " 1_200 ") ≡ some (pos 1200))
    × (parse_int (codes "-3") ≡ some (negsuc 2))
    × (parse_int (codes "12x") ≡ none)
    × (parse_int (codes "1__2") ≡ none)
unfolding parse_int
parse_int_runs = (refl, refl, refl, refl)

-- s.upper() on ASCII
unfoldable pub upper : Str → Str
upper [] = []
upper (c ∷ s) = (if leb b'a' c && leb c b'z' then c - 32 else c) ∷ upper s

-- len(s.encode("utf-8"))
unfoldable pub utf8_length : Str → ℕ
utf8_length [] = 0
utf8_length (c ∷ s) =
    (if ltb c 128 then 1 else if ltb c 2048 then 2 else if ltb c 65536 then 3 else 4)
    + utf8_length s

-- No character is white space.
abbrev pub Solid : Str → Type 0
Solid [] = Unit {0}
Solid (c ∷ s) = (is_space c ≡ false) × Solid s

drop_end-Solid : (s : Str) → Solid s → drop_end is_space s ≡ s
unfolding drop_end
drop_end-Solid [] h = refl
drop_end-Solid (c ∷ []) h = ground arith
drop_end-Solid (c ∷ d ∷ s) h = ground (arith, drop_end-Solid (d ∷ s))

pub strip-Solid : (s : Str) → Solid s → strip s ≡ s
unfolding strip
strip-Solid [] h = refl
strip-Solid (c ∷ s) h = ground (arith, drop_end-Solid (c ∷ s))

-- s.isascii()
unfoldable pub is_ascii : Str → Bool
is_ascii [] = true
is_ascii (c ∷ s) = ltb c 128 && is_ascii s

-- raw.strip().lower() in {"1", "true", "yes", "on"}
unfoldable pub is_true_word : Str → Bool
unfolding strip lower elem
is_true_word raw =
    elem (lower (strip raw)) (codes "1" ∷ codes "true" ∷ codes "yes" ∷ codes "on" ∷ [])

pub elem-append : (s : Str) (xs ys : List Str) → elem s (xs ++ ys) ≡ (elem s xs || elem s ys)
unfolding elem
elem-append s [] ys = refl
elem-append s (x ∷ xs) ys = ground (arith, elem-append s xs ys)
