-- ===== src/GoString.antt =====
-- Go strings as byte sequences, with what the program uses of them: comparison, concatenation and
-- the functions of the package `strings`.
use Prim.Native.Char.{code}
use Prim.Native.String.{String}
use ago.Prelude.{
  ℕ, zero, suc, ◌≡◌, ◌++◌, ltb, refl, Bool, true, false, ◌&&◌, ◌||◌, List, [], ◌∷◌, Option, none,
  some, arith, ◌==◌, same, ℕ_discrete, arith, if◌then◌else◌, length, ◌/◌, ◌%◌, ◌+◌,
}
use mathlib.Core.List.{reverse, map}

abbrev pub GoString : Type 0
GoString = List ℕ

-- The bytes of a literal (the program's literals are ASCII).
abbrev pub codes : String → GoString
codes String.[] = []
codes (String.◌∷◌ c s) = code c ∷ codes s

unfoldable pub GoString-discrete : Discrete GoString
unfolding ℕ_discrete
GoString-discrete = hlevel ℕ_discrete

-- The UTF-8 encoding of a code point, and of a literal that is not ASCII.
abbrev utf8_char : ℕ → GoString
utf8_char c =
    if ltb c 128
    then c ∷ []
    else if ltb c 2048
    then (192 + c / 64) ∷ (128 + c % 64) ∷ []
    else if ltb c 65536
    then (224 + c / 4096) ∷ (128 + c / 64 % 64) ∷ (128 + c % 64) ∷ []
    else (240 + c / 262144) ∷ (128 + c / 4096 % 64) ∷ (128 + c / 64 % 64) ∷ (128 + c % 64) ∷ []

unfoldable pub utf8 : String → GoString
utf8 String.[] = []
utf8 (String.◌∷◌ c s) = utf8_char (code c) ++ utf8 s

-- `s == t`.
abbrev pub str_eq : GoString → GoString → Bool
str_eq = same GoString-discrete

-- `strings.HasPrefix(s, p)`.
unfoldable pub has_prefix : GoString → GoString → Bool
has_prefix s [] = true
has_prefix [] (d ∷ p) = false
has_prefix (c ∷ s) (d ∷ p) = c == d && has_prefix s p

-- `strings.HasSuffix(s, p)`: some tail of `s` is `p`.
unfoldable pub has_suffix : GoString → GoString → Bool
has_suffix [] p = str_eq [] p
has_suffix (c ∷ s) p = str_eq (c ∷ s) p || has_suffix s p

-- `strings.Contains(s, p)`.
unfoldable pub contains : GoString → GoString → Bool
unfolding has_prefix
contains [] p = has_prefix [] p
contains (c ∷ s) p = has_prefix (c ∷ s) p || contains s p

-- The UTF-8 encodings of the code points that `unicode.IsSpace` accepts.
abbrev pub white_space : List GoString
white_space =
    (9 ∷ [])
    ∷ (10 ∷ [])
    ∷ (11 ∷ [])
    ∷ (12 ∷ [])
    ∷ (13 ∷ [])
    ∷ (32 ∷ [])
    ∷ (194 ∷ 133 ∷ [])
    ∷ (194 ∷ 160 ∷ [])
    ∷ (225 ∷ 154 ∷ 128 ∷ [])
    ∷ (226 ∷ 128 ∷ 128 ∷ [])
    ∷ (226 ∷ 128 ∷ 129 ∷ [])
    ∷ (226 ∷ 128 ∷ 130 ∷ [])
    ∷ (226 ∷ 128 ∷ 131 ∷ [])
    ∷ (226 ∷ 128 ∷ 132 ∷ [])
    ∷ (226 ∷ 128 ∷ 133 ∷ [])
    ∷ (226 ∷ 128 ∷ 134 ∷ [])
    ∷ (226 ∷ 128 ∷ 135 ∷ [])
    ∷ (226 ∷ 128 ∷ 136 ∷ [])
    ∷ (226 ∷ 128 ∷ 137 ∷ [])
    ∷ (226 ∷ 128 ∷ 138 ∷ [])
    ∷ (226 ∷ 128 ∷ 168 ∷ [])
    ∷ (226 ∷ 128 ∷ 169 ∷ [])
    ∷ (226 ∷ 128 ∷ 175 ∷ [])
    ∷ (226 ∷ 129 ∷ 159 ∷ [])
    ∷ (227 ∷ 128 ∷ 128 ∷ [])
    ∷ []

-- What is left of `s` behind the prefix `p`.
strip_prefix : GoString → GoString → Option GoString
strip_prefix s [] = some s
strip_prefix [] (d ∷ p) = none
strip_prefix (c ∷ s) (d ∷ p) = if c == d then strip_prefix s p else none

-- What is left of `s` behind the first of the given prefixes that fits.
strip_any : GoString → List GoString → Option GoString
unfolding strip_prefix
strip_any s [] = none
strip_any s (p ∷ ps) = elim (strip_prefix s p) [ none ↦ strip_any s ps | some rest ↦ some rest ]

-- Drops leading sequences of the set while one fits; each round drops at least one byte, so the
-- length of the text is fuel enough.
trim_front : ℕ → List GoString → GoString → GoString
unfolding strip_any
trim_front zero spaces s = s
trim_front (suc fuel) spaces s = elim (strip_any s spaces) [
  | none ↦ s
  | some rest ↦ trim_front fuel spaces rest
]

-- `strings.TrimSpace(s)`.
unfoldable pub trim_space : GoString → GoString
unfolding trim_front
trim_space s =
    let front = trim_front (length s) white_space s in
    reverse (trim_front (length front) (map reverse white_space) (reverse front))

-- The decimal digits of a number, most significant first, as `%d` prints them; a number has at
-- most as many digits as its value plus one.
digits_from : ℕ → ℕ → GoString → GoString
digits_from zero n acc = acc
digits_from (suc fuel) n acc =
    let more = digits_from fuel (n / 10) ((48 + n % 10) ∷ acc) in
    if n / 10 == 0 then (48 + n % 10) ∷ acc else more

unfoldable pub print_nat : ℕ → GoString
unfolding digits_from
print_nat n = digits_from (n + 1) n []

utf8_runs : utf8 "é用" ≡ 195 ∷ 169 ∷ 231 ∷ 148 ∷ 168 ∷ []
unfolding utf8
utf8_runs = refl

trim_space_runs : trim_space (codes " \t go test ./... \n") ≡ codes "go test ./..."
unfolding trim_space
trim_space_runs = refl

trim_space_unicode : trim_space (194 ∷ 160 ∷ 97 ∷ 226 ∷ 128 ∷ 137 ∷ []) ≡ 97 ∷ []
unfolding trim_space
trim_space_unicode = refl

print_nat_runs : print_nat 1203 ≡ codes "1203"
unfolding print_nat
print_nat_runs = refl

str_eq_runs : str_eq (codes "board.create") (codes "board.create") ≡ true
unfolding GoString-discrete
str_eq_runs = refl

str_ne_runs : str_eq (codes "board.create") (codes "board.creatf") ≡ false
unfolding GoString-discrete
str_ne_runs = refl

str_eq-t : (s t : GoString) → str_eq s t ≡ true → str_eq t s ≡ true
str_eq-t s t = ground arith
