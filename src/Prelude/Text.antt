-- ===== src/Prelude/Text.antt =====
-- What the program uses of Go's `strings` and `strconv`, over the characters of a text.
use Prim.Native.Nat.{ℕ, zero, suc, ◌+◌, ◌-◌, ◌*◌, ◌/◌, ◌%◌}
use Prim.Native.Char.{Char, code}
use Prim.Native.String.{String, ◌++◌ as ◌<>◌}
use mathlib.Core.Path.{◌≡◌, refl}
use mathlib.Core.Bool.{Bool, true, false, ◌&&◌, ◌||◌}
use mathlib.Core.List.{List, [], ◌∷◌}
use mathlib.Core.Option.{Option, none, some}
use text.Mathlib.Text.{◌==◌, starts_with}
use cluster_api_provider_ucl.Prelude.Tests.{leb, nat_eq, if◌then◌else◌}
use cluster_api_provider_ucl.Prelude.Lists.{codes_eq}
use cluster_api_provider_ucl.Prelude.Int.{ℤ, pos, negsuc}

-- An ASCII letter in lower case; any other character as it is.
abbrev lower : ℕ → ℕ
lower c = if leb b'A' c && leb c b'Z' then c + 32 else c

-- The code points of `strings.ToLower(s)`.
unfoldable pub to_lower : String → List ℕ
to_lower String.[] = []
to_lower (String.◌∷◌ c s) = lower (code c) ∷ to_lower s

-- `strings.ToLower(s) == strings.ToLower(t)`.
unfoldable pub same_lower : String → String → Bool
unfolding to_lower
same_lower s t = codes_eq (to_lower s) (to_lower t)

-- `strings.HasSuffix(s, suffix)`: some tail of the text is the suffix.
unfoldable pub has_suffix : String → String → Bool
has_suffix String.[] suffix = "" == suffix
has_suffix (String.◌∷◌ c s) suffix = String.◌∷◌ c s == suffix || has_suffix s suffix

abbrev pub push_char : Char → List String → List String
push_char c [] = String.◌∷◌ c String.[] ∷ []
push_char c (w ∷ ws) = String.◌∷◌ c w ∷ ws

-- `strings.Split(s, sep)` at a separator of one character. It returns at least one piece.
unfoldable pub split : String → ℕ → List String
split String.[] sep = "" ∷ []
split (String.◌∷◌ c s) sep =
    let rest = split s sep in if nat_eq (code c) sep then "" ∷ rest else push_char c rest

abbrev is_digit : ℕ → Bool
is_digit c = leb b'0' c && leb c b'9'

-- The digits of a text as a number, `none` at any other character.
digits_value : String → ℕ → Option ℕ
digits_value String.[] n = some n
digits_value (String.◌∷◌ c s) n =
    if is_digit (code c) then digits_value s (n * 10 + (code c - 48)) else none

-- `n, _ := strconv.Atoi(s)`: the error is dropped, and a text with a syntax error gives 0. A value
-- outside of int64 is clamped to its ends.
clamp_int64 : ℤ → ℤ
clamp_int64 (pos n) = if leb n 9223372036854775807 then pos n else pos 9223372036854775807
clamp_int64 (negsuc n) = if leb n 9223372036854775807 then negsuc n else negsuc 9223372036854775807

unsigned_or_zero : String → (ℕ → ℤ) → ℤ
unfolding digits_value clamp_int64
unsigned_or_zero String.[] sign = pos 0
unsigned_or_zero s sign = elim (digits_value s 0) [ none ↦ pos 0 | some n ↦ clamp_int64 (sign n) ]

abbrev negated : ℕ → ℤ
negated zero = pos 0
negated (suc n) = negsuc n

unfoldable pub atoi_or_zero : String → ℤ
unfolding unsigned_or_zero
atoi_or_zero String.[] = pos 0
atoi_or_zero (String.◌∷◌ c s) =
    if nat_eq (code c) b'-'
    then unsigned_or_zero s negated
    else if nat_eq (code c) b'+'
    then unsigned_or_zero s pos
    else unsigned_or_zero (String.◌∷◌ c s) pos

atoi_samples :
    (atoi_or_zero "16" ≡ pos 16) × (atoi_or_zero "-2" ≡ negsuc 1) × (atoi_or_zero "1x" ≡ pos 0)
unfolding atoi_or_zero
atoi_samples = (refl, refl, refl)

split_sample : split "10.0.0.0/16" b'/' ≡ "10.0.0.0" ∷ "16" ∷ []
unfolding split
split_sample = refl

has_suffix_samples :
    (has_suffix "m0.ucloudmachine" ".ucloudmachine" ≡ true) × (has_suffix "m0" "1" ≡ false)
unfolding has_suffix
has_suffix_samples = (refl, refl)

-- `strings.TrimSpace` over ASCII white space.
is_space : ℕ → Bool
is_space c = nat_eq c 32 || leb 9 c && leb c 13

trim_right : String → String
unfolding is_space
trim_right String.[] = String.[]
trim_right (String.◌∷◌ c s) =
    let r = trim_right s in if is_space (code c) && r == "" then "" else String.◌∷◌ c r

trim_left : String → String
unfolding is_space
trim_left String.[] = String.[]
trim_left (String.◌∷◌ c s) = if is_space (code c) then trim_left s else String.◌∷◌ c s

unfoldable pub trim_space : String → String
unfolding trim_left trim_right
trim_space s = trim_right (trim_left s)

trim_space_sample : trim_space " a b " ≡ "a b"
unfolding trim_space
trim_space_sample = refl

char_count : String → ℕ
char_count String.[] = 0
char_count (String.◌∷◌ c s) = suc (char_count s)

-- `skip` counts the characters of an occurrence that are still to be passed over.
replace_from : String → String → ℕ → ℕ → String → String
replace_from old new width skip String.[] = ""
replace_from old new width (suc skip) (String.◌∷◌ c s) = replace_from old new width skip s
replace_from old new width zero (String.◌∷◌ c s) =
    let matched = new <> replace_from old new width (width - 1) s in
    let kept = String.◌∷◌ c (replace_from old new width 0 s) in
    if starts_with (String.◌∷◌ c s) old then matched else kept

-- `strings.ReplaceAll(s, old, new)` for an `old` that is not empty.
unfoldable pub replace_all : String → String → String → String
unfolding replace_from char_count
replace_all s old new = replace_from old new (char_count old) 0 s

replace_all_sample : replace_all "a XX bXX" "XX" "v" ≡ "a v bv"
unfolding replace_all
replace_all_sample = refl

digit_text : ℕ → String
digit_text zero = "0"
digit_text (suc zero) = "1"
digit_text (suc (suc zero)) = "2"
digit_text (suc (suc (suc zero))) = "3"
digit_text (suc (suc (suc (suc zero)))) = "4"
digit_text (suc (suc (suc (suc (suc zero))))) = "5"
digit_text (suc (suc (suc (suc (suc (suc zero)))))) = "6"
digit_text (suc (suc (suc (suc (suc (suc (suc zero))))))) = "7"
digit_text (suc (suc (suc (suc (suc (suc (suc (suc zero)))))))) = "8"
digit_text _ = "9"

-- The fuel bounds the number of digits.
nat_text : ℕ → ℕ → String
unfolding digit_text
nat_text zero n = ""
nat_text (suc fuel) n =
    let rest = nat_text fuel (n / 10) in
    if leb 10 n then rest <> digit_text (n % 10) else digit_text n

-- `strconv.Itoa`: an int64 has at most 19 digits.
unfoldable pub itoa : ℤ → String
unfolding nat_text
itoa (pos n) = nat_text 20 n
itoa (negsuc n) = "-" <> nat_text 20 (n + 1)

itoa_samples : (itoa (pos 1203) ≡ "1203") × (itoa (negsuc 8) ≡ "-9")
unfolding itoa
itoa_samples = (refl, refl)
