-- ===== src/Prelude/Text.antt =====
-- The parts of Go's `strings` package that the code calls. A text is a native `String`, a list of
-- Unicode scalars. `to_lower` maps the ASCII letters and leaves every other character as it is.
use Prim.Native.Nat.{ℕ}
use Prim.Native.Char.{Char, code}
use Prim.Native.String.{String}
use mathlib.Core.Path.{◌≡◌, refl}
use mathlib.Core.Bool.{Bool, true, false, ◌&&◌, ◌||◌}
use mathlib.Core.Option.{Option, none, some}
use mathlib.Core.List.{List, [], ◌∷◌}
use outlook_agent.Prelude.Tests.{leb, nat_eq, ◌==◌, if◌then◌else◌}

-- unicode.IsSpace
unfoldable pub is_space : ℕ → Bool
is_space c =
    (leb 9 c && leb c 13)
    || nat_eq c 32
    || nat_eq c 0x85
    || nat_eq c 0xa0
    || nat_eq c 0x1680
    || (leb 0x2000 c && leb c 0x200a)
    || nat_eq c 0x2028
    || nat_eq c 0x2029
    || nat_eq c 0x202f
    || nat_eq c 0x205f
    || nat_eq c 0x3000

abbrev pub is_empty : String → Bool
is_empty String.[] = true
is_empty (String.◌∷◌ c s) = false

unfoldable pub trim_left : String → String
unfolding is_space
trim_left String.[] = String.[]
trim_left (String.◌∷◌ c s) =
    let rest = trim_left s in if is_space (code c) then rest else String.◌∷◌ c s

-- A character in front of the trimmed rest: dropped if it is a space with nothing behind it.
abbrev cons_right : Char → String → String
cons_right c String.[] = if is_space (code c) then String.[] else String.◌∷◌ c String.[]
cons_right c (String.◌∷◌ d s) = String.◌∷◌ c (String.◌∷◌ d s)

unfoldable pub trim_right : String → String
unfolding is_space
trim_right String.[] = String.[]
trim_right (String.◌∷◌ c s) = cons_right c (trim_right s)

-- strings.TrimSpace
unfoldable pub trim_space : String → String
unfolding trim_left trim_right
trim_space s = trim_right (trim_left s)

abbrev pub is_blank : String → Bool
is_blank s = trim_space s == ""

lower_letter : ℕ → Char → Char
lower_letter n c =
    if nat_eq n 65
    then "a"
    else if nat_eq n 66
    then "b"
    else if nat_eq n 67
    then "c"
    else if nat_eq n 68
    then "d"
    else if nat_eq n 69
    then "e"
    else if nat_eq n 70
    then "f"
    else if nat_eq n 71
    then "g"
    else if nat_eq n 72
    then "h"
    else if nat_eq n 73
    then "i"
    else if nat_eq n 74
    then "j"
    else if nat_eq n 75
    then "k"
    else if nat_eq n 76
    then "l"
    else if nat_eq n 77
    then "m"
    else if nat_eq n 78
    then "n"
    else if nat_eq n 79
    then "o"
    else if nat_eq n 80
    then "p"
    else if nat_eq n 81
    then "q"
    else if nat_eq n 82
    then "r"
    else if nat_eq n 83
    then "s"
    else if nat_eq n 84
    then "t"
    else if nat_eq n 85
    then "u"
    else if nat_eq n 86
    then "v"
    else if nat_eq n 87
    then "w"
    else if nat_eq n 88
    then "x"
    else if nat_eq n 89
    then "y"
    else if nat_eq n 90
    then "z"
    else c

-- strings.ToLower
unfoldable pub to_lower : String → String
unfolding lower_letter
to_lower String.[] = String.[]
to_lower (String.◌∷◌ c s) = String.◌∷◌ (lower_letter (code c) c) (to_lower s)

-- strings.EqualFold against a lower-case literal
unfoldable pub equal_fold : String → String → Bool
unfolding to_lower
equal_fold s t = to_lower s == to_lower t

-- strings.ReplaceAll of a one-letter string, given by its code, with the empty string
unfoldable pub drop_letter : ℕ → String → String
drop_letter n String.[] = String.[]
drop_letter n (String.◌∷◌ c s) =
    let rest = drop_letter n s in if nat_eq (code c) n then rest else String.◌∷◌ c rest

-- strings.HasPrefix, with the prefix first
unfoldable pub has_prefix : String → String → Bool
has_prefix String.[] s = true
has_prefix (String.◌∷◌ c p) String.[] = false
has_prefix (String.◌∷◌ c p) (String.◌∷◌ d s) = nat_eq (code c) (code d) && has_prefix p s

abbrev cut_or : String → Option String → String
cut_or s none = s
cut_or s (some rest) = rest

-- what follows the prefix
unfoldable pub after_prefix : String → String → Option String
after_prefix String.[] s = some s
after_prefix (String.◌∷◌ c p) String.[] = none
after_prefix (String.◌∷◌ c p) (String.◌∷◌ d s) =
    let rest = after_prefix p s in if nat_eq (code c) (code d) then rest else none

-- strings.TrimPrefix, with the prefix first
unfoldable pub trim_prefix : String → String → String
unfolding after_prefix
trim_prefix p s = cut_or s (after_prefix p s)

-- A slash in front of the rest: dropped if nothing is left behind it.
abbrev cons_slash : Char → String → String
cons_slash c String.[] = if nat_eq (code c) 47 then String.[] else String.◌∷◌ c String.[]
cons_slash c (String.◌∷◌ d s) = String.◌∷◌ c (String.◌∷◌ d s)

-- strings.TrimRight with "/"
unfoldable pub trim_slashes : String → String
trim_slashes String.[] = String.[]
trim_slashes (String.◌∷◌ c s) = cons_slash c (trim_slashes s)

-- strings.Contains, with the part that is looked for first
unfoldable pub contains : String → String → Bool
unfolding has_prefix
contains part String.[] = is_empty part
contains part (String.◌∷◌ c s) = has_prefix part (String.◌∷◌ c s) || contains part s

-- strings.Contains of one of the parts
unfoldable pub contains_one : List String → String → Bool
unfolding contains
contains_one [] s = false
contains_one (part ∷ parts) s = contains part s || contains_one parts s

-- one of the strings, as a switch or the keys of a map list them
abbrev pub is_one_of : List String → String → Bool
is_one_of [] s = false
is_one_of (t ∷ ts) s = (s == t) || is_one_of ts s

trim_example : trim_space " \tno data\n " ≡ "no data"
unfolding trim_space
trim_example = refl

to_lower_example : to_lower "OutOfOffice" ≡ "outofoffice"
unfolding to_lower
to_lower_example = refl

drop_letter_example : drop_letter 95 "tentatively_accept" ≡ "tentativelyaccept"
unfolding drop_letter
drop_letter_example = refl

contains_example : contains "token" "access_token_v2" ≡ true
unfolding contains
contains_example = refl
