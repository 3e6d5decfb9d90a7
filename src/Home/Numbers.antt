-- ===== src/Home/Numbers.antt =====
-- The numbers that internal/userhome/userhome.go reads from the output of resize2fs and dumpe2fs, whose
-- white space is ASCII.
use sandbox_manager.Prelude.{
  ℕ, ◌+◌, ◌-◌, ◌*◌, ◌%◌, ◌^◌, zero, suc, Bool, true, false, not, ◌&&◌, ◌||◌, [], ◌∷◌, ◌++◌, Option,
  none, some, leb, ltb, ◌==◌, if◌then◌else◌,
}
use sandbox_manager.Host.{Bytes, is_space}

-- bytes.TrimSpace
unfoldable pub trim_start : Bytes → Bytes
unfolding is_space
trim_start [] = []
trim_start (c ∷ cs) = if is_space c then trim_start cs else c ∷ cs

abbrev is_empty : Bytes → Bool
is_empty [] = true
is_empty (c ∷ cs) = false

unfoldable pub trim_end : Bytes → Bytes
unfolding is_space
trim_end [] = []
trim_end (c ∷ cs) = let rest = trim_end cs in if is_space c && is_empty rest then [] else c ∷ rest

-- bytes.LastIndexAny(text, ": ") + 1
unfoldable pub after_last_separator : Bytes → ℕ
after_last_separator [] = 0
after_last_separator (c ∷ cs) =
    let n = after_last_separator cs in
    if ltb 0 n then n + 1 else if c == 58 || c == 32 then 1 else 0

unfoldable pub drop : ℕ → Bytes → Bytes
drop zero cs = cs
drop (suc n) [] = []
drop (suc n) (c ∷ cs) = drop n cs

abbrev pub is_digit : ℕ → Bool
is_digit c = leb 48 c && leb c 57

abbrev starts_with_digit : Bytes → Bool
starts_with_digit [] = false
starts_with_digit (c ∷ cs) = is_digit c

-- The number that a text begins with, behind `acc`.
unfoldable pub leading_number : ℕ → Bytes → ℕ
leading_number acc [] = acc
leading_number acc (c ∷ cs) =
    let rest = leading_number (acc * 10 + (c - 48)) cs in if is_digit c then rest else acc

-- White space, up to a line break, which Sscanf does not pass over.
unfoldable pub skip_blanks : Bytes → Bytes
unfolding is_space
skip_blanks [] = []
skip_blanks (c ∷ cs) = if is_space c && not (c == 10) then skip_blanks cs else c ∷ cs

-- fmt.Sscanf(text, "%d", &n) with an int64, as a 64-bit word.
unfoldable pub scan_positive : Bytes → Option ℕ
unfolding leading_number
scan_positive cs =
    let n = leading_number 0 cs in if starts_with_digit cs && ltb n (2 ^ 63) then some n else none

unfoldable pub scan_negative : Bytes → Option ℕ
unfolding leading_number
scan_negative cs =
    let n = leading_number 0 cs in
    if starts_with_digit cs && leb n (2 ^ 63) then some ((2 ^ 64 - n) % 2 ^ 64) else none

unfoldable pub scan_signed : Bytes → Option ℕ
unfolding scan_positive scan_negative
scan_signed [] = none
scan_signed (c ∷ cs) =
    if c == 45
    then scan_negative cs
    else if c == 43
    then scan_positive cs
    else scan_positive (c ∷ cs)

unfoldable pub last_number : Bytes → Option ℕ
unfolding trim_start trim_end after_last_separator drop skip_blanks scan_signed
last_number b = scan_signed (skip_blanks (drop (after_last_separator (trim_end (trim_start b))) b))

-- "Block size:"
abbrev pub block_size_name : Bytes
block_size_name = 66 ∷ 108 ∷ 111 ∷ 99 ∷ 107 ∷ 32 ∷ 115 ∷ 105 ∷ 122 ∷ 101 ∷ 58 ∷ []

-- What follows a prefix.
unfoldable pub behind : Bytes → Bytes → Option Bytes
behind [] cs = some cs
behind (p ∷ ps) [] = none
behind (p ∷ ps) (c ∷ cs) = if p == c then behind ps cs else none

unfoldable pub digits_of : Bytes → Bytes
digits_of [] = []
digits_of (c ∷ cs) = let rest = digits_of cs in if is_digit c then c ∷ rest else []

-- `\s` of a regular expression.
abbrev is_regex_space : ℕ → Bool
is_regex_space c = c == 9 || c == 10 || c == 12 || c == 13 || c == 32

-- \s*\d+
unfoldable pub spaced_number : Bytes → Option Bytes
unfolding digits_of
spaced_number [] = none
spaced_number (c ∷ cs) =
    let rest = spaced_number cs in
    if is_digit c
    then some (digits_of (c ∷ cs))
    else if is_regex_space c
    then elim rest [ none ↦ none | some m ↦ some (c ∷ m) ]
    else none

-- The match of blockSizeLine at the start of a line.
unfoldable pub block_size_at : Bytes → Option Bytes
unfolding behind spaced_number
block_size_at cs = elim (behind block_size_name cs) [
  | none ↦ none
  | some rest ↦ elim (spaced_number rest) [ none ↦ none | some m ↦ some (block_size_name ++ m) ]
]

-- blockSizeLine.Find, which starts in the middle of a line if `at_start` is false.
unfoldable pub find_block_size : Bool → Bytes → Bytes
unfolding block_size_at
find_block_size at_start [] = []
find_block_size at_start (c ∷ cs) =
    let rest = find_block_size (c == 10) cs in
    if at_start then elim (block_size_at (c ∷ cs)) [ none ↦ rest | some m ↦ m ] else rest

unfoldable pub block_size_line : Bytes → Bytes
unfolding find_block_size
block_size_line header = find_block_size true header
