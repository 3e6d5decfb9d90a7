-- ===== src/Host.antt =====
-- What internal/service/service.go reads of the host: the memory that is available and how full the
-- data file system is; and how many files cmd/sandbox-manager may open.
use native.Mathlib.Nat.{div-add-mod', div-lt_iff_lt-mul, mod-lt}
use sandbox_manager.Prelude.{
  ℕ, ◌+◌, ◌-◌, ◌*◌, ◌/◌, ◌%◌, ◌^◌, ◌≤◌, ◌<◌, ◌≡◌, Bool, true, false, ◌||◌, ◌&&◌, not, List, [], ◌∷◌,
  Option, none, some, leb, ltb, ◌==◌, if◌then◌else◌, arith,
}

abbrev pub Bytes : Type 0
Bytes = List ℕ

abbrev glue_line : ℕ → List Bytes → List Bytes
glue_line c [] = (c ∷ []) ∷ []
glue_line c (l ∷ ls) = (c ∷ l) ∷ ls

-- strings.Split(text, "\n")
unfoldable pub lines : Bytes → List Bytes
lines [] = [] ∷ []
lines (c ∷ cs) = let rest = lines cs in if c == 10 then [] ∷ rest else glue_line c rest

-- The white space of strings.Fields, in ASCII.
unfoldable pub is_space : ℕ → Bool
is_space c = c == 32 || (leb 9 c && leb c 13)

abbrev starts_word : Bytes → Bool
starts_word [] = false
starts_word (c ∷ cs) = not (is_space c)

-- strings.Fields
unfoldable pub fields : Bytes → List Bytes
unfolding is_space
fields [] = []
fields (c ∷ cs) =
    let rest = fields cs in
    if is_space c then rest else if starts_word cs then glue_line c rest else (c ∷ []) ∷ rest

unfoldable pub digits : ℕ → Bytes → Option ℕ
digits acc [] = some acc
digits acc (c ∷ cs) =
    let rest = digits (acc * 10 + (c - 48)) cs in if leb 48 c && leb c 57 then rest else none

-- strconv.ParseUint(text, 10, 64)
unfoldable pub parse_uint : Bytes → Option ℕ
unfolding digits
parse_uint [] = none
parse_uint (c ∷ cs) = elim (digits 0 (c ∷ cs)) [
  | none ↦ none
  | some n ↦ if ltb n (2 ^ 64) then some n else none
]

abbrev pub same_bytes : Bytes → Bytes → Bool
same_bytes [] [] = true
same_bytes (a ∷ as') (b ∷ bs) = a == b && same_bytes as' bs
same_bytes _ _ = false

-- "MemAvailable:"
abbrev pub mem_available_name : Bytes
mem_available_name = 77 ∷ 101 ∷ 109 ∷ 65 ∷ 118 ∷ 97 ∷ 105 ∷ 108 ∷ 97 ∷ 98 ∷ 108 ∷ 101 ∷ 58 ∷ []

-- What one line says: `none` if it is about something else.
unfoldable pub read_line : List Bytes → Option (Option ℕ)
unfolding parse_uint
read_line (name ∷ value ∷ rest) =
    if same_bytes name mem_available_name then some (parse_uint value) else none
read_line _ = none

unfoldable pub find_available : List Bytes → Option ℕ
unfolding fields read_line
find_available [] = none
find_available (l ∷ ls) =
    let rest = find_available ls in
    elim (read_line (fields l)) [
      | none ↦ rest
      | some none ↦ none
      | some (some kib) ↦ some (kib / 1024)
    ]

-- memAvailableMiB, given what is read from the file; `none` for an error.
unfoldable pub mem_available_mib : Option Bytes → Option ℕ
unfolding lines find_available
mem_available_mib none = none
mem_available_mib (some text) = find_available (lines text)

-- diskUsagePercent, given the blocks and the available blocks that Statfs reports, in uint64.
unfoldable pub disk_usage_percent : Option (ℕ × ℕ) → Option ℕ
disk_usage_percent none = none
disk_usage_percent (some (blocks, available)) =
    let used = (blocks + 2 ^ 64 - available) % 2 ^ 64 in
    if blocks == 0 then none else some (((used * 100) % 2 ^ 64 + blocks - 1) % 2 ^ 64 / blocks)

abbrev pub max_disk_percent : ℕ
max_disk_percent = 90

abbrev pub min_file_limit : ℕ
min_file_limit = 65536

-- raiseFileLimit: the soft limit at the end, `none` where the program stops. `can_set` tells whether
-- Setrlimit succeeds.
unfoldable pub raise_file_limit : Bool → ℕ → ℕ → Option ℕ
raise_file_limit can_set soft hard =
    let cur = if ltb soft hard && can_set then hard else soft in
    if ltb cur min_file_limit then none else some cur

-- Division rounded up, of a share of at most the whole.
ceil_bounds :
    (used blocks : ℕ)
    → used ≤ blocks
    → 0 < blocks
    → let p = (used * 100 + blocks - 1) / blocks in
      (used * 100 ≤ p * blocks) × (p * blocks < used * 100 + blocks) × (p ≤ 100)
ceil_bounds used blocks h pos =
    let w = used * 100 + blocks - 1 in
    let p = w / blocks in
    let split : p * blocks + w % blocks ≡ w = div-add-mod' w blocks in
    let low : w % blocks < blocks = mod-lt w pos in
    let top : p < 101 = (div-lt_iff_lt-mul pos).1 (omega arith) in
    (omega arith, omega arith, omega arith)

-- For a file system whose size times 101 fits the word, the percentage is the used share rounded up.
pub disk_usage_percent_lem :
    (blocks available : ℕ)
    → available ≤ blocks
    → 0 < blocks
    → blocks * 101 < 2 ^ 64
    → (p : ℕ) × (disk_usage_percent (some (blocks, available)) ≡ some p)
      × (((blocks - available) * 100 ≤ p * blocks)
          × (p * blocks < (blocks - available) * 100 + blocks)
          × (p ≤ 100))
unfolding disk_usage_percent
disk_usage_percent_lem blocks available h pos fits =
    let used = blocks - available in
    let plain : (blocks + 2 ^ 64 - available) % 2 ^ 64 ≡ used = omega arith in
    let whole : ((used * 100) % 2 ^ 64 + blocks - 1) % 2 ^ 64 ≡ used * 100 + blocks - 1 =
      omega arith in
    (
      (used * 100 + blocks - 1) / blocks,
      rw (plain, whole) (ground arith),
      ceil_bounds used blocks (omega arith) pos,
    )
