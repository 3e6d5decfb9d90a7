-- ===== src/Config/Environment.antt =====
-- `loadDotEnv`, `env` and `envInt` of internal/config/config.go.
use Prim.Native.Char.{code}
use Prim.Native.String.{◌++◌ as append}
use sandbox_manager.Prelude.{
  ℕ, zero, suc, ◌<◌, ◌≡◌, refl, sym, ◌∙◌, String, Bool, true, false, not, ◌||◌, List, [], ◌∷◌,
  Option, none, some, str_eq, eq_iff, eq_refl, ◌==◌, if◌then◌else◌, arith, Result, ok, err, failure,
  Bool-cases, Option-cases, inl, inr,
}
use sandbox_manager.Text.{trim}

-- What a scan of a number gives.
pub data ℤ : Type 0 where
  pos : ℕ → ℤ
  negsuc : ℕ → ℤ

-- The environment of the process.
abbrev pub Env : Type 0
Env = String → Option String

-- os.Getenv
unfoldable pub getenv : Env → String → String
getenv vars k = elim (vars k) [ none ↦ "" | some v ↦ v ]

unfoldable pub has_char : ℕ → String → Bool
has_char c String.[] = false
has_char c (String.◌∷◌ d s) = code d == c || has_char c s

-- os.Setenv refuses an empty key, a key with `=` or a zero byte, and a value with a zero byte.
unfoldable pub can_set : String → String → Bool
unfolding has_char
can_set k v = not (str_eq k "" || has_char 61 k || has_char 0 k || has_char 0 v)

unfoldable pub setenv : String → String → Env → Env
unfolding can_set
setenv k v vars = if can_set k v then (λ x. if str_eq k x then some v else vars x) else vars

-- strings.Cut(line, "=")
unfoldable pub cut : String → Option (String × String)
cut String.[] = none
cut (String.◌∷◌ c s) =
    if code c == 61
    then some ("", s)
    else elim (cut s) [ none ↦ none | some (k, v) ↦ some (String.◌∷◌ c k, v) ]

unfoldable pub is_comment : String → Bool
is_comment String.[] = true
is_comment (String.◌∷◌ c s) = code c == 35

-- The binding on a line of the file, if there is one.
unfoldable pub binding : String → Option (String × String)
unfolding is_comment cut
binding line =
    if is_comment (trim line)
    then none
    else elim (cut (trim line)) [ none ↦ none | some (k, v) ↦ some (trim k, trim v) ]

unfoldable pub bind_unset : Option (String × String) → Env → Env
unfolding setenv
bind_unset none vars = vars
bind_unset (some (k, v)) vars = elim (vars k) [ none ↦ setenv k v vars | some old ↦ vars ]

-- The loop over the lines.
unfoldable pub load_lines : List String → Env → Env
unfolding binding bind_unset
load_lines [] vars = vars
load_lines (line ∷ lines) vars = load_lines lines (bind_unset (binding line) vars)

unfoldable pub env_file : Env → String
unfolding getenv
env_file vars = if str_eq (getenv vars "NODE_ENV") "production" then ".env" else ".env.development"

-- loadDotEnv, over the lines that the scanner gives for a file, if that can be opened.
unfoldable pub load_dot_env : (String → Option (List String)) → Env → Env
unfolding env_file load_lines
load_dot_env lines_of vars = elim (lines_of (env_file vars)) [
  | none ↦ vars
  | some lines ↦ load_lines lines vars
]

-- env
unfoldable pub env : Env → String → String → String
unfolding getenv
env vars key def = if str_eq (getenv vars key) "" then def else getenv vars key

unfoldable pub positive : String → Option ℤ → Result ℕ
positive key (some (pos (suc n))) = ok (suc n)
positive key (some (pos zero)) = err (failure (append key " must be a positive integer"))
positive key (some (negsuc n)) = err (failure (append key " must be a positive integer"))
positive key none = err (failure (append key " must be a positive integer"))

-- envInt, over fmt.Sscan and over fmt.Sprint of the default.
unfoldable pub env_int : (String → Option ℤ) → Env → String → String → Result ℕ
unfolding env positive
env_int sscan vars key def = positive key (sscan (env vars key def))

pub env_int-positive :
    (sscan : String → Option ℤ) (vars : Env) (key def : String) (n : ℕ)
    → env_int sscan vars key def ≡ ok n
    → 0 < n
unfolding env_int positive
env_int-positive sscan vars key def n e = go (sscan (env vars key def)) e
  where
    go : (r : Option ℤ) → positive key r ≡ ok n → 0 < n
    go (some (pos (suc k))) e' = ground arith
    go (some (pos zero)) e' = absurd (ground arith)
    go (some (negsuc k)) e' = absurd (ground arith)
    go none e' = absurd (ground arith)

-- The first line of a file that gives a variable a value it can have.
unfoldable pub settled : Option (String × String) → String → Option String → Option String
settled none x rest = rest
settled (some (k, v)) x rest = if str_eq k x then (if can_set k v then some v else rest) else rest

unfoldable pub first_value : List String → String → Option String
unfolding settled
first_value [] x = none
first_value (line ∷ lines) x = settled (binding line) x (first_value lines x)

unfoldable pub or_else : Option String → Option String → Option String
or_else (some v) other = some v
or_else none other = other

bind_unset-or_else :
    (b : Option (String × String)) (vars : Env) (x : String) (rest : Option String)
    → or_else (bind_unset b vars x) rest ≡ or_else (vars x) (settled b x rest)
unfolding bind_unset settled setenv or_else
bind_unset-or_else none vars x rest = refl
bind_unset-or_else (some (k, v)) vars x rest = elim (Bool-cases (str_eq k x)) [
  | inl same ↦ rw (sym ((eq_iff k x).0 same)) (elim (Option-cases (vars k)) [
    | inl unset ↦
        rw (bind_unset, unset, setenv, eq_refl k)
          (elim (Bool-cases (can_set k v)) [
            | inl good ↦ rw (good, eq_refl k) refl
            | inr bad ↦ rw (bad, unset) refl
          ])
    | inr (old, set) ↦ rw (bind_unset, set, set) refl
  ])
  | inr apart ↦ elim (Option-cases (vars k)) [
    | inl unset ↦
        rw (bind_unset, unset, setenv, apart)
          (elim (Bool-cases (can_set k v)) [
            | inl good ↦ rw (good, apart) refl
            | inr bad ↦ rw bad refl
          ])
    | inr (old, set) ↦ rw (bind_unset, set, apart) refl
  ]
]

load_lines-or_else :
    (lines : List String) (vars : Env) (x : String)
    → load_lines lines vars x ≡ or_else (vars x) (first_value lines x)
unfolding load_lines first_value or_else
load_lines-or_else [] vars x = elim (Option-cases (vars x)) [
  | inl e ↦ rw e refl
  | inr (v, e) ↦ rw e refl
]
load_lines-or_else (line ∷ lines) vars x =
    load_lines-or_else lines (bind_unset (binding line) vars) x
    ∙ bind_unset-or_else (binding line) vars x (first_value lines x)

-- The file of the environment only fills in what is not set. After it is loaded a variable has the value
-- that it had before; one that was not set has that of the first line which gives it one, or is still not
-- set.
pub load_dot_env_first :
    (lines_of : String → Option (List String)) (vars : Env) (lines : List String) (x : String)
    → lines_of (env_file vars) ≡ some lines
    → load_dot_env lines_of vars x ≡ or_else (vars x) (first_value lines x)
unfolding load_dot_env
load_dot_env_first lines_of vars lines x e = rw (load_dot_env, e) (load_lines-or_else lines vars x)
