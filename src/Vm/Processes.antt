-- ===== src/Vm/Processes.antt =====
-- `killFirecracker` of internal/vm/manager.go: which processes of /proc it kills.
use Prim.Native.Char.{code}
use Prim.Native.String.{◌++◌ as append}
use text.Mathlib.Text.{starts_with}
use sandbox_manager.Prelude.{
  ℕ, String, Bool, false, ◌||◌, ◌&&◌, List, [], ◌∷◌, Option, none, some, str_eq, ◌==◌,
  if◌then◌else◌,
}
use sandbox_manager.Text.{trim}

-- A directory /proc/<number>: its two files, empty where they cannot be read, and the number, as Atoi
-- reads it.
pub record Process : Type 0 where
  pub comm : String
  pub cmdline : String
  pub pid : Option ℕ

-- strings.ReplaceAll(s, "\x00", " ")
unfoldable pub spaced_out : String → String
spaced_out String.[] = ""
spaced_out (String.◌∷◌ c s) =
    if code c == 0 then append " " (spaced_out s) else String.◌∷◌ c (spaced_out s)

-- strings.Contains(s, part), for a part that is not empty.
unfoldable pub contains_text : String → String → Bool
contains_text part String.[] = false
contains_text part (String.◌∷◌ c s) = starts_with (String.◌∷◌ c s) part || contains_text part s

unfoldable pub is_vmm_of : String → Process → Bool
unfolding spaced_out contains_text
is_vmm_of id p =
    str_eq (trim p.comm) "firecracker" && contains_text (append "--id " id) (spaced_out p.cmdline)

unfoldable pub and_pid : Option ℕ → List ℕ → List ℕ
and_pid (some n) rest = n ∷ rest
and_pid none rest = rest

-- The processes that get a SIGKILL, in order.
unfoldable pub killed_by : String → List Process → List ℕ
unfolding is_vmm_of and_pid
killed_by id [] = []
killed_by id (p ∷ rest) =
    let others = killed_by id rest in if is_vmm_of id p then and_pid p.pid others else others
