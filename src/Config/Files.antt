-- ===== src/Config/Files.antt =====
-- `load_dotenv` of src/config.rs.
use dnsd_rs.Base.{
  Bool, Bytes, List, Option, Result, [], any, if◌then◌else◌, none, ok, panic, some, starts_with, ℕ,
  ◌==◌, ◌>>=◌, ◌||◌, ◌∷◌,
}
use dnsd_rs.Base.Fields.{split_once}
use dnsd_rs.Base.Maps.{map_get, map_insert}
use dnsd_rs.Proto.Text.{Text}
use dnsd_rs.Resolve.Dualstack.{lines}
use dnsd_rs.Config.Variables.{Env, is_blank}

-- `trim_matches(c)`
abbrev drop_while : ℕ → Bytes → Bytes
drop_while c [] = []
drop_while c (b ∷ bs) = if b == c then drop_while c bs else b ∷ bs

abbrev drop_last_while : ℕ → Bytes → Bytes
drop_last_while c [] = []
drop_last_while c (b ∷ bs) = elim (drop_last_while c bs) [
  | [] ↦ if b == c then [] else b ∷ []
  | d ∷ ds ↦ b ∷ d ∷ ds
]

abbrev trim_matches : ℕ → Bytes → Bytes
trim_matches c s = drop_last_while c (drop_while c s)

-- `env::set_var`: a key that is empty or holds an equals sign or a NUL, or a value that holds a NUL, is a
-- panic.
abbrev pub is_refused : Bytes → Bytes → Bool
is_refused k v = is_blank k || any (λ b. b == b'=' || b == 0) k || any (λ b. b == 0) v

unfoldable pub set_var : Bytes → Bytes → Env → Result Env
unfolding map_insert
set_var k v env = if is_refused k v then panic else ok (map_insert k v env)

abbrev pub unless_set : Option Bytes → Bytes → Bytes → Env → Result Env
unless_set (some old) k v env = ok env
unless_set none k v env = set_var k v env

module _ ⦃text : Text⦄ where
  -- What a line of the file sets.
  abbrev assignment_of : Option (Bytes × Bytes) → Option (Bytes × Bytes)
  assignment_of none = none
  assignment_of (some (k, v)) =
      some (text.trim k, trim_matches 39 (trim_matches b'"' (text.trim v)))

  unfoldable pub assignment : Bytes → Option (Bytes × Bytes)
  assignment l =
      let line = text.trim l in
      if is_blank line || starts_with line (b'#' ∷ [])
      then none
      else assignment_of (split_once b'=' line)

  -- A variable that is set keeps its value.
  abbrev pub assign : Option (Bytes × Bytes) → Env → Result Env
  assign none env = ok env
  assign (some (k, v)) env = unless_set (map_get k env) k v env

  -- `load_dotenv`, on the lines of the file.
  unfoldable pub load_env_lines : List Bytes → Env → Result Env
  unfolding assignment set_var
  load_env_lines [] env = ok env
  load_env_lines (l ∷ ls) env = assign (assignment l) env >>= load_env_lines ls

  unfoldable pub load_dotenv : Option Bytes → Env → Result Env
  unfolding load_env_lines lines
  load_dotenv none env = ok env
  load_dotenv (some content) env = load_env_lines (lines content) env
