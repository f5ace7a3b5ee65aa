-- ===== src/Config/Dotenv.antt =====
-- Which value a variable has behind `load_dotenv` of src/config.rs.
use dnsd_rs.Base.{
  Bool, Bytes, subst, List, Option, Result, [], bytes_eq, bytes_eq→eq, err, false, if◌then◌else◌,
  none, ok, panic, refl, some, true, ◌>>=◌, ◌∷◌, ◌≡◌,
}
use dnsd_rs.Base.Maps.{map_get, map_get-insert, map_insert}
use dnsd_rs.Proto.Text.{Text}
use dnsd_rs.Config.Variables.{Env}
use dnsd_rs.Config.Files.{
  assign, assignment, is_refused, load_dotenv, load_env_lines, set_var, unless_set,
}
use dnsd_rs.Resolve.Dualstack.{lines}

module _ ⦃text : Text⦄ where
  -- The value that the first line for a variable gives it.
  abbrev value_for : Bytes → Option (Bytes × Bytes) → Option Bytes → Option Bytes
  value_for key none later = later
  value_for key (some (k, v)) later = if bytes_eq k key then some v else later

  abbrev pub first_value : Bytes → List Bytes → Option Bytes
  first_value key [] = none
  first_value key (l ∷ ls) = value_for key (assignment l) (first_value key ls)

  abbrev pub or_else : Option Bytes → Option Bytes → Option Bytes
  or_else (some v) later = some v
  or_else none later = later

  -- What a variable is afterwards.
  abbrev pub Sets : Bytes → Option Bytes → Result Env → Type 0
  Sets key value (ok env) = map_get key env ≡ value
  Sets key value (err e) = true ≡ false
  Sets key value panic = Unit

  assign-Sets :
      (key : Bytes) (a : Option (Bytes × Bytes)) (later : Option Bytes) (env : Env)
      (rest : Env → Result Env)
      → ((full : Env) → Sets key (or_else (map_get key full) later) (rest full))
      → Sets key (or_else (map_get key env) (value_for key a later)) (assign a env >>= rest)
  unfolding set_var
  assign-Sets key none later env rest h = h env
  assign-Sets key (some (k, v)) later env rest h = go (map_get k env) refl
    where
      kept :
          (old : Bytes) (same : Bool)
          → bytes_eq k key ≡ same
          → map_get k env ≡ some old
          → or_else (map_get key env) later
            ≡ or_else (map_get key env) (if same then some v else later)
      kept old true e set = rw (rw (bytes_eq→eq k key e) at set) refl
      kept old false e set = refl

      new :
          (same : Bool)
          → bytes_eq k key ≡ same
          → map_get k env ≡ none
          → or_else (map_get key (map_insert k v env)) later
            ≡ or_else (map_get key env) (if same then some v else later)
      new true e unset = rw (map_get-insert key k v env, e, rw (bytes_eq→eq k key e) at unset) refl
      new false e unset = rw (map_get-insert key k v env, e) refl

      added :
          (no : Bool)
          → map_get k env ≡ none
          → Sets key
              (or_else (map_get key env) (value_for key (some (k, v)) later))
              ((if no then panic else ok (map_insert k v env)) >>= rest)
      added true unset = tt
      added false unset =
          subst (λ x. Sets key x (rest (map_insert k v env))) (new (bytes_eq k key) refl unset)
            (h (map_insert k v env))

      go :
          (now : Option Bytes)
          → map_get k env ≡ now
          → Sets key
              (or_else (map_get key env) (value_for key (some (k, v)) later))
              (unless_set now k v env >>= rest)
      go (some old) set =
          subst (λ x. Sets key x (rest env)) (kept old (bytes_eq k key) refl set) (h env)
      go none unset = added (is_refused k v) unset

  load_env_lines-Sets :
      (key : Bytes) (ls : List Bytes) (env : Env)
      → Sets key (or_else (map_get key env) (first_value key ls)) (load_env_lines ls env)
  unfolding load_env_lines
  load_env_lines-Sets key [] env = or_else-none (map_get key env)
    where
      or_else-none : (x : Option Bytes) → x ≡ or_else x none
      or_else-none none = refl
      or_else-none (some v) = refl
  load_env_lines-Sets key (l ∷ ls) env =
      assign-Sets key (assignment l) (first_value key ls) env (load_env_lines ls)
        (λ full. load_env_lines-Sets key ls full)

  -- Behind the loading of a file, unless it ends in a panic, a variable has the value that it had; where
  -- it had none, that of the first line for it; and none where there is no such line. There is no error.
  pub load_dotenv-Sets :
      (key content : Bytes) (env : Env)
      → Sets key
          (or_else (map_get key env) (first_value key (lines content)))
          (load_dotenv (some content) env)
  unfolding load_dotenv
  load_dotenv-Sets key content env = load_env_lines-Sets key (lines content) env
