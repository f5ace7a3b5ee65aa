-- ===== src/Tests/Settings.antt =====
-- The configuration of src/config.rs from a small file.
use dnsd_rs.Base.{Bytes, [], codes, some, ◌++◌, ◌∷◌}
use dnsd_rs.Base.Maps.{map_get}
use dnsd_rs.Config.Variables.{Env}
use dnsd_rs.Config.Files.{load_dotenv}
use dnsd_rs.Config.Settings.{from_env}
use dnsd_rs.Config.Bounds.{Accepted, from_env-IsValid}
use dnsd_rs.Config.Dotenv.{Sets, first_value, load_dotenv-Sets, or_else}
use dnsd_rs.Proto.Text.{Text, ascii_text}
use dnsd_rs.Resolve.Dualstack.{lines}

instance text : Text
text = ascii_text

abbrev one_variable : Env
one_variable = (codes "ENV", codes "prod") ∷ []

-- Two lines.
abbrev small_file : Bytes
small_file = codes "ENV=dev" ++ (10 ∷ codes "RATE_LIMIT_QPS=\"7\"")

load_dotenv-Sets_example :
    Sets
      (codes "ENV")
      (or_else (map_get (codes "ENV") one_variable) (first_value (codes "ENV") (lines small_file)))
      (load_dotenv (some small_file) one_variable)
load_dotenv-Sets_example = load_dotenv-Sets (codes "ENV") small_file one_variable

from_env-IsValid_example : Accepted (from_env (λ path. some small_file) one_variable)
from_env-IsValid_example = from_env-IsValid (λ path. some small_file) one_variable
