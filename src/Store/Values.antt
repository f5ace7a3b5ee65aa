-- ===== src/Store/Values.antt =====
-- The interface of the database behind src/store/mod.rs, the roles and users of src/model.rs, and what the
-- closures of the reads make of a row.
use dnsd_rs.Base.{
  Bool, Bytes, List, Option, Result, String, [], bytes_eq, codes, false, if◌then◌else◌, not, ok,
  panic, ℕ, ◌==◌, ◌>>=◌, ◌∷◌,
}
use dnsd_rs.Cache.Redis.{Signed, minus_one_less, plus}
use dnsd_rs.Resolve.Block.{BlockedDomain, mode_of_text}
use dnsd_rs.Resolve.Custom.{Zone}
use dnsd_rs.Resolve.Dualstack.{DualstackBinding}
use dnsd_rs.Resolve.ZoneRecords.{ZoneRecord}

-- A value of a column or of a parameter.
pub data Value : Type 0 where
  text_value : Bytes → Value
  int_value : Signed → Value
  null_value : Value

abbrev pub Row : Type 0
Row = List Value

pub data Answer : Type 0 where
  row_list : List Row → Answer
  failed : String → Answer

-- The database and its client: connections, statements, and what the client makes of a column for each of
-- the types that the closures name, where it documents a panic for a value that does not convert.
pub record Database : Type 1 where
  pub World : Type 0
  pub get_conn : World → Option String × World
  pub run : String → List Value → World → Answer × World
  pub as_string : Value → Result Bytes
  pub as_i8 : Value → Result Signed
  pub as_i32 : Value → Result Signed
  pub as_u32 : Value → Result ℕ
  pub as_u16 : Value → Result ℕ
  pub as_i64_or_null : Value → Result (Option Signed)

-- `Role` of src/model.rs, with `as_str` and `from_str`.
pub data Role : Type 0 where
  admin : Role
  sys_admin : Role
  sec_admin : Role
  audit_admin : Role
  tenant : Role

unfoldable pub role_text : Role → Bytes
role_text admin = codes "admin"
role_text sys_admin = codes "sysadmin"
role_text sec_admin = codes "secadmin"
role_text audit_admin = codes "auditadmin"
role_text tenant = codes "tenant"

unfoldable pub role_of_text : Bytes → Role
role_of_text s =
    if bytes_eq s (codes "admin")
    then admin
    else if bytes_eq s (codes "sysadmin")
    then sys_admin
    else if bytes_eq s (codes "secadmin")
    then sec_admin
    else if bytes_eq s (codes "auditadmin")
    then audit_admin
    else tenant

-- `User`
pub record User : Type 0 where
  pub id : Bytes
  pub username : Bytes
  pub password_hash : Bytes
  pub role : Role
  pub must_change_pwd : Bool
  pub failed_attempts : Signed
  pub locked_until : Option Signed

-- `enabled != 0`
abbrev is_set : Signed → Bool
is_set (plus n) = not (n == 0)
is_set (minus_one_less n) = not false

-- The closures of the reads, on a row of as many columns as they name.
module _ (db : Database) where
  abbrev pub zone_row : Row → Result Zone
  zone_row (i ∷ n ∷ e ∷ []) = do
    id ← db.as_string i
    name ← db.as_string n
    enabled ← db.as_i8 e
    ok (record { id = id; name = name; enabled = is_set enabled })
  zone_row _ = panic

  abbrev pub record_of_row : Row → Result ZoneRecord
  record_of_row (i ∷ z ∷ n ∷ t ∷ v ∷ l ∷ p ∷ e ∷ []) = do
    id ← db.as_string i
    zone_id ← db.as_string z
    name ← db.as_string n
    rtype ← db.as_string t
    value ← db.as_string v
    ttl ← db.as_u32 l
    priority ← db.as_u16 p
    enabled ← db.as_i8 e
    ok (record {
      id = id;
      zone_id = zone_id;
      name = name;
      rtype = rtype;
      value = value;
      ttl = ttl;
      priority = priority;
      enabled = is_set enabled;
    })
  record_of_row _ = panic

  abbrev pub blocked_row : Row → Result BlockedDomain
  blocked_row (i ∷ d ∷ m ∷ e ∷ []) = do
    id ← db.as_string i
    domain ← db.as_string d
    mode ← db.as_string m
    enabled ← db.as_i8 e
    ok (record { id = id; domain = domain; mode = mode_of_text mode; enabled = is_set enabled })
  blocked_row _ = panic

  abbrev pub binding_row : Row → Result DualstackBinding
  binding_row (i ∷ s ∷ v ∷ p ∷ r ∷ e ∷ []) = do
    id ← db.as_string i
    subnet ← db.as_string s
    ipv4 ← db.as_string v
    isp ← db.as_string p
    region ← db.as_string r
    enabled ← db.as_i8 e
    ok (record {
      id = id;
      ipv6_subnet = subnet;
      binding_ipv4 = ipv4;
      isp = isp;
      region = region;
      enabled = is_set enabled;
    })
  binding_row _ = panic

  abbrev pub user_row : Row → Result User
  user_row (i ∷ u ∷ p ∷ r ∷ m ∷ f ∷ l ∷ []) = do
    id ← db.as_string i
    username ← db.as_string u
    password_hash ← db.as_string p
    role ← db.as_string r
    must_change ← db.as_i8 m
    failures ← db.as_i32 f
    locked ← db.as_i64_or_null l
    ok (record {
      id = id;
      username = username;
      password_hash = password_hash;
      role = role_of_text role;
      must_change_pwd = is_set must_change;
      failed_attempts = failures;
      locked_until = locked;
    })
  user_row _ = panic
