-- ===== src/Resolve/Block.antt =====
-- src/resolve/block.rs and the entries of src/model.rs that it reads. The text of a client's address
-- (`IpAddr::to_string`) is a parameter; the map of exact names is an association list.
pub mod Match
pub mod Answers
use dnsd_rs.Base.{
  Bool, Bytes, List, Option, [], bit_and, bit_xor, bytes_eq, dot, drop, ends_with, if◌then◌else◌,
  length, ltb, max, none, some, starts_with, trim_end_dots, true, ℕ, ◌%◌, ◌&&◌, ◌*◌, ◌++◌, ◌/◌,
  ◌==◌, ◌^◌, ◌∷◌,
}
use dnsd_rs.Proto.Text.{Text, canonical_name}
use dnsd_rs.Proto.Types.{
  IpAddr, Ipv4Addr, Ipv6Addr, Message, Question, RData, Record, class_in, default_header,
  default_message, rcode_noerror, type_a, type_aaaa, v6_octets,
}

pub data BlockMode : Type 0 where
  loopback : BlockMode
  random : BlockMode

-- `BlockMode::from_str` and `as_str`
abbrev mode_text : BlockMode → Bytes
mode_text loopback = b'l' ∷ b'o' ∷ b'o' ∷ b'p' ∷ b'b' ∷ b'a' ∷ b'c' ∷ b'k' ∷ []
mode_text random = b'r' ∷ b'a' ∷ b'n' ∷ b'd' ∷ b'o' ∷ b'm' ∷ []

abbrev pub mode_of_text : Bytes → BlockMode
mode_of_text s =
    if bytes_eq s (b'r' ∷ b'a' ∷ b'n' ∷ b'd' ∷ b'o' ∷ b'm' ∷ []) then random else loopback

-- `BlockedDomain` of src/model.rs
pub record BlockedDomain : Type 0 where
  pub id : Bytes
  pub domain : Bytes
  pub mode : BlockMode
  pub enabled : Bool

pub record BlockList : Type 0 where
  pub exact : List (Bytes × BlockMode)
  pub wildcard : List (Bytes × BlockMode)

-- `HashMap::get` and `HashMap::insert`
unfoldable pub get_exact : Bytes → List (Bytes × BlockMode) → Option BlockMode
get_exact n [] = none
get_exact n (x ∷ xs) = if bytes_eq x.0 n then some x.1 else get_exact n xs

unfoldable pub insert_exact :
    Bytes → BlockMode → List (Bytes × BlockMode) → List (Bytes × BlockMode)
insert_exact n m [] = (n, m) ∷ []
insert_exact n m (x ∷ xs) = if bytes_eq x.0 n then (n, m) ∷ xs else x ∷ insert_exact n m xs

abbrev pub empty_list : BlockList
empty_list = record { exact = []; wildcard = [] }

-- `BlockList::is_empty`
abbrev is_empty_list : BlockList → Bool
is_empty_list l = length l.exact == 0 && length l.wildcard == 0

-- `strip_prefix("*.")`
abbrev pub strip_star : Bytes → Option Bytes
strip_star s = if starts_with s (b'*' ∷ dot ∷ []) then some (drop 2 s) else none

-- An entry that is a wildcard, `some` of what follows its star, or an exact name.
abbrev pub add_as : Option Bytes → Bytes → BlockMode → BlockList → BlockList
add_as (some rest) d mode l = record l { wildcard = l.wildcard ++ ((dot ∷ rest, mode) ∷ []) }
add_as none d mode l = record l { exact = insert_exact d mode l.exact }

-- The loop of `mode_for` over the wildcards; a suffix starts with a dot.
unfoldable pub get_wildcard : Bytes → List (Bytes × BlockMode) → Option BlockMode
get_wildcard n [] = none
get_wildcard n (x ∷ xs) =
    if ends_with n x.0 && ltb (length x.0) (length n) then some x.1 else get_wildcard n xs

-- `random_v4`
unfoldable pub fnv64_loop : ℕ → Bytes → ℕ
fnv64_loop h [] = h
fnv64_loop h (b ∷ bs) = fnv64_loop (bit_xor h b * 0x100000001b3 % 2 ^ 64) bs

abbrev localhost_v4 : Ipv4Addr
localhost_v4 = record { o0 = 127; o1 = 0; o2 = 0; o3 = 1 }

abbrev pub localhost_v6 : Ipv6Addr
localhost_v6 = v6_octets (0 ∷ 0 ∷ 0 ∷ 0 ∷ 0 ∷ 0 ∷ 0 ∷ 0 ∷ 0 ∷ 0 ∷ 0 ∷ 0 ∷ 0 ∷ 0 ∷ 0 ∷ 1 ∷ [])

module _ ⦃text : Text⦄ where
  -- The name under which an entry is stored and looked up.
  abbrev pub block_name : Bytes → Bytes
  block_name s = trim_end_dots (canonical_name s)

  -- One turn of the loop of `BlockList::new`.
  abbrev pub add_entry : BlockedDomain → BlockList → BlockList
  add_entry e l = add_as (strip_star (block_name e.domain)) (block_name e.domain) e.mode l

  unfoldable pub add_entries : List BlockedDomain → BlockList → BlockList
  unfolding insert_exact
  add_entries [] l = l
  add_entries (e ∷ es) l = add_entries es (add_entry e l)

  -- `BlockList::new`
  unfoldable pub new_list : List BlockedDomain → BlockList
  unfolding add_entries
  new_list es = add_entries es empty_list

  -- `BlockList::mode_for`
  unfoldable pub mode_for : BlockList → Bytes → Option BlockMode
  unfolding get_exact get_wildcard
  mode_for l qname =
      let n = block_name qname in
      elim (get_exact n l.exact) [ some m ↦ some m | none ↦ get_wildcard n l.wildcard ]

module _ (ip_text : IpAddr → Bytes) where
  unfoldable pub random_v4 : Bytes → IpAddr → Ipv4Addr
  unfolding fnv64_loop
  random_v4 qname client_ip =
      let h = fnv64_loop (fnv64_loop 0xcbf29ce484222325 qname) (ip_text client_ip) in
      record { o0 = 10; o1 = 7; o2 = max (bit_and (h / 2 ^ 16) 0xFF) 1; o3 = bit_and h 0xFF }

  abbrev pub block_v4 : BlockMode → Bytes → IpAddr → Ipv4Addr
  block_v4 loopback qname client_ip = localhost_v4
  block_v4 random qname client_ip = random_v4 qname client_ip

  abbrev pub block_answers : Question → Ipv4Addr → List Record
  block_answers q ip =
      if q.qtype == type_a
      then record { name = q.name; rtype = type_a; class = class_in; ttl = 60; rdata = RData.a ip }
        ∷ []
      else if q.qtype == type_aaaa
      then record {
        name = q.name;
        rtype = type_aaaa;
        class = class_in;
        ttl = 60;
        rdata = RData.aaaa localhost_v6;
      }
        ∷ []
      else []

  -- `BlockList::respond`
  unfoldable pub respond : Question → IpAddr → BlockMode → Message
  unfolding random_v4
  respond q client_ip mode = record default_message {
    header = record default_header { qr = true; rd = true; ra = true; rcode = rcode_noerror };
    questions = q ∷ [];
    answers = block_answers q (block_v4 mode q.name client_ip);
  }
