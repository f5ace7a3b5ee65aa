-- ===== src/Server/Http.antt =====
-- src/server/http.rs: requests and responses of HTTP/1.1. A connection is what can be read from it, and
-- whether it ends behind that or fails (the read timeout). What is taken from the Unicode tables of the
-- standard library is a parameter, with its documented behaviour on ASCII.
pub mod Percent
pub mod Headers
pub mod Requests
use dnsd_rs.Base.{
  Bool, Bytes, Error, List, Option, Result, [], any, codes, decimal_fuel, err, false, if◌then◌else◌,
  leb, length, ltb, map, none, not, ok, panic, some, take, true, ℕ, ◌&&◌, ◌*◌, ◌++◌, ◌+◌, ◌-◌, ◌==◌,
  ◌>>=◌, ◌^◌, ◌||◌, ◌∷◌, ◌≡◌,
}
use dnsd_rs.Base.Fields.{concat, lines_of, parse_unsigned, split_on, split_once}
use dnsd_rs.Base.Maps.{map_get, map_insert}
use dnsd_rs.Proto.Text.{IsAscii, Text, is_space, trim_end}

-- The words of a text, as `split_whitespace` gives them on ASCII.
abbrev pub glue : ℕ → Bool → List Bytes → List Bytes
glue c true ws = (c ∷ []) ∷ ws
glue c false [] = (c ∷ []) ∷ []
glue c false (w ∷ ws) = (c ∷ w) ∷ ws

abbrev starts_apart : Bytes → Bool
starts_apart [] = true
starts_apart (c ∷ cs) = is_space c

unfoldable pub ascii_words : Bytes → List Bytes
ascii_words [] = []
ascii_words (c ∷ cs) =
    let rest = ascii_words cs in if is_space c then rest else glue c (starts_apart cs) rest

pub record HttpText : Type 0 where
  pub is_utf8 : Bytes → Bool
  pub trim_end_of : Bytes → Bytes
  pub words : Bytes → List Bytes
  pub is_utf8_ascii : (s : Bytes) → IsAscii s → is_utf8 s ≡ true
  pub trim_end_ascii : (s : Bytes) → IsAscii s → trim_end_of s ≡ trim_end s
  pub words_ascii : (s : Bytes) → IsAscii s → words s ≡ ascii_words s

-- `HttpRequest`
abbrev pub Fields : Type 0
Fields = List (Bytes × Bytes)

pub record HttpRequest : Type 0 where
  pub method : Bytes
  pub path : Bytes
  pub query : Fields
  pub headers : Fields
  pub body : Bytes

-- A hexadecimal digit of either case.
abbrev hex_value : ℕ → Option ℕ
hex_value c =
    if leb b'0' c && leb c b'9'
    then some (c - b'0')
    else if leb b'a' c && leb c b'f'
    then some (c - b'a' + 10)
    else if leb b'A' c && leb c b'F'
    then some (c - b'A' + 10)
    else none

abbrev hex_join : Option ℕ → Option ℕ → Option ℕ
hex_join (some x) (some y) = some (x * 16 + y)
hex_join (some x) none = none
hex_join none y = none

-- `u8::from_str_radix(.., 16)` of two characters, the first of which may be a plus sign.
abbrev pub hex_pair : ℕ → ℕ → Option ℕ
hex_pair x y = if x == b'+' then hex_value y else hex_join (hex_value x) (hex_value y)

-- A byte within a character of UTF-8, before which no text is sliced.
abbrev pub is_inner : Bytes → Bool
is_inner [] = false
is_inner (b ∷ bs) = leb 128 b && ltb b 192

abbrev pub plus_to_space : ℕ → ℕ
plus_to_space b = if b == b'+' then 32 else b

abbrev pub push_byte : ℕ → Result Bytes → Result Bytes
push_byte b r = r >>= λ out. ok (b ∷ out)

-- One turn of the loop of `percent_decode` with two bytes ahead, given the rest of the loop from behind
-- the three bytes and from behind the first.
abbrev after_percent : ℕ → Option ℕ → Bool → Result Bytes → Result Bytes → Result Bytes
after_percent b v true skipped next = panic
after_percent b (some v) false skipped next = push_byte v skipped
after_percent b none false skipped next = push_byte b next

unfoldable pub percent_bytes : Bytes → Result Bytes
percent_bytes [] = ok []
percent_bytes (b ∷ []) = ok (plus_to_space b ∷ [])
percent_bytes (b ∷ x ∷ []) = push_byte (plus_to_space b) (percent_bytes (x ∷ []))
percent_bytes (b ∷ x ∷ y ∷ rest) =
    let skipped = percent_bytes rest in
    let next = percent_bytes (x ∷ y ∷ rest) in
    if b == b'%'
    then after_percent b (hex_pair x y) (is_inner rest) skipped next
    else push_byte (plus_to_space b) next

abbrev pub is_blank : Bytes → Bool
is_blank [] = true
is_blank (c ∷ cs) = false

-- `write_response`: the bytes that are written.
abbrev pub header_line : Bytes × Bytes → Bytes
header_line (k, v) = k ++ (codes ": " ++ (v ++ (13 ∷ 10 ∷ [])))

unfoldable pub response_bytes : ℕ → Bytes → Bytes → Bytes → Fields → Bytes
response_bytes status reason content_type body extra =
    codes "HTTP/1.1 "
    ++ (decimal_fuel 5 status
        ++ (32
            ∷ (reason
                ++ (13
                    ∷ 10
                    ∷ (header_line (codes "Content-Type", content_type)
                        ++ (header_line (codes "Content-Length", decimal_fuel 20 (length body))
                            ++ (header_line (codes "Connection", codes "close")
                                ++ (concat (map header_line extra) ++ (13 ∷ 10 ∷ body)))))))))

-- The length of the body, and the body; a buffer of half of the memory is a panic.
abbrev length_or_zero : Option ℕ → ℕ
length_or_zero none = 0
length_or_zero (some n) = n

abbrev parsed_length : Option Bytes → Option ℕ
parsed_length none = none
parsed_length (some v) = parse_unsigned 64 v

abbrev pub content_length : Fields → ℕ
content_length headers = length_or_zero (parsed_length (map_get (codes "content-length") headers))

abbrev pub read_body : ℕ → Bytes → Result Bytes
read_body n rest =
    if leb (2 ^ 63) n
    then panic
    else if ltb (length rest) n
    then err (Error.io "failed to fill whole buffer")
    else ok (take n rest)

abbrev method_of : List Bytes → Bytes
method_of [] = []
method_of (m ∷ ws) = m

abbrev target_of : List Bytes → Bytes
target_of (m ∷ t ∷ ws) = t
target_of _ = b'/' ∷ []

module _ ⦃text : Text⦄ where
  -- `percent_decode`
  unfoldable pub percent_decode : Bytes → Result Bytes
  unfolding percent_bytes
  percent_decode s = percent_bytes s >>= λ out. ok (text.from_utf8_lossy out)

  -- `parse_query`, pair by pair.
  abbrev query_pair : Option (Bytes × Bytes) → Fields → Result Fields
  query_pair none fields = ok fields
  query_pair (some (k, v)) fields = percent_decode v >>= λ d. ok (map_insert k d fields)

  unfoldable pub query_pairs : List Bytes → Fields → Result Fields
  unfolding map_insert
  query_pairs [] fields = ok fields
  query_pairs (p ∷ ps) fields = query_pair (split_once b'=' p) fields >>= query_pairs ps

  unfoldable pub parse_query : Bytes → Result Fields
  unfolding query_pairs
  parse_query q = query_pairs (split_on b'&' q) []

  -- A header, where the line has a colon.
  abbrev pub add_header : Option (Bytes × Bytes) → Fields → Fields
  add_header none headers = headers
  add_header (some (k, v)) headers =
      map_insert (text.to_lowercase (text.trim k)) (text.trim v) headers

  abbrev pub with_query : Bytes → Option (Bytes × Bytes) → Result (Bytes × Fields)
  with_query target none = ok (target, [])
  with_query target (some (p, q)) = parse_query q >>= λ fields. ok (p, fields)

module _ ⦃text : Text⦄ (http_text : HttpText) where
  -- What is done with a line that `read_line` gives, or with its error.
  abbrev pub with_line : {A : Type 0} → Bool → Bytes → (Bytes → Result A) → Result A
  with_line ends l use_line =
      if (ends || any (λ b. b == 10) l) && http_text.is_utf8 l
      then use_line (http_text.trim_end_of l)
      else err (Error.io "read_line")

  -- The loop over the headers, with the lines left behind it.
  unfoldable pub read_headers : Bool → Fields → List Bytes → Result (Fields × List Bytes)
  unfolding map_insert
  read_headers ends headers [] = if ends then ok (headers, []) else err (Error.io "read_line")
  read_headers ends headers (l ∷ ls) = with_line ends l (λ h.
      let next = read_headers ends (add_header (split_once b':' h) headers) ls in
      if is_blank h then ok (headers, ls) else next)

  -- Behind the first line.
  abbrev pub read_after : Bool → List Bytes → List Bytes → Result (Option HttpRequest)
  read_after ends lines ws =
      with_query (target_of ws) (split_once b'?' (target_of ws)) >>= λ target.
      read_headers ends [] lines >>= λ head.
      read_body (content_length head.0) (concat head.1) >>= λ body. ok (
        some (record {
          method = method_of ws;
          path = target.0;
          query = target.1;
          headers = head.0;
          body = body;
        }))

  -- `read_request`
  abbrev read_lines : Bool → List Bytes → Result (Option HttpRequest)
  read_lines ends [] = if ends then ok none else err (Error.io "read_line")
  read_lines ends (l ∷ ls) = with_line ends l (λ h. read_after ends ls (http_text.words h))

  unfoldable pub read_request : Bool → Bytes → Result (Option HttpRequest)
  unfolding read_headers parse_query
  read_request ends incoming = read_lines ends (lines_of incoming)
