-- ===== src/Resolve/Geo.antt =====
-- src/resolve/qqwry.rs: the location libraries. Arithmetic on u32 wraps, as the release profile has
-- it. The GBK decoder is a parameter. The network type of this file is that of src/resolve/dualstack.rs
-- declared again, and stands for both.
pub mod Search
use dnsd_rs.Base.{
  Bytes, Error, List, Option, Result, [], drop, err, get_elem?, if◌then◌else◌, leb, length, ltb,
  map, none, ok, panic, some, starts_with, suc, true, zero, ℕ, ◌%◌, ◌&&◌, ◌*◌, ◌++◌, ◌+◌, ◌-◌, ◌/◌,
  ◌==◌, ◌>>=◌, ◌^◌, ◌||◌, ◌∷◌,
}
use dnsd_rs.Cache.L1.{len}
use dnsd_rs.Proto.Cursor.{index, le32}
use dnsd_rs.Proto.Ecs.{v4_number}
use dnsd_rs.Proto.Text.{Text}
use dnsd_rs.Proto.Types.{Ipv4Addr, Ipv6Addr}
use dnsd_rs.Resolve.Dualstack.{
  AddrText, Located, crashed, is_empty, lines, located, nowhere_found, parse_net, split,
}
use dnsd_rs.Resolve.Net.{Ipv6Net, contains}

pub record QQwry : Type 0 where
  pub content : Bytes
  pub first_idx : ℕ
  pub last_idx : ℕ

-- `u32::from_le_bytes([d[off], d[off + 1], d[off + 2], d[off + 3]])`
unfoldable index_le32 : Bytes → ℕ → Result ℕ
unfolding index
index_le32 d off = do
  b0 ← index d off
  b1 ← index d (off + 1)
  b2 ← index d (off + 2)
  b3 ← index d (off + 3)
  ok (le32 b0 b1 b2 b3)

-- `QQwry::load`, on the content of the file.
unfoldable load : Bytes → Result QQwry
unfolding index_le32
load d = if ltb (length d) 8 then err (Error.config "qqwry.dat too small") else (do
  first ← index_le32 d 0
  last ← index_le32 d 4
  ok (record { content = d; first_idx = first; last_idx = last }))

-- `read_u24`
unfoldable read_u24 : QQwry → ℕ → Result ℕ
unfolding index
read_u24 q off = do
  b0 ← index q.content off
  b1 ← index q.content (off + 1)
  b2 ← index q.content (off + 2)
  ok (le32 b0 b1 b2 0)

-- The bytes before the first zero.
unfoldable until_zero : Bytes → Bytes
until_zero [] = []
until_zero (b ∷ bs) = let rest = until_zero bs in if b == 0 then [] else b ∷ rest

module _ (gbk_decode : Bytes → Bytes) where
  -- `read_string`; a start behind the end of the file is a slice out of range.
  unfoldable read_string : QQwry → ℕ → Result Bytes
  unfolding until_zero
  read_string q off =
      if ltb (length q.content) off
      then panic
      else ok (gbk_decode (until_zero (drop off q.content)))

  -- `read_area`
  unfoldable read_area : QQwry → ℕ → Result Bytes
  unfolding read_string read_u24 index
  read_area q off = if leb (length q.content) off then ok [] else (do
    mode ← index q.content off
    at ← if mode == 1 || mode == 2 then read_u24 q (off + 1) else ok off
    read_string q at)

  -- The branch of `country_area` for a country that stands elsewhere, and that for one in place.
  abbrev country_elsewhere : QQwry → ℕ → Result (Bytes × Bytes)
  country_elsewhere q off = do
    at ← read_u24 q (off + 1)
    country ← read_string q at
    area ← read_area q (off + 4)
    ok (country, area)

  abbrev country_here : QQwry → ℕ → ℕ → Result (Bytes × Bytes)
  country_here q off len = do
    country ← read_string q (off + 1)
    area ← read_area q (off + 1 + len)
    ok (country, area)

  -- `country_area`; the depth is that of the stack, which a circle of redirects exhausts.
  unfoldable country_area : ℕ → QQwry → ℕ → Result (Bytes × Bytes)
  unfolding read_area read_string read_u24 index
  country_area zero q off = panic
  country_area (suc depth) q off =
      let redirected = (do at ← read_u24 q (off + 1); country_area depth q at) in
      if ltb (length q.content) (off + 4)
      then ok ([], [])
      else index q.content off >>= λ mode.
          if mode == 1
          then redirected
          else if mode == 2
          then country_elsewhere q off
          else country_here q off mode

-- `index_start_ip`
unfoldable pub index_start_ip : QQwry → ℕ → Result ℕ
unfolding index_le32
index_start_ip q idx =
    let off = (q.first_idx + idx * 7 % 2 ^ 32) % 2 ^ 32 in
    if ltb (length q.content) (off + 4) then ok (2 ^ 32 - 1) else index_le32 q.content off

-- `index_record_offset`
unfoldable index_record_offset : QQwry → ℕ → Result ℕ
unfolding read_u24
index_record_offset q idx =
    read_u24 q (((q.first_idx + idx % 2 ^ 32 * 7 % 2 ^ 32) % 2 ^ 32 + 4) % 2 ^ 32)

-- The loop of `lookup`; without fuel it has not ended.
unfoldable pub search : (ℕ → Result ℕ) → ℕ → ℕ → ℕ → ℕ → Option ℕ → Result (Option ℕ)
search start ip zero lo hi found = panic
search start ip (suc fuel) lo hi found =
    let mid = lo + (hi - lo) / 2 in
    let next = (do
      first ← start mid
      search start ip fuel (if leb first ip then (mid + 1) % 2 ^ 32 else lo)
          (if leb first ip then hi else (mid + 2 ^ 32 - 1) % 2 ^ 32)
          (if leb first ip then some mid else found)) in
    if leb lo hi then next else ok found

module _ (gbk_decode : Bytes → Bytes) where
  -- `QQwry::lookup`. The search halves a range of at most 2^32 indexes, for which 64 rounds are enough.
  unfoldable pub lookup_geo : ℕ → QQwry → Ipv4Addr → Result (Option (Bytes × Bytes))
  unfolding search index_start_ip index_record_offset country_area
  lookup_geo depth q ip =
      search (index_start_ip q) (v4_number ip) 64 q.first_idx q.last_idx none >>= λ found.
      elim found [
        | none ↦ ok none
        | some idx ↦ do
          off ← index_record_offset q idx
          pair ← country_area gbk_decode depth q off
          ok (some pair)
      ]

  -- The lookup as `derive_ecs` calls it. It has no error of its own.
  abbrev pub located_by : Result (Option (Bytes × Bytes)) → Located
  located_by (ok none) = nowhere_found
  located_by (ok (some pair)) = located pair
  located_by (err e) = crashed
  located_by panic = crashed

  unfoldable pub v4_library : ℕ → QQwry → Ipv4Addr → Located
  unfolding lookup_geo
  v4_library depth q ip = located_by (lookup_geo depth q ip)

-- `Ipv6Geo`: networks with the operator and the city.
record GeoEntry : Type 0 where
  pub net : Ipv6Net
  pub isp : Bytes
  pub city : Bytes

-- The loop of `Ipv6Geo::lookup`.
unfoldable geo_loop : Ipv6Addr → Option GeoEntry → List GeoEntry → Option GeoEntry
geo_loop ip best [] = best
geo_loop ip best (e ∷ es) =
    geo_loop ip
      (if contains e.net ip
          && elim best [ none ↦ true | some b ↦ ltb b.net.prefix_len e.net.prefix_len ]
        then some e
        else best)
      es

-- `Ipv6Geo::lookup`
unfoldable lookup_geo6 : List GeoEntry → Ipv6Addr → Option (Bytes × Bytes)
unfolding geo_loop
lookup_geo6 es ip = elim (geo_loop ip none es) [ none ↦ none | some e ↦ some (e.isp, e.city) ]

-- `parts.get(i).copied().unwrap_or("")`
abbrev pub part : List Bytes → ℕ → Bytes
part parts i = elim (get_elem? parts i) [ none ↦ [] | some p ↦ p ]

module _ ⦃text : Text⦄ ⦃addr_text : AddrText⦄ where
  -- One line of the file of `Ipv6Geo::load`.
  abbrev geo_line : Bytes → List GeoEntry → List GeoEntry
  geo_line l es =
      let line = text.trim l in
      let parts = map text.trim (split b',' line) in
      if is_empty line || starts_with line (b'#' ∷ []) || ltb (length parts) 2
      then es
      else elim (parse_net (part parts 0)) [
        | none ↦ es
        | some net ↦ es ++ (record { net = net; isp = part parts 4; city = part parts 3 } ∷ [])
      ]

  unfoldable geo_lines : List Bytes → List GeoEntry → List GeoEntry
  unfolding split parse_net
  geo_lines [] es = es
  geo_lines (l ∷ ls) es = geo_lines ls (geo_line l es)

  -- `Ipv6Geo::load`, on the text of the file.
  unfoldable load_geo6 : Bytes → List GeoEntry
  unfolding geo_lines lines
  load_geo6 s = geo_lines (lines s) []
