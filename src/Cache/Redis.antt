-- ===== src/Cache/Redis.antt =====
-- src/cache/redis.rs: the client of the third tier. The connection is a parameter, as are the number
-- parser of the standard library, its test of UTF-8 and its trimming. Of errors that the server or the
-- library words, the text is left out; so is `ping`, which nothing calls. Arithmetic on usize wraps, as
-- the release profile has it. A panic is the outcome of the call it is met in; that the lock of the
-- connection is poisoned from then on, so that every later call panics too, is left out.
pub mod Replies
use dnsd_rs.Base.{
  All, Bool, Bytes, Error, List, Option, Result, [], any, bytes_eq, decimal_fuel, err, false,
  if◌then◌else◌, leb, length, ltb, none, not, ok, panic, some, take, true, zero, ℕ, ◌%◌, ◌++◌, ◌+◌,
  ◌-◌, ◌&&◌, ◌<◌, ◌==◌, ◌>>=◌, ◌^◌, ◌∷◌, ◌≡◌,
}
use dnsd_rs.Cache.L1.{len}
use dnsd_rs.Cache.Tiered.{RedisOps}

-- A connection to the server. `open_conn` opens a new one and keeps the old where that fails; `incoming`
-- is what can be read before the connection or the time ends, of which `take_in` reads some bytes;
-- `is_closed` tells whether the end of input stands behind it, or an error such as the time-out.
pub record RedisPeer : Type 1 where
  pub World : Type 0
  pub open_conn : World → Bool × World
  pub send : Bytes → World → Bool × World
  pub incoming : World → Bytes
  pub is_closed : World → Bool
  pub take_in : ℕ → World → World

-- An i64.
pub data Signed : Type 0 where
  plus : ℕ → Signed
  minus_one_less : ℕ → Signed

-- What is taken from the standard library, with what it documents for visible ASCII characters and for
-- the digits of a number that fits.
pub record RedisText : Type 0 where
  pub is_utf8 : Bytes → Bool
  pub trim_end : Bytes → Bytes
  pub parse_i64 : Bytes → Option Signed
  pub is_utf8_ascii : (s : Bytes) → All (λ c. c < 128) s → is_utf8 s ≡ true
  pub trim_end_crlf :
      (s : Bytes) → All (λ c. (32 < c) × (c < 127)) s → trim_end (s ++ (13 ∷ 10 ∷ [])) ≡ s
  pub parse_i64_digits : (n : ℕ) → n < 2 ^ 63 → parse_i64 (decimal_fuel 20 n) ≡ some (plus n)

pub data Resp : Type 0 where
  simple : Bytes → Resp
  error_text : Bytes → Resp
  integer : Signed → Resp
  bulk : Option Bytes → Resp

-- `len as usize + 2`
abbrev buffer_len : Signed → ℕ
buffer_len (plus n) = (n + 2) % 2 ^ 64
buffer_len (minus_one_less n) = (2 ^ 64 - (n + 1) + 2) % 2 ^ 64

abbrev usize_of : Signed → ℕ
usize_of (plus n) = n
usize_of (minus_one_less n) = 2 ^ 64 - (n + 1)

abbrev is_minus_one : Signed → Bool
is_minus_one (minus_one_less zero) = true
is_minus_one _ = false

-- `read_line`: the bytes up to the first newline, with it, or all of them.
unfoldable pub line_of : Bytes → Bytes
line_of [] = []
line_of (b ∷ bs) = let rest = line_of bs in if b == 10 then b ∷ [] else b ∷ rest

abbrev pub crlf : Bytes
crlf = 13 ∷ 10 ∷ []

-- The arguments of a request, each with its length.
unfoldable encode_args : List Bytes → Bytes
encode_args [] = []
encode_args (a ∷ args) =
    b'$' ∷ (decimal_fuel 20 (length a) ++ (crlf ++ (a ++ (crlf ++ encode_args args))))

unfoldable encode_request : List Bytes → Bytes
unfolding encode_args
encode_request args = b'*' ∷ (decimal_fuel 20 (length args) ++ (crlf ++ encode_args args))

module _ (peer : RedisPeer) (redis_text : RedisText) where
  -- What reading a reply gives, and the connection behind it.
  abbrev pub Read : Type 0
  Read = Result Resp × peer.World

  -- The body of a bulk reply behind its length; a buffer of more than half of the memory is a panic.
  abbrev pub read_bulk : Signed → peer.World → Read
  read_bulk len w =
      let want = buffer_len len in
      let got = peer.incoming w in
      if is_minus_one len
      then (ok (bulk none), w)
      else if leb (2 ^ 63) want
      then (panic, w)
      else if ltb (length got) want
      then (err (Error.redis "failed to fill whole buffer"), w)
      else (ok (bulk (some (take (usize_of len) (take want got)))), peer.take_in want w)

  abbrev pub with_len : peer.World → Option Signed → Read
  with_len w none = (err (Error.redis "invalid digit"), w)
  with_len w (some len) = read_bulk len w

  abbrev with_integer : peer.World → Option Signed → Read
  with_integer w none = (err (Error.redis "invalid digit"), w)
  with_integer w (some n) = (ok (integer n), w)

  -- The match on the prefix of a trimmed line; `split_at(1)` is a panic on an empty line, and within a
  -- character of more than one byte.
  abbrev pub with_line : peer.World → Bytes → Read
  with_line w [] = (panic, w)
  with_line w (c ∷ rest) =
      if leb 128 c
      then (panic, w)
      else if c == b'+'
      then (ok (simple rest), w)
      else if c == b'-'
      then (ok (error_text rest), w)
      else if c == b':'
      then with_integer w (redis_text.parse_i64 rest)
      else if c == b'$'
      then with_len w (redis_text.parse_i64 rest)
      else if c == b'*'
      then (ok (error_text []), w)
      else (err (Error.redis "bad RESP prefix"), w)

  -- `read_line` fails where neither a newline nor the end of input stands behind the bytes it has read.
  abbrev pub line_fails : Bytes → peer.World → Bool
  line_fails line w = not (any (λ c. c == 10) line) && not (peer.is_closed w)

  -- `read_resp`
  unfoldable pub read_resp : peer.World → Read
  unfolding line_of
  read_resp w =
      let line = line_of (peer.incoming w) in
      let w1 = peer.take_in (length line) w in
      if not (redis_text.is_utf8 line)
      then (err (Error.redis "invalid utf-8"), w1)
      else if line_fails line w
      then (err (Error.redis "resource temporarily unavailable"), w1)
      else if length line == 0
      then (err (Error.redis "empty response"), w1)
      else with_line w1 (redis_text.trim_end line)

  -- `cmd_inner`, on an open connection.
  abbrev with_sent : Bool × peer.World → Read
  with_sent (true, w) = read_resp w
  with_sent (false, w) = (err (Error.redis "broken pipe"), w)

  unfoldable cmd_inner : List Bytes → peer.World → Read
  unfolding read_resp encode_request
  cmd_inner args w = with_sent (peer.send (encode_request args) w)

  -- `cmd`: after an error it connects anew and asks once more.
  abbrev or_again : (peer.World → Read) → Read → Read
  or_again again (ok r, w) = (ok r, w)
  or_again again (err e, w) = again (peer.open_conn w).1
  or_again again (panic, w) = (panic, w)

  unfoldable cmd : List Bytes → peer.World → Read
  unfolding cmd_inner
  cmd args w = or_again (cmd_inner args) (cmd_inner args w)

  -- `Redis::get`
  abbrev value_of_reply : Resp → Result (Option Bytes)
  value_of_reply (bulk b) = ok b
  value_of_reply _ = err (Error.redis "unexpected GET reply")

  unfoldable redis_get : Bytes → peer.World → Result (Option Bytes) × peer.World
  unfolding cmd
  redis_get key w =
      let out = cmd ((b'G' ∷ b'E' ∷ b'T' ∷ []) ∷ key ∷ []) w in
      (out.0 >>= (λ r. value_of_reply r), out.1)

  -- `Redis::set`
  abbrev set_done : Resp → Result (Unit {0})
  set_done (simple s) =
      if bytes_eq s (b'O' ∷ b'K' ∷ []) then ok tt else err (Error.redis "unexpected SET reply")
  set_done _ = err (Error.redis "unexpected SET reply")

  unfoldable redis_set : Bytes → Bytes → ℕ → peer.World → Result (Unit {0}) × peer.World
  unfolding cmd
  redis_set key val ttl w =
      let out =
        cmd ((b'S' ∷ b'E' ∷ b'T' ∷ []) ∷ key ∷ val ∷ (b'E' ∷ b'X' ∷ []) ∷ decimal_fuel 20 ttl ∷ [])
          w in
      (out.0 >>= (λ r. set_done r), out.1)

  -- `Redis::del`
  unfoldable redis_del : Bytes → peer.World → Result (Unit {0}) × peer.World
  unfolding cmd
  redis_del key w =
      let out = cmd ((b'D' ∷ b'E' ∷ b'L' ∷ []) ∷ key ∷ []) w in (out.0 >>= (λ r. ok tt), out.1)

  -- The interface of the tiers, filled by this client.
  unfoldable redis_client : RedisOps
  unfolding redis_get redis_set redis_del
  redis_client = record {
    Conn = peer.World;
    remote_get = redis_get;
    remote_set = λ key raw ttl w. (redis_set key raw ttl w).1;
    remote_del = λ key w. (redis_del key w).1;
  }
