-- ===== src/Resolve/Replies.antt =====
-- The replies that src/resolve/mod.rs makes itself, and the time for which an answer is cached. What
-- `meta` is told of the reply is the second part of a result.
pub mod Laws
use dnsd_rs.Base.{
  Bytes, List, Option, Result, [], err, if◌then◌else◌, min, none, ok, panic, some, true, ℕ, ◌%◌,
  ◌/◌, ◌==◌, ◌>>=◌, ◌^◌, ◌∷◌,
}
use dnsd_rs.Proto.Encode.{encode_message}
use dnsd_rs.Proto.Parse.{parse_message}
use dnsd_rs.Proto.Text.{Text}
use dnsd_rs.Proto.Types.{
  Message, Question, RData, Record, default_header, default_message, rcode_nxdomain, rcode_refused,
  rcode_servfail,
}

-- The part of `Config` that `msg_ttl` reads, in seconds.
pub record TtlConfig : Type 0 where
  pub cache_max_ttl : ℕ
  pub neg_cache_ttl : ℕ

-- `msg.encode().unwrap_or_default()`
abbrev pub or_empty : Result Bytes → Result Bytes
or_empty (ok s) = ok s
or_empty (err e) = ok []
or_empty panic = panic

-- The message of `badvers`.
abbrev pub badvers_reply : Message → Message
badvers_reply req = record default_message {
  header = record default_header { id = req.header.id; qr = true; rcode = 16 };
  questions = req.questions;
}

-- The message of `encode_rcode`.
abbrev pub rcode_reply : Message → ℕ → Message
rcode_reply req rcode = record default_message {
  header = record default_header {
    id = req.header.id;
    qr = true;
    rd = req.header.rd;
    ra = true;
    rcode = rcode;
  };
  questions = req.questions;
}

-- The message of `refuse`, for a request that was parsed.
abbrev pub refuse_reply : Message → Message
refuse_reply m = record default_message {
  header = record default_header { id = m.header.id; qr = true; rcode = rcode_refused };
  questions = m.questions;
}

-- The message of the failed branch of `process`.
abbrev pub servfail_reply : Message → Question → Message
servfail_reply req q = record default_message {
  header = record default_header {
    id = req.header.id;
    qr = true;
    rd = true;
    ra = true;
    rcode = rcode_servfail;
  };
  questions = q ∷ [];
}

-- What `refuse` writes to `meta.rcode`.
pub data Verdict : Type 0 where
  refused : Verdict
  formerr : Verdict

abbrev pub with_verdict : Verdict → Result Bytes → Result (Bytes × Verdict)
with_verdict v r = r >>= λ s. ok (s, v)

module _ ⦃text : Text⦄ where
  -- `badvers`
  unfoldable pub badvers : Message → Result Bytes
  badvers req = or_empty (encode_message (badvers_reply req))

  -- `encode_rcode`
  unfoldable pub encode_rcode : Message → ℕ → Result Bytes
  encode_rcode req rcode = or_empty (encode_message (rcode_reply req rcode))

  -- `refuse`
  unfoldable pub refuse : Bytes → Result (Bytes × Verdict)
  refuse raw = elim (parse_message raw) [
    | ok m ↦ with_verdict refused (or_empty (encode_message (refuse_reply m)))
    | err e ↦ ok ([], formerr)
    | panic ↦ panic
  ]

-- `min()` of the times to live of the answers, from one of them on.
unfoldable pub min_ttl : ℕ → List Record → ℕ
min_ttl t [] = t
min_ttl t (r ∷ rs) = min_ttl (min t r.ttl) rs

-- The loop of `msg_ttl` over the authority section.
abbrev soa_minimum : RData → Option ℕ
soa_minimum (RData.soa s) = some s.minimum
soa_minimum _ = none

unfoldable pub first_minimum : List Record → Option ℕ
first_minimum [] = none
first_minimum (r ∷ rs) =
    let rest = first_minimum rs in elim (soa_minimum r.rdata) [ some t ↦ some t | none ↦ rest ]

-- `msg_ttl`; `cache_max_ttl.as_secs() as u32` wraps.
unfoldable pub msg_ttl : TtlConfig → Message → ℕ
unfolding min_ttl first_minimum
msg_ttl cfg m = elim m.answers [
  | r ∷ rs ↦ min (min_ttl r.ttl rs) (cfg.cache_max_ttl % 2 ^ 32)
  | [] ↦ elim (first_minimum m.authority) [
    | some t ↦ min t cfg.neg_cache_ttl
    | none ↦ if m.header.rcode == rcode_nxdomain then cfg.neg_cache_ttl else 0
  ]
]

-- `patch_id`
unfoldable pub patch_id : Bytes → ℕ → Bytes
patch_id (b0 ∷ b1 ∷ rest) id = (id / 256) ∷ (id % 256) ∷ rest
patch_id s id = s
