-- ===== src/Server/Doh/Methods.antt =====
-- The two methods of RFC 8484, as clients of src/server/doh.rs use them.
use dnsd_rs.Base.{
  All, Bool, Bytes, List, Option, [], arith, codes, length, none, ok, refl, some, true, false, ℕ,
  ◌++◌, ◌<◌, ◌==◌, ◌>>=◌, ◌^◌, ◌∷◌, ◌≡◌, IsByte,
}
use dnsd_rs.Base.Fields.{split_on, split_once-append}
use dnsd_rs.Base.Maps.{map_get, map_insert}
use dnsd_rs.Proto.Text.{IsAscii, Text}
use dnsd_rs.Proto.Types.{IpAddr}
use dnsd_rs.Server.Doh.{dns_bytes, dns_response, handle_doh}
use dnsd_rs.Server.Http.{Fields, HttpText, content_length, parse_query, percent_decode, query_pairs}
use dnsd_rs.Server.Http.Headers.{IsHeader, IsVisible, set_headers}
use dnsd_rs.Server.Http.Percent.{is_unreserved, percent_decode-percent_encode, percent_encode}
use dnsd_rs.Server.Http.Requests.{Written, read_request-request_bytes, request_bytes}
use dnsd_rs.Server.Service.{DnsService}

-- Text of the alphabet of base64url.
abbrev IsUrlSafe : Bytes → Type 0
IsUrlSafe = All (λ c. is_unreserved c ≡ true)

UrlSafe-IsAscii : (s : Bytes) → IsUrlSafe s → IsAscii s
UrlSafe-IsAscii [] h = tt
UrlSafe-IsAscii (c ∷ s) h = (ground (arith, h.0), UrlSafe-IsAscii s h.1)

UrlSafe-IsByte : (s : Bytes) → IsUrlSafe s → All IsByte s
UrlSafe-IsByte [] h = tt
UrlSafe-IsByte (c ∷ s) h = (ground (arith, h.0), UrlSafe-IsByte s h.1)

UrlSafe-IsVisible : (s : Bytes) → IsUrlSafe s → All IsVisible s
UrlSafe-IsVisible [] h = tt
UrlSafe-IsVisible (c ∷ s) h = ((ground (arith, h.0), ground (arith, h.0)), UrlSafe-IsVisible s h.1)

percent_encode-safe : (s : Bytes) → IsUrlSafe s → percent_encode s ≡ s
unfolding percent_encode
percent_encode-safe [] h = refl
percent_encode-safe (c ∷ s) h = rw (h.0, percent_encode-safe s h.1) refl

split_on-safe : (s : Bytes) → IsUrlSafe s → split_on b'&' s ≡ s ∷ []
unfolding split_on
split_on-safe [] h = refl
split_on-safe (c ∷ s) h =
    let e : (c == b'&') ≡ false = ground (arith, h.0) in rw (e, split_on-safe s h.1) refl

-- The text behind the question mark.
abbrev dns_query : Bytes → Bytes
dns_query s = codes "dns=" ++ s

abbrev dns_fields : Bytes → Fields
dns_fields s = (codes "dns", s) ∷ []

module _ ⦃text : Text⦄ where
  parse_query-dns : (s : Bytes) → IsUrlSafe s → parse_query (dns_query s) ≡ ok (dns_fields s)
  unfolding parse_query query_pairs map_insert
  parse_query-dns s h =
      let parts : split_on b'&' (dns_query s) ≡ dns_query s ∷ [] =
        unfold split_on in rw (split_on-safe s h) refl in
      let decoded : percent_decode s ≡ ok s =
        rw (percent_encode-safe s h) at
          ((percent_decode-percent_encode s (UrlSafe-IsByte s h)).1 (UrlSafe-IsAscii s h)) in
      rw (parts, split_once-append b'=' (codes "dns") s (refl, (refl, (refl, tt))), decoded) refl

-- A GET for a text, and a POST of some bytes.
abbrev pub get_request : Bytes → List (Bytes × Bytes) → Bytes → Written
get_request path headers s = record {
  method = codes "GET";
  path = path;
  query = some (dns_query s);
  headers = headers;
  body = [];
}

abbrev pub post_request : Bytes → List (Bytes × Bytes) → Bytes → Written
post_request path headers msg = record {
  method = codes "POST";
  path = path;
  query = none;
  headers = headers;
  body = msg;
}

-- A path and headers in form.
pub record IsTarget ⦃text : Text⦄ (path : Bytes) (headers : List (Bytes × Bytes)) (n : ℕ)
    : Type 0 where
  pub visible : All IsVisible path
  pub starts : (rest : Bytes) × (path ≡ b'/' ∷ rest)
  pub no_mark : All (λ c. (c == b'?') ≡ false) path
  pub in_form : All IsHeader headers
  pub sized : content_length (set_headers headers []) ≡ n

module _ ⦃text : Text⦄ (http_text : HttpText) (base64url : Bytes → Option Bytes)
    (service : DnsService) (peer : IpAddr) (ends : Bool) (path : Bytes) (st : service.State) where
  -- A GET whose parameter is the base64url text of a message, and a POST of the message, are served
  -- alike: with the answer of the service to the message, in a response of status 200, whatever follows
  -- on the connection. The path, the headers and the length of the message are in form.
  pub handle_doh-methods :
      (get_headers post_headers : List (Bytes × Bytes)) (s msg rest : Bytes)
      → IsTarget path get_headers 0
      → IsTarget path post_headers (length msg)
      → IsUrlSafe s
      → base64url s ≡ some msg
      → length msg < 2 ^ 63
      → (handle_doh http_text base64url service peer ends
            (request_bytes (post_request path post_headers msg) ++ rest)
            st
          ≡ (service.answer msg peer (codes "doh") st >>= λ r. ok (dns_response r.0, r.1)))
        × (handle_doh http_text base64url service peer ends
              (request_bytes (get_request path get_headers s) ++ rest)
              st
            ≡ (service.answer msg peer (codes "doh") st >>= λ r. ok (dns_response r.0, r.1)))
  unfolding handle_doh dns_bytes map_get
  handle_doh-methods get_headers post_headers s msg rest g p safe e small = (
    rw
        (read_request-request_bytes http_text ends (post_request path post_headers msg) [] rest
          (record {
            method = omega arith;
            some_method = refl;
            path = p.visible;
            some_path = rw p.starts.1 refl;
            no_mark = p.no_mark;
            query = tt;
            headers = p.in_form;
          })
          refl p.sized small)
        refl,
    rw
        (read_request-request_bytes http_text ends (get_request path get_headers s) (dns_fields s)
          rest
          (record {
            method = omega arith;
            some_method = refl;
            path = g.visible;
            some_path = rw g.starts.1 refl;
            no_mark = g.no_mark;
            query = (
              omega arith,
              (omega arith, (omega arith, (omega arith, UrlSafe-IsVisible s safe))),
            );
            headers = g.in_form;
          })
          (parse_query-dns s safe) g.sized (omega arith))
        (rw e refl),
  )
