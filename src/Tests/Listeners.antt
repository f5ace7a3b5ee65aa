-- ===== src/Tests/Listeners.antt =====
-- The listeners, with a service that gives every query back, and one that panics.
use dnsd_rs.Base.{
  All, Bytes, List, Option, [], arith, bytes_eq, codes, if◌then◌else◌, length, none, ok, panic,
  refl, some, suc, true, false, ◌==◌, ℕ, ◌++◌, ◌+◌, ◌<◌, ◌>>=◌, ◌^◌, ◌∷◌, ◌≡◌, ◌≤◌,
}
use dnsd_rs.Base.Fields.{parse_digits, parse_unsigned}
use dnsd_rs.Base.Maps.{map_get, map_insert}
use dnsd_rs.Proto.Text.{Text, ascii_text, trim_end}
use dnsd_rs.Proto.Types.{IpAddr}
use dnsd_rs.Resolve.Recurse.{SocketAddr}
use dnsd_rs.Server.Doh.{dns_response, handle_doh}
use dnsd_rs.Server.Doh.Methods.{get_request, handle_doh-methods, post_request}
use dnsd_rs.Server.Http.{HttpText, ascii_words, content_length, read_request}
use dnsd_rs.Server.Http.Headers.{IsHeader, set_headers}
use dnsd_rs.Server.Http.Requests.{
  IsWritten, Written, as_read, read_request-request_bytes, request_bytes,
}
use dnsd_rs.Server.Service.{DnsService}
use dnsd_rs.Server.Tcp.{frame, handle_conn, read_frame}
use dnsd_rs.Server.Tcp.Framing.{Sends, client_reads, frames, handle_conn-replies, replies}
use dnsd_rs.Server.Udp.{Listener, Reach, here, listen, next, reads, receive}
use dnsd_rs.Server.Udp.Workers.{IsCounted, Reach-IsCounted, crashes-silence}

instance text : Text
text = ascii_text

abbrev echo : DnsService
echo = record { State = ℕ; answer = λ s peer via n. ok (s, n + 1) }

abbrev fragile : DnsService
fragile = record { State = ℕ; answer = λ s peer via n. panic }

abbrev peer_v4 : IpAddr
peer_v4 = IpAddr.v4 (record { o0 = 10; o1 = 0; o2 = 0; o3 = 9 })

abbrev peer_addr : SocketAddr
peer_addr = record { ip = peer_v4; port = 40000 }

abbrev two_messages : List Bytes
two_messages = (1 ∷ 2 ∷ 3 ∷ []) ∷ (4 ∷ []) ∷ []

one_byte-short : read_frame (0 ∷ []) ≡ none
unfolding read_frame
one_byte-short = refl

two_replies-fit : length (frames (replies echo peer_v4 two_messages 0).0) ≤ 100
unfolding replies frame
two_replies-fit = omega arith

handle_conn-replies_example :
    Sends echo peer_v4
      (handle_conn echo peer_v4 (frames two_messages ++ (0 ∷ [])) 100 0)
      (replies echo peer_v4 two_messages 0)
    × (All (λ m. length m < 2 ^ 16) (replies echo peer_v4 two_messages 0).0
        → client_reads
            (suc (length (handle_conn echo peer_v4 (frames two_messages ++ (0 ∷ [])) 100 0).0))
            (handle_conn echo peer_v4 (frames two_messages ++ (0 ∷ [])) 100 0).0
          ≡ ((replies echo peer_v4 two_messages 0).0, []))
handle_conn-replies_example =
    handle_conn-replies echo peer_v4 two_messages (0 ∷ []) 100 0 (omega arith) one_byte-short
      two_replies-fit

abbrev ascii_http : HttpText
ascii_http = record {
  is_utf8 = λ s. true;
  trim_end_of = trim_end;
  words = ascii_words;
  is_utf8_ascii = λ s h. refl;
  trim_end_ascii = λ s h. refl;
  words_ascii = λ s h. refl;
}

abbrev dns_path : Bytes
dns_path = codes "/dns-query"

abbrev length_two : List (Bytes × Bytes)
length_two = (codes "Content-Length", codes "2") ∷ []

length_two-IsHeader : All IsHeader length_two
length_two-IsHeader = (
  record {
    name = omega arith;
    no_colon = (
      refl,
      (
        refl,
        (
          refl,
          (
            refl,
            (refl, (refl, (refl, (refl, (refl, (refl, (refl, (refl, (refl, (refl, tt)))))))))),
          ),
        ),
      ),
    );
    value = omega arith;
    start_tight = refl;
    end_tight = refl;
    some_value = refl;
  },
  tt,
)

length_two-read : content_length (set_headers length_two []) ≡ 2
unfolding map_get map_insert parse_unsigned parse_digits text
length_two-read = refl

none-read : content_length (set_headers [] []) ≡ 0
unfolding map_get
none-read = refl

dns_path-plain : All (λ c. (c == b'?') ≡ false) dns_path
dns_path-plain = (refl, (refl, (refl, (refl, (refl, (refl, (refl, (refl, (refl, (refl, tt))))))))))

abbrev posted : Written
posted = post_request dns_path length_two (1 ∷ 2 ∷ [])

posted-IsWritten : IsWritten posted
posted-IsWritten = record {
  method = omega arith;
  some_method = refl;
  path = omega arith;
  some_path = refl;
  no_mark = dns_path-plain;
  query = tt;
  headers = length_two-IsHeader;
}

read_request-request_bytes_example :
    read_request ascii_http true (request_bytes posted ++ (7 ∷ [])) ≡ ok (some (as_read posted []))
read_request-request_bytes_example =
    read_request-request_bytes ascii_http true posted [] (7 ∷ []) posted-IsWritten refl
      length_two-read (omega arith)

abbrev one_word64 : Bytes → Option Bytes
one_word64 s = if bytes_eq s (codes "AQI") then some (1 ∷ 2 ∷ []) else none

handle_doh-methods_example :
    (handle_doh ascii_http one_word64 echo peer_v4 true
        (request_bytes (post_request dns_path length_two (1 ∷ 2 ∷ [])) ++ [])
        5
      ≡ (echo.answer (1 ∷ 2 ∷ []) peer_v4 (codes "doh") 5 >>= λ r. ok (dns_response r.0, r.1)))
    × (handle_doh ascii_http one_word64 echo peer_v4 true
          (request_bytes (get_request dns_path [] (codes "AQI")) ++ [])
          5
        ≡ (echo.answer (1 ∷ 2 ∷ []) peer_v4 (codes "doh") 5 >>= λ r. ok (dns_response r.0, r.1)))
handle_doh-methods_example =
    handle_doh-methods ascii_http one_word64 echo peer_v4 true dns_path 5 [] length_two
      (codes "AQI") (1 ∷ 2 ∷ []) []
      (record {
        visible = omega arith;
        starts = (codes "dns-query", refl);
        no_mark = dns_path-plain;
        in_form = tt;
        sized = none-read;
      })
      (record {
        visible = omega arith;
        starts = (codes "dns-query", refl);
        no_mark = dns_path-plain;
        in_form = length_two-IsHeader;
        sized = length_two-read;
      })
      (refl, (refl, (refl, tt))) refl (omega arith)

Reach-IsCounted_example : IsCounted echo 2 (receive echo (1 ∷ 2 ∷ [], peer_addr) (listen echo 2 0))
Reach-IsCounted_example =
    Reach-IsCounted echo 2 0 (next here (reads (listen echo 2 0) (1 ∷ 2 ∷ [], peer_addr) refl))

crashes-silence_example :
    (l : Listener fragile) × Reach fragile (listen fragile 8 0) l
    × ((m : Listener fragile) → Reach fragile l m → m.sent ≡ [])
crashes-silence_example = crashes-silence fragile (1 ∷ 2 ∷ []) peer_addr 0 refl 8
