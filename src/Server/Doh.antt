-- ===== src/Server/Doh.antt =====
-- src/server/doh.rs: DNS over HTTPS. The decoder of base64url is a parameter, of a crate. The accepting
-- thread and errors of writing, which the code ignores, are not modelled.
pub mod Methods
use dnsd_rs.Base.{
  Bool, Bytes, Option, Result, [], bytes_eq, codes, err, if◌then◌else◌, none, ok, panic, some, ℕ,
  ◌>>=◌, ◌∷◌,
}
use dnsd_rs.Base.Maps.{map_get}
use dnsd_rs.Proto.Text.{Text}
use dnsd_rs.Proto.Types.{IpAddr}
use dnsd_rs.Server.Http.{Fields, HttpRequest, HttpText, read_request, response_bytes}
use dnsd_rs.Server.Service.{DnsService}

module _ (base64url : Bytes → Option Bytes) where
  -- The query in wire form, from the parameter `dns` of a GET or from the body of a POST.
  abbrev pub decoded : Option Bytes → Option Bytes
  decoded none = none
  decoded (some s) = base64url s

  unfoldable pub dns_bytes : HttpRequest → Option Bytes
  dns_bytes req =
      if bytes_eq req.method (codes "GET")
      then decoded (map_get (codes "dns") req.query)
      else if bytes_eq req.method (codes "POST")
      then some req.body
      else none

-- The two responses.
abbrev pub dns_response : Bytes → Bytes
dns_response resp =
    response_bytes 200 (codes "OK") (codes "application/dns-message") resp
      ((codes "Cache-Control", codes "max-age=0") ∷ [])

abbrev bad_response : Bytes
bad_response =
    response_bytes 400 (codes "Bad Request") (codes "text/plain") (codes "bad request") []

module _ ⦃text : Text⦄ (http_text : HttpText) (base64url : Bytes → Option Bytes)
    (service : DnsService) where
  -- What is written to the connection, and the state behind it.
  abbrev pub Written : Type 0
  Written = Result (Bytes × service.State)

  abbrev respond_to : IpAddr → service.State → Option Bytes → Written
  respond_to peer st none = ok (bad_response, st)
  respond_to peer st (some msg) =
      service.answer msg peer (codes "doh") st >>= λ r. ok (dns_response r.0, r.1)

  abbrev with_request : IpAddr → service.State → Result (Option HttpRequest) → Written
  with_request peer st (ok (some req)) = respond_to peer st (dns_bytes base64url req)
  with_request peer st (ok none) = ok ([], st)
  with_request peer st (err e) = ok ([], st)
  with_request peer st panic = panic

  -- `handle_doh`
  unfoldable pub handle_doh : IpAddr → Bool → Bytes → service.State → Written
  unfolding dns_bytes response_bytes
  handle_doh peer ends incoming st = with_request peer st (read_request http_text ends incoming)
