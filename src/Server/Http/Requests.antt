-- ===== src/Server/Http/Requests.antt =====
-- Whole requests as a client of src/server/http.rs writes them.
use dnsd_rs.Base.{
  All, All-append, Bool, Bytes, List, Option, Result, [], ap, append_assoc, arith, codes, false,
  length, length-append, leb, ltb-eq-false, map, none, ok, refl, some, take-length, ◌++◌, ◌<◌, ◌==◌,
  ◌^◌, ◌∙◌, ◌∷◌, ◌≡◌,
}
use dnsd_rs.Base.Fields.{
  concat, concat-lines_of, lines_of, lines_of-append, split_once, split_once-append,
  split_once-none,
}
use dnsd_rs.Proto.Text.{IsAscii, Text, is_space, trim_end}
use dnsd_rs.Server.Http.{
  Fields, HttpRequest, HttpText, ascii_words, content_length, header_line, is_blank, parse_query,
  read_after, read_body, read_request, with_query,
}
use dnsd_rs.Server.Http.Headers.{
  IsHeader, IsVisible, Visible-IsAscii, Visible-NoNewline, cr, read_headers-lines, set_headers,
  trim_end-kept, with_line-kept,
}

-- A request as it is written: the text behind the question mark, where there is one.
pub record Written : Type 0 where
  pub method : Bytes
  pub path : Bytes
  pub query : Option Bytes
  pub headers : List (Bytes × Bytes)
  pub body : Bytes

abbrev target_text : Bytes → Option Bytes → Bytes
target_text path none = path
target_text path (some q) = path ++ (b'?' ∷ q)

abbrev version_text : Bytes
version_text = codes "HTTP/1.1"

unfoldable request_line : Written → Bytes
request_line w = w.method ++ (32 ∷ (target_text w.path w.query ++ (32 ∷ version_text)))

unfoldable pub request_bytes : Written → Bytes
unfolding request_line
request_bytes w =
    request_line w ++ (13 ∷ 10 ∷ (concat (map header_line w.headers) ++ (13 ∷ 10 ∷ w.body)))

abbrev IsQuery : Option Bytes → Type 0
IsQuery none = Unit
IsQuery (some q) = All IsVisible q

-- Visible words, a path without a question mark, and headers in form.
pub record IsWritten (w : Written) : Type 0 where
  pub method : All IsVisible w.method
  pub some_method : is_blank w.method ≡ false
  pub path : All IsVisible w.path
  pub some_path : is_blank w.path ≡ false
  pub no_mark : All (λ c. (c == b'?') ≡ false) w.path
  pub query : IsQuery w.query
  pub headers : All IsHeader w.headers

target-IsVisible : (w : Written) → IsWritten w → All IsVisible (target_text w.path w.query)
target-IsVisible w h = go w.query h.query
  where
    go : (q : Option Bytes) → IsQuery q → All IsVisible (target_text w.path q)
    go none v = h.path
    go (some q) v = All-append _ w.path (b'?' ∷ q) h.path ((omega arith, omega arith), v)

target-some :
    (p : Bytes) (q : Option Bytes) → is_blank p ≡ false → is_blank (target_text p q) ≡ false
target-some [] q h = cc
target-some (c ∷ p) none h = refl
target-some (c ∷ p) (some q) h = refl

-- A word up to the next space.
ascii_words-cons :
    (w s : Bytes)
    → All IsVisible w
    → is_blank w ≡ false
    → ascii_words (w ++ (32 ∷ s)) ≡ w ∷ ascii_words s
unfolding ascii_words
ascii_words-cons [] s h n = cc
ascii_words-cons (c ∷ []) s h n = let e : is_space c ≡ false = ground (arith, h.0) in rw e refl
ascii_words-cons (c ∷ d ∷ w) s h n =
    let e : is_space c ≡ false = ground (arith, h.0) in
    let e' : is_space d ≡ false = ground (arith, h.1.0) in
    rw (ascii_words-cons (d ∷ w) s h.1 refl, e, e') refl

request_line-words :
    (w : Written)
    → IsWritten w
    → ascii_words (request_line w) ≡ w.method ∷ target_text w.path w.query ∷ version_text ∷ []
unfolding request_line
request_line-words w h =
    rw
      (
        ascii_words-cons w.method (target_text w.path w.query ++ (32 ∷ version_text)) h.method
            h.some_method,
        ascii_words-cons (target_text w.path w.query) version_text (target-IsVisible w h)
            (target-some w.path w.query h.some_path),
      )
      (unfold ascii_words in refl)

version-IsVisible : All IsVisible version_text
version-IsVisible = omega arith

request_line-IsAscii : (w : Written) → IsWritten w → IsAscii (request_line w)
unfolding request_line
request_line-IsAscii w h = All-append _ w.method _ (Visible-IsAscii w.method h.method) (
  omega arith,
  All-append _ (target_text w.path w.query) _ (Visible-IsAscii _ (target-IsVisible w h))
      (omega arith),
)

request_line-NoNewline : (w : Written) → IsWritten w → All (λ c. (c == 10) ≡ false) (request_line w)
unfolding request_line
request_line-NoNewline w h = All-append _ w.method _ (Visible-NoNewline w.method h.method) (
  refl,
  All-append _ (target_text w.path w.query) _ (Visible-NoNewline _ (target-IsVisible w h))
      (refl, Visible-NoNewline version_text version-IsVisible),
)

request_line-tight : (w : Written) → trim_end (request_line w) ≡ request_line w
unfolding request_line
request_line-tight w =
    let t = target_text w.path w.query in
    let e : (w.method ++ (32 ∷ (t ++ (32 ∷ [])))) ++ version_text
        ≡ w.method ++ (32 ∷ (t ++ (32 ∷ version_text))) =
      append_assoc w.method (32 ∷ (t ++ (32 ∷ []))) version_text
      ∙ ap (λ s. w.method ++ (32 ∷ s)) (append_assoc t (32 ∷ []) version_text) in
    rw e at (trim_end-kept (w.method ++ (32 ∷ (t ++ (32 ∷ [])))) version_text refl refl)

module _ ⦃text : Text⦄ where
  -- What the text behind the question mark gives.
  abbrev QueryGives : Option Bytes → Fields → Type 0
  QueryGives none fields = fields ≡ []
  QueryGives (some q) fields = parse_query q ≡ ok fields

  with_query-target :
      (p : Bytes) (q : Option Bytes) (fields : Fields)
      → All (λ c. (c == b'?') ≡ false) p
      → QueryGives q fields
      → with_query (target_text p q) (split_once b'?' (target_text p q)) ≡ ok (p, fields)
  with_query-target p none fields h g = rw (split_once-none b'?' p h, g) refl
  with_query-target p (some q) fields h g = rw (split_once-append b'?' p q h, g) refl

  -- What is read of a request.
  abbrev pub as_read : Written → Fields → HttpRequest
  as_read w fields = record {
    method = w.method;
    path = w.path;
    query = fields;
    headers = set_headers w.headers [];
    body = w.body;
  }

module _ ⦃text : Text⦄ (http_text : HttpText) where
  read_body-append :
      (body rest : Bytes) → length body < 2 ^ 63 → read_body (length body) (body ++ rest) ≡ ok body
  read_body-append body rest h =
      let small : leb (2 ^ 63) (length body) ≡ false = ground (arith, h) in
      rw
        (
          small,
          ltb-eq-false (length (body ++ rest)) (length body)
              (omega (arith, length-append body rest)),
          take-length body rest,
        )
        refl

  -- A request as a client writes it is read: its method, its path, what its query decodes to, its headers
  -- under their names in lower case, of two of one name the later, and its body, whatever follows. Its
  -- content-length is the length of the body, none for an empty one, and fits the memory.
  pub read_request-request_bytes :
      (ends : Bool) (w : Written) (fields : Fields) (rest : Bytes)
      → IsWritten w
      → QueryGives w.query fields
      → content_length (set_headers w.headers []) ≡ length w.body
      → length w.body < 2 ^ 63
      → read_request http_text ends (request_bytes w ++ rest) ≡ ok (some (as_read w fields))
  unfolding read_request request_bytes
  read_request-request_bytes ends w fields rest h q sized small =
      let head = concat (map header_line w.headers) in
      let behind : Bytes = head ++ (13 ∷ 10 ∷ (w.body ++ rest)) in
      let e : request_bytes w ++ rest ≡ (request_line w ++ cr) ++ (10 ∷ behind) =
        simp append_assoc in
      let plain : All (λ c. (c == 10) ≡ false) (request_line w ++ cr) =
        All-append _ (request_line w) cr (request_line-NoNewline w h) (refl, tt) in
      let use_line : Bytes → Result (Option HttpRequest) =
        λ l. read_after http_text ends (lines_of behind) (http_text.words l) in
      rw (e, lines_of-append (request_line w ++ cr) behind plain)
        (with_line-kept http_text ends (request_line w) use_line (request_line-IsAscii w h)
            (request_line-tight w)
          ∙ rw
              (
                http_text.words_ascii (request_line w) (request_line-IsAscii w h),
                request_line-words w h,
                with_query-target w.path w.query fields h.no_mark q,
                read_headers-lines http_text ends w.headers [] (w.body ++ rest) h.headers,
                sized,
                concat-lines_of (w.body ++ rest),
                read_body-append w.body rest small,
              )
              refl)
