-- ===== src/Server/Http/Headers.antt =====
-- Lines and headers as a client of src/server/http.rs writes them.
use dnsd_rs.Base.{
  All, Bool, Bytes, Error, List, Result, [], any, append_assoc, arith, err, false, if◌then◌else◌,
  ok, refl, true, ◌++◌, ◌<◌, ◌==◌, ◌||◌, ◌∙◌, ◌∷◌, ◌≡◌, ℕ, ◌≤◌, ◌&&◌, map, All-append,
}
use dnsd_rs.Base.Fields.{concat, lines_of, lines_of-append, split_once, split_once-append}
use dnsd_rs.Base.Maps.{map_insert}
use dnsd_rs.Proto.Text.{IsAscii, Text, is_space, trim_end, trim_start}
use dnsd_rs.Server.Http.{
  Fields, HttpText, add_header, header_line, is_blank, read_headers, with_line,
}

-- A visible character; a printable one.
abbrev pub IsVisible : ℕ → Type 0
IsVisible c = (32 < c) × (c < 127)

abbrev IsPrintable : ℕ → Type 0
IsPrintable c = (32 ≤ c) × (c < 127)

-- A name is visible characters without a colon; a value is printable, and has no space at its ends.
pub record IsHeader (h : Bytes × Bytes) : Type 0 where
  pub name : All IsVisible h.0
  pub no_colon : All (λ c. (c == b':') ≡ false) h.0
  pub value : All IsPrintable h.1
  pub start_tight : trim_start h.1 ≡ h.1
  pub end_tight : trim_end h.1 ≡ h.1
  pub some_value : is_blank h.1 ≡ false

pub Visible-IsAscii : (s : Bytes) → All IsVisible s → IsAscii s
Visible-IsAscii [] h = tt
Visible-IsAscii (c ∷ s) h = (omega (arith, h.0), Visible-IsAscii s h.1)

Printable-IsAscii : (s : Bytes) → All IsPrintable s → IsAscii s
Printable-IsAscii [] h = tt
Printable-IsAscii (c ∷ s) h = (omega (arith, h.0), Printable-IsAscii s h.1)

abbrev NoNewline : Bytes → Type 0
NoNewline = All (λ c. (c == 10) ≡ false)

pub Visible-NoNewline : (s : Bytes) → All IsVisible s → NoNewline s
Visible-NoNewline [] h = tt
Visible-NoNewline (c ∷ s) h = (ground (arith, h.0), Visible-NoNewline s h.1)

Printable-NoNewline : (s : Bytes) → All IsPrintable s → NoNewline s
Printable-NoNewline [] h = tt
Printable-NoNewline (c ∷ s) h = (ground (arith, h.0), Printable-NoNewline s h.1)

-- Trimming takes spaces off the end, and leaves what ends in something else.
trim_end-spaces : (s t : Bytes) → All (λ c. is_space c ≡ true) t → trim_end (s ++ t) ≡ trim_end s
trim_end-spaces [] [] h = refl
trim_end-spaces [] (c ∷ t) h = rw (trim_end-spaces [] t h.1, h.0) refl
trim_end-spaces (c ∷ s) t h = rw (trim_end-spaces s t h) refl

pub trim_end-kept : (s t : Bytes) → trim_end t ≡ t → is_blank t ≡ false → trim_end (s ++ t) ≡ s ++ t
trim_end-kept [] t e n = e
trim_end-kept (c ∷ s) t e n = rw (trim_end-kept s t e n) (kept s t n)
  where
    kept :
        (s t : Bytes)
        → is_blank t ≡ false
        → elim (s ++ t) [ [] ↦ if is_space c then [] else c ∷ [] | d ∷ ds ↦ c ∷ d ∷ ds ]
          ≡ c ∷ (s ++ t)
    kept [] [] n = cc
    kept [] (d ∷ t) n = refl
    kept (d ∷ s) t n = refl

any-newline : (s : Bytes) → any (λ b. b == 10) (s ++ (10 ∷ [])) ≡ true
any-newline [] = refl
any-newline (c ∷ s) = ground (arith, any-newline s)

abbrev pub cr : Bytes
cr = 13 ∷ []

abbrev pub crlf : Bytes
crlf = 13 ∷ 10 ∷ []

module _ ⦃text : Text⦄ where
  -- The headers that come out, from the last ones that came before.
  abbrev pub set_headers : List (Bytes × Bytes) → Fields → Fields
  set_headers [] fields = fields
  set_headers (h ∷ hs) fields = set_headers hs (map_insert (text.to_lowercase h.0) h.1 fields)

-- A line with its end is read without its end.
module _ ⦃text : Text⦄ (http_text : HttpText) where
  pub with_line-kept :
      {A : Type 0} (ends : Bool) (l : Bytes) (use_line : Bytes → Result A)
      → IsAscii l
      → trim_end l ≡ l
      → with_line http_text ends ((l ++ cr) ++ (10 ∷ [])) use_line ≡ use_line l
  with_line-kept ends l use_line ascii tight =
      let whole : IsAscii ((l ++ cr) ++ (10 ∷ [])) =
        All-append _ (l ++ cr) (10 ∷ []) (All-append _ l cr ascii (omega arith, tt))
          (omega arith, tt) in
      let trimmed : http_text.trim_end_of ((l ++ cr) ++ (10 ∷ [])) ≡ l =
        http_text.trim_end_ascii _ whole
        ∙ trim_end-spaces (l ++ cr) (10 ∷ []) (refl, tt)
        ∙ trim_end-spaces l cr (refl, tt)
        ∙ tight in
      rw (any-newline (l ++ cr), http_text.is_utf8_ascii _ whole, trimmed) (or_true ends)
    where
      or_true :
          (b : Bool)
          → (if (b || true) && true then use_line l else err (Error.io "read_line")) ≡ use_line l
      or_true true = refl
      or_true false = refl

  header_text : Bytes × Bytes → Bytes
  header_text h = h.0 ++ (b':' ∷ 32 ∷ h.1)

  trim_start-visible : (s : Bytes) → All IsVisible s → trim_start s ≡ s
  trim_start-visible [] h = refl
  trim_start-visible (c ∷ s) h = let e : is_space c ≡ false = ground (arith, h.0) in rw e refl

  trim_end-visible : (s : Bytes) → All IsVisible s → trim_end s ≡ s
  trim_end-visible [] h = refl
  trim_end-visible (c ∷ s) h =
      let e : is_space c ≡ false = ground (arith, h.0) in rw (trim_end-visible s h.1) (last s e)
    where
      last :
          (s : Bytes)
          → is_space c ≡ false
          → elim s [ [] ↦ if is_space c then [] else c ∷ [] | d ∷ ds ↦ c ∷ d ∷ ds ] ≡ c ∷ s
      last [] e = rw e refl
      last (d ∷ s) e = refl

  add_header-text :
      (h : Bytes × Bytes) (fields : Fields)
      → IsHeader h
      → add_header (split_once b':' (header_text h)) fields
        ≡ map_insert (text.to_lowercase h.0) h.1 fields
  unfolding header_text
  add_header-text h fields ok_h =
      let name : text.trim h.0 ≡ h.0 =
        text.trim_ascii h.0 (Visible-IsAscii h.0 ok_h.name)
        ∙ rw (trim_start-visible h.0 ok_h.name) (trim_end-visible h.0 ok_h.name) in
      let value : text.trim (32 ∷ h.1) ≡ h.1 =
        text.trim_ascii (32 ∷ h.1) (omega arith, Printable-IsAscii h.1 ok_h.value)
        ∙ rw ok_h.start_tight ok_h.end_tight in
      rw (split_once-append b':' h.0 (32 ∷ h.1) ok_h.no_colon, name, value) refl

  header_text-tight : (h : Bytes × Bytes) → IsHeader h → trim_end (header_text h) ≡ header_text h
  unfolding header_text
  header_text-tight h ok_h =
      let e : (h.0 ++ (b':' ∷ 32 ∷ [])) ++ h.1 ≡ h.0 ++ (b':' ∷ 32 ∷ h.1) =
        append_assoc h.0 (b':' ∷ 32 ∷ []) h.1 in
      rw e at (trim_end-kept (h.0 ++ (b':' ∷ 32 ∷ [])) h.1 ok_h.end_tight ok_h.some_value)

  header_text-some : (h : Bytes × Bytes) → is_blank (header_text h) ≡ false
  unfolding header_text
  header_text-some ([], v) = refl
  header_text-some (c ∷ k, v) = refl

  header_text-lines :
      (h : Bytes × Bytes) (rest : Bytes)
      → IsHeader h
      → lines_of (header_line h ++ rest) ≡ ((header_text h ++ cr) ++ (10 ∷ [])) ∷ lines_of rest
  unfolding header_text
  header_text-lines h rest ok_h =
      let e : header_line h ++ rest ≡ (header_text h ++ cr) ++ (10 ∷ rest) = simp (append_assoc) in
      rw e (
        lines_of-append (header_text h ++ cr) rest (
          All-append _ (header_text h) cr
            (All-append _ h.0 (b':' ∷ 32 ∷ h.1) (Visible-NoNewline h.0 ok_h.name)
              (refl, (refl, Printable-NoNewline h.1 ok_h.value)))
            (refl, tt)))

  -- The headers of a request, with the blank line behind them.
  pub read_headers-lines :
      (ends : Bool) (hs : List (Bytes × Bytes)) (fields : Fields) (rest : Bytes)
      → All IsHeader hs
      → read_headers http_text ends fields
          (lines_of (concat (map header_line hs) ++ (13 ∷ 10 ∷ rest)))
        ≡ ok (set_headers hs fields, lines_of rest)
  unfolding read_headers
  read_headers-lines ends [] fields rest h =
      let use_line : Bytes → Result (Fields × List Bytes) = λ l.
        let next =
          read_headers http_text ends (add_header (split_once b':' l) fields) (lines_of rest) in
        if is_blank l then ok (fields, lines_of rest) else next in
      rw (lines_of-append cr rest (refl, tt)) (with_line-kept ends [] use_line tt refl)
  read_headers-lines ends (h ∷ hs) fields rest ok_hs =
      let ascii : IsAscii (header_text h) =
        unfold header_text in
        All-append _ h.0 (b':' ∷ 32 ∷ h.1) (Visible-IsAscii h.0 ok_hs.0.name)
          (omega arith, (omega arith, Printable-IsAscii h.1 ok_hs.0.value)) in
      let lines : List Bytes = lines_of (concat (map header_line hs) ++ (13 ∷ 10 ∷ rest)) in
      let use_line : Bytes → Result (Fields × List Bytes) = λ l.
        let next = read_headers http_text ends (add_header (split_once b':' l) fields) lines in
        if is_blank l then ok (fields, lines) else next in
      rw
        (
          append_assoc (header_line h) (concat (map header_line hs)) (13 ∷ 10 ∷ rest),
          header_text-lines h (concat (map header_line hs) ++ (13 ∷ 10 ∷ rest)) ok_hs.0,
        )
        (with_line-kept ends (header_text h) use_line ascii (header_text-tight h ok_hs.0)
          ∙ rw (header_text-some h, add_header-text h fields ok_hs.0)
              (read_headers-lines ends hs _ rest ok_hs.1))
