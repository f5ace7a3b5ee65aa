-- ===== src/Proto/Text.antt =====
-- What src/proto.rs takes from the Unicode tables of the standard library: lossy UTF-8 decoding,
-- case mapping, and trimming. They are parameters; the laws are their documented behaviour on ASCII.
use dnsd_rs.Base.{
  All, Bool, Bytes, [], dot, if◌then◌else◌, leb, map, refl, trim_end_dots, ℕ, ◌&&◌, ◌++◌, ◌+◌, ◌<◌,
  ◌==◌, ◌||◌, ◌∷◌, ◌≡◌,
}

abbrev pub IsAscii : Bytes → Type 0
IsAscii = All (λ c. c < 128)

-- ASCII letters to lower case: `to_ascii_lowercase` of a byte.
abbrev pub ascii_lower : ℕ → ℕ
ascii_lower c = if leb b'A' c && leb c b'Z' then c + 32 else c

-- The ASCII characters of the property White_Space.
abbrev pub is_space : ℕ → Bool
is_space c = c == 32 || (leb 9 c && leb c 13)

abbrev pub trim_start : Bytes → Bytes
trim_start [] = []
trim_start (c ∷ cs) = if is_space c then trim_start cs else c ∷ cs

abbrev pub trim_end : Bytes → Bytes
trim_end [] = []
trim_end (c ∷ cs) = elim (trim_end cs) [
  | [] ↦ if is_space c then [] else c ∷ []
  | d ∷ ds ↦ c ∷ d ∷ ds
]

-- `String::from_utf8_lossy`, `str::to_lowercase` and `str::trim`.
pub record Text : Type 0 where
  pub from_utf8_lossy : Bytes → Bytes
  pub to_lowercase : Bytes → Bytes
  pub trim : Bytes → Bytes
  pub from_utf8_lossy_ascii : (s : Bytes) → IsAscii s → from_utf8_lossy s ≡ s
  pub to_lowercase_ascii : (s : Bytes) → IsAscii s → to_lowercase s ≡ map ascii_lower s
  pub trim_ascii : (s : Bytes) → IsAscii s → trim s ≡ trim_end (trim_start s)

-- A text that treats every byte as ASCII: the laws can be met.
abbrev pub ascii_text : Text
ascii_text = record {
  from_utf8_lossy = λ s. s;
  to_lowercase = map ascii_lower;
  trim = λ s. trim_end (trim_start s);
  from_utf8_lossy_ascii = λ s h. refl;
  to_lowercase_ascii = λ s h. refl;
  trim_ascii = λ s h. refl;
}

module _ ⦃text : Text⦄ where
  -- `canonical_name`: lower case with a single trailing dot.
  unfoldable pub canonical_name : Bytes → Bytes
  canonical_name name = elim (text.to_lowercase (trim_end_dots (text.trim name))) [
    | [] ↦ dot ∷ []
    | c ∷ cs ↦ (c ∷ cs) ++ (dot ∷ [])
  ]
