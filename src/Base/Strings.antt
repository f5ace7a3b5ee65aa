-- ===== src/Base/Strings.antt =====
-- Byte strings: `Vec<u8>`, and a Rust `String` as its UTF-8 bytes.
use Prim.Native.Char.{code}
use Prim.Native.Nat.{ℕ, zero, suc, ◌+◌, ◌-◌, ◌/◌, ◌%◌, ◌<◌}
use Prim.Native.String.{String}
use mathlib.Core.Path.{◌≡◌, refl, sym, subst, ◌∙◌}
use mathlib.Core.Logic.{inl, inr}
use mathlib.Core.Bool.{Bool, true, false, ◌&&◌}
use mathlib.Core.List.{List, [], ◌∷◌, ◌++◌}
use native.Mathlib.Omega.{arith}
use dnsd_rs.Base.Tests.{Bool-cases, leb, ◌==◌, if◌then◌else◌}
use dnsd_rs.Base.Lists.{length, drop}

abbrev pub Bytes : Type 0
Bytes = List ℕ

abbrev pub IsByte : ℕ → Type 0
IsByte b = b < 256

-- The bytes of an ASCII literal.
abbrev pub codes : String → Bytes
codes String.[] = []
codes (String.◌∷◌ c s) = code c ∷ codes s

abbrev pub dot : ℕ
dot = b'.'

abbrev pub bytes_eq : Bytes → Bytes → Bool
bytes_eq [] [] = true
bytes_eq [] (y ∷ ys) = false
bytes_eq (x ∷ xs) [] = false
bytes_eq (x ∷ xs) (y ∷ ys) = x == y && bytes_eq xs ys

pub bytes_eq→eq : (xs ys : Bytes) → bytes_eq xs ys ≡ true → xs ≡ ys
bytes_eq→eq [] [] h = refl
bytes_eq→eq [] (y ∷ ys) h = cc
bytes_eq→eq (x ∷ xs) [] h = cc
bytes_eq→eq (x ∷ xs) (y ∷ ys) h = ground (arith, bytes_eq→eq xs ys)

pub bytes_eq_refl : (xs : Bytes) → bytes_eq xs xs ≡ true
bytes_eq_refl [] = refl
bytes_eq_refl (x ∷ xs) = ground (arith, bytes_eq_refl xs)

-- Of two texts that differ, at most one is a third.
pub bytes_eq-differs :
    (x k j : Bytes) → bytes_eq x k ≡ false → bytes_eq x j ≡ true → bytes_eq k j ≡ false
bytes_eq-differs x k j other here = elim (Bool-cases (bytes_eq k j)) [
  | inl same ↦
      let e : x ≡ k = bytes_eq→eq x j here ∙ sym (bytes_eq→eq k j same) in
      absurd (cc (other, subst (λ y. bytes_eq x y ≡ true) e (bytes_eq_refl x)))
  | inr differ ↦ differ
]

-- `str::starts_with`
abbrev pub starts_with : Bytes → Bytes → Bool
starts_with s [] = true
starts_with [] (p ∷ ps) = false
starts_with (c ∷ cs) (p ∷ ps) = c == p && starts_with cs ps

-- `str::ends_with`
abbrev pub ends_with : Bytes → Bytes → Bool
ends_with s p = leb (length p) (length s) && bytes_eq (drop (length s - length p) s) p

-- `s.trim_end_matches('.')`
abbrev pub trim_end_dots : Bytes → Bytes
trim_end_dots [] = []
trim_end_dots (c ∷ cs) = elim (trim_end_dots cs) [
  | [] ↦ if c == dot then [] else c ∷ []
  | d ∷ ds ↦ c ∷ d ∷ ds
]

-- `s.split('.')`: never empty.
abbrev pub add_to_head : ℕ → List Bytes → List Bytes
add_to_head c [] = (c ∷ []) ∷ []
add_to_head c (l ∷ ls) = (c ∷ l) ∷ ls

abbrev pub split_dots : Bytes → List Bytes
split_dots [] = [] ∷ []
split_dots (c ∷ cs) = let rest = split_dots cs in if c == dot then [] ∷ rest else add_to_head c rest

-- `labels.join(".")`
abbrev pub join_dots : List Bytes → Bytes
join_dots [] = []
join_dots (l ∷ []) = l
join_dots (l ∷ m ∷ ms) = l ++ (dot ∷ join_dots (m ∷ ms))

-- Decimal digits, as `{}` prints an integer; `n < 10 ^ fuel` digits are enough.
abbrev pub decimal_fuel : ℕ → ℕ → Bytes
decimal_fuel zero n = []
decimal_fuel (suc f) n =
    let more = decimal_fuel f (n / 10) in
    if n == n % 10 then (b'0' + n % 10) ∷ [] else more ++ ((b'0' + n % 10) ∷ [])
