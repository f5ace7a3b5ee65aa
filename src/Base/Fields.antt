-- ===== src/Base/Fields.antt =====
-- Texts cut into parts and read as numbers, as `str::split`, `str::split_once` and `str::parse` do it
-- in src/server, src/config.rs and src/api.
use Prim.Native.Nat.{ℕ, ◌+◌, ◌-◌, ◌*◌, ◌^◌}
use mathlib.Core.Bool.{false, ◌&&◌}
use mathlib.Core.List.{List, [], ◌∷◌, ◌++◌}
use mathlib.Core.Option.{Option, none, some}
use mathlib.Core.Path.{◌≡◌, refl}
use native.Mathlib.Omega.{arith}
use dnsd_rs.Base.Lists.{All}
use dnsd_rs.Base.Strings.{Bytes, add_to_head}
use dnsd_rs.Base.Tests.{if◌then◌else◌, leb, ltb, ◌==◌}

-- `s.split(c)`: never empty.
unfoldable pub split_on : ℕ → Bytes → List Bytes
split_on c [] = [] ∷ []
split_on c (b ∷ bs) = let rest = split_on c bs in if b == c then [] ∷ rest else add_to_head b rest

-- `s.split_once(c)`
abbrev behind_head : ℕ → Option (Bytes × Bytes) → Option (Bytes × Bytes)
behind_head b none = none
behind_head b (some (k, v)) = some (b ∷ k, v)

unfoldable pub split_once : ℕ → Bytes → Option (Bytes × Bytes)
split_once c [] = none
split_once c (b ∷ bs) =
    let rest = split_once c bs in if b == c then some ([], bs) else behind_head b rest

-- The lines that `read_line` gives, each with its newline but perhaps the last.
unfoldable pub lines_of : Bytes → List Bytes
lines_of [] = []
lines_of (b ∷ bs) =
    let rest = lines_of bs in if b == 10 then (b ∷ []) ∷ rest else add_to_head b rest

abbrev pub concat : List Bytes → Bytes
concat [] = []
concat (l ∷ ls) = l ++ concat ls

-- The digits of a number, with the value of those before; nothing where one is none, or where the value
-- reaches the bound.
unfoldable pub parse_digits : ℕ → ℕ → Bytes → Option ℕ
parse_digits bound n [] = some n
parse_digits bound n (c ∷ cs) =
    let more = parse_digits bound (n * 10 + (c - b'0')) cs in
    if leb b'0' c && leb c b'9' && ltb (n * 10 + (c - b'0')) bound then more else none

abbrev pub parse_signless : ℕ → Bytes → Option ℕ
parse_signless bound [] = none
parse_signless bound (c ∷ cs) = parse_digits bound 0 (c ∷ cs)

-- `str::parse` for an unsigned integer of so many bits: a plus sign may stand before the digits.
unfoldable pub parse_unsigned : ℕ → Bytes → Option ℕ
unfolding parse_digits
parse_unsigned bits [] = none
parse_unsigned bits (c ∷ cs) =
    if c == b'+' then parse_signless (2 ^ bits) cs else parse_signless (2 ^ bits) (c ∷ cs)

pub split_once-append :
    (c : ℕ) (k v : Bytes)
    → All (λ b. (b == c) ≡ false) k
    → split_once c (k ++ (c ∷ v)) ≡ some (k, v)
unfolding split_once
split_once-append c [] v h = ground arith
split_once-append c (b ∷ k) v h = ground (arith, split_once-append c k v h.1)

pub split_once-none : (c : ℕ) (s : Bytes) → All (λ b. (b == c) ≡ false) s → split_once c s ≡ none
unfolding split_once
split_once-none c [] h = refl
split_once-none c (b ∷ s) h = ground (arith, split_once-none c s h.1)

concat-add_to_head : (b : ℕ) (ls : List Bytes) → concat (add_to_head b ls) ≡ b ∷ concat ls
concat-add_to_head b [] = refl
concat-add_to_head b (l ∷ ls) = refl

-- Nothing is lost in the lines.
pub concat-lines_of : (s : Bytes) → concat (lines_of s) ≡ s
unfolding lines_of
concat-lines_of [] = refl
concat-lines_of (b ∷ s) = ground (arith, concat-lines_of s, concat-add_to_head b (lines_of s))

-- A text without a newline, with one behind it, is one line.
pub lines_of-append :
    (l s : Bytes)
    → All (λ b. (b == 10) ≡ false) l
    → lines_of (l ++ (10 ∷ s)) ≡ (l ++ (10 ∷ [])) ∷ lines_of s
unfolding lines_of
lines_of-append [] s h = refl
lines_of-append (b ∷ l) s h = rw (h.0, lines_of-append l s h.1) refl
