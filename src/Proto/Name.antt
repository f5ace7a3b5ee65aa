-- ===== src/Proto/Name.antt =====
-- `read_name` and `Encoder::write_name` of src/proto.rs.
pub mod Wire
pub mod Labels
pub mod Read
pub mod Write
pub mod RoundTrip
use dnsd_rs.Base.{
  Bytes, Error, List, Option, Result, [], bit_and, bit_or, bytes_eq, dot, drop, err, get_elem?,
  if◌then◌else◌, join_dots, leb, length, ltb, none, not, ok, some, split_dots, suc, take,
  trim_end_dots, zero, ℕ, ◌%◌, ◌*◌, ◌++◌, ◌+◌, ◌==◌, ◌>>=◌, ◌||◌, ◌∷◌,
}
use dnsd_rs.Proto.Cursor.{be16_bytes}
use dnsd_rs.Proto.Text.{Text, canonical_name}

-- `*pos = next + 2` at the first pointer only.
abbrev pub first_jump : Option ℕ → ℕ → Option ℕ
first_jump none p = some p
first_jump (some q) p = some q

-- The value left in `*pos`.
abbrev pub final_pos : Option ℕ → ℕ → ℕ
final_pos none next = next
final_pos (some q) next = q

-- The text that the labels make.
abbrev pub name_of : List Bytes → Bytes
name_of [] = dot ∷ []
name_of (l ∷ ls) = join_dots (l ∷ ls) ++ (dot ∷ [])

module _ ⦃text : Text⦄ where
  -- The loop of `read_name`; the first argument is what is left of the guard, 256 rounds at the
  -- start. `jumped` holds the position behind the first pointer.
  unfoldable pub read_name_loop : ℕ → Bytes → ℕ → Option ℕ → List Bytes → Result (Bytes × ℕ)
  read_name_loop zero buf next jumped labels = err (Error.parse "name compression loop")
  read_name_loop (suc g) buf next jumped labels = elim (get_elem? buf next) [
    | none ↦ err (Error.parse "name runs past end")
    | some len ↦
        let follow = elim (get_elem? buf (next + 1)) as (λ _. Result (Bytes × ℕ)) [
          | none ↦ err (Error.parse "truncated pointer")
          | some lo ↦
              read_name_loop g buf (bit_and len 0x3F * 256 + lo) (first_jump jumped (next + 2))
                labels
        ] in
        let label = text.to_lowercase (text.from_utf8_lossy (take len (drop (next + 1) buf))) in
        let more = read_name_loop g buf (next + 1 + len) jumped (labels ++ (label ∷ [])) in
        if bit_and len 0xC0 == 0xC0
        then follow
        else if not (bit_and len 0xC0 == 0)
        then err (Error.parse "bad label length")
        else if len == 0
        then ok (name_of labels, final_pos jumped (next + 1))
        else if ltb 63 len || ltb (length buf) (next + 1 + len)
        then err (Error.parse "bad label")
        else more
  ]

  -- `read_name`: the name, and the value left in `*pos`.
  unfoldable pub read_name : Bytes → ℕ → Result (Bytes × ℕ)
  read_name buf pos = read_name_loop 256 buf pos none []

-- `struct Encoder`; the map has the last value inserted under a key in front.
pub record Encoder : Type 0 where
  pub out : Bytes
  pub name_map : List (Bytes × ℕ)

abbrev pub new_encoder : Encoder
new_encoder = record { out = []; name_map = [] }

-- `HashMap::get`
unfoldable pub lookup_name : Bytes → List (Bytes × ℕ) → Option ℕ
lookup_name k [] = none
lookup_name k (e ∷ m) = if bytes_eq e.0 k then some e.1 else lookup_name k m

-- `labels[i..].join(".") + "."`
abbrev pub suffix_key : List Bytes → Bytes
suffix_key ls = join_dots ls ++ (dot ∷ [])

-- A suffix found at this label comes before one found further on.
abbrev pub prefer : Option ℕ → Bytes → Option (List Bytes × ℕ) → Option (List Bytes × ℕ)
prefer (some off) l later = some ([], off)
prefer none l none = none
prefer none l (some (front, off)) = some (l ∷ front, off)

-- The first suffix that is already written: the labels before it, and its offset.
unfoldable pub find_suffix : List (Bytes × ℕ) → List Bytes → Option (List Bytes × ℕ)
find_suffix m [] = none
find_suffix m (l ∷ ls) = prefer (lookup_name (suffix_key (l ∷ ls)) m) l (find_suffix m ls)

-- The length byte and the bytes of each label before the pointer.
unfoldable pub push_labels : Bytes → List Bytes → Result Bytes
push_labels out [] = ok out
push_labels out (l ∷ ls) =
    let rest = push_labels (out ++ (length l % 256 ∷ l)) ls in
    if ltb 63 (length l) then err (Error.encode "label too long") else rest

-- The uncompressed loop: each suffix whose offset fits is recorded.
unfoldable pub push_full : Encoder → List Bytes → Result Encoder
push_full e [] = ok e
push_full e (l ∷ ls) =
    let start = length e.out in
    let rest =
      push_full
        (record {
          out = e.out ++ (length l % 256 ∷ l);
          name_map =
              if leb start 0x3FFF then (suffix_key (l ∷ ls), start) ∷ e.name_map else e.name_map;
        })
        ls in
    if ltb 63 (length l) then err (Error.encode "label too long") else rest

-- `write_name` behind the canonical name.
unfoldable pub write_labels : Encoder → List Bytes → Result Encoder
write_labels e labels = elim (find_suffix e.name_map labels) [
  | some (front, off) ↦ do
    out ← push_labels e.out front
    ok (record e { out = out ++ be16_bytes (bit_or 0xC000 off) })
  | none ↦ do e' ← push_full e labels; ok (record e' { out = e'.out ++ (0 ∷ []) })
]

module _ ⦃text : Text⦄ where
  -- `Encoder::write_name`
  unfoldable pub write_name : Encoder → Bytes → Result Encoder
  write_name e s =
      let n = canonical_name s in
      if bytes_eq n (dot ∷ [])
      then ok (record e { out = e.out ++ (0 ∷ []) })
      else write_labels e (split_dots (trim_end_dots n))
