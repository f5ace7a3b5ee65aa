-- ===== src/Proto/Prefix.antt =====
use dnsd_rs.Base.{
  Bool-cases, Bytes, List, Option, Result, [], ap, append_assoc, bit_or, bytes_eq, dot, err,
  if◌then◌else◌, inl, inr, leb, length, ltb, none, ok, panic, refl, some, split_dots, trim_end_dots,
  ℕ, ◌%◌, ◌++◌, ◌==◌, ◌>>=◌, ◌∙◌, ◌∷◌, ◌≡◌,
}
use dnsd_rs.Proto.Cursor.{be16_bytes, be32_bytes}
use dnsd_rs.Proto.Encode.{
  encode_message, encode_rdata, header_bytes, opt_or_plain, push, write_opt, write_plain,
  write_question, write_questions, write_record, write_records,
}
use dnsd_rs.Proto.Name.{
  Encoder, find_suffix, new_encoder, push_full, push_labels, suffix_key, write_labels, write_name,
}
use dnsd_rs.Proto.Text.{Text, canonical_name}
use dnsd_rs.Proto.Types.{Message, Opt, Question, RData, Record, type_opt}

-- Encoding only appends: what an encoder starts from stays the start of the message.

abbrev pub Starts : Bytes → Bytes → Type 0
Starts p s = (more : Bytes) × (s ≡ p ++ more)

-- Whatever comes out of a fallible step starts so.
abbrev pub OkBytes : Bytes → Result Bytes → Type 0
OkBytes p (ok s) = Starts p s
OkBytes p (err e) = Unit
OkBytes p panic = Unit

abbrev OkEncoder : Bytes → Result Encoder → Type 0
OkEncoder p (ok e) = Starts p e.out
OkEncoder p (err e) = Unit
OkEncoder p panic = Unit

Starts-append : (p s t : Bytes) → Starts p s → Starts p (s ++ t)
Starts-append p s t (more, e) = (more ++ t, ap (λ x. x ++ t) e ∙ append_assoc p more t)

-- The chains that stand in the encoder.
bytes_then :
    (p : Bytes) (r : Result Bytes) (f : Bytes → Result Encoder)
    → OkBytes p r
    → ((s : Bytes) → Starts p s → OkEncoder p (f s))
    → OkEncoder p (r >>= f)
bytes_then p (ok s) f h next = next s h
bytes_then p (err e) f h next = tt
bytes_then p panic f h next = tt

encoder_then :
    (p : Bytes) (r : Result Encoder) (f : Encoder → Result Encoder)
    → OkEncoder p r
    → ((e : Encoder) → Starts p e.out → OkEncoder p (f e))
    → OkEncoder p (r >>= f)
encoder_then p (ok e) f h next = next e h
encoder_then p (err e) f h next = tt
encoder_then p panic f h next = tt

encoder_out :
    (p : Bytes) (r : Result Encoder) (f : Encoder → Result Bytes)
    → OkEncoder p r
    → ((e : Encoder) → Starts p e.out → OkBytes p (f e))
    → OkBytes p (r >>= f)
encoder_out p (ok e) f h next = next e h
encoder_out p (err e) f h next = tt
encoder_out p panic f h next = tt

push_labels-OkBytes :
    (p out : Bytes) (ls : List Bytes) → Starts p out → OkBytes p (push_labels out ls)
unfolding push_labels
push_labels-OkBytes p out [] h = h
push_labels-OkBytes p out (l ∷ ls) h = elim (Bool-cases (ltb 63 (length l))) [
  | inl long ↦ rw long tt
  | inr fits ↦
      rw fits (push_labels-OkBytes p (out ++ (length l % 256 ∷ l)) ls (Starts-append p out _ h))
]

push_full-OkEncoder :
    (p : Bytes) (ls : List Bytes) (e : Encoder) → Starts p e.out → OkEncoder p (push_full e ls)
unfolding push_full
push_full-OkEncoder p [] e h = h
push_full-OkEncoder p (l ∷ ls) e h =
    let start = length e.out in
    let out = e.out ++ (length l % 256 ∷ l) in
    elim (Bool-cases (ltb 63 (length l))) [
      | inl long ↦ rw long tt
      | inr fits ↦ rw fits (
          push_full-OkEncoder p ls
            (record {
              out = out;
              name_map =
                  if leb start 0x3FFF
                  then (suffix_key (l ∷ ls), start) ∷ e.name_map
                  else e.name_map;
            })
            (Starts-append p e.out _ h))
    ]

write_labels-OkEncoder :
    (p : Bytes) (e : Encoder) (ls : List Bytes) → Starts p e.out → OkEncoder p (write_labels e ls)
unfolding write_labels
write_labels-OkEncoder p e ls h = by_suffix (find_suffix e.name_map ls)
  where
    by_suffix :
        (found : Option (List Bytes × ℕ))
        → OkEncoder p (elim found [
          | some (front, off) ↦ do
            out ← push_labels e.out front
            ok (record e { out = out ++ be16_bytes (bit_or 0xC000 off) })
          | none ↦ do e' ← push_full e ls; ok (record e' { out = e'.out ++ (0 ∷ []) })
        ])
    by_suffix (some (front, off)) =
        bytes_then p (push_labels e.out front) _ (push_labels-OkBytes p e.out front h)
          (λ s. Starts-append p s _)
    by_suffix none =
        encoder_then p (push_full e ls) _ (push_full-OkEncoder p ls e h)
          (λ e'. Starts-append p e'.out _)

module _ ⦃text : Text⦄ where
  write_name-OkEncoder :
      (p : Bytes) (e : Encoder) (s : Bytes) → Starts p e.out → OkEncoder p (write_name e s)
  unfolding write_name
  write_name-OkEncoder p e s h = elim (Bool-cases (bytes_eq (canonical_name s) (dot ∷ []))) [
    | inl root ↦ rw root (Starts-append p e.out (0 ∷ []) h)
    | inr other ↦
        rw other (write_labels-OkEncoder p e (split_dots (trim_end_dots (canonical_name s))) h)
  ]

  write_question-OkEncoder :
      (p : Bytes) (e : Encoder) (q : Question) → Starts p e.out → OkEncoder p (write_question e q)
  unfolding write_question
  write_question-OkEncoder p e q h =
      encoder_then p (write_name e q.name) _ (write_name-OkEncoder p e q.name h)
        (λ e1 h1. Starts-append p _ _ (Starts-append p e1.out _ h1))

  write_plain-OkEncoder :
      (p : Bytes) (e : Encoder) (r : Record) → Starts p e.out → OkEncoder p (write_plain e r)
  unfolding write_plain
  write_plain-OkEncoder p e r h = behind (encode_rdata r.rdata)
    where
      behind :
          (d : Result Bytes)
          → OkEncoder p (
              d >>= λ rdata. ok (
                push
                  (push
                    (push (push e (be16_bytes r.class)) (be32_bytes r.ttl))
                    (be16_bytes (length rdata)))
                  rdata))
      behind (ok s) =
          Starts-append p _ s
            (Starts-append p _ _ (Starts-append p _ _ (Starts-append p e.out _ h)))
      behind (err x) = tt
      behind panic = tt

  write_opt-Starts :
      (p : Bytes) (e : Encoder) (o : Opt) → Starts p e.out → Starts p (write_opt e o).out
  unfolding write_opt
  write_opt-Starts p e o h =
      Starts-append p _ _ (Starts-append p _ _ (Starts-append p _ _ (Starts-append p e.out _ h)))

  opt_or_plain-OkEncoder :
      (p : Bytes) (e : Encoder) (r : Record) (d : RData)
      → Starts p e.out
      → OkEncoder p (opt_or_plain e r d)
  opt_or_plain-OkEncoder p e r (RData.opt o) h = elim (Bool-cases (r.rtype == type_opt)) [
    | inl is_opt ↦ rw is_opt (write_opt-Starts p e o h)
    | inr other ↦ rw other (write_plain-OkEncoder p e r h)
  ]
  opt_or_plain-OkEncoder p e r (RData.a ip) h = write_plain-OkEncoder p e r h
  opt_or_plain-OkEncoder p e r (RData.aaaa ip) h = write_plain-OkEncoder p e r h
  opt_or_plain-OkEncoder p e r (RData.name n) h = write_plain-OkEncoder p e r h
  opt_or_plain-OkEncoder p e r (RData.mx n x) h = write_plain-OkEncoder p e r h
  opt_or_plain-OkEncoder p e r (RData.soa d) h = write_plain-OkEncoder p e r h
  opt_or_plain-OkEncoder p e r (RData.txt ss) h = write_plain-OkEncoder p e r h
  opt_or_plain-OkEncoder p e r (RData.srv i w n x) h = write_plain-OkEncoder p e r h
  opt_or_plain-OkEncoder p e r (RData.caa f t v) h = write_plain-OkEncoder p e r h
  opt_or_plain-OkEncoder p e r (RData.rrsig d) h = write_plain-OkEncoder p e r h
  opt_or_plain-OkEncoder p e r (RData.nsec n b) h = write_plain-OkEncoder p e r h
  opt_or_plain-OkEncoder p e r (RData.raw s) h = write_plain-OkEncoder p e r h

  write_record-OkEncoder :
      (p : Bytes) (e : Encoder) (r : Record) → Starts p e.out → OkEncoder p (write_record e r)
  unfolding write_record
  write_record-OkEncoder p e r h =
      encoder_then p (write_name e r.name) _ (write_name-OkEncoder p e r.name h)
        (λ e1 h1. opt_or_plain-OkEncoder p _ r r.rdata (Starts-append p e1.out _ h1))

  write_questions-OkEncoder :
      (p : Bytes) (qs : List Question) (e : Encoder)
      → Starts p e.out
      → OkEncoder p (write_questions e qs)
  unfolding write_questions
  write_questions-OkEncoder p [] e h = h
  write_questions-OkEncoder p (q ∷ qs) e h =
      encoder_then p (write_question e q) _ (write_question-OkEncoder p e q h)
        (λ e1 h1. write_questions-OkEncoder p qs e1 h1)

  write_records-OkEncoder :
      (p : Bytes) (rs : List Record) (e : Encoder)
      → Starts p e.out
      → OkEncoder p (write_records e rs)
  unfolding write_records
  write_records-OkEncoder p [] e h = h
  write_records-OkEncoder p (r ∷ rs) e h =
      encoder_then p (write_record e r) _ (write_record-OkEncoder p e r h)
        (λ e1 h1. write_records-OkEncoder p rs e1 h1)

  -- What `Message::encode` gives starts with the id of the message.
  pub encode_message-OkBytes : (m : Message) → OkBytes (be16_bytes m.header.id) (encode_message m)
  unfolding encode_message header_bytes
  encode_message-OkBytes m =
      let p = be16_bytes m.header.id in
      encoder_out p (write_questions (push new_encoder (header_bytes m)) m.questions) _
        (write_questions-OkEncoder p m.questions _ (_, refl))
        (λ e1 h1.
          encoder_out p (write_records e1 m.answers) _ (write_records-OkEncoder p m.answers e1 h1)
            (λ e2 h2.
              encoder_out p (write_records e2 m.authority) _
                (write_records-OkEncoder p m.authority e2 h2)
                (λ e3 h3.
                  encoder_out p (write_records e3 m.additional) _
                    (write_records-OkEncoder p m.additional e3 h3) (λ e4 h4. h4))))
