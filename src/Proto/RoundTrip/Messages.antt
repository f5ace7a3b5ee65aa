-- ===== src/Proto/RoundTrip/Messages.antt =====
-- Whole messages: `Message::parse` after `Message::encode`.
use dnsd_rs.Base.{
  All, Bytes, List, Result, [], ap, append-nil, append_assoc, arith, drop-length, inl, inr, length,
  length-append, ltb-eq-false, ok, refl, subst, sym, ℕ, ◌%◌, ◌++◌, ◌+◌, ◌-◌, ◌<◌, ◌∙◌, ◌∷◌, ◌≡◌,
  ◌⊎◌,
}
use dnsd_rs.Proto.Cursor.{be16_bytes}
use dnsd_rs.Proto.Data.{
  IsU16, IsWireData, w_a, w_aaaa, w_caa, w_mx, w_name, w_nsec, w_raw, w_rrsig, w_srv, w_txt,
}
use dnsd_rs.Proto.Encode.{
  encode_message, header_bytes, push, write_question, write_questions, write_record, write_records,
}
use dnsd_rs.Proto.Flags.{encode_flags}
use dnsd_rs.Proto.Flags.RoundTrip.{encode_flags-lt, parse_flags-encode_flags}
use dnsd_rs.Proto.Name.{Encoder, new_encoder}
use dnsd_rs.Proto.Name.Read.{drop_past}
use dnsd_rs.Proto.Name.RoundTrip.{IsName, IsWritten, write_name-IsWritten}
use dnsd_rs.Proto.Name.Write.{All-IsStored-append, IsSound}
use dnsd_rs.Proto.Parse.{
  Layout, fold_ext_rcode, parse_body, parse_message, read_question, read_questions, read_record,
  read_records, recover_fields, recover_opt,
}
use dnsd_rs.Proto.Reads.{At, cursor, u16-At}
use dnsd_rs.Proto.RoundTrip.{IsWireOpt, IsWireRecord}
use dnsd_rs.Proto.RoundTrip.Records.{
  IsRecorded, blank_record, recover_opt-blank, write_record-opt, write_record-plain,
}
use dnsd_rs.Proto.Text.{Text}
use dnsd_rs.Proto.Types.{Message, Question, RData, Record, edns}

pub record IsWireQuestion (q : Question) : Type 0 where
  pub named : IsName q.name
  pub qtype_fits : IsU16 q.qtype
  pub qclass_fits : IsU16 q.qclass

-- A message whose parts have a wire form. OPT may stand in the additional section only.
pub record IsWireMessage ⦃text : Text⦄ (m : Message) : Type 0 where
  pub id_fits : IsU16 m.header.id
  pub opcode_fits : m.header.opcode < 16
  pub questions_fit : All IsWireQuestion m.questions
  pub answers_fit : All IsWireRecord m.answers
  pub authority_fit : All IsWireRecord m.authority
  pub additional_fit : All (λ r. IsWireRecord r ⊎ IsWireOpt r) m.additional
  pub few_questions : IsU16 (length m.questions)
  pub few_answers : IsU16 (length m.answers)
  pub few_authority : IsU16 (length m.authority)
  pub few_additional : IsU16 (length m.additional)

-- What the wire keeps of a message: all but the rcode, of which it has the low four bits and the
-- extension that the first OPT record carries.
abbrev pub on_wire : Message → Message
on_wire m = record m {
  header = fold_ext_rcode (edns m) (record (m.header) { rcode = m.header.rcode % 16 });
}

module _ ⦃text : Text⦄ where
  -- `e'` is `e` with a section appended; `run` reads it where it stands.
  record IsSection {A : Type 0} (run : Bytes → ℕ → Result (A × ℕ)) (e : Encoder) (seen : A)
      (e' : Encoder) : Type 0 where
    added : Bytes
    appended : e'.out ≡ e.out ++ added
    sound : IsSound e'
    reads : (more : Bytes) → run (e'.out ++ more) (length e.out) ≡ ok (seen, length e'.out)

  -- One section of records, given what is known of one record.
  module _ (P : Record → Type 0) (fix : Record → Record)
      (step : (e : Encoder) (r : Record)
        → IsSound e
        → P r
        → (e' : Encoder) × (write_record e r ≡ ok e')
          × (seen : Record) × IsRecorded e seen e'
          × (fix seen ≡ r)) where
    write_records-IsSection :
        (rs : List Record) (e : Encoder)
        → IsSound e
        → All P rs
        → (e' : Encoder) × (write_records e rs ≡ ok e')
          × IsSection (λ buf pos. read_records fix buf (length rs) pos) e rs e'
    unfolding write_records read_records
    write_records-IsSection [] e s h = (
      e,
      refl,
      record { added = []; appended = sym (append-nil e.out); sound = s; reads = λ more. refl },
    )
    write_records-IsSection (r ∷ rs) e s h =
        let (e1, wrote, seen, one, fixed) = step e r s h.0 in
        let (e2, wrote_rest, rest) = write_records-IsSection rs e1 one.sound h.1 in
        let together : e2.out ≡ e.out ++ (one.added ++ rest.added) =
          rest.appended
          ∙ ap (λ x. x ++ rest.added) one.appended
          ∙ append_assoc e.out one.added rest.added in
        (
          e2,
          rw (wrote, wrote_rest) refl,
          record {
            added = one.added ++ rest.added;
            appended = together;
            sound = rest.sound;
            reads = λ more.
                let first : read_record (e2.out ++ more) (length e.out) ≡ ok (seen, length e1.out) =
                  subst (λ x. read_record x (length e.out) ≡ ok (seen, length e1.out))
                    (sym (append_assoc e1.out rest.added more)
                      ∙ ap (λ x. x ++ more) (sym rest.appended))
                    (one.reads (rest.added ++ more)) in
                rw (first, rest.reads more, fixed) refl;
          },
        )

  recover_fields-plain :
      (r : Record) {lay : Layout} {d : RData} → IsWireData lay d → recover_fields r d ≡ d
  recover_fields-plain r (w_a ip) = refl
  recover_fields-plain r (w_aaaa s x) = refl
  recover_fields-plain r (w_name x) = refl
  recover_fields-plain r (w_mx x y) = refl
  recover_fields-plain r (w_txt ss x) = refl
  recover_fields-plain r (w_srv x y z w) = refl
  recover_fields-plain r (w_caa f t v x y) = refl
  recover_fields-plain r (w_rrsig x0 x1 x2 x3 x4 w) = refl
  recover_fields-plain r (w_nsec b x) = refl
  recover_fields-plain r (w_raw s) = refl

  plain_step :
      (e : Encoder) (r : Record)
      → IsSound e
      → IsWireRecord r
      → (e' : Encoder) × (write_record e r ≡ ok e')
        × (seen : Record) × IsRecorded e seen e'
        × (seen ≡ r)
  plain_step e r s w =
      let (e', wrote, one) = write_record-plain e r s w in (e', wrote, r, one, refl)

  additional_step :
      (e : Encoder) (r : Record)
      → IsSound e
      → (IsWireRecord r ⊎ IsWireOpt r)
      → (e' : Encoder) × (write_record e r ≡ ok e')
        × (seen : Record) × IsRecorded e seen e'
        × (recover_opt seen ≡ r)
  unfolding recover_opt
  additional_step e r s (inl w) =
      let (e', wrote, one) = write_record-plain e r s w in
      (e', wrote, r, one, ap (λ d. record r { rdata = d }) (recover_fields-plain r w.layout_fits))
  additional_step e r s (inr w) =
      let (e', wrote, one) = write_record-opt e r w s in
      (e', wrote, blank_record w, one, recover_opt-blank r w)

  read_question-At :
      (q : Question) (w : IsWireQuestion q) (e e1 : Encoder) (more : Bytes)
      → IsWritten e q.name e1
      → read_question
          (cursor ((e1.out ++ (be16_bytes q.qtype ++ be16_bytes q.qclass)) ++ more) (length e.out))
        ≡ ok (
          q,
          cursor
              ((e1.out ++ (be16_bytes q.qtype ++ be16_bytes q.qclass)) ++ more)
              (length (e1.out ++ (be16_bytes q.qtype ++ be16_bytes q.qclass))),
        )
  unfolding read_question
  read_question-At q w e e1 more iw =
      let tail = be16_bytes q.qtype ++ be16_bytes q.qclass in
      let p = length e1.out in
      let buf = e1.out ++ (tail ++ more) in
      let h0 : At buf p (be16_bytes q.qtype ++ (be16_bytes q.qclass ++ more)) =
        drop-length e1.out (tail ++ more) in
      let h1 : At buf (p + 2) (be16_bytes q.qclass ++ more) =
        drop_past p buf (be16_bytes q.qtype) _ h0 in
      let end : p + 2 + 2 ≡ length (e1.out ++ tail) = omega (arith, length-append e1.out tail) in
      rw
        (
          append_assoc e1.out tail more,
          iw.reads (tail ++ more),
          u16-At buf p q.qtype _ w.qtype_fits h0,
          u16-At buf (p + 2) q.qclass more w.qclass_fits h1,
          end,
        )
        refl

  -- `e'` is `e` with questions appended.
  record IsAsked (e : Encoder) (qs : List Question) (e' : Encoder) : Type 0 where
    added : Bytes
    appended : e'.out ≡ e.out ++ added
    sound : IsSound e'
    reads :
        (more : Bytes)
        → read_questions (length qs) (cursor (e'.out ++ more) (length e.out))
          ≡ ok (qs, cursor (e'.out ++ more) (length e'.out))

  write_questions-IsAsked :
      (qs : List Question) (e : Encoder)
      → IsSound e
      → All IsWireQuestion qs
      → (e' : Encoder) × (write_questions e qs ≡ ok e') × IsAsked e qs e'
  unfolding write_questions read_questions write_question
  write_questions-IsAsked [] e s h = (
    e,
    refl,
    record { added = []; appended = sym (append-nil e.out); sound = s; reads = λ more. refl },
  )
  write_questions-IsAsked (q ∷ qs) e s h =
      let (e1, wrote, iw) = write_name-IsWritten e q.name s h.0.named in
      let tail = be16_bytes q.qtype ++ be16_bytes q.qclass in
      let e2 : Encoder = push e1 tail in
      let pushed : push (push e1 (be16_bytes q.qtype)) (be16_bytes q.qclass) ≡ e2 =
        ap (λ (x : Bytes). record e1 { out = x })
          (append_assoc e1.out (be16_bytes q.qtype) (be16_bytes q.qclass)) in
      let sound2 : IsSound e2 = All-IsStored-append e1.out tail e1.name_map iw.sound in
      let (e3, wrote_rest, rest) = write_questions-IsAsked qs e2 sound2 h.1 in
      (
        e3,
        rw (wrote, pushed, wrote_rest) refl,
        record {
          added = iw.added ++ (tail ++ rest.added);
          appended =
              rest.appended ∙ ap (λ x. (x ++ tail) ++ rest.added) iw.appended ∙ simp append_assoc;
          sound = rest.sound;
          reads = λ more.
              let whole : (e1.out ++ tail) ++ (rest.added ++ more) ≡ e3.out ++ more =
                sym (append_assoc (e1.out ++ tail) rest.added more)
                ∙ ap (λ x. x ++ more) (sym rest.appended) in
              let first : read_question (cursor (e3.out ++ more) (length e.out))
                  ≡ ok (q, cursor (e3.out ++ more) (length e2.out)) =
                subst
                  (λ x. read_question (cursor x (length e.out)) ≡ ok (q, cursor x (length e2.out)))
                  whole (read_question-At q h.0 e e1 (rest.added ++ more) iw) in
              rw (first, rest.reads more) refl;
        },
      )

  -- The six words of the header.
  header-At :
      (m : Message) (w : IsWireMessage m) (rest : Bytes)
      → parse_message (header_bytes m ++ rest)
        ≡ parse_body
            (record (m.header) { rcode = m.header.rcode % 16 })
            (length m.questions)
            (length m.answers)
            (length m.authority)
            (length m.additional)
            (cursor (header_bytes m ++ rest) 12)
  unfolding parse_message header_bytes
  header-At m w rest =
      let buf = header_bytes m ++ rest in
      rw
        (
          u16-At buf 0 m.header.id _ w.id_fits refl,
          u16-At buf 2 (encode_flags m.header) _ (encode_flags-lt m.header w.opcode_fits) refl,
          u16-At buf 4 (length m.questions) _ w.few_questions refl,
          u16-At buf 6 (length m.answers) _ w.few_answers refl,
          u16-At buf 8 (length m.authority) _ w.few_authority refl,
          u16-At buf 10 (length m.additional) _ w.few_additional refl,
          parse_flags-encode_flags m.header w.opcode_fits,
          ltb-eq-false (length buf - 0) 12 (omega arith),
        )
        refl

  length-header_bytes : (m : Message) → length (header_bytes m) ≡ 12
  unfolding header_bytes
  length-header_bytes m = refl

  -- A message in wire form is encoded, and parsing the bytes gives what the wire keeps of it. The data of
  -- its records are of any type but SOA, and OPT records stand in the additional section only.
  pub parse_message-encode_message :
      (m : Message)
      → IsWireMessage m
      → (s : Bytes) × (encode_message m ≡ ok s) × (parse_message s ≡ ok (on_wire m))
  unfolding encode_message parse_body edns
  parse_message-encode_message m w =
      let e0 : Encoder = push new_encoder (header_bytes m) in
      let (e1, wrote1, s1) = write_questions-IsAsked m.questions e0 tt w.questions_fit in
      let (e2, wrote2, s2) =
        write_records-IsSection IsWireRecord (λ r. r) plain_step m.answers e1 s1.sound
          w.answers_fit in
      let (e3, wrote3, s3) =
        write_records-IsSection IsWireRecord (λ r. r) plain_step m.authority e2 s2.sound
          w.authority_fit in
      let (e4, wrote4, s4) =
        write_records-IsSection (λ r. IsWireRecord r ⊎ IsWireOpt r) recover_opt additional_step
          m.additional e3 s3.sound w.additional_fit in
      let from3 : e4.out ≡ e3.out ++ s4.added = s4.appended in
      let from2 : e4.out ≡ e2.out ++ (s3.added ++ s4.added) =
        from3 ∙ ap (λ x. x ++ s4.added) s3.appended ∙ append_assoc e2.out s3.added s4.added in
      let from1 : e4.out ≡ e1.out ++ (s2.added ++ (s3.added ++ s4.added)) =
        from2
        ∙ ap (λ x. x ++ (s3.added ++ s4.added)) s2.appended
        ∙ append_assoc e1.out s2.added (s3.added ++ s4.added) in
      let from0 : e4.out ≡ header_bytes m ++ (s1.added ++ (s2.added ++ (s3.added ++ s4.added))) =
        from1
        ∙ ap (λ x. x ++ (s2.added ++ (s3.added ++ s4.added))) s1.appended
        ∙ append_assoc (header_bytes m) s1.added (s2.added ++ (s3.added ++ s4.added)) in
      (
        e4.out,
        rw (wrote1, wrote2, wrote3, wrote4) refl,
        subst
              (λ x.
                parse_message x
                ≡ parse_body (record (m.header) { rcode = m.header.rcode % 16 })
                    (length m.questions) (length m.answers) (length m.authority)
                    (length m.additional) (cursor x 12))
              (sym from0) (header-At m w _)
            ∙ rw
                (
                  at
                      (λ x.
                        read_questions (length m.questions) (cursor x 12)
                        ≡ ok (m.questions, cursor x (length e1.out)))
                      from1
                      (rw (← length-header_bytes m)
                        (s1.reads (s2.added ++ (s3.added ++ s4.added)))),
                  at
                      (λ x.
                        read_records (λ r. r) x (length m.answers) (length e1.out)
                        ≡ ok (m.answers, length e2.out))
                      from2 (s2.reads (s3.added ++ s4.added)),
                  at
                      (λ x.
                        read_records (λ r. r) x (length m.authority) (length e2.out)
                        ≡ ok (m.authority, length e3.out))
                      from3 (s3.reads s4.added),
                  at
                      (λ x.
                        read_records recover_opt x (length m.additional) (length e3.out)
                        ≡ ok (m.additional, length e4.out))
                      (sym (append-nil e4.out)) (s4.reads []),
                )
                refl,
      )
    where
      at : (P : Bytes → Type 0) {x y : Bytes} → x ≡ y → P y → P x
      at P e h = subst P (sym e) h
