-- ===== src/Proto/RoundTrip/Records.antt =====
-- Records: what `write_record` appends, `read_record` reads.
use dnsd_rs.Base.{
  ==_iff, All, Bytes, List, [], ap, append_assoc, arith, bit_and, bit_or, drop-length,
  if◌then◌else◌, length, length-append, length-drop, ltb-eq-false, ok, refl, sym, true, ℕ, ◌*◌,
  ◌++◌, ◌+◌, ◌-◌, ◌/◌, ◌<◌, ◌==◌, ◌^◌, ◌∙◌, ◌≡◌, ◌≤◌,
}
use dnsd_rs.Base.Bits.{bit_and-mod, bit_or-fields}
use dnsd_rs.Proto.Cursor.{be16_bytes, be32_bytes, new_cursor}
use dnsd_rs.Proto.Data.{
  IsU16, IsU32, IsWireData, parse_options-At, w_a, w_aaaa, w_caa, w_mx, w_name, w_nsec, w_raw,
  w_rrsig, w_srv, w_txt,
}
use dnsd_rs.Proto.Data.RoundTrip.{IsWireData-IsReadBack}
use dnsd_rs.Proto.Encode.{encode_options, opt_or_plain, push, write_opt, write_plain, write_record}
use dnsd_rs.Proto.Name.{Encoder, read_name}
use dnsd_rs.Proto.Name.Read.{drop_past}
use dnsd_rs.Proto.Name.RoundTrip.{IsWritten, write_name-IsWritten}
use dnsd_rs.Proto.Name.Write.{All-IsStored-append, IsSound}
use dnsd_rs.Proto.Parse.{
  Layout, l_opt, layout, parse_layout, parse_opt_rdata, parse_rdata, read_rdata, read_record,
  recover_opt,
}
use dnsd_rs.Proto.Reads.{At, At-fits, read_u16_at-At, read_u32_at-At, slice-At}
use dnsd_rs.Proto.RoundTrip.{IsWireOpt, IsWireRecord, opt_ttl}
use dnsd_rs.Proto.Text.{Text}
use dnsd_rs.Proto.Types.{Opt, OptOption, RData, Record, type_opt}

-- `parse_opt_rdata` leaves the header fields at zero.
abbrev blank_opt : List OptOption → RData
blank_opt os =
    RData.opt (record { udp_size = 0; ext_rcode = 0; version = 0; flags = 0; options = os })

module _ ⦃text : Text⦄ where
  -- The fields behind the name, and the data.
  read_record-At :
      (buf name w more : Bytes) (d : RData) (pos p t c ttl : ℕ)
      → read_name buf pos ≡ ok (name, p)
      → IsU16 t
      → IsU16 c
      → IsU32 ttl
      → IsU16 (length w)
      → At buf p (
          be16_bytes t
          ++ (be16_bytes c ++ (be32_bytes ttl ++ (be16_bytes (length w) ++ (w ++ more)))))
      → (At buf (p + 2 + 2 + 4 + 2) (w ++ more)
          → p + 2 + 2 + 4 + 2 ≤ length buf
          → parse_layout (layout t) buf (p + 2 + 2 + 4 + 2) (length w) (new_cursor w) ≡ ok d)
      → read_record buf pos
        ≡ ok (
          record { name = name; rtype = t; class = c; ttl = ttl; rdata = d },
          p + 2 + 2 + 4 + 2 + length w,
        )
  unfolding read_record read_rdata parse_rdata
  read_record-At buf name w more d pos p t c ttl named ht hc httl hw h parses =
      let h1 = drop_past p buf (be16_bytes t) _ h in
      let h2 = drop_past (p + 2) buf (be16_bytes c) _ h1 in
      let h3 = drop_past (p + 2 + 2) buf (be32_bytes ttl) _ h2 in
      let h4 : At buf (p + 2 + 2 + 4 + 2) (w ++ more) =
        drop_past (p + 2 + 2 + 4) buf (be16_bytes (length w)) (w ++ more) h3 in
      let inside : p + 2 + 2 + 4 + 2 ≤ length buf =
        At-fits buf (be16_bytes (length w)) (w ++ more) (p + 2 + 2 + 4) h3 (omega arith) in
      let fits : p + 2 + 2 + 4 + 2 + length w ≤ length buf =
        omega (
          arith,
          inside,
          length-drop (p + 2 + 2 + 4 + 2) buf,
          ap length h4,
          length-append w more,
        ) in
      rw
        (
          named,
          read_u16_at-At buf p t _ ht h,
          read_u16_at-At buf (p + 2) c _ hc h1,
          read_u32_at-At buf (p + 2 + 2) ttl _ httl h2,
          read_u16_at-At buf (p + 2 + 2 + 4) (length w) (w ++ more) hw h3,
          ltb-eq-false (length buf) (p + 2 + 2 + 4 + 2 + length w) fits,
          slice-At buf w more (p + 2 + 2 + 4 + 2) (p + 2 + 2 + 4 + 2 + length w) h4 refl inside,
          parses h4 inside,
        )
        refl

  -- `e'` is `e` with a record appended: the map stays sound, and `read_record` there gives `seen`.
  pub record IsRecorded (e : Encoder) (seen : Record) (e' : Encoder) : Type 0 where
    pub added : Bytes
    pub appended : e'.out ≡ e.out ++ added
    pub sound : IsSound e'
    pub reads :
        (more : Bytes) → read_record (e'.out ++ more) (length e.out) ≡ ok (seen, length e'.out)

  -- What `write_record` puts behind the name.
  abbrev behind_name : ℕ → ℕ → ℕ → Bytes → Bytes
  behind_name t c ttl w =
      be16_bytes t ++ (be16_bytes c ++ (be32_bytes ttl ++ (be16_bytes (length w) ++ w)))

  push_all : Encoder → ℕ → ℕ → ℕ → Bytes → Encoder
  push_all e t c ttl w =
      push
        (push (push (push (push e (be16_bytes t)) (be16_bytes c)) (be32_bytes ttl))
          (be16_bytes (length w)))
        w

  push_all-out :
      (e : Encoder) (t c ttl : ℕ) (w : Bytes)
      → push_all e t c ttl w ≡ push e (behind_name t c ttl w)
  unfolding push_all
  push_all-out e t c ttl w = simp append_assoc

  push_all-IsRecorded :
      (e e1 : Encoder) (name w : Bytes) (d : RData) (t c ttl : ℕ)
      → IsWritten e name e1
      → IsU16 t
      → IsU16 c
      → IsU32 ttl
      → IsU16 (length w)
      → ((buf : Bytes) (start : ℕ) (more : Bytes)
          → At buf start (w ++ more)
          → start ≤ length buf
          → parse_layout (layout t) buf start (length w) (new_cursor w) ≡ ok d)
      → IsRecorded e
          (record { name = name; rtype = t; class = c; ttl = ttl; rdata = d })
          (push_all e1 t c ttl w)
  push_all-IsRecorded e e1 name w d t c ttl iw ht hc httl hw parses =
      rw (push_all-out e1 t c ttl w) (
        let tail = behind_name t c ttl w in
        record {
          added = iw.added ++ tail;
          appended = ap (λ x. x ++ tail) iw.appended ∙ append_assoc e.out iw.added tail;
          sound = All-IsStored-append e1.out tail e1.name_map iw.sound;
          reads = λ more.
              let whole : (e1.out ++ tail) ++ more ≡ e1.out ++ (tail ++ more) =
                append_assoc e1.out tail more in
              let place : At (e1.out ++ (tail ++ more)) (length e1.out) (
                  be16_bytes t
                  ++ (be16_bytes c ++ (be32_bytes ttl ++ (be16_bytes (length w) ++ (w ++ more))))) =
                drop-length e1.out (tail ++ more) in
              let end : length e1.out + 2 + 2 + 4 + 2 + length w ≡ length (e1.out ++ tail) =
                omega (arith, length-append e1.out tail) in
              rw whole (
                read_record-At (e1.out ++ (tail ++ more)) name w more d (length e.out)
                  (length e1.out) t c ttl (iw.reads (tail ++ more)) ht hc httl hw place
                  (λ at le.
                    parses (e1.out ++ (tail ++ more)) (length e1.out + 2 + 2 + 4 + 2) more at le)
                ∙ ap
                    (λ p.
                      ok (record { name = name; rtype = t; class = c; ttl = ttl; rdata = d }, p))
                    end);
        })

  opt_or_plain-plain :
      (e : Encoder) (r : Record) {lay : Layout} {d : RData}
      → IsWireData lay d
      → opt_or_plain e r d ≡ write_plain e r
  opt_or_plain-plain e r (w_a ip) = refl
  opt_or_plain-plain e r (w_aaaa s x) = refl
  opt_or_plain-plain e r (w_name x) = refl
  opt_or_plain-plain e r (w_mx x y) = refl
  opt_or_plain-plain e r (w_txt ss x) = refl
  opt_or_plain-plain e r (w_srv x y z w) = refl
  opt_or_plain-plain e r (w_caa f t v x y) = refl
  opt_or_plain-plain e r (w_rrsig x0 x1 x2 x3 x4 w) = refl
  opt_or_plain-plain e r (w_nsec b x) = refl
  opt_or_plain-plain e r (w_raw s) = refl

  -- With a sound map, a record in wire form that is not OPT is appended, and read back as it was; the
  -- map stays sound.
  pub write_record-plain :
      (e : Encoder) (r : Record)
      → IsSound e
      → IsWireRecord r
      → (e' : Encoder) × (write_record e r ≡ ok e') × IsRecorded e r e'
  unfolding write_record write_plain push_all
  write_record-plain e r s w =
      let (e1, wrote, iw) = write_name-IsWritten e r.name s w.named in
      let back = IsWireData-IsReadBack w.layout_fits in
      (
        push_all e1 r.rtype r.class r.ttl back.written,
        rw (wrote, opt_or_plain-plain (push e1 (be16_bytes r.rtype)) r w.layout_fits, back.encodes)
            refl,
        push_all-IsRecorded e e1 r.name back.written r.rdata r.rtype r.class r.ttl iw w.rtype_fits
            w.class_fits w.ttl_fits (w.short back.written back.encodes) back.parses,
      )

  parse_opt-At :
      (os : List OptOption) (buf : Bytes) (start : ℕ)
      → All (λ o. IsU16 o.code × IsU16 (length o.payload)) os
      → parse_layout l_opt buf start (length (encode_options os)) (new_cursor (encode_options os))
        ≡ ok (blank_opt os)
  unfolding parse_layout parse_opt_rdata
  parse_opt-At os buf start h =
      rw
        (parse_options-At os (length (encode_options os) - 0) (encode_options os) 0 [] h refl
          (omega arith) (omega arith))
        refl

-- The record that `read_record` gives for an OPT record, before its fields are recovered.
abbrev pub blank_record : {r : Record} → IsWireOpt r → Record
blank_record {r} w = record r { rdata = blank_opt w.fields.options }

-- The TTL of an OPT record holds its fields apart.
opt_ttl-sum :
    (o : Opt)
    → o.ext_rcode < 256
    → o.version < 256
    → IsU16 o.flags
    → opt_ttl o ≡ o.ext_rcode * 16777216 + o.version * 65536 + o.flags
opt_ttl-sum o he hv hf =
    let e : o.ext_rcode * 2 ^ 24 + o.version * 2 ^ 16 ≡ (o.ext_rcode * 256 + o.version) * 2 ^ 16 =
      omega arith in
    ap (λ x. bit_or x o.flags) (bit_or-fields 24 o.ext_rcode (o.version * 2 ^ 16) (omega arith) ∙ e)
    ∙ bit_or-fields 16 (o.ext_rcode * 256 + o.version) o.flags (omega arith)
    ∙ omega arith

-- The fields are recovered from the class and the TTL.
pub recover_opt-blank : (r : Record) (w : IsWireOpt r) → recover_opt (blank_record w) ≡ r
unfolding recover_opt
recover_opt-blank r w =
    let o = w.fields in
    let sum : r.ttl ≡ o.ext_rcode * 16777216 + o.version * 65536 + o.flags =
      w.ttl_eq ∙ opt_ttl-sum o w.ext_rcode_fits w.version_fits w.flags_fits in
    let ext : bit_and (r.ttl / 2 ^ 24) 0xFF ≡ o.ext_rcode = omega (
      arith,
      bit_and-mod 8 (r.ttl / 2 ^ 24),
      sum,
      w.ext_rcode_fits,
      w.version_fits,
      w.flags_fits,
    ) in
    let ver : bit_and (r.ttl / 2 ^ 16) 0xFF ≡ o.version = omega (
      arith,
      bit_and-mod 8 (r.ttl / 2 ^ 16),
      sum,
      w.ext_rcode_fits,
      w.version_fits,
      w.flags_fits,
    ) in
    let flg : bit_and r.ttl 0xFFFF ≡ o.flags =
      omega (arith, bit_and-mod 16 r.ttl, sum, w.ext_rcode_fits, w.version_fits, w.flags_fits) in
    let is_opt : (r.rtype == type_opt) ≡ true = (==_iff r.rtype type_opt).1 w.is_opt in
    let same : RData.opt (record {
      udp_size = r.class;
      ext_rcode = bit_and (r.ttl / 2 ^ 24) 0xFF;
      version = bit_and (r.ttl / 2 ^ 16) 0xFF;
      flags = bit_and r.ttl 0xFFFF;
      options = o.options;
    })
        ≡ RData.opt o =
      λ i. RData.opt (record {
        udp_size = w.size_eq i;
        ext_rcode = ext i;
        version = ver i;
        flags = flg i;
        options = o.options;
      }) in
    let fixed : (if r.rtype == type_opt
          then RData.opt (record {
            udp_size = r.class;
            ext_rcode = bit_and (r.ttl / 2 ^ 24) 0xFF;
            version = bit_and (r.ttl / 2 ^ 16) 0xFF;
            flags = bit_and r.ttl 0xFFFF;
            options = o.options;
          })
          else blank_opt o.options)
        ≡ r.rdata =
      rw is_opt (same ∙ sym w.is_data) in
    ap (λ (d : RData). record r { rdata = d }) fixed

module _ ⦃text : Text⦄ where
  -- An OPT record is appended, and read back with its header fields blank.
  pub write_record-opt :
      (e : Encoder) (r : Record) (w : IsWireOpt r)
      → IsSound e
      → (e' : Encoder) × (write_record e r ≡ ok e') × IsRecorded e (blank_record w) e'
  unfolding write_record write_opt push_all
  write_record-opt e r w s =
      let (e1, wrote, iw) = write_name-IsWritten e r.name s w.named in
      let o = w.fields in
      let payload = encode_options o.options in
      let is_opt : (r.rtype == type_opt) ≡ true = (==_iff r.rtype type_opt).1 w.is_opt in
      let sum : opt_ttl o ≡ o.ext_rcode * 16777216 + o.version * 65536 + o.flags =
        opt_ttl-sum o w.ext_rcode_fits w.version_fits w.flags_fits in
      let lay : layout r.rtype ≡ l_opt = ap layout w.is_opt ∙ layout-opt in
      (
        push_all e1 r.rtype r.class r.ttl payload,
        rw (wrote, w.is_data, is_opt, w.size_eq, w.ttl_eq) refl,
        push_all-IsRecorded e e1 r.name payload (blank_opt o.options) r.rtype r.class r.ttl iw
            (omega (arith, w.is_opt)) (omega (arith, w.size_eq, w.size_fits))
            (omega (arith, w.ttl_eq, sum, w.ext_rcode_fits, w.version_fits, w.flags_fits)) w.short
            (λ buf start more at le. rw lay (parse_opt-At o.options buf start w.options_fit)),
      )
    where
      layout-opt : layout type_opt ≡ l_opt
      layout-opt = unfold layout in refl
