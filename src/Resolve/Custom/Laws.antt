-- ===== src/Resolve/Custom/Laws.antt =====
-- What `respond` answers for the names under the operator's zones.
use dnsd_rs.Base.{
  Bytes, List, Option, [], arith, false, if◌then◌else◌, length, none, refl, some, true, ℕ, ◌==◌,
  ◌∷◌, ◌≡◌,
}
use dnsd_rs.Proto.Text.{Text, canonical_name}
use dnsd_rs.Proto.Types.{Message, Question, Record, rcode_noerror, rcode_nxdomain}
use dnsd_rs.Resolve.Custom.{
  ZoneIndex, find_zone, own_loop, respond_own, respond_star, respond_zone, star_loop,
}
use dnsd_rs.Resolve.Dualstack.{AddrText}
use dnsd_rs.Resolve.ZoneRecords.{ZoneRecord}

module _ ⦃text : Text⦄ ⦃addr_text : AddrText⦄ (parse_u16 : Bytes → Option ℕ)
    (split_whitespace : Bytes → List Bytes) where
  -- An authoritative answer to the question asked: NOERROR with an answer, or NXDOMAIN without any.
  abbrev IsVerdict : Question → Message → Type 0
  IsVerdict q m =
      (m.header.aa ≡ true)
      × (m.header.qr ≡ true)
      × (m.questions ≡ q ∷ [])
      × (m.header.rcode ≡ (if length m.answers == 0 then rcode_nxdomain else rcode_noerror))

  -- What `respond` may return for a question.
  abbrev pub IsServed : Question → Option (Bytes × List ZoneRecord) → Option Message → Type 0
  IsServed q none reply = reply ≡ none
  IsServed q (some zone) none = true ≡ false
  IsServed q (some zone) (some m) = IsVerdict q m

  respond_star-IsVerdict :
      (q : Question) (rs : List Record) → IsVerdict q (respond_star parse_u16 split_whitespace q rs)
  respond_star-IsVerdict q [] = (refl, refl, refl, refl)
  respond_star-IsVerdict q (r ∷ rs) = (refl, refl, refl, ground arith)

  respond_own-IsVerdict :
      (q : Question) (qname : Bytes) (recs : List ZoneRecord) (rs : List Record) (c : Option Bytes)
      → IsVerdict q (respond_own parse_u16 split_whitespace q qname recs rs c)
  respond_own-IsVerdict q qname recs (r ∷ rs) c = (refl, refl, refl, ground arith)
  respond_own-IsVerdict q qname recs [] (some t) = (refl, refl, refl, refl)
  respond_own-IsVerdict q qname recs [] none =
      respond_star-IsVerdict q (star_loop parse_u16 split_whitespace qname q.qtype [] recs)

  -- Where no zone is found for the name, there is no reply; where one is, there is an authoritative reply
  -- to the question, NXDOMAIN where its answer section is empty and NOERROR where it is not.
  pub respond_zone-IsServed :
      (q : Question) (t : ZoneIndex)
      → IsServed q (find_zone q.name t) (respond_zone parse_u16 split_whitespace q t)
  unfolding respond_zone
  respond_zone-IsServed q t = served (find_zone q.name t)
    where
      served :
          (zone : Option (Bytes × List ZoneRecord))
          → IsServed q zone (elim zone [
            | none ↦ none
            | some (zone, recs) ↦
                let qname = canonical_name q.name in
                let own = own_loop parse_u16 split_whitespace zone qname q.qtype ([], none) recs in
                some (respond_own parse_u16 split_whitespace q qname recs own.0 own.1)
          ])
      served none = refl
      served (some (zone, recs)) = respond_own-IsVerdict q (canonical_name q.name) recs _ _
