-- ===== src/Proto/Edns.antt =====
-- `build_query`, `add_edns`, `strip_ecs` and `echo_ecs` of src/proto.rs.
use mathlib.Core.Option
use dnsd_rs.Base.{
  Bool, Bytes, List, Option, [], any, dot, if◌then◌else◌, map, none, not, retain, some, true, ℕ,
  ◌++◌, ◌==◌, ◌∷◌,
}
use dnsd_rs.Proto.Ecs.{EcsInfo, encode_ecs}
use dnsd_rs.Proto.Text.{Text, canonical_name}
use dnsd_rs.Proto.Types.{
  Message, OptOption, RData, Record, class_in, default_header, default_message, edns_opt_ecs,
  type_opt,
}

-- `add_edns`
unfoldable pub add_edns : Message → ℕ → Option EcsInfo → Message
add_edns m udp_size info = record m {
  additional =
      m.additional
      ++ (record {
        name = dot ∷ [];
        rtype = type_opt;
        class = udp_size;
        ttl = 0;
        rdata = RData.opt (record {
          udp_size = udp_size;
          ext_rcode = 0;
          version = 0;
          flags = 0;
          options = elim info [
            | none ↦ []
            | some e ↦ record { code = edns_opt_ecs; payload = encode_ecs e } ∷ []
          ];
        });
      }
          ∷ []);
}

module _ ⦃text : Text⦄ where
  -- `build_query`
  unfoldable pub build_query : Bytes → ℕ → ℕ → Option EcsInfo → Message
  build_query name qtype id info =
      add_edns
        (record default_message {
          header = record default_header { id = id; rd = true };
          questions = record { name = canonical_name name; qtype = qtype; qclass = class_in } ∷ [];
        })
        1232 info

abbrev pub is_ecs : OptOption → Bool
is_ecs o = o.code == edns_opt_ecs

-- The loop body of `strip_ecs`.
abbrev pub strip_rdata : RData → RData
strip_rdata (RData.opt o) =
    RData.opt (record o { options = retain (λ x. not (is_ecs x)) o.options })
strip_rdata d = d

abbrev pub strip_record : Record → Record
strip_record r = if r.rtype == type_opt then record r { rdata = strip_rdata r.rdata } else r

-- `strip_ecs`
unfoldable pub strip_ecs : Message → Message
strip_ecs m = record m { additional = map strip_record m.additional }

abbrev echo_rdata : EcsInfo → RData → RData
echo_rdata e (RData.opt o) =
    if any is_ecs o.options
    then RData.opt o
    else RData.opt (record o {
      options = o.options ++ (record { code = edns_opt_ecs; payload = encode_ecs e } ∷ []);
    })
echo_rdata e d = d

-- The loop of `echo_ecs`: the first OPT record is the one that is changed; `none` if there is none.
unfoldable pub echo_first : EcsInfo → List Record → Option (List Record)
echo_first e [] = none
echo_first e (r ∷ rs) =
    if r.rtype == type_opt
    then some (record r { rdata = echo_rdata e r.rdata } ∷ rs)
    else Option.map (◌∷◌ r) (echo_first e rs)

-- `echo_ecs`
unfoldable pub echo_ecs : Message → EcsInfo → Message
echo_ecs m e = elim (echo_first e m.additional) [
  | some rs ↦ record m { additional = rs }
  | none ↦ add_edns m 1232 (some e)
]
