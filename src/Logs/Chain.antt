-- ===== src/Logs/Chain.antt =====
use dnsd_rs.Base.{
  Bool, Bool-cases, Bytes, List, [], ap, append_assoc, ap₂, arith, bytes_eq, bytes_eq→eq, false,
  inl, inr, length, map, refl, sym, take, take-length, true, ℕ, ◌*◌, ◌++◌, ◌∙◌, ◌∷◌, ◌≡◌, ◌⊎◌,
}
use dnsd_rs.Logs.{
  AuditRow, AuditWriter, bar, compute_hash, genesis, hash_input, hex_encode, last_entry_hash,
  make_audit_row, record_row,
}

-- The chain of hashes: what the writer keeps, and what a chain does and does not pin down.

module _ (sha256 : Bytes → Bytes) where
  -- The digest over the fields of a row, in the hexadecimal form that is stored.
  abbrev digest : Bytes → Bytes
  digest s = hex_encode (sha256 s)

  abbrev pub row_input : AuditRow → Bytes
  row_input r = hash_input r.prev_hash r.ts_ms r.actor r.action r.target r.detail r.client_ip

  -- Each row holds the hash of the row before it, from `first` on, and its own hash over its fields.
  abbrev IsChain : Bytes → List AuditRow → Type 0
  IsChain first [] = Unit
  IsChain first (r ∷ rs) =
      (r.prev_hash ≡ first) × (r.entry_hash ≡ digest (row_input r)) × IsChain r.entry_hash rs

  abbrev pub IsSealed : AuditWriter → Type 0
  IsSealed w = IsChain genesis w.rows × (w.last_hash ≡ last_entry_hash genesis w.rows)

  IsChain-append :
      (first : Bytes) (rs : List AuditRow) (r : AuditRow)
      → IsChain first rs
      → r.prev_hash ≡ last_entry_hash first rs
      → r.entry_hash ≡ digest (row_input r)
      → IsChain first (rs ++ (r ∷ []))
  unfolding last_entry_hash
  IsChain-append first [] r h p e = (p, e, tt)
  IsChain-append first (x ∷ rs) r h p e = (h.0, h.1, IsChain-append x.entry_hash rs r h.2 p e)

  last_entry_hash-append :
      (first : Bytes) (rs : List AuditRow) (r : AuditRow)
      → last_entry_hash first (rs ++ (r ∷ [])) ≡ r.entry_hash
  unfolding last_entry_hash
  last_entry_hash-append first [] r = refl
  last_entry_hash-append first (x ∷ rs) r = last_entry_hash-append x.entry_hash rs r

  -- Whether the database is there, takes the row or refuses it: a sealed table stays sealed.
  pub record_row-IsSealed :
      (available inserted : Bool) (ts_ms : ℕ) (actor action target detail client_ip : Bytes)
      (w : AuditWriter)
      → IsSealed w
      → IsSealed (record_row sha256 available inserted ts_ms actor action target detail client_ip w)
  unfolding record_row make_audit_row compute_hash
  record_row-IsSealed false inserted ts_ms actor action target detail client_ip w h = h
  record_row-IsSealed true false ts_ms actor action target detail client_ip w h = h
  record_row-IsSealed true true ts_ms actor action target detail client_ip w h =
      let row = make_audit_row sha256 w.last_hash ts_ms actor action target detail client_ip in
      (
        IsChain-append genesis w.rows row h.0 h.1 refl,
        sym (last_entry_hash-append genesis w.rows row),
      )

  -- Two rows whose inputs differ and have one digest.
  abbrev IsClash : AuditRow → AuditRow → Type 0
  IsClash r s =
      (bytes_eq (row_input r) (row_input s) ≡ false) × (digest (row_input r) ≡ digest (row_input s))

  -- Two such rows at one place of two tables.
  abbrev pub AnyClash : List AuditRow → List AuditRow → Type 0
  AnyClash [] ss = true ≡ false
  AnyClash (r ∷ rs) [] = true ≡ false
  AnyClash (r ∷ rs) (s ∷ ss) = IsClash r s ⊎ AnyClash rs ss

  length-hex_encode : (s : Bytes) → length (hex_encode s) ≡ 2 * length s
  unfolding hex_encode
  length-hex_encode [] = omega arith
  length-hex_encode (b ∷ bs) = omega (arith, length-hex_encode bs)

  take-hash_input :
      (r : AuditRow) (n : ℕ) → length r.prev_hash ≡ n → take n (row_input r) ≡ r.prev_hash
  unfolding hash_input
  take-hash_input r n e = rw (sym e) (take-length r.prev_hash _)

  -- Equal digests of two rows of a chain: equal inputs and predecessors, or a clash.
  row_agrees :
      (r s : AuditRow)
      → length r.prev_hash ≡ 64
      → length s.prev_hash ≡ 64
      → digest (row_input r) ≡ digest (row_input s)
      → IsClash r s ⊎ ((r.prev_hash ≡ s.prev_hash) × (row_input r ≡ row_input s))
  row_agrees r s lr ls e = elim (Bool-cases (bytes_eq (row_input r) (row_input s))) [
    | inl same ↦
        let eq = bytes_eq→eq (row_input r) (row_input s) same in
        inr (sym (take-hash_input r 64 lr) ∙ ap (take 64) eq ∙ take-hash_input s 64 ls, eq)
    | inr differ ↦ inl (differ, e)
  ]

  chains_agree :
      (f g : Bytes) (rs ss : List AuditRow)
      → ((s : Bytes) → length (sha256 s) ≡ 32)
      → length f ≡ 64
      → length g ≡ 64
      → length rs ≡ length ss
      → IsChain f rs
      → IsChain g ss
      → last_entry_hash f rs ≡ last_entry_hash g ss
      → AnyClash rs ss ⊎ ((f ≡ g) × (map row_input rs ≡ map row_input ss))
  unfolding last_entry_hash
  chains_agree f g [] [] sized lf lg n h k e = inr (e, refl)
  chains_agree f g [] (s ∷ ss) sized lf lg n h k e = absurd (omega (arith, n))
  chains_agree f g (r ∷ rs) [] sized lf lg n h k e = absurd (omega (arith, n))
  chains_agree f g (r ∷ rs) (s ∷ ss) sized lf lg n h k e =
      let long : (t : AuditRow) → length (digest (row_input t)) ≡ 64 =
        λ t. omega (arith, length-hex_encode (sha256 (row_input t)), sized (row_input t)) in
      elim (chains_agree r.entry_hash s.entry_hash rs ss sized (ap length h.1 ∙ long r)
        (ap length k.1 ∙ long s) (omega (arith, n)) h.2 k.2 e) [
          | inl clash ↦ inl (inr clash)
          | inr (same, rest) ↦
              elim (row_agrees r s (ap length h.0 ∙ lf) (ap length k.0 ∙ lg)
                (sym h.1 ∙ same ∙ k.1)) [
                  | inl clash ↦ inl (inl clash)
                  | inr (prev, eq) ↦ inr (sym h.0 ∙ prev ∙ k.0, ap₂ ◌∷◌ eq rest)
                ]
        ]

  -- Two sealed tables with equally many rows and one last hash were hashed from the same inputs, row by
  -- row, or at one place they hold rows whose inputs differ and have one digest. A digest has 32 bytes.
  pub sealed_tables-agree :
      (v w : AuditWriter)
      → ((s : Bytes) → length (sha256 s) ≡ 32)
      → IsSealed v
      → IsSealed w
      → length v.rows ≡ length w.rows
      → v.last_hash ≡ w.last_hash
      → AnyClash v.rows w.rows ⊎ (map row_input v.rows ≡ map row_input w.rows)
  sealed_tables-agree v w sized h k n e =
      elim (chains_agree genesis genesis v.rows w.rows sized refl refl n h.0 k.0
        (sym h.1 ∙ e ∙ k.1)) [ inl clash ↦ inl clash | inr (_, same) ↦ inr same ]

  -- The inputs do not pin down the fields: text that holds a bar can move from one field to the next,
  -- here from the actor to the action, and the hash stays the same.
  compute_hash-moved_bar :
      (prev : Bytes) (ts_ms : ℕ) (actor moved action target detail client_ip : Bytes)
      → compute_hash sha256 prev ts_ms (actor ++ (bar ∷ moved)) action target detail client_ip
        ≡ compute_hash sha256 prev ts_ms actor (moved ++ (bar ∷ action)) target detail client_ip
  unfolding compute_hash hash_input
  compute_hash-moved_bar prev ts_ms actor moved action target detail client_ip =
      rw (append_assoc actor (bar ∷ moved), append_assoc moved (bar ∷ action)) refl
