-- ===== src/Store/Rows.antt =====
-- How the reads of src/store/mod.rs treat the rows that the database gives.
use dnsd_rs.Base.{List, Result, [], ap, err, ok, panic, refl, sym, ◌++◌, ◌>>=◌, ◌∙◌, ◌∷◌, ◌≡◌}
use dnsd_rs.Store.Values.{
  Role, Row, admin, audit_admin, role_of_text, role_text, sec_admin, sys_admin, tenant,
}
use dnsd_rs.Store.Statements.{each_row}

-- Every role is read back from its text.
role_of_text-role_text : (r : Role) → role_of_text (role_text r) ≡ r
unfolding role_of_text role_text
role_of_text-role_text admin = refl
role_of_text-role_text sys_admin = refl
role_of_text-role_text sec_admin = refl
role_of_text-role_text audit_admin = refl
role_of_text-role_text tenant = refl

head_ok {ℓ} : {A : Type ℓ} {x y : List A} → ok x ≡ ok y → x ≡ y
head_ok h = cc

-- The rows of a result are read, each by itself.
pub each_row-ok {ℓ} :
    {A : Type ℓ} (f : Row → Result A) (front back : List Row) (r : Row) (all : List A)
    → each_row f (front ++ (r ∷ back)) ≡ ok all
    → (a : A) × (before : List A) × (later : List A) × (f r ≡ ok a) × (all ≡ before ++ (a ∷ later))
unfolding each_row
each_row-ok {A} f [] back r all h = go (f r) (each_row f back) refl h
  where
    go :
        (x : Result A) (rest : Result (List A))
        → f r ≡ x
        → (x >>= λ a. rest >>= λ as_. ok (a ∷ as_)) ≡ ok all
        → (a : A) × (before : List A) × (later : List A) × (f r ≡ ok a)
          × (all ≡ before ++ (a ∷ later))
    go (ok a) (ok as_) e h = (a, [], as_, e, cc)
    go (ok a) (err y) e h = cc
    go (ok a) panic e h = cc
    go (err y) rest e h = cc
    go panic rest e h = cc
each_row-ok {A} f (q ∷ front) back r all h =
    go (f q) (each_row f (front ++ (r ∷ back))) (λ as_ e. each_row-ok f front back r as_ e) h
  where
    go :
        (x : Result A) (rest : Result (List A))
        → ((as_ : List A)
            → rest ≡ ok as_
            → (a : A) × (before : List A) × (later : List A) × (f r ≡ ok a)
              × (as_ ≡ before ++ (a ∷ later)))
        → (x >>= λ a. rest >>= λ as_. ok (a ∷ as_)) ≡ ok all
        → (a : A) × (before : List A) × (later : List A) × (f r ≡ ok a)
          × (all ≡ before ++ (a ∷ later))
    go (ok b) (ok as_) more h =
        let (a, before, later, ea, eall) = more as_ refl in
        (a, b ∷ before, later, ea, sym (head_ok h) ∙ ap (◌∷◌ b) eall)
    go (ok b) (err y) e h = cc
    go (ok b) panic e h = cc
    go (err y) rest e h = cc
    go panic rest e h = cc
