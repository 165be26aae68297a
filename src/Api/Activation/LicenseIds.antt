-- ===== src/Api/Activation/LicenseIds.antt =====
-- The primary key of the table of licenses (api/src/vms/edge/service.py): rows with different license keys
-- are different rows, and to save one leaves the others.
use next_sec.Prelude.{
  ℕ, ◌≡◌, ◌≢◌, refl, sym, ap, ◌∙◌, true, false, some, List, [], ◌∷◌, map, arith, elem, inl, inr,
  Bool-cases, ◌==◌, ==_iff,
}
use next_sec.Api.EdgeDb.{LicenseKey, find_license}
use next_sec.Api.Activation.{save_license}
use next_sec.Api.Activation.Tables.{some_inj}

abbrev pub license_ids : List LicenseKey → List ℕ
license_ids = map (λ l. l.id)

abbrev pub Unique : List ℕ → Type 0
Unique [] = Unit
Unique (i ∷ is) = (elem i is ≡ false) × Unique is

-- The primary key: no id is listed twice.
abbrev pub HasKeys : List LicenseKey → Type 0
HasKeys ls = Unique (license_ids ls)

pub license_ids-save_license :
    (l : LicenseKey) (ls : List LicenseKey) → license_ids (save_license l ls) ≡ license_ids ls
license_ids-save_license l [] = refl
license_ids-save_license l (x ∷ ls) =
    let rest = license_ids-save_license l ls in
    elim (Bool-cases (x.id == l.id)) [
      | inl own ↦ simp own (
          ap (λ i. i ∷ license_ids (save_license l ls)) (sym ((==_iff x.id l.id).0 own))
          ∙ ap (λ is. x.id ∷ is) rest)
      | inr other ↦ simp other (ap (λ is. x.id ∷ is) rest)
    ]

found_id :
    (v : ℕ) (l : LicenseKey) (ls : List LicenseKey)
    → find_license v ls ≡ some l
    → elem l.id (license_ids ls) ≡ true
found_id v l [] h = absurd (ground arith)
found_id v l (x ∷ ls) h = elim (Bool-cases (x.license_key == v)) [
  | inl here ↦ let same : x.id ≡ l.id = ap (λ y. y.id) (some_inj x l (rw here at h)) in ground arith
  | inr away ↦ let rest = found_id v l ls (rw away at h) in ground arith
]

-- Licenses with different keys are different rows.
pub apart :
    (v w : ℕ) (l m : LicenseKey) (ls : List LicenseKey)
    → HasKeys ls
    → find_license v ls ≡ some l
    → find_license w ls ≡ some m
    → v ≢ w
    → (m.id == l.id) ≡ false
apart v w l m [] h f g other = absurd (ground arith)
apart v w l m (x ∷ ls) h f g other = elim (Bool-cases (x.license_key == v)) [
  | inl here ↦
      let away : (x.license_key == w) ≡ false = ground arith in
      let is_l : x.id ≡ l.id = ap (λ y. y.id) (some_inj x l (rw here at f)) in
      let later = found_id w m ls (rw away at g) in
      differ x.id l.id m.id (license_ids ls) h.0 is_l later
  | inr away ↦ elim (Bool-cases (x.license_key == w)) [
    | inl here ↦
        let is_m : x.id ≡ m.id = ap (λ y. y.id) (some_inj x m (rw here at g)) in
        let later = found_id v l ls (rw away at f) in
        let ne = differ x.id m.id l.id (license_ids ls) h.0 is_m later in ground arith
    | inr away' ↦ apart v w l m ls h.1 (rw away at f) (rw away' at g) other
  ]
]
  where
    differ :
        (i j k : ℕ) (is : List ℕ) → elem i is ≡ false → i ≡ j → elem k is ≡ true → (k == j) ≡ false
    differ i j k is new same old = elim (Bool-cases (k == j)) [
      | inl eq ↦
          let at : i ≡ k = same ∙ sym ((==_iff k j).0 eq) in
          absurd (ground (arith, sym new ∙ ap (λ n. elem n is) at ∙ old))
      | inr ne ↦ ne
    ]

pub find-save_other :
    (v : ℕ) (l m : LicenseKey) (ls : List LicenseKey)
    → find_license v ls ≡ some l
    → (m.id == l.id) ≡ false
    → (m.license_key == v) ≡ false
    → find_license v (save_license m ls) ≡ some l
find-save_other v l m [] h i k = h
find-save_other v l m (x ∷ ls) h i k = elim (Bool-cases (x.id == m.id)) [
  | inl own ↦ elim (Bool-cases (x.license_key == v)) [
    | inl here ↦
        let is_l : x.id ≡ l.id = ap (λ y. y.id) (some_inj x l (rw here at h)) in
        absurd (ground arith)
    | inr away ↦ simp own (simp k (find-save_other v l m ls (rw away at h) i k))
  ]
  | inr other ↦ elim (Bool-cases (x.license_key == v)) [
    | inl here ↦ simp other (simp here (rw here at h))
    | inr away ↦ simp other (simp away (find-save_other v l m ls (rw away at h) i k))
  ]
]
