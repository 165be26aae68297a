-- ===== src/Api/Activation/Locks.antt =====
-- A license that a machine has bound stays with it through whatever activations follow
-- (api/src/vms/edge/service.py).
use next_sec.Prelude.{
  ℕ, ◌≡◌, ◌≢◌, refl, sym, ap, ◌∙◌, true, false, some, List, [], ◌∷◌, arith, inl, inr, Bool-cases,
  ◌==◌, ==_iff,
}
use mathlib.Core.Path.{subst}
use next_sec.Api.Errors.{Result, failed, done}
use next_sec.Api.EdgeDb.{LicenseKey, EdgeDb, find_license, Fresh}
use next_sec.Api.Activation.{
  Request, Activation, save_license, activate, bound_license, is_bound, is_bound_elsewhere,
  reused_agent,
}
use next_sec.Api.Activation.Inversion.{activate-Passed}
use next_sec.Api.Activation.Tables.{some_inj, find_license-key, credentials-Kept}
use next_sec.Api.Activation.Binding.{activate-Bound}
use next_sec.Api.Activation.LicenseIds.{
  Unique, HasKeys, license_ids-save_license, apart, find-save_other,
}

-- A call of `activate`.
pub record ActivateCall : Type 0 where
  pub expiry_now : ℕ
  pub now : ℕ
  pub req : Request
  pub fresh : Fresh

-- A call that fails leaves the database as it was.
abbrev pub db_after : EdgeDb → Result (EdgeDb × Activation) → EdgeDb
db_after db (failed _) = db
db_after db (done (db', _)) = db'

abbrev pub answer_to : ActivateCall → EdgeDb → Result (EdgeDb × Activation)
answer_to c db = activate c.expiry_now c.now c.req c.fresh db

abbrev pub run_activations : List ActivateCall → EdgeDb → EdgeDb
run_activations [] db = db
run_activations (c ∷ cs) db = run_activations cs (db_after db (answer_to c db))

-- The license with this key is bound to this machine, and ids are unique.
abbrev IsLocked : ℕ → ℕ → EdgeDb → Type 0
IsLocked v f db =
    HasKeys db.licenses
    × ((l : LicenseKey) × (find_license v db.licenses ≡ some l) × (l.hardware_fingerprint ≡ some f))

same_machine : (f g : ℕ) → f ≢ 0 → is_bound_elsewhere (some f) g ≡ false → g ≡ f
same_machine f g set h = ground arith

-- What an activation makes of the table of licenses.
licenses_after :
    (c : ActivateCall) (db db' : EdgeDb) (r : Activation)
    → answer_to c db ≡ done (db', r)
    → (m l' : LicenseKey) × (find_license c.req.license_key_value db.licenses ≡ some m)
      × (l'.id ≡ m.id)
      × (l'.license_key ≡ m.license_key)
      × (is_bound_elsewhere m.hardware_fingerprint c.req.hardware_fingerprint ≡ false)
      × (db'.licenses ≡ save_license l' db.licenses)
licenses_after c db db' r p =
    let s = activate-Passed c.expiry_now c.now c.req c.fresh db db' r p in
    let kept =
      credentials-Kept (reused_agent (is_bound s.l.hardware_fingerprint) s.l.agent_id) s.t
        c.req.hostname c.fresh db s.issued s.agent_id s.credentials in
    let l' = bound_license c.now c.req s.agent_id s.l in
    (
      s.l,
      l',
      s.license_found,
      refl,
      refl,
      s.not_elsewhere,
      sym (ap (λ x. x.0.licenses) s.finished) ∙ ap (save_license l') kept.licenses_kept,
    )

HasKeys-save_license :
    (l : LicenseKey) (ls : List LicenseKey) → HasKeys ls → HasKeys (save_license l ls)
HasKeys-save_license l ls h = subst Unique (sym (license_ids-save_license l ls)) h

other_key : (k w v : ℕ) → (k == w) ≡ true → (w == v) ≡ false → (k == v) ≡ false
other_key k w v own other = ground arith

call-IsLocked :
    (v f : ℕ) (c : ActivateCall) (db : EdgeDb) (o : Result (EdgeDb × Activation))
    → f ≢ 0
    → IsLocked v f db
    → answer_to c db ≡ o
    → IsLocked v f (db_after db o)
call-IsLocked v f c db (failed e) set h p = h
call-IsLocked v f c db (done (db', r)) set (keys, (l, found, bound)) p =
    let (m, l', found_m, id, key, here, saved) = licenses_after c db db' r p in
    (
      subst HasKeys (sym saved) (HasKeys-save_license l' db.licenses keys),
      elim (Bool-cases (c.req.license_key_value == v)) [
        | inl own ↦
            let is_v = (==_iff c.req.license_key_value v).0 own in
            let is_l : l ≡ m =
              some_inj l m
                (sym found ∙ ap (λ k. find_license k db.licenses) (sym is_v) ∙ found_m) in
            let bound_m : m.hardware_fingerprint ≡ some f =
              ap (λ x. x.hardware_fingerprint) (sym is_l) ∙ bound in
            let machine = same_machine f c.req.hardware_fingerprint set (rw bound_m at here) in
            let (_, _, b) = activate-Bound c.expiry_now c.now c.req c.fresh db db' r p in
            (
              b.l',
              ap (λ k. find_license k db'.licenses) (sym is_v) ∙ b.found_again,
              b.fingerprint_kept ∙ ap some machine,
            )
        | inr other ↦
            let own_key = find_license-key c.req.license_key_value m db.licenses found_m in
            let differs : v ≢ c.req.license_key_value = λ e. ground (arith, other, e) in
            let rows = apart v c.req.license_key_value l m db.licenses keys found found_m differs in
            let kept =
              find-save_other v l l' db.licenses found (rw id rows)
                (rw key (other_key m.license_key c.req.license_key_value v own_key other)) in
            (l, ap (find_license v) saved ∙ kept, bound)
      ],
    )

run-IsLocked :
    (v f : ℕ) (cs : List ActivateCall) (db : EdgeDb)
    → f ≢ 0
    → IsLocked v f db
    → IsLocked v f (run_activations cs db)
run-IsLocked v f [] db set h = h
run-IsLocked v f (c ∷ cs) db set h =
    run-IsLocked v f cs (db_after db (answer_to c db)) set
      (call-IsLocked v f c db (answer_to c db) set h refl)

-- Once an activation has bound a license to a machine, no activation with that license from another
-- machine succeeds, after whatever further activations with whatever licenses from whatever machines,
-- those that fail included. The fingerprint that was bound is not the empty text, and the ids of the
-- licenses are distinct.
pub run_activations-locks :
    (c next : ActivateCall) (between : List ActivateCall) (db db' : EdgeDb) (r : Activation)
    (answer : EdgeDb × Activation)
    → HasKeys db.licenses
    → c.req.hardware_fingerprint ≢ 0
    → answer_to c db ≡ done (db', r)
    → next.req.license_key_value ≡ c.req.license_key_value
    → next.req.hardware_fingerprint ≢ c.req.hardware_fingerprint
    → answer_to next (run_activations between db') ≢ done answer
run_activations-locks c next between db db' r answer keys set p same other q =
    let v = c.req.license_key_value in
    let f = c.req.hardware_fingerprint in
    let (_, l', _, _, _, _, saved) = licenses_after c db db' r p in
    let (_, _, b) = activate-Bound c.expiry_now c.now c.req c.fresh db db' r p in
    let now_keys = subst HasKeys (sym saved) (HasKeys-save_license l' db.licenses keys) in
    let (_, (l, found, bound)) =
      run-IsLocked v f between db' set (now_keys, (b.l', b.found_again, b.fingerprint_kept)) in
    let (m, _, found_m, _, _, here, _) =
      licenses_after next (run_activations between db') answer.0 answer.1 q in
    let is_l = some_inj l m (
      sym found
      ∙ ap (λ k. find_license k (run_activations between db').licenses) (sym same)
      ∙ found_m) in
    let bound_m : m.hardware_fingerprint ≡ some f =
      ap (λ x. x.hardware_fingerprint) (sym is_l) ∙ bound in
    other (same_machine f next.req.hardware_fingerprint set (rw bound_m at here))
