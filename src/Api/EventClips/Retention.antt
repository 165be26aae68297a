-- ===== src/Api/EventClips/Retention.antt =====
-- The retention of clips: the nightly task of api/src/vms/event_clips/tasks.py, and what it removes.
use next_sec.Prelude.{
  ℕ, ◌+◌, ◌*◌, ◌≤◌, max, ◌≡◌, refl, Bool, true, false, not, ◌&&◌, Option, none, some, List, [], ◌∷◌,
  arith, ltb, if◌then◌else◌, select,
}
use next_sec.Prelude.Dict.{Dict, lookup, insert}
use next_sec.Api.EventClips.{ClipStatus, StorageKey, EventClip}

-- A row of `license_keys`, as the retention reads it.
pub record ClipLicense : Type 0 where
  pub tenant_id : Option ℕ
  pub is_active : Bool
  pub clip_retention_days : ℕ

abbrev pub add_retention : Option ℕ → ℕ → Dict ℕ → Dict ℕ
add_retention none days d = d
add_retention (some tenant_id) days d = insert tenant_id days d

-- `retention_by_tenant`
unfoldable pub retention_by_tenant : List ClipLicense → Dict ℕ → Dict ℕ
retention_by_tenant [] d = d
retention_by_tenant (l ∷ ls) d =
    retention_by_tenant ls
      (if l.is_active then add_retention l.tenant_id l.clip_retention_days d else d)

-- `max([default, *values])`
abbrev pub longest_retention : ℕ → Dict ℕ → ℕ
longest_retention default [] = default
longest_retention default ((_, days) ∷ d) = max days (longest_retention default d)

abbrev pub days_or : ℕ → Option ℕ → ℕ
days_or default none = default
days_or default (some days) = days

-- `retention_by_tenant.get(clip.tenant_id, default_retention_days)`
abbrev pub retention_of : ℕ → Dict ℕ → Option ℕ → ℕ
retention_of default d none = default
retention_of default d (some tenant_id) = days_or default (lookup tenant_id d)

-- `created_at < now - timedelta(days=days)`, with both sides moved so that nothing is subtracted.
abbrev pub is_older : ℕ → ℕ → EventClip → Bool
is_older now days c = ltb (c.created_at + days * 86400) now

abbrev pub is_uploaded : ClipStatus → Bool
is_uploaded ClipStatus.uploaded = true
is_uploaded _ = false

-- `storage.delete`, where the clip has an object; it may raise.
abbrev pub delete_object : (StorageKey → Bool) → Option StorageKey → Bool
delete_object deletes none = true
delete_object deletes (some key) = deletes key

-- Whether the body of the loop removes a candidate.
abbrev pub removes : (StorageKey → Bool) → ℕ → ℕ → Dict ℕ → EventClip → Bool
removes deletes now default d c =
    is_older now (retention_of default d c.tenant_id) c && delete_object deletes c.storage_ref

-- `task_cleanup_old_clips`: the rows that are left.
unfoldable pub cleanup_old_clips :
    (StorageKey → Bool) → ℕ → ℕ → List ClipLicense → List EventClip → List EventClip
unfolding retention_by_tenant
cleanup_old_clips deletes now default licenses clips =
    let d = retention_by_tenant licenses [] in
    let longest = longest_retention default d in
    select
      (λ c.
        not ((is_older now longest c && is_uploaded c.status) && removes deletes now default d c))
      clips

days-le-longest :
    (default k : ℕ) (d : Dict ℕ) → days_or default (lookup k d) ≤ longest_retention default d
days-le-longest default k [] = omega arith
days-le-longest default k ((j, days) ∷ d) = ground (arith, days-le-longest default k d)

default-le-longest : (default : ℕ) (d : Dict ℕ) → default ≤ longest_retention default d
default-le-longest default [] = omega arith
default-le-longest default ((j, days) ∷ d) = omega (arith, default-le-longest default d)

retention-le-longest :
    (default : ℕ) (d : Dict ℕ) (tenant_id : Option ℕ)
    → retention_of default d tenant_id ≤ longest_retention default d
retention-le-longest default d none = default-le-longest default d
retention-le-longest default d (some t) = days-le-longest default t d

older_for_own :
    (now days longest : ℕ) (c : EventClip)
    → days ≤ longest
    → is_older now longest c ≡ true
    → is_older now days c ≡ true
older_for_own now days longest c h e = ground arith

-- The retention of a tenant's own license decides nothing: the nightly task removes exactly the
-- uploaded clips that are older than the longest retention in use, of whatever tenant, if the
-- storage deletes their object.
pub cleanup-longest :
    (deletes : StorageKey → Bool) (now default : ℕ) (licenses : List ClipLicense)
    (clips : List EventClip)
    → cleanup_old_clips deletes now default licenses clips
      ≡ select
          (λ c. not (
            (is_older now (longest_retention default (retention_by_tenant licenses [])) c
              && is_uploaded c.status)
            && delete_object deletes c.storage_ref))
          clips
unfolding cleanup_old_clips
cleanup-longest deletes now default licenses [] = refl
cleanup-longest deletes now default licenses (c ∷ cs) =
    let d = retention_by_tenant licenses [] in
    let longest = longest_retention default d in
    ground (
      arith,
      cleanup-longest deletes now default licenses cs,
      older_for_own now (retention_of default d c.tenant_id) longest c
          (retention-le-longest default d c.tenant_id),
    )
