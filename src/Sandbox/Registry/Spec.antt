-- ===== src/Sandbox/Registry/Spec.antt =====
-- What the registry promises: a list of records without stored texts, and each operation on it.
use workspaces.Common.{
  Text, text_eq, is_empty, List, [], ◌∷◌, ◌++◌, Bool, false, ◌&&◌, ◌||◌, ◌≡◌, Option, none, some,
  any, ltb, if◌then◌else◌,
}
use workspaces.Sandbox.Driver.{Status}
use workspaces.Sandbox.Registry.Sql.{Time}
use workspaces.Sandbox.Registry.{SandboxRecord, ListFilter}

abbrev pub is_record : Text → SandboxRecord → Bool
is_record id sb = text_eq sb.id id

-- The first record of an id.
abbrev pub find : Text → List SandboxRecord → Option SandboxRecord
find id [] = none
find id (sb ∷ sbs) = if is_record id sb then some sb else find id sbs

-- One operation of the registry that writes.
pub data Write : Type 0 where
  insert : SandboxRecord → Write
  update : SandboxRecord → Write
  delete : Text → Write
  touch : Text → Time → Write
  set_status : Text → Status → Write

-- The record of an id is changed, every other one is kept.
abbrev pub adjust : Text → (SandboxRecord → SandboxRecord) → List SandboxRecord → List SandboxRecord
adjust id f [] = []
adjust id f (sb ∷ sbs) = (if is_record id sb then f sb else sb) ∷ adjust id f sbs

abbrev pub remove : Text → List SandboxRecord → List SandboxRecord
remove id [] = []
remove id (sb ∷ sbs) = if is_record id sb then remove id sbs else sb ∷ remove id sbs

-- An update keeps the id and the time of creation.
abbrev pub replaced : SandboxRecord → SandboxRecord → SandboxRecord
replaced new sb = record new { id = sb.id; created_at = sb.created_at }

-- The records after a write; `none` where it is refused.
unfoldable pub written : Write → List SandboxRecord → Option (List SandboxRecord)
written (insert sb) sbs = if any (is_record sb.id) sbs then none else some (sbs ++ sb ∷ [])
written (update sb) sbs = some (adjust sb.id (replaced sb) sbs)
written (delete id) sbs = some (remove id sbs)
written (touch id t) sbs = some (adjust id (λ sb. record sb { last_active = t }) sbs)
written (set_status id s) sbs = some (adjust id (λ sb. record sb { status = s }) sbs)

-- A filter's empty field lets every record pass.
abbrev pub passes : ListFilter → SandboxRecord → Bool
passes f sb =
    (is_empty f.status || text_eq sb.status f.status)
    && (is_empty f.project_id || text_eq sb.project_id f.project_id)

-- Last active before the cutoff, and of the status unless that is empty.
abbrev pub idle : Time → Text → SandboxRecord → Bool
idle cutoff status sb = ltb sb.last_active cutoff && (is_empty status || text_eq sb.status status)

-- No record was created later than one before it.
abbrev pub IsNewestFirst : List SandboxRecord → Type 0
IsNewestFirst [] = Unit
IsNewestFirst (sb ∷ sbs) =
    (any (λ q. ltb sb.created_at q.created_at) sbs ≡ false) × IsNewestFirst sbs

-- No id is listed twice.
abbrev pub IsKeyed : List SandboxRecord → Type 0
IsKeyed [] = Unit
IsKeyed (sb ∷ sbs) = (any (is_record sb.id) sbs ≡ false) × IsKeyed sbs
