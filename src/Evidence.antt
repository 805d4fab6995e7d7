-- ===== src/Evidence.antt =====
-- app/evidence_repository.py: the captured versions of evidence artifacts, and the keys, uploads and
-- deletions of app/object_storage.py.
--
-- The bucket and its client are an interface (`Evidence.Bucket`). An id's text, its hexadecimal
-- digits, is the parameter `spell`. A time of the source is the number of its microseconds.
pub mod Bucket
pub mod Storing
pub mod Captures
pub mod Rebuild
mod Examples
use Prim.Native.Char.{code}
use Prim.Native.String.{◌++◌ as string_append}
use minigrc.Prelude.{
  ◌||◌, ◌∷◌, ◌+◌, ◌&&◌, ◌==◌, ltb, leb, if◌then◌else◌, str_eq, any, integrity_error, Result, err,
  zero, suc, String, Bool, Option, none, some, List, [], ℕ,
}
use minigrc.Prelude.Table
use minigrc.Events.{
  DomainEvent, ProjectorFn, Projectors, Session, rebuild_projection, record_event, Context,
}

-- `[A-Za-z0-9]`
abbrev pub is_alphanumeric : ℕ → Bool
is_alphanumeric c = (leb 48 c && leb c 57) || ((leb 65 c && leb c 90) || (leb 97 c && leb c 122))

-- the first characters of a text without its other ones: `re.sub(r"[^A-Za-z0-9]", "", s)[:n]`
unfoldable pub alphanumerics : ℕ → String → String
alphanumerics zero s = ""
alphanumerics (suc n) String.[] = ""
alphanumerics (suc n) (String.◌∷◌ c s) =
    if is_alphanumeric (code c) then String.◌∷◌ c (alphanumerics n s) else alphanumerics (suc n) s

-- `... or "bin"`
abbrev pub or_bin : String → String
or_bin s = if str_eq s "" then "bin" else s

pub record EvidenceArtifactVersion : Type 0 where
  pub id : ℕ
  pub artifact_id : ℕ
  pub version_number : ℕ
  pub object_key : String
  pub original_filename : String
  pub media_type : String
  pub byte_size : ℕ
  pub sha256 : String
  pub source_type : String
  pub source_connection_id : Option String
  pub source_object_id : Option String
  pub source_revision_id : Option String
  pub source_modified_at : Option ℕ
  pub linked_evidence_snapshot_id : Option ℕ
  pub captured_at : ℕ
  pub actor_type : String
  pub actor_id : Option String

-- the payload of "EvidenceArtifactVersionCaptured"
pub record Capture : Type 0 where
  pub artifact_id : ℕ
  pub version_number : ℕ
  pub object_key : String
  pub original_filename : String
  pub media_type : String
  pub byte_size : ℕ
  pub sha256 : String
  pub source_type : String
  pub source_connection_id : Option String
  pub source_object_id : Option String
  pub source_revision_id : Option String
  pub source_modified_at : Option ℕ
  pub linked_evidence_snapshot_id : Option ℕ

-- the event type with its payload
pub data ArtifactEvent : Type 0 where
  captured : Capture → ArtifactEvent

abbrev pub ArtifactVersions : Type 0
ArtifactVersions = List EvidenceArtifactVersion

abbrev pub artifact_version_id : EvidenceArtifactVersion → ℕ
artifact_version_id v = v.id

abbrev pub captured_row : Capture → DomainEvent ArtifactEvent → EvidenceArtifactVersion
captured_row p e = record {
  id = e.aggregate_id;
  artifact_id = p.artifact_id;
  version_number = p.version_number;
  object_key = p.object_key;
  original_filename = p.original_filename;
  media_type = p.media_type;
  byte_size = p.byte_size;
  sha256 = p.sha256;
  source_type = p.source_type;
  source_connection_id = p.source_connection_id;
  source_object_id = p.source_object_id;
  source_revision_id = p.source_revision_id;
  source_modified_at = p.source_modified_at;
  linked_evidence_snapshot_id = p.linked_evidence_snapshot_id;
  captured_at = e.occurred_at;
  actor_type = e.actor_type;
  actor_id = e.actor_id;
}

-- `uq_evidence_artifact_version`
abbrev pub same_version : Capture → EvidenceArtifactVersion → Bool
same_version p v = p.artifact_id == v.artifact_id && p.version_number == v.version_number

-- `_project_captured`, its flush included
unfoldable pub project_captured : Capture → ProjectorFn ArtifactEvent ArtifactVersions
project_captured p rows e =
    if any (same_version p) rows
    then err integrity_error
    else Table.insert artifact_version_id (captured_row p e) rows

-- `EVIDENCE_ARTIFACT_VERSION_PROJECTORS`
unfoldable pub artifact_version_projectors : Projectors ArtifactEvent ArtifactVersions
artifact_version_projectors (captured p) = some (project_captured p)

-- `_reset_evidence_artifact_versions`, as far as this table goes
unfoldable pub reset_artifact_versions : ArtifactVersions → ArtifactVersions
reset_artifact_versions rows = []

abbrev pub ArtifactSession : Type 0
ArtifactSession = Session ArtifactEvent ArtifactVersions

-- `rebuild_projection` of the versions
unfoldable pub rebuild_artifact_versions : ArtifactSession → Result ArtifactSession
rebuild_artifact_versions =
    rebuild_projection artifact_version_projectors "evidence_artifact_version"
      reset_artifact_versions

-- the later of two versions in the order of `artifact.versions`, from the highest number down
abbrev pub newer :
    EvidenceArtifactVersion → Option EvidenceArtifactVersion → EvidenceArtifactVersion
newer v none = v
newer v (some w) = if ltb v.version_number w.version_number then w else v

-- `artifact.latest_version`
unfoldable pub latest_version : ℕ → ArtifactVersions → Option EvidenceArtifactVersion
latest_version artifact [] = none
latest_version artifact (v ∷ rows) =
    let rest = latest_version artifact rows in
    if v.artifact_id == artifact then some (newer v rest) else rest

-- `existing` of `capture_evidence_version`
unfoldable pub version_with_content : ℕ → String → ArtifactVersions → Option EvidenceArtifactVersion
version_with_content artifact sha256 [] = none
version_with_content artifact sha256 (v ∷ rows) =
    let rest = version_with_content artifact sha256 rows in
    if v.artifact_id == artifact && str_eq v.sha256 sha256 then some (newer v rest) else rest

-- `next_version_number`
abbrev pub next_version_number : Option EvidenceArtifactVersion → ℕ
next_version_number none = 1
next_version_number (some latest) = latest.version_number + 1
