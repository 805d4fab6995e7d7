-- ===== src/Audit.antt =====
-- app/audit.py: the audit rows that are written beside a change.
use minigrc.Prelude.{◌∷◌, ◌++◌, ℕ, String, List, []}

-- An `AuditEvent` row. `D` holds the parts of the text of its `detail`.
pub record AuditEvent (D : Type 0) : Type 0 where
  pub entity_type : String
  pub entity_id : ℕ
  pub action : String
  pub detail : D
  pub actor : String

-- `record_audit_event`: rows are only ever added.
unfoldable pub record_audit_event :
    {D : Type 0} → String → ℕ → String → D → String → List (AuditEvent D) → List (AuditEvent D)
record_audit_event entity_type entity_id action detail actor audit =
    audit
    ++ record {
      entity_type = entity_type;
      entity_id = entity_id;
      action = action;
      detail = detail;
      actor = actor;
    }
      ∷ []
