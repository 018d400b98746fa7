-- ===== src/Audit/Accepted.antt =====
-- Events that the validation of packages/audit/src/index.ts accepts.
use himitsu.Prelude.{◌≡◌, true, none, is_some, arith}
use himitsu.Errors.{ok}
use himitsu.Audit.{AuditEvent, validate_event, metadata_for}
use himitsu.Audit.Metadata.{end}
use himitsu.Audit.Size.{value_bytes_empty}

pub validate_event_known :
    (event : AuditEvent) → is_some event.resource_id ≡ true → validate_event event ≡ ok tt
unfolding validate_event
validate_event_known event known = ground arith

pub metadata_for_bare :
    (event : AuditEvent)
    → event.before ≡ none
    → event.after ≡ none
    → event.details ≡ none
    → metadata_for event ≡ ok end
unfolding metadata_for
metadata_for_bare event before after details = rw (before, after, details, value_bytes_empty)
