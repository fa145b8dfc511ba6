-- ===== src/Store/Audit/Cursor.antt =====
-- The cursor of the audit pages: a position that a client sends back.
use openab_control_plane.Prelude.{◌≡◌, some, refl}
use openab_control_plane.Text.{
  show_int, IsI64, parse_i64-show_int, split_once-append, show_int_has_no_colon,
}
use openab_control_plane.Store.Audit.{AuditCursor, encode, decode}

-- An audit cursor whose numbers fit 64 bits is decoded from its text to itself.
pub decode-encode :
    (cursor : AuditCursor)
    → IsI64 cursor.recorded_at
    → IsI64 cursor.seq
    → decode (encode cursor) ≡ some cursor
unfolding encode decode
decode-encode cursor h k =
    rw
      (split_once-append b':' (show_int cursor.recorded_at) (show_int cursor.seq)
        (show_int_has_no_colon cursor.recorded_at))
      (rw (parse_i64-show_int cursor.recorded_at h) (rw (parse_i64-show_int cursor.seq k) refl))
