-- ===== src/Store/Audit/Journal.antt =====
-- The audit journal keeps its events, each under one key.
use openab_control_plane.Prelude.{
  ◌≡◌, ◌⊎◌, ◌↔◌, refl, sym, ap, ◌∙◌, Bool, true, false, ◌||◌, List, [], ◌∷◌, ◌++◌, some, anyb,
  arith, inl, inr, Bool-cases, some_inj,
}
use openab_control_plane.Text.{Text, text_eq_refl, text_eq_iff, codes, text_ops}
use openab_control_plane.Store.Audit.{
  AuditEvent, AuditOutcome, pending, accepted, ignored, denied, succeeded, failed, retry_scheduled,
  outcome_unknown, reconciled, same_audit_key, is_valid_event, append_audit_event_locked,
  outcome_text, parse_outcome,
}

outcome_text-of-parse_outcome :
    (t : Text) (o : AuditOutcome) → parse_outcome t ≡ some o → t ≡ outcome_text o
unfolding parse_outcome outcome_text
outcome_text-of-parse_outcome t o = ground (
  arith,
  text_eq_iff t (codes "pending"),
  text_eq_iff t (codes "accepted"),
  text_eq_iff t (codes "ignored"),
  text_eq_iff t (codes "denied"),
  text_eq_iff t (codes "succeeded"),
  text_eq_iff t (codes "failed"),
  text_eq_iff t (codes "retry_scheduled"),
  text_eq_iff t (codes "outcome_unknown"),
  text_eq_iff t (codes "reconciled"),
)

parse_outcome-outcome_text : (o : AuditOutcome) → parse_outcome (outcome_text o) ≡ some o
unfolding parse_outcome outcome_text text_ops
parse_outcome-outcome_text pending = refl
parse_outcome-outcome_text accepted = refl
parse_outcome-outcome_text ignored = refl
parse_outcome-outcome_text denied = refl
parse_outcome-outcome_text succeeded = refl
parse_outcome-outcome_text failed = refl
parse_outcome-outcome_text retry_scheduled = refl
parse_outcome-outcome_text outcome_unknown = refl
parse_outcome-outcome_text reconciled = refl

-- parse reads an audit outcome from a text exactly when the text is the one that as_str writes for
-- it.
pub parse_outcome_iff :
    (t : Text) (o : AuditOutcome) → (parse_outcome t ≡ some o) ↔ (t ≡ outcome_text o)
parse_outcome_iff t o =
    (outcome_text-of-parse_outcome t o, λ e. ap parse_outcome e ∙ parse_outcome-outcome_text o)

pub anyb-append {ℓ} :
    {A : Type ℓ} (p : A → Bool) (xs ys : List A) → anyb p (xs ++ ys) ≡ (anyb p xs || anyb p ys)
anyb-append p [] ys = refl
anyb-append p (x ∷ xs) ys = ground (arith, anyb-append p xs ys)

same_audit_key_refl : (e : AuditEvent) → same_audit_key e e ≡ true
unfolding same_audit_key
same_audit_key_refl e = rw (text_eq_refl e.event_id) refl

pub append_cases :
    (rows rows' : List AuditEvent) (e : AuditEvent)
    → append_audit_event_locked rows e ≡ some rows'
    → ((anyb (same_audit_key e) rows ≡ true) × (rows' ≡ rows))
      ⊎ ((anyb (same_audit_key e) rows ≡ false) × (rows' ≡ rows ++ (e ∷ [])))
unfolding append_audit_event_locked
append_cases rows rows' e h = elim (Bool-cases (is_valid_event e)) [
  | inl v ↦ elim (Bool-cases (anyb (same_audit_key e) rows)) [
    | inl k ↦ inl (k, sym (some_inj rows rows' (rw (v, k) at h)))
    | inr k ↦ inr (k, sym (some_inj (rows ++ (e ∷ [])) rows' (rw (v, k) at h)))
  ]
  | inr v ↦ absurd (cc (rw v at h))
]

append_known :
    (rows : List AuditEvent) (e : AuditEvent)
    → is_valid_event e ≡ true
    → anyb (same_audit_key e) rows ≡ true
    → append_audit_event_locked rows e ≡ some rows
unfolding append_audit_event_locked
append_known rows e v k = rw (v, k) refl

append_valid :
    (rows rows' : List AuditEvent) (e : AuditEvent)
    → append_audit_event_locked rows e ≡ some rows'
    → is_valid_event e ≡ true
unfolding append_audit_event_locked
append_valid rows rows' e h = elim (Bool-cases (is_valid_event e)) [
  | inl v ↦ v
  | inr v ↦ absurd (cc (rw v at h))
]

pub append_finds :
    (rows rows' : List AuditEvent) (e : AuditEvent)
    → append_audit_event_locked rows e ≡ some rows'
    → anyb (same_audit_key e) rows' ≡ true
append_finds rows rows' e h = elim (append_cases rows rows' e h) [
  | inl (k, r) ↦ rw r k
  | inr (k, r) ↦ rw (r, anyb-append (same_audit_key e) rows (e ∷ []), k, same_audit_key_refl e) refl
]

-- After append_audit_event_locked has accepted an event, the journal is the one before or that
-- with the event at its end, it has an event under the same key, and appending the event again
-- succeeds and changes nothing.
pub append_twice :
    (rows rows' : List AuditEvent) (e : AuditEvent)
    → append_audit_event_locked rows e ≡ some rows'
    → (anyb (same_audit_key e) rows' ≡ true)
      × ((rows' ≡ rows) ⊎ (rows' ≡ rows ++ (e ∷ [])))
      × (append_audit_event_locked rows' e ≡ some rows')
append_twice rows rows' e h = (
  append_finds rows rows' e h,
  elim (append_cases rows rows' e h) [ inl (k, r) ↦ inl r | inr (k, r) ↦ inr r ],
  append_known rows' e (append_valid rows rows' e h) (append_finds rows rows' e h),
)

-- No two events of the journal share a key.
abbrev pub IsKeyed : List AuditEvent → Type 0
IsKeyed [] = Unit {0}
IsKeyed (e ∷ rows) = (anyb (λ r. same_audit_key r e) rows ≡ false) × IsKeyed rows

snoc-IsKeyed :
    (rows : List AuditEvent) (e : AuditEvent)
    → anyb (same_audit_key e) rows ≡ false
    → IsKeyed rows
    → IsKeyed (rows ++ (e ∷ []))
snoc-IsKeyed [] e k u = (refl, tt)
snoc-IsKeyed (x ∷ rows) e k u = elim (Bool-cases (same_audit_key e x)) [
  | inl s ↦ absurd (cc (rw s at k))
  | inr s ↦
      let rest : anyb (same_audit_key e) rows ≡ false = rw s at k in
      (
        rw (anyb-append (λ r. same_audit_key r x) rows (e ∷ []), u.0, s) refl,
        snoc-IsKeyed rows e rest u.1,
      )
]

-- Appending to an audit journal in which no two events share an id, or a service and key, keeps it
-- so.
pub append-IsKeyed :
    (rows rows' : List AuditEvent) (e : AuditEvent)
    → IsKeyed rows
    → append_audit_event_locked rows e ≡ some rows'
    → IsKeyed rows'
append-IsKeyed rows rows' e u h = elim (append_cases rows rows' e h) [
  | inl (k, r) ↦ rw r u
  | inr (k, r) ↦ rw r (snoc-IsKeyed rows e k u)
]
