-- ===== src/Store/Outbox/Acked.antt =====
-- A frame that was acknowledged is not sent again.
use openab_control_plane.Prelude.{
  ℕ, ◌<◌, leb, ◌==◌, ◌≡◌, refl, true, false, List, [], ◌∷◌, map, anyb, filterb, is_some, order_by,
  arith, Bool-cases, inl, inr, All, All-append, All-update_where, All-filterb, All-order_by,
}
use openab_control_plane.Text.{Text, is_text}
use openab_control_plane.Store.Types.{Session}
use openab_control_plane.Store.Outbox.{
  OutboxRow, Outbox, enqueue_outbox, is_pending_for, pending_outbox, ack_outbox,
  purge_outbox_for_session_bot, purge_outbox_for_session, purge_terminal_outbox,
}

pub data OutboxStep : Outbox → Outbox → Type 0 where
  enqueue :
      (o : Outbox) (now : ℕ) (bot_id session_id idem_key frame : Text)
      → OutboxStep o (enqueue_outbox now o bot_id session_id idem_key frame)
  ack : (o : Outbox) (now seq : ℕ) → OutboxStep o (ack_outbox now o seq)
  purge_bot :
      (o : Outbox) (session_id bot_id : Text)
      → OutboxStep o (purge_outbox_for_session_bot o session_id bot_id)
  purge_session :
      (o : Outbox) (session_id : Text) → OutboxStep o (purge_outbox_for_session o session_id)
  purge_terminal :
      (o : Outbox) (sessions : List Session) → OutboxStep o (purge_terminal_outbox sessions o)

pub data OutboxSteps (o : Outbox) : Outbox → Type 0 where
  here : OutboxSteps o o
  next : {o' o'' : Outbox} → OutboxSteps o o' → OutboxStep o' o'' → OutboxSteps o o''

-- The row of this number, if it is there, was delivered; the number is in use.
abbrev IsPast : ℕ → OutboxRow → Type 0
IsPast n r = (r.seq == n) ≡ true → is_some r.delivered_at ≡ true

abbrev IsDone : ℕ → Outbox → Type 0
IsDone n o = All (IsPast n) o.rows × (n < o.next_seq)

other_row : (n k : ℕ) → n < k → (k == n) ≡ false
other_row n k h = ground arith

enqueue-IsDone :
    (n : ℕ) (o : Outbox) (now : ℕ) (b s k f : Text)
    → IsDone n o
    → IsDone n (enqueue_outbox now o b s k f)
unfolding enqueue_outbox
enqueue-IsDone n o now b s k f d =
    elim (Bool-cases (anyb (λ (r : OutboxRow). is_text k r.idem_key) o.rows)) [
      | inl e ↦ rw e d
      | inr e ↦ rw e (
        All-append (IsPast n) o.rows _ d.0 (λ q. absurd (cc (other_row n o.next_seq d.1, q)), tt),
        omega (arith, d.1),
      )
    ]

step-IsDone : (n : ℕ) {o o' : Outbox} → OutboxStep o o' → IsDone n o → IsDone n o'
unfolding ack_outbox purge_outbox_for_session_bot purge_outbox_for_session purge_terminal_outbox
step-IsDone n (enqueue o now b s k f) d = enqueue-IsDone n o now b s k f d
step-IsDone n (ack o now seq) d = (
  All-update_where (IsPast n) (IsPast n) (λ (r : OutboxRow). r.seq == seq) _ (λ r p e q. refl)
      (λ r p e. p) o.rows d.0,
  d.1,
)
step-IsDone n (purge_bot o s b) d = (All-filterb (IsPast n) _ o.rows d.0, d.1)
step-IsDone n (purge_session o s) d = (All-filterb (IsPast n) _ o.rows d.0, d.1)
step-IsDone n (purge_terminal o sessions) d = (All-filterb (IsPast n) _ o.rows d.0, d.1)

steps-IsDone : (n : ℕ) {o o' : Outbox} → OutboxSteps o o' → IsDone n o → IsDone n o'
steps-IsDone n here d = d
steps-IsDone n (next more step) d = step-IsDone n step (steps-IsDone n more d)

acked : (n now : ℕ) (o : Outbox) → All (IsPast n) (ack_outbox now o n).rows
unfolding ack_outbox
acked n now o =
    All-update_where (λ (r : OutboxRow). Unit {0}) (IsPast n) (λ (r : OutboxRow). r.seq == n) _
      (λ r p e q. refl) (λ r p e q. absurd (cc (e, q))) o.rows (trivially o.rows)
  where
    trivially : (rows : List OutboxRow) → All (λ (r : OutboxRow). Unit {0}) rows
    trivially [] = tt
    trivially (r ∷ rows) = (tt, trivially rows)

abbrev IsNot : ℕ → OutboxRow → Type 0
IsNot n r = (r.seq == n) ≡ false

pending-IsNot :
    (n : ℕ) (bot_id : Text) (rows : List OutboxRow)
    → All (IsPast n) rows
    → All (IsNot n) (filterb (is_pending_for bot_id) rows)
pending-IsNot n bot_id [] h = tt
pending-IsNot n bot_id (r ∷ rows) h = elim (Bool-cases (is_pending_for bot_id r)) [
  | inl e ↦ rw e (not_past r h.0 e, pending-IsNot n bot_id rows h.1)
  | inr e ↦ rw e (pending-IsNot n bot_id rows h.1)
]
  where
    not_past : (x : OutboxRow) → IsPast n x → is_pending_for bot_id x ≡ true → IsNot n x
    not_past x p e = elim (Bool-cases (x.seq == n)) [
      | inl q ↦ let d = p q in absurd (ground (arith, d, e))
      | inr q ↦ q
    ]

seqs :
    (n : ℕ) (rows : List OutboxRow)
    → All (IsNot n) rows
    → All (λ (p : ℕ × Text). (p.0 == n) ≡ false) (map (λ (r : OutboxRow). (r.seq, r.frame)) rows)
seqs n [] h = tt
seqs n (r ∷ rows) h = (h.0, seqs n rows h.1)

-- A frame whose number is in use and was acknowledged is in no bot's pending frames after whatever
-- enqueues, acknowledgements and purges follow.
pub acked_never_pending :
    (o : Outbox) {o' : Outbox} (n now : ℕ) (bot_id : Text)
    → n < o.next_seq
    → OutboxSteps (ack_outbox now o n) o'
    → All (λ (p : ℕ × Text). (p.0 == n) ≡ false) (pending_outbox o' bot_id)
unfolding pending_outbox ack_outbox
acked_never_pending o {o'} n now bot_id h steps =
    seqs n
      (order_by (λ (a b : OutboxRow). leb a.seq b.seq) (filterb (is_pending_for bot_id) o'.rows))
      (All-order_by (IsNot n) _ (filterb (is_pending_for bot_id) o'.rows)
        (pending-IsNot n bot_id o'.rows (steps-IsDone n steps (acked n now o, h)).0))
