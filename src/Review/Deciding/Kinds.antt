-- ===== src/Review/Deciding/Kinds.antt =====
-- crates/github-pr-controller/src/deciding.rs: under which kinds a judgement's writes are queued.
use mathlib.Core.List.{append_cancel_left}
use openab_control_plane.Prelude.{
  ℕ, ℤ, ◌≡◌, ◌≢◌, All-map, refl, sym, ap, ◌∙◌, ◌⊎◌, inl, inr, Bool, Option, some, none, List, [],
  All, All-append, All-if, get_elem?, some_inj, arith, not, ◌&&◌, Bool-cases, ◌++◌, ◌∷◌,
}
use openab_control_plane.Text.{Text, codes, contains, show_nat, read_from, read_from-show_nat}
use openab_control_plane.Session.Quorum.{IsDistinct}
use openab_control_plane.Review.Closing.Distinct.{
  NoneShared, not_contained, distinct-append, NoneShared-append, NoneShared-nil,
}
use openab_control_plane.Review.Closing.Outbox.{kinds, IsQueueable}
use openab_control_plane.Review.Verdict.{ParsedResult}
use openab_control_plane.Review.Closing.{ClosingPlan}
use openab_control_plane.Review.Dispatch.{RuntimeEventEnvelope, gated_plan}
use openab_control_plane.Review.Dispatch.Kinds.{
  IsRoundKind, gated_plan-IsRoundKind, gated_plan-IsQueueable,
}
use openab_control_plane.Review.Rows.{SessionTarget, ReviewFindingRow, Write}
use openab_control_plane.Review.Deciding.Defs.{
  kind_decision_status, kind_decision_review, kind_decision_comment, decision_kind, open_counts,
  is_blocking, comment_write, approval_writes, plan_decision,
}

show_nat_inj : (m n : ℕ) → show_nat m ≡ show_nat n → m ≡ n
show_nat_inj m n h = sym (read_from-show_nat m) ∙ ap (read_from 0) h ∙ read_from-show_nat n

abbrev pub IsBase : Text → Type 0
IsBase base =
    (base ≡ kind_decision_status) ⊎ (base ≡ kind_decision_review) ⊎ (base ≡ kind_decision_comment)

same_base : (base : Text) (m n : ℕ) → decision_kind base m ≡ decision_kind base n → m ≡ n
unfolding decision_kind
same_base base m n e =
    show_nat_inj m n (append_cancel_left (codes ":") _ _ (append_cancel_left base _ _ e))

-- The bases differ in their tenth letter.
letter : Text → Option ℕ
letter t = get_elem? t 9

letter-decision_kind :
    (base : Text) (n : ℕ) → IsBase base → letter (decision_kind base n) ≡ letter base
unfolding decision_kind letter
letter-decision_kind base n (inl p) = rw p refl
letter-decision_kind base n (inr (inl p)) = rw p refl
letter-decision_kind base n (inr (inr p)) = rw p refl

letter_inj :
    (base base' : Text) → IsBase base → IsBase base' → letter base ≡ letter base' → base ≡ base'
unfolding letter
letter_inj base base' (inl p) (inl q) e = p ∙ sym q
letter_inj base base' (inr (inl p)) (inr (inl q)) e = p ∙ sym q
letter_inj base base' (inr (inr p)) (inr (inr q)) e = p ∙ sym q
letter_inj base base' (inl p) (inr (inl q)) e =
    absurd (omega (arith, some_inj _ _ (sym (ap letter p) ∙ e ∙ ap letter q)))
letter_inj base base' (inl p) (inr (inr q)) e =
    absurd (omega (arith, some_inj _ _ (sym (ap letter p) ∙ e ∙ ap letter q)))
letter_inj base base' (inr (inl p)) (inl q) e =
    absurd (omega (arith, some_inj _ _ (sym (ap letter p) ∙ e ∙ ap letter q)))
letter_inj base base' (inr (inl p)) (inr (inr q)) e =
    absurd (omega (arith, some_inj _ _ (sym (ap letter p) ∙ e ∙ ap letter q)))
letter_inj base base' (inr (inr p)) (inl q) e =
    absurd (omega (arith, some_inj _ _ (sym (ap letter p) ∙ e ∙ ap letter q)))
letter_inj base base' (inr (inr p)) (inr (inl q)) e =
    absurd (omega (arith, some_inj _ _ (sym (ap letter p) ∙ e ∙ ap letter q)))

decision_kind_inj :
    (base base' : Text) (m n : ℕ)
    → IsBase base
    → IsBase base'
    → decision_kind base m ≡ decision_kind base' n
    → m ≡ n
decision_kind_inj base base' m n h k e =
    let letters =
      sym (letter-decision_kind base m h) ∙ ap letter e ∙ letter-decision_kind base' n k in
    let same = letter_inj base base' h k letters in
    same_base base m n (e ∙ ap (λ b. decision_kind b n) (sym same))

abbrev pub HasKind : ℕ → Write → Type 0
HasKind deciding w = (base : Text) × IsBase base × (w.0 ≡ decision_kind base deciding)

comment_write-HasKind :
    (repo : Text) (pr_number : ℤ) (verdict_comment : Option (ℤ × Text)) (deciding : ℕ)
    → All (HasKind deciding) (comment_write repo pr_number verdict_comment deciding)
comment_write-HasKind repo pr_number none deciding = tt
comment_write-HasKind repo pr_number (some c) deciding =
    ((kind_decision_comment, inr (inr refl), refl), tt)

plan_decision-HasKind :
    (repo : Text) (pr_number : ℤ) (head_sha : Text) (findings : List ReviewFindingRow)
    (was_blocking authorized : Bool) (verdict_comment : Option (ℤ × Text)) (session_id : Text)
    (deciding : ℕ)
    → All
        (HasKind deciding)
        (plan_decision repo pr_number head_sha findings was_blocking authorized verdict_comment
          session_id deciding).writes
unfolding plan_decision approval_writes
plan_decision-HasKind repo pr_number head_sha findings was_blocking authorized verdict_comment
      session_id deciding =
    All-append (HasKind deciding) (comment_write repo pr_number verdict_comment deciding) _
      (comment_write-HasKind repo pr_number verdict_comment deciding)
      (All-if (HasKind deciding)
        (was_blocking && not (is_blocking (open_counts findings head_sha)) && authorized) _ []
        ((kind_decision_status, inl refl, refl), ((kind_decision_review, inr (inl refl), refl), tt))
        tt)

apart :
    (m n : ℕ)
    → m ≢ n
    → (ws ws' : List Write) → All (HasKind m) ws
    → All (HasKind n) ws'
    → NoneShared ws ws'
apart m n other ws ws' h h' =
    All-map (HasKind m) _
      (λ w own.
        All-map (HasKind n) _
          (λ w' own' same.
            other (decision_kind_inj own.0 own'.0 m n own.1 own'.1 (sym own.2 ∙ same ∙ own'.2)))
          ws' h')
      ws h

-- A judgement's comment, status and review have different kinds.
bases_apart :
    (base base' : Text) (n : ℕ)
    → IsBase base
    → IsBase base'
    → letter base ≢ letter base'
    → decision_kind base n ≢ decision_kind base' n
bases_apart base base' n h k other e =
    other (sym (letter-decision_kind base n h) ∙ ap letter e ∙ letter-decision_kind base' n k)

approval_is_distinct :
    (repo : Text) (pr_number : ℤ) (head_sha : Text) (counts : ℕ × ℕ) (session_id : Text)
    (deciding : ℕ)
    → IsDistinct (kinds (approval_writes repo pr_number head_sha counts session_id deciding))
unfolding approval_writes contains letter
approval_is_distinct repo pr_number head_sha counts session_id deciding = (
  not_contained (decision_kind kind_decision_status deciding)
      (decision_kind kind_decision_review deciding ∷ [])
      (
        bases_apart kind_decision_status kind_decision_review deciding (inl refl) (inr (inl refl))
            (λ e. omega (arith, some_inj _ _ e)),
        tt,
      ),
  (refl, tt),
)

comment_is_apart :
    (repo : Text) (pr_number : ℤ) (head_sha : Text) (counts : ℕ × ℕ)
    (verdict_comment : Option (ℤ × Text)) (session_id : Text) (deciding : ℕ)
    → NoneShared
        (comment_write repo pr_number verdict_comment deciding)
        (approval_writes repo pr_number head_sha counts session_id deciding)
unfolding approval_writes letter
comment_is_apart repo pr_number head_sha counts none session_id deciding = tt
comment_is_apart repo pr_number head_sha counts (some c) session_id deciding = (
  (
    bases_apart kind_decision_comment kind_decision_status deciding (inr (inr refl)) (inl refl)
        (λ e. omega (arith, some_inj _ _ e)),
    (
      bases_apart kind_decision_comment kind_decision_review deciding (inr (inr refl))
          (inr (inl refl)) (λ e. omega (arith, some_inj _ _ e)),
      tt,
    ),
  ),
  tt,
)

comment_is_distinct :
    (repo : Text) (pr_number : ℤ) (verdict_comment : Option (ℤ × Text)) (deciding : ℕ)
    → IsDistinct (kinds (comment_write repo pr_number verdict_comment deciding))
unfolding contains
comment_is_distinct repo pr_number none deciding = tt
comment_is_distinct repo pr_number (some c) deciding = (refl, tt)

plan_decision-IsDistinct :
    (repo : Text) (pr_number : ℤ) (head_sha : Text) (findings : List ReviewFindingRow)
    (was_blocking authorized : Bool) (verdict_comment : Option (ℤ × Text)) (session_id : Text)
    (deciding : ℕ)
    → IsDistinct (
        kinds
          (plan_decision repo pr_number head_sha findings was_blocking authorized verdict_comment
            session_id deciding).writes)
unfolding plan_decision
plan_decision-IsDistinct repo pr_number head_sha findings was_blocking authorized verdict_comment
      session_id deciding =
    let counts = open_counts findings head_sha in
    let comment = comment_write repo pr_number verdict_comment deciding in
    let approval = approval_writes repo pr_number head_sha counts session_id deciding in
    let alone = comment_is_distinct repo pr_number verdict_comment deciding in
    elim (Bool-cases ((was_blocking && not (is_blocking counts)) && authorized)) [
      | inl y ↦ rw y (
          distinct-append comment approval alone
            (approval_is_distinct repo pr_number head_sha counts session_id deciding)
            (comment_is_apart repo pr_number head_sha counts verdict_comment session_id deciding))
      | inr n ↦ rw n (distinct-append comment [] alone tt (NoneShared-nil comment))
    ]

-- A round's kinds are shorter than ten letters.
letter_of_round : (w : Write) → IsRoundKind w → letter w.0 ≡ none
unfolding letter
letter_of_round w (inl e) = rw e refl
letter_of_round w (inr (inl e)) = rw e refl
letter_of_round w (inr (inr e)) = rw e refl

letter_of_base : (base : Text) → IsBase base → letter base ≢ none
unfolding letter
letter_of_base base (inl e) h = cc (rw e at h)
letter_of_base base (inr (inl e)) h = cc (rw e at h)
letter_of_base base (inr (inr e)) h = cc (rw e at h)

round_is_apart :
    (deciding : ℕ) (round ws : List Write)
    → All IsRoundKind round
    → All (HasKind deciding) ws
    → NoneShared round ws
round_is_apart deciding round ws h k =
    All-map IsRoundKind _
      (λ w plain.
        All-map (HasKind deciding) _
          (λ v own same. letter_of_base own.0 own.1 (
            sym (letter-decision_kind own.0 deciding own.1)
            ∙ ap letter (sym own.2 ∙ sym same)
            ∙ letter_of_round w plain))
          ws k)
      round h

queueable-IsDistinct : (ws : List Write) → IsQueueable ws → IsDistinct (kinds ws)
queueable-IsDistinct [] h = tt
queueable-IsDistinct (w ∷ ws) h = h.1

module _ (repo : Text) (pr_number : ℤ) (head_sha : Text) (session_id : Text) where
  abbrev writes_of : List ReviewFindingRow → Bool → Bool → Option (ℤ × Text) → ℕ → List Write
  writes_of findings was_blocking authorized verdict_comment deciding =
      (plan_decision repo pr_number head_sha findings was_blocking authorized verdict_comment
        session_id deciding).writes

  -- The writes with which a session's round is closed, and those of two judgements that different comments
  -- ask for, have kinds that are all different, whatever the round, the findings and the
  -- authorisations are.
  pub session_writes-IsDistinct :
      (target : SessionTarget) (parsed : ParsedResult) (event : RuntimeEventEnvelope)
      (round : ClosingPlan) (findings findings' : List ReviewFindingRow) (was was' ok ok' : Bool)
      (comment comment' : Option (ℤ × Text)) (deciding deciding' : ℕ)
      → gated_plan target parsed event session_id ≡ some round
      → deciding ≢ deciding'
      → IsDistinct (
          kinds (
            round.writes
            ++ (writes_of findings was ok comment deciding
                ++ writes_of findings' was' ok' comment' deciding')))
  session_writes-IsDistinct target parsed event round findings findings' was was' ok ok' comment
        comment' deciding deciding' made other =
      let ws = writes_of findings was ok comment deciding in
      let ws' = writes_of findings' was' ok' comment' deciding' in
      let has =
        plan_decision-HasKind repo pr_number head_sha findings was ok comment session_id deciding in
      let has' =
        plan_decision-HasKind repo pr_number head_sha findings' was' ok' comment' session_id
          deciding' in
      let plain = gated_plan-IsRoundKind target parsed event session_id {p = round} made in
      distinct-append round.writes (ws ++ ws')
        (queueable-IsDistinct round.writes
          (gated_plan-IsQueueable target parsed event session_id {p = round} made))
        (distinct-append ws ws'
          (plan_decision-IsDistinct repo pr_number head_sha findings was ok comment session_id
            deciding)
          (plan_decision-IsDistinct repo pr_number head_sha findings' was' ok' comment' session_id
            deciding')
          (apart deciding deciding' other ws ws' has has'))
        (NoneShared-append round.writes ws ws' (round_is_apart deciding round.writes ws plain has)
          (round_is_apart deciding' round.writes ws' plain has'))
