-- ===== src/Store/Events/Exclusive.antt =====
-- A claimed event is not claimed a second time while its lease runs.
use openab_control_plane.Prelude.{
  ℕ, zero, suc, ◌<◌, leb, leb→le, ◌==◌, ◌≡◌, refl, sym, subst, true, false, some, findb_holds, ◌⊎◌,
  List, [], ◌∷◌, ◌++◌, map, findb, filterb, take, arith, Bool-cases, Option-cases, inl, inr, All,
  All-append, All-map, All-update_where, map-update_where, All-order_by, count_where, order_by,
}
use openab_control_plane.Text.{Text, text_eq, text_eq_iff, contains}
use openab_control_plane.Session.Quorum.{IsDistinct}
use openab_control_plane.Store.Database.{delivering, ControllerEvent, Database, saturating_add}
use openab_control_plane.Store.Events.{is_waiting, is_delivering}
use openab_control_plane.Store.Events.Lifecycle.{claim_one_rows}
use openab_control_plane.Store.Events.Leases.{
  is_expired, is_due, is_claimable, due_before, release_expired, lease_event, claim_one, claim_each,
  claim_controller_events, due_ids, ControllerEventDelivery, delivery_of,
}

-- The row of this id is under a lease until `u`.
abbrev IsLeased : Text → ℕ → ControllerEvent → Type 0
IsLeased id u e = text_eq e.id id ≡ true → (e.state ≡ delivering) × (e.lease_until ≡ some u)

abbrev ids_of : List ControllerEvent → List Text
ids_of rows = map (λ (e : ControllerEvent). e.id) rows

take-All : {A : Type 0} (P : A → Type 0) (n : ℕ) (xs : List A) → All P xs → All P (take n xs)
take-All P zero xs h = tt
take-All P (suc n) [] h = tt
take-All P (suc n) (x ∷ xs) h = (h.0, take-All P n xs h.1)

lease_event-ids :
    (u : ℕ) (id : Text) (rows : List ControllerEvent) → ids_of (lease_event u id rows) ≡ ids_of rows
unfolding lease_event
lease_event-ids u id rows =
    map-update_where (λ (e : ControllerEvent). e.id) (is_claimable id) _ (λ x. refl) rows

release_expired-ids :
    (now : ℕ) (rows : List ControllerEvent) → ids_of (release_expired now rows) ≡ ids_of rows
unfolding release_expired
release_expired-ids now rows =
    map-update_where (λ (e : ControllerEvent). e.id) (is_expired now) _ (λ x. refl) rows

-- A lease that runs is neither given back nor taken over.
release_expired-IsLeased :
    (id : Text) (u now : ℕ) (rows : List ControllerEvent)
    → now < u
    → All (IsLeased id u) rows
    → All (IsLeased id u) (release_expired now rows)
unfolding release_expired is_delivering
release_expired-IsLeased id u now rows l h =
    All-update_where (IsLeased id u) (IsLeased id u) (is_expired now) _
      (λ x p e q. absurd (not_expired x (p q) e)) (λ x p e. p) rows h
  where
    not_expired :
        (x : ControllerEvent)
        → (x.state ≡ delivering) × (x.lease_until ≡ some u)
        → is_expired now x ≡ true
        → ⊥
    not_expired x (s, t) e =
        let e' : leb u now ≡ true = rw (s, t) at e in absurd (omega (arith, leb→le u now e'))

lease_event-IsLeased :
    (id : Text) (u v : ℕ) (other : Text) (rows : List ControllerEvent)
    → All (IsLeased id u) rows
    → All (IsLeased id u) (lease_event v other rows)
unfolding lease_event is_waiting
lease_event-IsLeased id u v other rows h =
    All-update_where (IsLeased id u) (IsLeased id u) (is_claimable other) _
      (λ x p e q. absurd (not_claimable x (p q) e)) (λ x p e. p) rows h
  where
    not_claimable :
        (x : ControllerEvent)
        → (x.state ≡ delivering) × (x.lease_until ≡ some u)
        → is_claimable other x ≡ true
        → ⊥
    not_claimable x (s, t) e = absurd (ground (arith, s, e))

-- In a table with distinct ids the update of one row leases the only row of its id.
no_row-IsLeased :
    (id : Text) (u : ℕ) (rows : List ControllerEvent)
    → contains id (ids_of rows) ≡ false
    → All (IsLeased id u) (lease_event u id rows)
unfolding lease_event contains
no_row-IsLeased id u [] h = tt
no_row-IsLeased id u (x ∷ rows) h = elim (Bool-cases (text_eq x.id id)) [
  | inl e ↦ absurd (cc (rw e at h))
  | inr e ↦ (rw (e, e) (λ q. absurd (cc q)), no_row-IsLeased id u rows (rw e at h))
]

no_row_count :
    (id : Text) (rows : List ControllerEvent)
    → contains id (ids_of rows) ≡ false
    → count_where (is_claimable id) rows ≡ 0
unfolding contains
no_row_count id [] h = refl
no_row_count id (x ∷ rows) h = elim (Bool-cases (text_eq x.id id)) [
  | inl e ↦ absurd (cc (rw e at h))
  | inr e ↦ rw e (no_row_count id rows (rw e at h))
]

lease_event_leases :
    (id : Text) (u : ℕ) (rows : List ControllerEvent)
    → IsDistinct (ids_of rows)
    → (count_where (is_claimable id) rows == 1) ≡ true
    → All (IsLeased id u) (lease_event u id rows)
unfolding lease_event
lease_event_leases id u [] d c = tt
lease_event_leases id u (x ∷ rows) d c = elim (Bool-cases (text_eq x.id id)) [
  | inl e ↦
      let same : x.id ≡ id = (text_eq_iff x.id id).0 e in
      let alone : contains id (ids_of rows) ≡ false = rw same at d.0 in
      elim (Bool-cases (is_waiting x.state)) [
        | inl w ↦ (rw (e, w) (λ q. (refl, refl)), no_row-IsLeased id u rows alone)
        | inr w ↦ absurd (cc (rw (e, w, no_row_count id rows alone) at c))
      ]
  | inr e ↦ (rw (e, e) (λ q. absurd (cc q)), lease_event_leases id u rows d.1 (rw e at c))
]

-- What the claims of this loop are, for an id that is leased before it starts.
abbrev IsOther : Text → ControllerEventDelivery → Type 0
IsOther id d = text_eq d.id id ≡ false

-- A round of the loop adds at most the delivery of the row of its id, and only when it was the only
-- one to be leased.
claim_one_cases :
    (u : ℕ) (id : Text) (rows : List ControllerEvent) (ds : List ControllerEventDelivery)
    → (claim_one u id (rows, ds) ≡ (lease_event u id rows, ds))
      ⊎ ((e : ControllerEvent) × (text_eq e.id id ≡ true)
          × ((count_where (is_claimable id) rows == 1) ≡ true)
          × (claim_one u id (rows, ds) ≡ (lease_event u id rows, ds ++ (delivery_of e ∷ []))))
unfolding claim_one
claim_one_cases u id rows ds = elim (Bool-cases (count_where (is_claimable id) rows == 1)) [
  | inl c ↦
      elim (Option-cases
        (findb (λ (e : ControllerEvent). text_eq e.id id) (lease_event u id rows))) [
          | inl f ↦ inl (rw (c, f) refl)
          | inr (e, f) ↦ inr (
            e,
            findb_holds (λ (e : ControllerEvent). text_eq e.id id) (lease_event u id rows) f,
            c,
            rw (c, f) refl,
          )
        ]
  | inr c ↦ inl (rw c refl)
]

-- Ids other than the leased one.
abbrev IsOtherId : Text → Text → Type 0
IsOtherId id t = text_eq t id ≡ false

claim_each-IsOther :
    (id : Text) (u : ℕ) (ids : List Text) (rows : List ControllerEvent)
    (ds : List ControllerEventDelivery)
    → All (IsOtherId id) ids
    → All (IsOther id) ds
    → All (IsOther id) (claim_each u ids (rows, ds)).1
unfolding claim_each
claim_each-IsOther id u [] rows ds h k = k
claim_each-IsOther id u (t ∷ ids) rows ds h k = elim (claim_one_cases u t rows ds) [
  | inl e ↦
      subst (λ z. All (IsOther id) (claim_each u ids z).1) (sym e)
        (claim_each-IsOther id u ids (lease_event u t rows) ds h.1 k)
  | inr (x, m, c, e) ↦
      let same : x.id ≡ t = (text_eq_iff x.id t).0 m in
      subst (λ z. All (IsOther id) (claim_each u ids z).1) (sym e)
        (claim_each-IsOther id u ids (lease_event u t rows) (ds ++ (delivery_of x ∷ [])) h.1
          (All-append (IsOther id) ds (delivery_of x ∷ []) k (rw same h.0, tt)))
]

claim_each-IsLeased :
    (id : Text) (u v : ℕ) (ids : List Text) (rows : List ControllerEvent)
    (ds : List ControllerEventDelivery)
    → All (IsLeased id u) rows
    → All (IsLeased id u) (claim_each v ids (rows, ds)).0
unfolding claim_each
claim_each-IsLeased id u v [] rows ds h = h
claim_each-IsLeased id u v (t ∷ ids) rows ds h =
    claim_each-IsLeased id u v ids (claim_one v t (rows, ds)).0 (claim_one v t (rows, ds)).1
      (rw (claim_one_rows v t rows ds) (lease_event-IsLeased id u v t rows h))

-- Each delivery of the loop is leased when the loop ends.
abbrev IsDelivered : ℕ → List ControllerEvent → ControllerEventDelivery → Type 0
IsDelivered u rows d = All (IsLeased d.id u) rows

claim_each_leases :
    (u : ℕ) (ids : List Text) (rows : List ControllerEvent) (ds : List ControllerEventDelivery)
    → IsDistinct (ids_of rows)
    → All (IsDelivered u rows) ds
    → All (IsDelivered u (claim_each u ids (rows, ds)).0) (claim_each u ids (rows, ds)).1
unfolding claim_each
claim_each_leases u [] rows ds d h = h
claim_each_leases u (t ∷ ids) rows ds d h =
    let distinct : IsDistinct (ids_of (lease_event u t rows)) = rw (lease_event-ids u t rows) d in
    let kept : All (IsDelivered u (lease_event u t rows)) ds =
      All-map (IsDelivered u rows) (IsDelivered u (lease_event u t rows))
        (λ (a : ControllerEventDelivery). lease_event-IsLeased a.id u u t rows) ds h in
    elim (claim_one_cases u t rows ds) [
      | inl e ↦
          subst (λ z. All (IsDelivered u (claim_each u ids z).0) (claim_each u ids z).1) (sym e)
            (claim_each_leases u ids (lease_event u t rows) ds distinct kept)
      | inr (x, m, c, e) ↦
          let same : t ≡ x.id = sym ((text_eq_iff x.id t).0 m) in
          let leased : All (IsLeased x.id u) (lease_event u t rows) =
            subst (λ i. All (IsLeased i u) (lease_event u t rows)) same
              (lease_event_leases t u rows d c) in
          subst (λ z. All (IsDelivered u (claim_each u ids z).0) (claim_each u ids z).1) (sym e)
            (claim_each_leases u ids (lease_event u t rows) (ds ++ (delivery_of x ∷ [])) distinct (
              All-append (IsDelivered u (lease_event u t rows)) ds (delivery_of x ∷ []) kept
                (leased, tt)))
    ]

not_due-IsOtherId :
    (id : Text) (u now : ℕ) (x : ControllerEvent)
    → IsLeased id u x
    → is_due now x ≡ true
    → IsOtherId id x.id
unfolding is_waiting
not_due-IsOtherId id u now x h w = elim (Bool-cases (text_eq x.id id)) [
  | inl e ↦ absurd (cc (rw (h e).0 at w))
  | inr e ↦ e
]

filter_waiting :
    (id : Text) (u now : ℕ) (xs : List ControllerEvent)
    → All (IsLeased id u) xs
    → All (λ (e : ControllerEvent). IsOtherId id e.id) (filterb (is_due now) xs)
unfolding is_waiting
filter_waiting id u now [] h = tt
filter_waiting id u now (x ∷ xs) h = elim (Bool-cases (is_due now x)) [
  | inl w ↦ rw w (not_due-IsOtherId id u now x h.0 w, filter_waiting id u now xs h.1)
  | inr w ↦ rw w (filter_waiting id u now xs h.1)
]

-- The due ids are those of rows that wait.
due_ids-IsOtherId :
    (id : Text) (u now limit : ℕ) (rows : List ControllerEvent)
    → All (IsLeased id u) rows
    → All (IsOtherId id) (due_ids now limit rows)
unfolding due_ids
due_ids-IsOtherId id u now limit rows h =
    ids (take limit (order_by due_before (filterb (is_due now) rows))) (
      take-All (λ (e : ControllerEvent). IsOtherId id e.id) limit
        (order_by due_before (filterb (is_due now) rows))
        (All-order_by (λ (e : ControllerEvent). IsOtherId id e.id) due_before
          (filterb (is_due now) rows) (waiting_rows rows h)))
  where
    ids :
        (xs : List ControllerEvent)
        → All (λ (e : ControllerEvent). IsOtherId id e.id) xs
        → All (IsOtherId id) (ids_of xs)
    ids [] k = tt
    ids (x ∷ xs) k = (k.0, ids xs k.1)

    waiting_rows :
        (xs : List ControllerEvent)
        → All (IsLeased id u) xs
        → All (λ (e : ControllerEvent). IsOtherId id e.id) (filterb (is_due now) xs)
    waiting_rows xs k = filter_waiting id u now xs k

-- Claims at several times, each with its limit and its lease.
unfoldable pub claim_series : Database → List (ℕ × ℕ × ℕ) → List ControllerEventDelivery
claim_series db [] = []
claim_series db ((now, limit, lease_ms) ∷ claims) =
    (claim_controller_events db now limit lease_ms).1
    ++ claim_series (claim_controller_events db now limit lease_ms).0 claims

claim_series-IsOther :
    (id : Text) (u : ℕ) (db : Database) (claims : List (ℕ × ℕ × ℕ))
    → All (λ (c : ℕ × ℕ × ℕ). c.0 < u) claims
    → All (IsLeased id u) db.events
    → All (IsOther id) (claim_series db claims)
unfolding claim_series claim_controller_events
claim_series-IsOther id u db [] h k = tt
claim_series-IsOther id u db ((now, limit, lease_ms) ∷ claims) h k =
    let rows = release_expired now db.events in
    let v = saturating_add now lease_ms in
    let kept : All (IsLeased id u) rows = release_expired-IsLeased id u now db.events h.0 k in
    let ids = due_ids now limit rows in
    All-append (IsOther id) (claim_each v ids (rows, [])).1 _
      (claim_each-IsOther id v ids rows [] (due_ids-IsOtherId id u now limit rows kept) tt)
      (claim_series-IsOther id u (claim_controller_events db now limit lease_ms).0 claims h.1
        (claim_each-IsLeased id u v ids rows [] kept))

-- With distinct ids, an event that claim_controller_events delivers is delivered by none of the
-- claims that follow it directly, in any number and with any limits, as long as each is made
-- before the lease of the first one ends.
pub claim_exclusive :
    (db : Database) (now limit lease_ms : ℕ) (claims : List (ℕ × ℕ × ℕ))
    → IsDistinct (map (λ (e : ControllerEvent). e.id) db.events)
    → All (λ (c : ℕ × ℕ × ℕ). c.0 < saturating_add now lease_ms) claims
    → All
        (λ (d : ControllerEventDelivery).
          All
            (λ (d' : ControllerEventDelivery). text_eq d'.id d.id ≡ false)
            (claim_series (claim_controller_events db now limit lease_ms).0 claims))
        (claim_controller_events db now limit lease_ms).1
unfolding claim_controller_events
claim_exclusive db now limit lease_ms claims d h =
    let rows = release_expired now db.events in
    let u = saturating_add now lease_ms in
    All-map _ _
      (λ (a : ControllerEventDelivery) k.
        claim_series-IsOther a.id u (claim_controller_events db now limit lease_ms).0 claims h k)
      (claim_each u (due_ids now limit rows) (rows, [])).1
      (claim_each_leases u (due_ids now limit rows) rows []
        (rw (release_expired-ids now db.events) d) tt)
