-- ===== src/Orchestrator/Span.antt =====
-- src/orchestrator.rs: the recorded result of a bot is its last turn, read from the transcript.
use mathlib.Core.List.{reverse-cons, reverse-append, reverse-reverse, append_assoc}
use openab_control_plane.Prelude.{
  All-reverse, last?-reverse, filterb-reverse, rfindb-append, rfindb_holds, ◌≡◌, refl, sym, ap, ◌∙◌,
  ◌⊎◌, inl, inr, Bool, true, false, ◌&&◌, ◌||◌, Option, some, List, [], ◌∷◌, ◌++◌, arith,
  Bool-cases, Option-cases, All, All-Has, Has, reverse, rfindb, filterb, first?, last?, is_some_and,
  subst,
}
use openab_control_plane.Text.{Text, codes, text_eq, text_eq_iff, text_ops}
use openab_control_plane.Store.{Message}
use openab_control_plane.Orchestrator.{
  is_settled_content, is_latest, latest_settled, is_author, is_transparent, span_behind,
  span_newest_first, settled_span,
}

-- A settled message of the bot `author`, and a message that does not end its turn.
abbrev pub is_own : Text → Message → Bool
is_own author m = is_author author m && is_settled_content m.content

abbrev pub is_inside : Text → Message → Bool
is_inside author m = is_transparent m || is_author author m

bot_is_not_transparent : (m : Message) → m.author_kind ≡ codes "bot" → is_transparent m ≡ false
unfolding is_transparent text_ops
bot_is_not_transparent m e = rw e refl

transparent_is_not_own :
    (author : Text) (m : Message) → is_transparent m ≡ true → is_own author m ≡ false
unfolding is_author
transparent_is_not_own author m h = elim (Bool-cases (text_eq m.author_kind (codes "bot"))) [
  | inr n ↦ rw n refl
  | inl y ↦
      absurd (cc (h, bot_is_not_transparent m ((text_eq_iff m.author_kind (codes "bot")).0 y)))
]

-- Newest first: the loop takes the settled messages of the author up to the first that ends the turn.
abbrev TurnBehind : Text → List Message → Type 0
TurnBehind author ms =
    (block rest : List Message) × (ms ≡ block ++ rest)
    × All (λ m. is_inside author m ≡ true) block
    × (is_some_and (first? rest) (is_inside author) ≡ false)
    × (span_behind author ms ≡ filterb (is_own author) block)

span_behind-TurnBehind : (author : Text) (ms : List Message) → TurnBehind author ms
unfolding span_behind
span_behind-TurnBehind author [] = ([], [], refl, tt, refl, refl)
span_behind-TurnBehind author (m ∷ older) =
    let (block, rest, parts, within, ends, span) = span_behind-TurnBehind author older in
    elim (Bool-cases (is_transparent m)) [
      | inl t ↦ (
        m ∷ block,
        rest,
        ap (λ ms. m ∷ ms) parts,
        (rw t refl, within),
        ends,
        rw (t, transparent_is_not_own author m t) span,
      )
      | inr t ↦ elim (Bool-cases (is_author author m)) [
        | inr n ↦ ([], m ∷ older, refl, tt, rw (t, n) refl, rw (t, n) refl)
        | inl y ↦ (
          m ∷ block,
          rest,
          ap (λ ms. m ∷ ms) parts,
          (rw (t, y) refl, within),
          ends,
          rw (t, y, span) refl,
        )
      ]
    ]

-- Newest first: the messages after the turn's last settled one, that one, and the turn behind it.
abbrev NewestTurn : Text → List Message → Type 0
NewestTurn author ms =
    (after : List Message) × (m : Message) × (block rest : List Message) × (ms
      ≡ after ++ (m ∷ (block ++ rest)))
    × All (λ x. is_own author x ≡ false) after
    × (is_own author m ≡ true)
    × All (λ x. is_inside author x ≡ true) block
    × (is_some_and (first? rest) (is_inside author) ≡ false)
    × (span_newest_first author ms ≡ m ∷ filterb (is_own author) block)

span_newest_first-NewestTurn :
    (author : Text) (ms : List Message)
    → (All (λ x. is_own author x ≡ false) ms × (span_newest_first author ms ≡ []))
      ⊎ NewestTurn author ms
unfolding span_newest_first
span_newest_first-NewestTurn author [] = inl (tt, refl)
span_newest_first-NewestTurn author (m ∷ older) = elim (Bool-cases (is_own author m)) [
  | inl y ↦
      let (block, rest, parts, within, ends, span) = span_behind-TurnBehind author older in
      inr (
        [],
        m,
        block,
        rest,
        ap (λ ms. m ∷ ms) parts,
        tt,
        y,
        within,
        ends,
        rw y (ap (λ ms. m ∷ ms) span),
      )
  | inr n ↦ elim (span_newest_first-NewestTurn author older) [
    | inl (none_own, span) ↦ inl ((n, none_own), rw n span)
    | inr (after, last, block, rest, parts, later, own, within, ends, span) ↦ inr (
      m ∷ after,
      last,
      block,
      rest,
      ap (λ ms. m ∷ ms) parts,
      (n, later),
      own,
      within,
      ends,
      rw n span,
    )
  ]
]

-- The verdict text is that of `m`, or of a later row that names the bot without being a message of it.
abbrev pub ReadsFrom : Text → Message → List Message → Option Text → Type 0
ReadsFrom author m after verdict =
    (verdict ≡ some m.content)
    ⊎ ((x : Message) × Has x after × (is_author author x ≡ false) × (verdict ≡ some x.content))

own_is_latest : (author : Text) (m : Message) → is_own author m ≡ true → is_latest author m ≡ true
unfolding is_latest is_author
own_is_latest author m h = ground arith

latest_is_foreign :
    (author : Text) (m : Message)
    → is_latest author m ≡ true
    → is_own author m ≡ false
    → is_author author m ≡ false
unfolding is_latest is_author
latest_is_foreign author m h n = ground arith

latest_settled-ReadsFrom :
    (author : Text) (front after : List Message) (m : Message)
    → is_own author m ≡ true
    → All (λ x. is_own author x ≡ false) after
    → ReadsFrom author m after (latest_settled (front ++ (m ∷ after)) author)
unfolding latest_settled
latest_settled-ReadsFrom author front after m own later =
    let p = is_latest author in
    let found = rfindb-append p front (m ∷ after) in
    let here = own_is_latest author m own in
    elim (Option-cases (rfindb p after)) [
      | inl e ↦ inl (rw (found, e, here) refl)
      | inr (x, e) ↦
          let last = rfindb_holds (λ y. is_own author y ≡ false) p after {y = x} later e in
          let stands = rfindb_holds (λ y. Has y after) p after {y = x} (All-Has after) e in
          inr (x, stands.0, latest_is_foreign author x last.1 last.0, rw (found, e) refl)
    ]

-- The turn that the span is read from: settled last message `m`, behind it a block of the bot's
-- messages and of transparent rows, and before the block the end or a row of someone else.
abbrev pub IsLastTurn : List Message → Text → Type 0
IsLastTurn messages author =
    (before block after : List Message) × (m : Message) × (messages
      ≡ (before ++ block) ++ (m ∷ after))
    × (is_own author m ≡ true)
    × All (λ x. is_own author x ≡ false) after
    × All (λ x. is_inside author x ≡ true) block
    × (is_some_and (last? before) (is_inside author) ≡ false)
    × (settled_span messages author ≡ filterb (is_own author) block ++ (m ∷ []))
    × ReadsFrom author m after (latest_settled messages author)

turn_around :
    (after block rest : List Message) (m : Message)
    → reverse (after ++ (m ∷ (block ++ rest)))
      ≡ (reverse rest ++ reverse block) ++ (m ∷ reverse after)
turn_around after block rest m =
    reverse-append after (m ∷ (block ++ rest))
    ∙ ap (λ xs. xs ++ reverse after) (reverse-cons m (block ++ rest))
    ∙ append_assoc (reverse (block ++ rest)) (m ∷ []) (reverse after)
    ∙ ap (λ xs. xs ++ (m ∷ reverse after)) (reverse-append block rest)

newest_turn :
    (messages : List Message) (author : Text)
    → NewestTurn author (reverse messages)
    → IsLastTurn messages author
unfolding settled_span
newest_turn messages author (after, m, block, rest, parts, later, own, within, ends, span) =
    let whole : messages ≡ (reverse rest ++ reverse block) ++ (m ∷ reverse after) =
      sym (reverse-reverse messages) ∙ ap reverse parts ∙ turn_around after block rest m in
    let later' = All-reverse (λ x. is_own author x ≡ false) after later in
    (
      reverse rest,
      reverse block,
      reverse after,
      m,
      whole,
      own,
      later',
      All-reverse (λ x. is_inside author x ≡ true) block within,
      ap (λ o. is_some_and o (is_inside author)) (last?-reverse rest) ∙ ends,
      ap reverse span
          ∙ reverse-cons m (filterb (is_own author) block)
          ∙ ap (λ xs. xs ++ (m ∷ [])) (sym (filterb-reverse (is_own author) block)),
      subst (λ ms. ReadsFrom author m (reverse after) (latest_settled ms author)) (sym whole)
          (latest_settled-ReadsFrom author (reverse rest ++ reverse block) (reverse after) m own
            later'),
    )

-- For any transcript, the span of a bot is empty where the bot has no settled message. Otherwise it
-- is the bot's last settled message, after the settled ones of the longest block behind it that holds
-- only the bot's own messages and system or status rows. The text of latest_settled is then that of the
-- span's last message, or of a later row that names the bot but is not a bot's message.
pub settled_span-IsLastTurn :
    (messages : List Message) (author : Text)
    → (All (λ x. is_own author x ≡ false) messages × (settled_span messages author ≡ []))
      ⊎ IsLastTurn messages author
unfolding settled_span
settled_span-IsLastTurn messages author =
    elim (span_newest_first-NewestTurn author (reverse messages)) [
      | inl (none_own, span) ↦ inl (
        subst (All (λ x. is_own author x ≡ false)) (reverse-reverse messages)
            (All-reverse (λ x. is_own author x ≡ false) (reverse messages) none_own),
        ap reverse span,
      )
      | inr turn ↦ inr (newest_turn messages author turn)
    ]
