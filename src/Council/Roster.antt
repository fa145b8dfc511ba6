-- ===== src/Council/Roster.antt =====
-- src/plugins/council/mod.rs: the names of the configured roster, and where they come from.
use mathlib.Core.List.{reverse-append, reverse-reverse}
use openab_control_plane.Prelude.{
  ◌≡◌, ◌≢◌, refl, sym, ap, ◌∙◌, subst, inl, inr, Bool, true, false, not, Option, some, none, List,
  [], ◌∷◌, ◌++◌, All, filterb, map, unwrap_or, Bool-cases, skip_while, reverse, ◌⊎◌, All-Has,
  All-filterb, Has,
}
use openab_control_plane.Text.{Text, codes, is_space, is_empty, trim, trim_start, trim_end, split}
use openab_control_plane.Council.{
  default_council_config, csv_value, filter_nonempty, nonempty_roster, from_values,
}

-- A text that begins with a character other than white space.
starts_filled : Text → Bool
starts_filled [] = false
starts_filled (c ∷ t) = not (is_space c)

-- A bot's name is not empty, and has no white space at either end.
pub IsName : Text → Type 0
IsName bot = (starts_filled bot ≡ true) × (starts_filled (reverse bot) ≡ true)

abbrev pub IsRoster : List Text → Type 0
IsRoster roster = (roster ≢ []) × All IsName roster

skip_while-starts_filled :
    (t : Text) → skip_while is_space t ≢ [] → starts_filled (skip_while is_space t) ≡ true
unfolding starts_filled
skip_while-starts_filled [] h = absurd (h refl)
skip_while-starts_filled (c ∷ t) h = elim (Bool-cases (is_space c)) [
  | inl e ↦ rw e (skip_while-starts_filled t (rw e at h))
  | inr e ↦ rw e (rw e refl)
]

-- What is skipped stands in front of the rest.
skip_while_rest : (t : Text) → (s : Text) × (t ≡ s ++ skip_while is_space t)
skip_while_rest [] = ([], refl)
skip_while_rest (c ∷ t) = elim (Bool-cases (is_space c)) [
  | inl e ↦ let rest = skip_while_rest t in (c ∷ rest.0, rw e (ap (λ u. c ∷ u) rest.1))
  | inr e ↦ ([], rw e refl)
]

starts_filled-append :
    (s t : Text) → s ≢ [] → starts_filled (s ++ t) ≡ true → starts_filled s ≡ true
unfolding starts_filled
starts_filled-append [] t h e = absurd (h refl)
starts_filled-append (c ∷ s) t h e = e

trim_end-starts_filled :
    (t : Text) → trim_end t ≢ [] → starts_filled t ≡ true → starts_filled (trim_end t) ≡ true
unfolding trim_end
trim_end-starts_filled t h e =
    let kept = skip_while is_space (reverse t) in
    let front = skip_while_rest (reverse t) in
    let whole : t ≡ reverse kept ++ reverse front.0 =
      sym (reverse-reverse t) ∙ ap reverse front.1 ∙ reverse-append front.0 kept in
    starts_filled-append (reverse kept) (reverse front.0) h
      (subst (λ u. starts_filled u ≡ true) whole e)

trim-IsName : (t : Text) → trim t ≢ [] → IsName (trim t)
unfolding trim trim_start trim_end IsName
trim-IsName t h =
    let started = skip_while is_space t in
    let kept = skip_while is_space (reverse started) in
    (
      trim_end-starts_filled started h (skip_while-starts_filled t (λ e. h (ap trim_end e))),
      rw (reverse-reverse kept)
          (skip_while-starts_filled (reverse started) (λ e. h (ap reverse e))),
    )

abbrev names : List Text → List Text
names items = filterb (λ item. not (is_empty item)) (map trim items)

is_filled : (t : Text) → is_empty t ≡ false → t ≢ []
unfolding is_empty
is_filled [] h = λ q. cc h
is_filled (c ∷ t) h = λ q. cc q

empty_is : (t : Text) → is_empty t ≡ true → t ≡ []
unfolding is_empty
empty_is [] h = refl
empty_is (c ∷ t) h = absurd (cc h)

names-IsName : (items : List Text) → All IsName (names items)
names-IsName [] = tt
names-IsName (item ∷ items) = elim (Bool-cases (is_empty (trim item))) [
  | inl e ↦ rw e (names-IsName items)
  | inr e ↦ rw e (trim-IsName item (is_filled (trim item) e), names-IsName items)
]

blank_of_names : (items : List Text) → names items ≡ [] → All (λ item. trim item ≡ []) items
blank_of_names [] h = tt
blank_of_names (item ∷ items) h = elim (Bool-cases (is_empty (trim item))) [
  | inl e ↦ (empty_is (trim item) e, blank_of_names items (rw e at h))
  | inr e ↦ absurd (cc (rw e at h))
]

default-IsRoster : IsRoster default_council_config.council_roster
unfolding IsName starts_filled is_space
default-IsRoster = (λ e. cc e, ((refl, refl), ((refl, refl), ((refl, refl), tt))))

-- Where the roster comes from: it is the default one where no value is given or all items of the value
-- are blank, and otherwise its names are trimmed items.
pub IsChosen : Option Text → List Text → Type 0
IsChosen none roster = roster ≡ default_council_config.council_roster
IsChosen (some value) roster =
    (All (λ item. trim item ≡ []) (split (codes ",") value)
      × (roster ≡ default_council_config.council_roster))
    ⊎ All (λ bot. Has bot (map trim (split (codes ",") value))) roster

chosen :
    (value : Text) (items : List Text)
    → names (split (codes ",") value) ≡ items
    → IsRoster (unwrap_or (nonempty_roster items) default_council_config.council_roster)
      × IsChosen
          (some value)
          (unwrap_or (nonempty_roster items) default_council_config.council_roster)
unfolding IsChosen
chosen value [] e = (default-IsRoster, inl (blank_of_names (split (codes ",") value) e, refl))
chosen value (bot ∷ bots) e =
    let items = map trim (split (codes ",") value) in
    (
      (λ q. cc q, subst (All IsName) e (names-IsName (split (codes ",") value))),
      inr (
          subst (All (λ b. Has b items)) e
            (All-filterb (λ b. Has b items) (λ item. not (is_empty item)) items (All-Has items))),
    )

csv_value-IsRoster :
    (value : Option Text)
    → IsRoster (unwrap_or (filter_nonempty (csv_value value)) default_council_config.council_roster)
      × IsChosen value
          (unwrap_or (filter_nonempty (csv_value value)) default_council_config.council_roster)
unfolding csv_value IsChosen
csv_value-IsRoster none = (default-IsRoster, refl)
csv_value-IsRoster (some value) = chosen value (names (split (codes ",") value)) refl

-- Whatever the configuration source answers, the roster names at least one bot, and each name is not
-- empty and has no white space at either end. It is the default roster where no value is given or
-- all items of the value are blank, and otherwise its names are trimmed items of the value.
pub from_values-IsRoster :
    (lookup : Text → Option Text)
    → IsRoster (from_values lookup).council_roster
      × IsChosen (lookup (codes "OABCP_COUNCIL_ROSTER")) (from_values lookup).council_roster
unfolding from_values
from_values-IsRoster lookup = csv_value-IsRoster (lookup (codes "OABCP_COUNCIL_ROSTER"))
