-- ===== src/Council/Verdict/Rule.antt =====
-- What a parsed trailer says, whatever the text was.
use openab_control_plane.Prelude.{
  ℕ, suc, ℤ, pos, negsuc, ◌≡◌, ◌∙◌, sym, refl, ◌>>=◌, ◌⊎◌, ◌&&◌, Option, some, none, List, [], ◌∷◌,
  arith, subst, take, drop, length, ◌+◌, some_inj, unless-eq-some, not, last?, >>=-eq-some,
}
use openab_control_plane.Text.{
  split_whitespace, find, rfind, Text, text_eq_iff, text_eq, codes, split_once, parse_i64,
}
use openab_control_plane.Council.Verdict.{
  VerdictTrailer, approve, request_changes, nonnegative, read_count, read_counts, derive_decision,
  read_parts, parse_verdict_trailer_line, parse_verdict_trailer, unfenced_lines,
}

abbrev pub Nonnegative : Option ℤ → Type 0
Nonnegative none = Unit
Nonnegative (some (pos n)) = Unit
Nonnegative (some (negsuc n)) = ⊥

pub record CountsNonnegative (t : VerdictTrailer) : Type 0 where
  pub red : Nonnegative t.red
  pub yellow : Nonnegative t.yellow
  pub green : Nonnegative t.green

nonnegative-Nonnegative : (o : Option ℤ) {z : ℤ} → nonnegative o ≡ some z → Nonnegative (some z)
nonnegative-Nonnegative none h = cc
nonnegative-Nonnegative (some (pos n)) h = subst Nonnegative h tt
nonnegative-Nonnegative (some (negsuc n)) h = cc

-- One part keeps the word of the decision and puts a count where the key says.
read_count-Nonnegative :
    (key : Text) (z : ℤ) (t : VerdictTrailer) {t' : VerdictTrailer}
    → read_count key z t ≡ some t'
    → Nonnegative (some z)
    → CountsNonnegative t
    → CountsNonnegative t' × (t'.decision ≡ t.decision)
unfolding read_count
read_count-Nonnegative key (pos n) t {t'} h z c = ground arith
read_count-Nonnegative key (negsuc n) t {t'} h z c = absurd z

read_counts-Nonnegative :
    (parts : List Text) (t : VerdictTrailer) {t' : VerdictTrailer}
    → read_counts parts t ≡ some t'
    → CountsNonnegative t
    → CountsNonnegative t' × (t'.decision ≡ t.decision)
unfolding read_counts
read_counts-Nonnegative [] t h c = ground arith
read_counts-Nonnegative (part ∷ parts) t h c =
    let (kv, _, h₁) = >>=-eq-some (split_once b'=' part) _ h in
    let (n, parsed, h₂) = >>=-eq-some (nonnegative (parse_i64 kv.1)) _ h₁ in
    let (u, put, h₃) = >>=-eq-some (read_count kv.0 n t) _ h₂ in
    let once =
      read_count-Nonnegative kv.0 n t put (nonnegative-Nonnegative (parse_i64 kv.1) parsed) c in
    let more = read_counts-Nonnegative parts u h₃ once.0 in (more.0, more.1 ∙ once.1)

-- What the counts of a trailer make of its decision; `word` is what the chair wrote.
pub record Decides (word : Text) (t : VerdictTrailer) : Type 0 where
  pub red_blocks : (n : ℕ) → t.red ≡ some (pos (suc n)) → t.decision ≡ request_changes
  pub yellow_blocks : (n : ℕ) → t.yellow ≡ some (pos (suc n)) → t.decision ≡ request_changes
  pub both_clear : t.red ≡ some (pos 0) → t.yellow ≡ some (pos 0) → t.decision ≡ approve
  pub partial_red : t.red ≡ some (pos 0) → t.yellow ≡ none → t.decision ≡ word
  pub partial_yellow : t.red ≡ none → t.yellow ≡ some (pos 0) → t.decision ≡ word
  pub uncounted : t.red ≡ none → t.yellow ≡ none → t.decision ≡ word

derive_decision-Decides :
    (t : VerdictTrailer) → CountsNonnegative t → Decides t.decision (derive_decision t)
unfolding derive_decision
derive_decision-Decides t c = record {
  red_blocks = λ n e. ground arith;
  yellow_blocks = λ n e. ground arith;
  both_clear = λ e f. ground arith;
  partial_red = λ e f. ground arith;
  partial_yellow = λ e f. ground arith;
  uncounted = λ e f. ground arith;
}

abbrev pub IsDecision : Text → Type 0
IsDecision d = (d ≡ approve) ⊎ (d ≡ request_changes)

derive_decision-IsDecision :
    (t : VerdictTrailer) → IsDecision t.decision → IsDecision (derive_decision t).decision
unfolding derive_decision
derive_decision-IsDecision t h = ground arith

-- The pieces between the marks of the trailer, in the last line outside the fences.
abbrev pub trailer_words : Text → Option (List Text)
trailer_words text = do
  line ← last? (unfenced_lines text)
  start ← rfind (codes "[[verdict:") line
  let rest = drop (start + length (codes "[[verdict:")) line
  end ← find (codes "]]") rest
  some (split_whitespace (take end rest))

-- The trailer `t` was read from `words`, of which the first is the chair's word.
pub record Sound (words : List Text) (t : VerdictTrailer) : Type 0 where
  pub word : Text
  pub rest : List Text
  pub first : words ≡ word ∷ rest
  pub is_word : IsDecision word
  pub is_decision : IsDecision t.decision
  pub counts : CountsNonnegative t
  pub decides : Decides word t

abbrev blank : Text → VerdictTrailer
blank word = record { decision = word; red = none; yellow = none; green = none }

blank-Nonnegative : (word : Text) → CountsNonnegative (blank word)
blank-Nonnegative word = record { red = tt; yellow = tt; green = tt }

derive_decision-counts :
    (t : VerdictTrailer) → CountsNonnegative t → CountsNonnegative (derive_decision t)
unfolding derive_decision
derive_decision-counts t c = ground arith

read_parts-Sound :
    (parts : List Text) {t : VerdictTrailer} → read_parts parts ≡ some t → Sound parts t
unfolding read_parts
read_parts-Sound [] h = cc
read_parts-Sound (word ∷ parts) h =
    let (known, h₁) =
      unless-eq-some (not (text_eq word approve) && not (text_eq word request_changes)) _ h in
    let (t₀, read, h₂) = >>=-eq-some (read_counts parts (blank word)) _ h₁ in
    let counted = read_counts-Nonnegative parts (blank word) read (blank-Nonnegative word) in
    let one_of_two : IsDecision word =
      ground (arith, known, text_eq_iff word approve, text_eq_iff word request_changes) in
    subst (Sound (word ∷ parts)) (some_inj (derive_decision t₀) _ h₂) record {
      word = word;
      rest = parts;
      first = refl;
      is_word = one_of_two;
      is_decision = derive_decision-IsDecision t₀ (subst IsDecision (sym counted.1) one_of_two);
      counts = derive_decision-counts t₀ counted.0;
      decides =
          subst (λ w. Decides w (derive_decision t₀)) counted.1
            (derive_decision-Decides t₀ counted.0);
    }

-- A trailer that is read stands between the marks in the last unfenced line. Its first word is
-- approve or request_changes, and so is the decision; its counts are not negative; a positive red or
-- yellow count makes it request_changes, a zero in both makes it approve, and where the counts leave
-- it open it is the first word.
pub parse_verdict_trailer-Sound :
    (text : Text) {t : VerdictTrailer}
    → parse_verdict_trailer text ≡ some t
    → (words : List Text) × (trailer_words text ≡ some words) × Sound words t
unfolding parse_verdict_trailer parse_verdict_trailer_line
parse_verdict_trailer-Sound text h =
    let (line, found, h₁) = >>=-eq-some (last? (unfenced_lines text)) _ h in
    let (start, opened, h₂) = >>=-eq-some (rfind (codes "[[verdict:") line) _ h₁ in
    let rest = drop (start + length (codes "[[verdict:")) line in
    let (end, shut, h₃) = >>=-eq-some (find (codes "]]") rest) _ h₂ in
    let words = split_whitespace (take end rest) in
    (words, ground (arith, found, opened, shut), read_parts-Sound words h₃)
