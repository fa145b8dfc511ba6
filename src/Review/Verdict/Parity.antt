-- ===== src/Review/Verdict/Parity.antt =====
-- The two readings of a trailer, the kernel's and the controller's, agree.
use openab_control_plane.Prelude.{
  ℤ, ◌+◌, ◌≡◌, refl, sym, ◌∙◌, ap, some, none, List, [], ◌∷◌, arith, map_some, ◌>>=◌, last?,
  unwrap_or, >>=-map_some, map_some->>=, drop, length,
}
use openab_control_plane.Text.{Text, codes, split_once, parse_i64, find, rfind}
use openab_control_plane.Council.Verdict as Kernel
use openab_control_plane.Council.Verdict.{derive_decision}
use openab_control_plane.Review.Verdict.{
  VerdictTrailer, Counts, set_count, parse_count, count_parts, derived, read_words,
  parse_verdict_trailer, unfenced_lines,
}

abbrev pub kernel_trailer : VerdictTrailer → Kernel.VerdictTrailer
kernel_trailer t = record { decision = t.decision; red = t.red; yellow = t.yellow; green = t.green }

abbrev with_counts : Text → Counts → Kernel.VerdictTrailer
with_counts word c = record { decision = word; red = c.0; yellow = c.1; green = c.2 }

set_count-read_count :
    (word key : Text) (n : ℤ) (c : Counts)
    → Kernel.read_count key n (with_counts word c) ≡ map_some (with_counts word) (set_count key n c)
unfolding Kernel.read_count set_count
set_count-read_count word key n (red, yellow, green) = ground arith

nonnegative-parse_count : (value : Text) → Kernel.nonnegative (parse_i64 value) ≡ parse_count value
nonnegative-parse_count value = ground arith

count_parts-read_counts :
    (word : Text) (parts : List Text) (c : Counts)
    → Kernel.read_counts parts (with_counts word c)
      ≡ map_some (with_counts word) (count_parts parts c)
unfolding Kernel.read_counts count_parts
count_parts-read_counts word [] c = refl
count_parts-read_counts word (part ∷ parts) c =
    >>=-map_some (split_once b'=' part) _ (with_counts word) _ λ kv.
      rw (nonnegative-parse_count kv.1) (
        >>=-map_some (parse_count kv.1) _ (with_counts word) _ λ n.
          rw (set_count-read_count word kv.0 n c) (
            map_some->>= (set_count kv.0 n c) (with_counts word) (Kernel.read_counts parts)
            ∙ >>=-map_some (set_count kv.0 n c) _ (with_counts word) _
                (count_parts-read_counts word parts)))

derive_decision-derived :
    (word : Text) (c : Counts)
    → derive_decision (with_counts word c) ≡ with_counts (unwrap_or (derived c.0 c.1) word) c
unfolding derive_decision derived
derive_decision-derived word (red, yellow, green) = ground arith

abbrev trailer_of : Text → Counts → VerdictTrailer
trailer_of word c = record {
  decision = unwrap_or (derived c.0 c.1) word;
  red = c.0;
  yellow = c.1;
  green = c.2;
}

read_counts-derive :
    (word : Text) (parts : List Text)
    → (Kernel.read_counts parts (with_counts word (none, none, none)) >>= λ t.
        some (derive_decision t))
      ≡ map_some kernel_trailer
          (count_parts parts (none, none, none) >>= λ c. some (trailer_of word c))
read_counts-derive word parts = rw (count_parts-read_counts word parts (none, none, none)) (
    map_some->>= (count_parts parts (none, none, none)) (with_counts word) _
    ∙ >>=-map_some (count_parts parts (none, none, none)) _ kernel_trailer _
        λ c. ap some (derive_decision-derived word c))

read_words-read_parts :
    (words : List Text) → Kernel.read_parts words ≡ map_some kernel_trailer (read_words words)
unfolding Kernel.read_parts read_words
read_words-read_parts [] = refl
read_words-read_parts (word ∷ parts) = ground (arith, read_counts-derive word parts)

-- For every text the controller reads the trailer that the kernel reads, and none where that reads none.
pub parse_verdict_trailer-parity :
    (text : Text)
    → map_some kernel_trailer (parse_verdict_trailer text) ≡ Kernel.parse_verdict_trailer text
unfolding parse_verdict_trailer Kernel.parse_verdict_trailer
parse_verdict_trailer-parity text = sym (
    >>=-map_some (last? (unfenced_lines text)) _ kernel_trailer _ λ line.
      >>=-map_some (rfind (codes "[[verdict:") line) _ kernel_trailer _ λ start.
        >>=-map_some (find (codes "]]") (drop (start + length (codes "[[verdict:")) line)) _
          kernel_trailer _ λ end. read_words-read_parts _)
