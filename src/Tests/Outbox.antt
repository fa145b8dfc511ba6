-- ===== src/Tests/Outbox.antt =====
-- The theorem on the outbox of src/store.rs at a frame that is enqueued, sent and enqueued again.
use openab_control_plane.Prelude.{ℕ, ◌<◌, ◌==◌, ◌≡◌, refl, false, [], ◌∷◌, none, pos, All, arith}
use openab_control_plane.Text.{Text, codes, text_ops}
use openab_control_plane.Store.Outbox.{
  Outbox, enqueue_outbox, pending_outbox, ack_outbox, done_voters, distinct_from, is_done_vote,
}
use openab_control_plane.Store.Outbox.Acked.{here, next, enqueue, acked_never_pending}

abbrev empty : Outbox
empty = record { rows = []; next_seq = 1 }

abbrev queued : Outbox
queued = enqueue_outbox 5 empty (codes "r") (codes "ses_1") (codes "r:m") (codes "hello")

is_queued : pending_outbox queued (codes "r") ≡ (1, codes "hello") ∷ []
unfolding pending_outbox enqueue_outbox text_ops
is_queued = refl

next_is_free : 1 < queued.next_seq
unfolding enqueue_outbox text_ops
next_is_free = omega arith

pending_example :
    All
      (λ (p : ℕ × Text). (p.0 == 1) ≡ false)
      (pending_outbox
        (enqueue_outbox 9
          (ack_outbox 7 queued 1)
          (codes "r")
          (codes "ses_1")
          (codes "r:m")
          (codes "hello"))
        (codes "r"))
pending_example = acked_never_pending queued 1 7 (codes "r") next_is_free (
    next here
      (enqueue (ack_outbox 7 queued 1) 9 (codes "r") (codes "ses_1") (codes "r:m") (codes "hello")))

counts_own_vote :
    done_voters
      (record {
        id = codes "m";
        session_id = codes "s";
        thread_id = none;
        author_kind = codes "client";
        author_id = none;
        audience = none;
        content = [];
        reply_to = none;
        created_at = pos 1;
      }
        ∷ [])
      (record { message_id = codes "m"; bot_id = codes "r"; emoji = codes "🆗" }
        ∷ record { message_id = codes "m"; bot_id = codes "r"; emoji = codes "👀" }
        ∷ [])
      (codes "s")
    ≡ codes "r" ∷ []
unfolding done_voters distinct_from is_done_vote text_ops
counts_own_vote = refl
