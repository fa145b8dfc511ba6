-- ===== src/Store/Outbox.antt =====
-- src/store.rs: the outbox, in which frames for a bot wait for its next connection, and the
-- done-votes that the reactions carry.
pub mod Acked
use openab_control_plane.Prelude.{
  ℕ, suc, ◌+◌, leb, ◌==◌, Bool, true, false, not, ◌&&◌, ◌||◌, Option, some, none, List, [], ◌∷◌,
  ◌++◌, if◌then◌else◌, anyb, filterb, findb, map, is_some, is_some_and, order_by, update_where,
}
use openab_control_plane.Text.{Text, codes, text_eq, is_text, contains}
use openab_control_plane.Store.Types.{Session, Message}

pub record OutboxRow : Type 0 where
  pub seq : ℕ
  pub bot_id : Text
  pub session_id : Option Text
  pub idem_key : Option Text
  pub frame : Text
  pub created_at : ℕ
  pub delivered_at : Option ℕ

-- The table, with the number that `AUTOINCREMENT` gives next.
pub record Outbox : Type 0 where
  pub rows : List OutboxRow
  pub next_seq : ℕ

-- `INSERT OR IGNORE`; `now` is what `now_ms()` returns.
unfoldable pub enqueue_outbox : ℕ → Outbox → Text → Text → Text → Text → Outbox
enqueue_outbox now o bot_id session_id idem_key frame =
    if anyb (λ (r : OutboxRow). is_text idem_key r.idem_key) o.rows then o else record {
      rows =
          o.rows
          ++ (record {
            seq = o.next_seq;
            bot_id = bot_id;
            session_id = some session_id;
            idem_key = some idem_key;
            frame = frame;
            created_at = now;
            delivered_at = none;
          }
              ∷ []);
      next_seq = o.next_seq + 1;
    }

abbrev pub is_pending_for : Text → OutboxRow → Bool
is_pending_for bot_id r = text_eq r.bot_id bot_id && not (is_some r.delivered_at)

unfoldable pub pending_outbox : Outbox → Text → List (ℕ × Text)
pending_outbox o bot_id =
    map (λ (r : OutboxRow). (r.seq, r.frame))
      (order_by (λ (a b : OutboxRow). leb a.seq b.seq) (filterb (is_pending_for bot_id) o.rows))

unfoldable pub ack_outbox : ℕ → Outbox → ℕ → Outbox
ack_outbox now o seq = record o {
  rows =
      update_where (λ (r : OutboxRow). r.seq == seq) (λ r. record r { delivered_at = some now })
        o.rows;
}

unfoldable pub purge_outbox_for_session_bot : Outbox → Text → Text → Outbox
purge_outbox_for_session_bot o session_id bot_id = record o {
  rows =
      filterb (λ (r : OutboxRow). not (is_text session_id r.session_id && text_eq r.bot_id bot_id))
        o.rows;
}

unfoldable pub purge_outbox_for_session : Outbox → Text → Outbox
purge_outbox_for_session o session_id = record o {
  rows = filterb (λ (r : OutboxRow). not (is_text session_id r.session_id)) o.rows;
}

-- The rows of closed and aborted sessions, and those without a session.
unfoldable pub purge_terminal_outbox : List Session → Outbox → Outbox
purge_terminal_outbox sessions o = record o {
  rows =
      filterb
        (λ (r : OutboxRow). is_some_and r.session_id (λ id. not (
          anyb
            (λ (s : Session).
              text_eq s.id id
              && (text_eq s.state (codes "closed") || text_eq s.state (codes "aborted")))
            sessions)))
        o.rows;
}

pub record Reaction : Type 0 where
  pub message_id : Text
  pub bot_id : Text
  pub emoji : Text

abbrev pub is_reaction : Text → Text → Text → Reaction → Bool
is_reaction message_id bot_id emoji r =
    text_eq r.message_id message_id && text_eq r.bot_id bot_id && text_eq r.emoji emoji

unfoldable pub add_reaction : List Reaction → Text → Text → Text → List Reaction
add_reaction rows message_id bot_id emoji =
    if anyb (is_reaction message_id bot_id emoji) rows
    then rows
    else rows ++ (record { message_id = message_id; bot_id = bot_id; emoji = emoji } ∷ [])

unfoldable pub remove_reaction : List Reaction → Text → Text → Text → List Reaction
remove_reaction rows message_id bot_id emoji =
    filterb (λ r. not (is_reaction message_id bot_id emoji r)) rows

-- A done-vote is on a client's or a system message, or on the bot's own.
unfoldable pub is_done_vote : List Message → Text → Reaction → Bool
is_done_vote messages session_id r =
    text_eq r.emoji (codes "🆗")
    && anyb
        (λ (m : Message).
          text_eq m.id r.message_id
          && text_eq m.session_id session_id
          && (text_eq m.author_kind (codes "client")
              || text_eq m.author_kind (codes "system")
              || is_text r.bot_id m.author_id))
        messages

unfoldable pub distinct_from : List Text → List Reaction → List Text
distinct_from known [] = known
distinct_from known (r ∷ rows) =
    distinct_from (if contains r.bot_id known then known else known ++ (r.bot_id ∷ [])) rows

unfoldable pub done_voters : List Message → List Reaction → Text → List Text
done_voters messages reactions session_id =
    distinct_from [] (filterb (is_done_vote messages session_id) reactions)
