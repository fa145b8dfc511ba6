-- ===== src/Store/Sessions/Roster.antt =====
-- src/store.rs: the seats of a session's roster, and the addition of bots up to a capacity.
use openab_control_plane.Prelude.{
  ℕ, suc, ◌+◌, ◌≤◌, ltb, ◌==◌, ◌≡◌, refl, ap, Bool, true, false, not, ◌&&◌, Option, some, none,
  List, [], ◌∷◌, ◌++◌, if◌then◌else◌, anyb, filterb, map, length, length-append, arith, Bool-cases,
  inl, inr, count_where, update_where,
}
use openab_control_plane.Text.{Text, text_eq, text_eq_refl, contains}
use openab_control_plane.Store.Database.{Database, SessionBot}
use openab_control_plane.Store.Sessions.Create.{OpeningInput, opening_messages}

pub data RosterAddOutcome : Type 0 where
  added : (added already_members : List Text) → RosterAddOutcome
  full : RosterAddOutcome

abbrev pub is_seat : Text → Text → SessionBot → Bool
is_seat session_id bot_id s = text_eq s.session_id session_id && text_eq s.bot_id bot_id

abbrev pub is_of : Text → SessionBot → Bool
is_of session_id s = text_eq s.session_id session_id

unfoldable pub add_session_bot : Database → Text → Text → Database × Bool
add_session_bot db session_id bot_id =
    if anyb (is_seat session_id bot_id) db.session_bots then (db, false) else (
      record db {
        session_bots =
            db.session_bots ++ (record { session_id = session_id; bot_id = bot_id } ∷ []);
      },
      true,
    )

unfoldable pub remove_session_bot : Database → Text → Text → Database × Bool
remove_session_bot db session_id bot_id = (
  record db { session_bots = filterb (λ s. not (is_seat session_id bot_id s)) db.session_bots },
  count_where (is_seat session_id bot_id) db.session_bots == 1,
)

-- A seat that is taken is an error, on which nothing changes.
unfoldable pub replace_session_bot : Database → Text → Text → Text → Option (Database × Bool)
replace_session_bot db session_id old_bot_id new_bot_id =
    if anyb (is_seat session_id old_bot_id) db.session_bots
      && (anyb (is_seat session_id new_bot_id) db.session_bots
          && not (text_eq old_bot_id new_bot_id))
    then none
    else some (
      record db {
        session_bots =
            update_where (is_seat session_id old_bot_id) (λ s. record s { bot_id = new_bot_id })
              db.session_bots;
      },
      count_where (is_seat session_id old_bot_id) db.session_bots == 1,
    )

-- The ids without repetitions, in the order of their first places.
unfoldable pub unique_from : List Text → List Text → List Text
unique_from known [] = known
unique_from known (bot_id ∷ bots) =
    unique_from (if contains bot_id known then known else known ++ (bot_id ∷ [])) bots

abbrev pub seats_of : Text → List Text → List SessionBot
seats_of session_id bots = map (λ bot_id. record { session_id = session_id; bot_id = bot_id }) bots

unfoldable pub new_members : Database → Text → List Text → List Text
new_members db session_id bots =
    filterb (λ bot_id. not (anyb (is_seat session_id bot_id) db.session_bots)) bots

unfoldable pub old_members : Database → Text → List Text → List Text
old_members db session_id bots =
    filterb (λ bot_id. anyb (is_seat session_id bot_id) db.session_bots) bots

-- `message_id` gives the ids of the messages to the bots that are added, `at` the time of the call.
unfoldable pub add_session_bots_if_capacity :
    (ℕ → Text)
    → ℕ
    → Database
    → Text
    → List Text
    → ℕ
    → List OpeningInput
    → Database × RosterAddOutcome
add_session_bots_if_capacity message_id at db session_id bot_ids max_roster opening_inputs =
    let unique = unique_from [] bot_ids in
    let new_bots = new_members db session_id unique in
    if ltb max_roster (count_where (is_of session_id) db.session_bots + length new_bots)
    then (db, full)
    else (
      record db {
        session_bots = db.session_bots ++ seats_of session_id new_bots;
        messages =
            db.messages
            ++ opening_messages message_id 0 session_id at
                (filterb (λ (i : OpeningInput). contains i.recipient new_bots) opening_inputs);
      },
      added new_bots (old_members db session_id unique),
    )

-- The members of a session, in the order of their seats.
unfoldable pub members : Text → List SessionBot → List Text
members session_id seats = map (λ (s : SessionBot). s.bot_id) (filterb (is_of session_id) seats)

members-append :
    (session_id : Text) (seats : List SessionBot) (bots : List Text)
    → members session_id (seats ++ seats_of session_id bots) ≡ members session_id seats ++ bots
unfolding members
members-append session_id [] [] = refl
members-append session_id [] (b ∷ bots) =
    rw (text_eq_refl session_id) (ap (λ xs. b ∷ xs) (members-append session_id [] bots))
members-append session_id (s ∷ seats) bots = elim (Bool-cases (is_of session_id s)) [
  | inl e ↦ rw e (ap (λ xs. s.bot_id ∷ xs) (members-append session_id seats bots))
  | inr e ↦ rw e (members-append session_id seats bots)
]

length-members :
    (session_id : Text) (seats : List SessionBot)
    → length (members session_id seats) ≡ count_where (is_of session_id) seats
unfolding members
length-members session_id [] = refl
length-members session_id (s ∷ seats) = elim (Bool-cases (is_of session_id s)) [
  | inl e ↦ rw e (ap suc (length-members session_id seats))
  | inr e ↦ rw e (length-members session_id seats)
]

-- What a call has done, by its outcome.
abbrev pub IsWithinCapacity : Text → ℕ → Database → Database × RosterAddOutcome → Type 0
IsWithinCapacity session_id max_roster db (db', full) = db' ≡ db
IsWithinCapacity session_id max_roster db (db', added bots known) =
    (members session_id db'.session_bots ≡ members session_id db.session_bots ++ bots)
    × (length (members session_id db'.session_bots) ≤ max_roster)

-- add_session_bots_if_capacity leaves the database as it was where it answers full, and otherwise
-- seats exactly the bots that it reports as added behind the members, with a roster no longer than
-- its maximum.
pub add_session_bots-IsWithinCapacity :
    (message_id : ℕ → Text) (at : ℕ) (db : Database) (session_id : Text) (bot_ids : List Text)
    (max_roster : ℕ) (opening_inputs : List OpeningInput)
    → IsWithinCapacity session_id max_roster db
        (add_session_bots_if_capacity message_id at db session_id bot_ids max_roster opening_inputs)
unfolding add_session_bots_if_capacity
add_session_bots-IsWithinCapacity message_id at db session_id bot_ids max_roster opening_inputs =
    let bots = new_members db session_id (unique_from [] bot_ids) in
    elim (Bool-cases
      (ltb max_roster (count_where (is_of session_id) db.session_bots + length bots))) [
        | inl e ↦ rw e refl
        | inr e ↦
            let fits : count_where (is_of session_id) db.session_bots + length bots ≤ max_roster =
              ground (arith, e) in
            let behind = members-append session_id db.session_bots bots in
            rw e (
              behind,
              rw behind (
                  omega (
                    arith,
                    fits,
                    length-append (members session_id db.session_bots) bots,
                    length-members session_id db.session_bots,
                  )),
            )
      ]
