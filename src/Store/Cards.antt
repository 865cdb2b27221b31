-- ===== src/Store/Cards.antt =====
-- The statements on cards of apps/license-api/internal/store/licenses.go and users.go.
use vertify_license_platform.Prelude.{
  ℕ, Bool, true, ◌&&◌, ◌||◌, not, some, is_some, Text, text_eq, if◌then◌else◌,
}
use vertify_license_platform.Domain.{CardStatus, card_is, terminal, ok, err, no_rows}
use vertify_license_platform.Store.Table.{find, first, update, reaches}
use vertify_license_platform.Store.Rows.{Card}
use vertify_license_platform.Store.Tx.{Tx, selects}

-- `GetCardByID`
abbrev pub get_card : ℕ → Tx Card
get_card id = selects (λ db. find (λ (c : Card). c.id) id db.cards)

abbrev pub by_lookup : Text → Card → Bool
by_lookup lookup c = text_eq c.lookup lookup

-- `GetCardByLookup`; the column is unique.
unfoldable pub get_card_by_lookup : Text → Tx Card
get_card_by_lookup lookup = selects (λ db. first (by_lookup lookup) db.cards)

-- `UPDATE cards SET f WHERE id=$1 AND p`, with `ErrNoRows` if no row is reached
abbrev pub update_card : ℕ → (Card → Bool) → (Card → Card) → Tx (Unit {0})
update_card id p f db = (
  if reaches (λ (c : Card). c.id) id p db.cards then ok tt else err no_rows,
  record db { cards = update (λ (c : Card). c.id) id p f db.cards },
)

-- `SetCardStatus`
unfoldable pub set_card_status : ℕ → CardStatus → Tx (Unit {0})
set_card_status id status = update_card id (λ c. true) (λ c. record c { status = status })

-- `TransitionCardStatus`
unfoldable pub transition_card_status : ℕ → CardStatus → CardStatus → Tx (Unit {0})
transition_card_status id from to =
    update_card id (λ c. card_is c.status from) (λ c. record c { status = to })

-- `TransitionCardToTerminal`
unfoldable pub transition_card_to_terminal : ℕ → CardStatus → Tx (Unit {0})
transition_card_to_terminal id to =
    update_card id (λ c. not (terminal c.status)) (λ c. record c { status = to })

-- `CASE WHEN status='depleted' THEN 'depleted' ELSE 'active' END`
abbrev pub activated_status : CardStatus → CardStatus
activated_status s =
    if card_is s CardStatus.depleted then CardStatus.depleted else CardStatus.active

-- `SetCardActivated`, which does not look at the rows affected
unfoldable pub set_card_activated : ℕ → ℕ → ℕ → Tx (Unit {0})
set_card_activated id license_id at db = (
  ok tt,
  record db {
    cards =
        update (λ (c : Card). c.id) id
          (λ c. card_is c.status CardStatus.unused || card_is c.status CardStatus.depleted)
          (λ c. record c {
            status = activated_status c.status;
            license_id = some license_id;
            activated_at = some at;
          })
          db.cards;
  },
)

-- `SetCardNote`, which does not look at the rows affected
unfoldable pub write_card_note : ℕ → Text → Tx (Unit {0})
write_card_note id note db = (
  ok tt,
  record db {
    cards = update (λ (c : Card). c.id) id (λ c. true) (λ c. record c { note = note }) db.cards;
  },
)

-- `MarkCardUsedByUser` of users.go
unfoldable pub mark_card_used_by_user : ℕ → ℕ → ℕ → Tx (Unit {0})
mark_card_used_by_user id user_id now =
    update_card id
      (λ c.
        card_is c.status CardStatus.unused
        && not (is_some c.license_id)
        && not (is_some c.used_by_user))
      (λ c. record c {
        used_by_user = some user_id;
        status = CardStatus.depleted;
        activated_at = some now;
      })
