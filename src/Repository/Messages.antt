-- ===== src/Repository/Messages.antt =====
-- pkg/server/repository/relay.go: stored messages and their receipts.
pub mod Leases
use iscp.Prelude.{
  ℕ, ◌+◌, String, Bool, true, false, not, ◌&&◌, ◌||◌, Option, none, some, List, [], ◌∷◌, ◌++◌, map,
  if◌then◌else◌, string_eq, ◌==◌, ltb, leb, take, keep, is_blank, contains, Perm,
}
use iscp.Prelude.Int.{ℤ, pos, pos_part, ltb_ℤ, leb_ℤ, eqb_ℤ}
use iscp.Prelude.Sort.{SliceSort}
use iscp.Errors.{Error, ok, err, new, external, storage_invalid, reject_if}
use iscp.Effect.{Effect, Outcome, stop, next, ◌>>=◌, ◌>>◌, pure_call, finish}
use iscp.Repository.{require_domain, has_row, update_rows, Statement, exec}
use iscp.Repository.Relay.{RelayMessage, RelayReceipt, MessageRow, Tables, is_null}

unfoldable pub is_message : String → String → MessageRow → Bool
is_message domain_id message_id row =
    row.message.domain_id == domain_id && row.message.message_id == message_id

-- CHECK (priority >= 0 AND priority <= 9)
abbrev pub priority_allowed : ℤ → Bool
priority_allowed priority = leb_ℤ (pos 0) priority && leb_ℤ priority (pos 9)

put_message : RelayMessage → Tables → Tables × Outcome Error (Unit {0})
unfolding is_message
put_message msg t =
    if not (priority_allowed msg.priority)
    then (t, stop external)
    else if has_row (is_message msg.domain_id msg.message_id) t.messages
    then (
      record t {
        messages =
            update_rows (is_message msg.domain_id msg.message_id)
              (λ row. record row {
                message = record (row.message) {
                  route_metadata = msg.route_metadata;
                  envelope_raw = msg.envelope_raw;
                  envelope_canonical = msg.envelope_canonical;
                  priority = msg.priority;
                  expires_at = msg.expires_at;
                };
              })
              t.messages;
      },
      next tt,
    )
    else if has_row (λ row. row.message.id == msg.id) t.messages
    then (t, stop external)
    else (
      record t {
        messages =
            t.messages
            ++ record { message = msg; delivered_at = none; claimed_until = none; attempts = 0 }
              ∷ [];
      },
      next tt,
    )

unfoldable pub store_message : RelayMessage → Statement Tables (Unit {0})
unfolding put_message
store_message msg = do pure_call (require_domain msg.domain_id); exec (put_message msg)

-- delivery_claimed_until IS NULL OR delivery_claimed_until <= $3
unfoldable pub is_unclaimed : ℕ → Option ℕ → Bool
is_unclaimed now none = true
is_unclaimed now (some until) = leb until now

-- delivered_at IS NULL AND expires_at > $3
unfoldable pub is_pending : String → ℕ → MessageRow → Bool
is_pending domain_id now row =
    row.message.domain_id == domain_id && is_null row.delivered_at && ltb now row.message.expires_at

unfoldable pub is_claimable : String → String → ℕ → MessageRow → Bool
unfolding is_pending is_unclaimed
is_claimable domain_id recipient now row =
    is_pending domain_id now row
    && row.message.recipient_device_id == recipient
    && is_unclaimed now row.claimed_until

-- ORDER BY priority DESC, queued_at
unfoldable pub row_before : MessageRow → MessageRow → Bool
row_before a b =
    if eqb_ℤ a.message.priority b.message.priority
    then ltb a.message.queued_at b.message.queued_at
    else ltb_ℤ b.message.priority a.message.priority

-- What SQL leaves open: the order of rows that ORDER BY makes equal, and the order in which RETURNING
-- gives the updated rows.
pub record Planner : Type 0 where
  pub sorter : SliceSort row_before
  pub returned : List MessageRow → List MessageRow
  pub returned-perm : (rows : List MessageRow) → Perm (returned rows) rows

abbrev pub row_id : MessageRow → String
row_id row = row.message.id

module _ (planner : Planner) where
  unfoldable pub chosen_rows : String → String → ℕ → ℤ → Tables → List MessageRow
  chosen_rows domain_id recipient now limit t =
      take (pos_part limit)
        (planner.sorter.sort (keep (is_claimable domain_id recipient now) t.messages))

  unfoldable pub claim : String → String → ℕ → ℕ → ℤ → Tables → Tables × List RelayMessage
  unfolding chosen_rows
  claim domain_id recipient now until limit t =
      let chosen = chosen_rows domain_id recipient now limit t in
      (
        record t {
          messages =
              update_rows (λ row. contains (map row_id chosen) (row_id row))
                (λ row. record row { claimed_until = some until; attempts = row.attempts + 1 })
                t.messages;
        },
        map (λ row. row.message) (planner.returned chosen),
      )

  unfoldable pub claim_pending_messages_for :
      String → String → ℕ → ℤ → ℤ → Statement Tables (List RelayMessage)
  claim_pending_messages_for domain_id recipient now lease limit = do
    pure_call (require_domain domain_id)
    pure_call
        (reject_if (is_blank recipient) (new storage_invalid "recipient device id is required"))
    (if leb_ℤ limit (pos 0)
        then finish []
        else (pure_call (
              reject_if (leb_ℤ lease (pos 0))
                (new storage_invalid "delivery lease must be positive"))
            >> exec (λ t.
              let (t', out) = claim domain_id recipient now (now + pos_part lease) limit t in
              (t', next out))))

  unfoldable pub list_pending_messages : String → ℕ → ℤ → Statement Tables (List RelayMessage)
  list_pending_messages domain_id now limit = do
    pure_call (require_domain domain_id)
    (if leb_ℤ limit (pos 0)
        then finish []
        else exec (λ t. (
          t,
          next (
              map (λ row. row.message)
                (take (pos_part limit)
                  (planner.sorter.sort (keep (is_pending domain_id now) t.messages)))),
        )))

unfoldable pub is_receipt : String → String → RelayReceipt → Bool
is_receipt domain_id receipt_id row = row.domain_id == domain_id && row.receipt_id == receipt_id

-- CHECK (status IN (...))
abbrev pub receipt_statuses : List String
receipt_statuses = "accepted" ∷ "queued" ∷ "delivered_to_connection" ∷ "expired" ∷ "rejected" ∷ []

put_receipt : RelayReceipt → Tables → Tables × Outcome Error (Unit {0})
unfolding is_receipt
put_receipt receipt t =
    if not (contains receipt_statuses receipt.status)
    then (t, stop external)
    else if has_row (is_receipt receipt.domain_id receipt.receipt_id) t.receipts
    then (
      record t {
        receipts =
            update_rows (is_receipt receipt.domain_id receipt.receipt_id)
              (λ row. record row {
                status = receipt.status;
                receipt_raw = receipt.receipt_raw;
                receipt_canonical = receipt.receipt_canonical;
              })
              t.receipts;
      },
      next tt,
    )
    else if has_row (λ row. row.id == receipt.id) t.receipts
    then (t, stop external)
    else (record t { receipts = t.receipts ++ receipt ∷ [] }, next tt)

unfoldable pub store_receipt : RelayReceipt → Statement Tables (Unit {0})
unfolding put_receipt
store_receipt receipt = do pure_call (require_domain receipt.domain_id); exec (put_receipt receipt)

unfoldable pub mark_message_delivered : String → String → ℕ → Statement Tables (Unit {0})
mark_message_delivered domain_id message_id now = do
  pure_call (require_domain domain_id)
  exec (λ t. (
    record t {
      messages =
          update_rows (is_message domain_id message_id)
            (λ row. record row { delivered_at = some now; claimed_until = none }) t.messages;
    },
    next tt,
  ))
  exec (λ t. (
    record t {
      receipts =
          update_rows
            (λ row.
              row.domain_id == domain_id && row.message_id == message_id && row.status == "queued")
            (λ row. record row { status = "delivered_to_connection" }) t.receipts;
    },
    next tt,
  ))
