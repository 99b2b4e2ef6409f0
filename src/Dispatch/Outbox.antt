-- ===== src/Dispatch/Outbox.antt =====
-- The transactional outbox of src/prd_agent/production/dispatch.py: `get_outbox`, `claim_outbox`,
-- `mark_outbox_published`, `mark_outbox_failed`.
use prd_agent.Base.{
  nat_key, text_key, ℕ, suc, ◌+◌, ◌*◌, ◌^◌, min, String, Bool, true, false, ◌&&◌, ◌||◌, not, Option,
  none, some, List, [], ◌∷◌, ltb, leb, ◌==◌, text_le, holds, is_some, if◌then◌else◌, Result, ok,
  err, or_raise,
}
use prd_agent.Base.Dict.{get, put, values}
use prd_agent.Base.Sort.{sorted}
use prd_agent.Dispatch.Model.{ProductionRun, OutboxMessage, Store, Error, key_error, is_queued}
use prd_agent.Dispatch.Admission.{prepend}

unfoldable pub get_outbox : String → Store → Result Error OutboxMessage
get_outbox message_id s = or_raise (get message_id s.outbox) key_error

-- key=lambda item: (item.available_at, item.message_id)
abbrev pub delivery_le : OutboxMessage → OutboxMessage → Bool
delivery_le a b =
    ltb a.available_at b.available_at
    || (a.available_at == b.available_at && text_le a.message_id b.message_id)

abbrev pub is_later : Option ℕ → ℕ → Bool
is_later none now = false
is_later (some t) now = ltb now t

-- The test that passes a message over, negated.
unfoldable pub is_claimable : OutboxMessage → ProductionRun → ℕ → Bool
is_claimable value run now = not (
    is_some value.published_at
    || (is_some value.quarantined_at
        || (ltb now value.available_at
            || (is_later value.lease_expires_at now || not (is_queued run.status)))))

abbrev pub claimed_by : String → ℕ → OutboxMessage → OutboxMessage
claimed_by publisher_id expires value = record value {
  lease_owner = some publisher_id;
  lease_expires_at = some expires;
}

abbrev pub save_outbox : OutboxMessage → Store → Store
save_outbox value s = record s { outbox = put value.message_id value s.outbox }

abbrev pub Claimed : Type 0
Claimed = Result Error (List OutboxMessage) × Store

-- The body of the loop over the sorted snapshot, with the rest of the loop as an argument.
unfoldable pub claim_one :
    (ℕ → Store → Claimed)
    → String
    → ℕ
    → ℕ
    → OutboxMessage
    → Option ProductionRun
    → ℕ
    → Store
    → Claimed
claim_one rest publisher_id now lease_ttl value none n s = (err key_error, s)
claim_one rest publisher_id now lease_ttl value (some run) n s = elim (is_claimable value run now) [
  | true ↦
      let updated = claimed_by publisher_id (now + lease_ttl) value in
      let (claimed, s') = rest (suc n) (save_outbox updated s) in (prepend updated claimed, s')
  | false ↦ rest n s
]

-- `n` is len(claimed).
unfoldable pub claim_loop : String → ℕ → ℕ → ℕ → List OutboxMessage → ℕ → Store → Claimed
claim_loop publisher_id now lease_ttl limit [] n s = (ok [], s)
claim_loop publisher_id now lease_ttl limit (value ∷ rest) n s = elim (leb limit n) [
  | true ↦ (ok [], s)
  | false ↦
      claim_one (claim_loop publisher_id now lease_ttl limit rest) publisher_id now lease_ttl value
        (get value.aggregate_id s.runs) n s
]

unfoldable pub claim_outbox : String → ℕ → ℕ → ℕ → Store → Claimed
claim_outbox publisher_id now lease_ttl limit s =
    claim_loop publisher_id now lease_ttl limit (sorted delivery_le (values s.outbox)) 0 s

abbrev pub mark_published_by : ℕ → OutboxMessage → OutboxMessage
mark_published_by now value = record value {
  published_at = some now;
  lease_owner = none;
  lease_expires_at = none;
}

unfoldable pub mark_outbox_published : String → String → ℕ → Store → Result Error Bool × Store
mark_outbox_published message_id publisher_id now s = elim (get message_id s.outbox) [
  | none ↦ (err key_error, s)
  | some value ↦
      if holds value.lease_owner publisher_id
      then (ok true, record s { outbox = put message_id (mark_published_by now value) s.outbox })
      else (ok false, s)
]

-- timedelta(seconds=min(2 ** attempts, 300))
unfoldable pub backoff : ℕ → ℕ
backoff attempts = min (2 ^ attempts) 300 * 1000000

unfoldable pub mark_failed_at : ℕ → ℕ → OutboxMessage → OutboxMessage
mark_failed_at now max_attempts value =
    let tries = suc value.attempts in
    record value {
      attempts = tries;
      available_at = now + backoff tries;
      quarantined_at = if leb max_attempts tries then some now else none;
      lease_owner = none;
      lease_expires_at = none;
    }

unfoldable pub mark_outbox_failed : String → String → ℕ → ℕ → Store → Result Error Bool × Store
mark_outbox_failed message_id publisher_id now max_attempts s = elim (get message_id s.outbox) [
  | none ↦ (err key_error, s)
  | some value ↦
      if holds value.lease_owner publisher_id
      then (
        ok true,
        record s { outbox = put message_id (mark_failed_at now max_attempts value) s.outbox },
      )
      else (ok false, s)
]
