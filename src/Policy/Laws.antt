-- ===== src/Policy/Laws.antt =====
-- What the policy permits without a review, and what a confirmation adds to it.
use outlook_agent.Prelude.{arith, false, true, ◌↔◌, ◌≡◌, ◌⊎◌}
use outlook_agent.Policy.{
  Request, destructive, draft_only, evaluate, evaluate_confirmed, read_attachment_explicit,
  read_body_explicit, read_metadata, reversible_bulk, reversible_single_item, send_like,
  settings_or_rules, unknown,
}

-- The requests that may run with no review: metadata, an explicit target for content, a draft that
-- sends nothing, an explicit intent for one item.
abbrev pub DirectlyAllowed : Request → Type 0
DirectlyAllowed r =
    (r.class ≡ read_metadata)
    ⊎ (((r.class ≡ read_body_explicit) ⊎ (r.class ≡ read_attachment_explicit))
        × (r.explicit_target ≡ true))
    ⊎ ((r.class ≡ draft_only) × (r.sends_message ≡ false))
    ⊎ ((r.class ≡ reversible_single_item) × (r.explicit_intent ≡ true))

-- The policy allows a request without confirmation exactly when it reads metadata, reads content
-- of an explicit target, drafts without sending, or changes one item with explicit intent.
pub evaluate-DirectlyAllowed : (r : Request) → ((evaluate r).allowed ≡ true) ↔ DirectlyAllowed r
unfolding evaluate
evaluate-DirectlyAllowed r = ground arith

-- The requests that may run once they are confirmed: those that change or send something, the
-- destructive and the unknown ones in the unsafe mode only, and reads and drafts as before.
abbrev pub ConfirmedAllowed : Request → Type 0
ConfirmedAllowed r =
    ((r.class ≡ reversible_single_item)
      ⊎ (r.class ≡ reversible_bulk)
      ⊎ (r.class ≡ send_like)
      ⊎ (r.class ≡ settings_or_rules))
    ⊎ (((r.class ≡ destructive) ⊎ (r.class ≡ unknown)) × (r.unsafe_mode ≡ true))
    ⊎ (r.class ≡ read_metadata)
    ⊎ (((r.class ≡ read_body_explicit) ⊎ (r.class ≡ read_attachment_explicit))
        × (r.explicit_target ≡ true))
    ⊎ ((r.class ≡ draft_only) × (r.sends_message ≡ false))

-- A confirmation makes the policy allow a request exactly when it is of a class that changes or
-- sends something, with the unsafe mode if it is destructive or unknown, or when it reads or drafts
-- as it may without a confirmation. A class that is none of the known ones is never allowed.
pub evaluate_confirmed-ConfirmedAllowed :
    (r : Request) → ((evaluate_confirmed r).allowed ≡ true) ↔ ConfirmedAllowed r
unfolding evaluate_confirmed
evaluate_confirmed-ConfirmedAllowed r = ground arith
