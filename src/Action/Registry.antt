-- ===== src/Action/Registry.antt =====
-- What Lookup finds after Register.
use outlook_agent.Prelude.{
  Option-cases, String, arith, false, if◌then◌else◌, inl, inr, not, true, ◌&&◌, ◌==◌, ◌≡◌,
}
use outlook_agent.Policy.{Request, evaluate}
use outlook_agent.Table
use outlook_agent.Table.{lookup-insert}
use outlook_agent.Action.{Definition, Actions, has, registry_key, register, lookup as find}

-- Register succeeds exactly when no action is registered under the key. It then registers the
-- definition under every spelling of the same key and leaves the other keys as they were; when it
-- fails it changes nothing.
pub lookup-register :
    (d : Definition) (actions : Actions) (transport name : String)
    → let (after, done) = register d actions in
      (done ≡ not (has (Table.lookup (registry_key d.transport d.name) actions)))
      × (find transport name after ≡ (
          if done && (registry_key d.transport d.name == registry_key transport name)
          then (d, true)
          else find transport name actions))
unfolding register find
lookup-register d actions transport name =
    elim (Option-cases (Table.lookup (registry_key d.transport d.name) actions)) [
      | inl free ↦ ground (
        arith,
        free,
        lookup-insert (registry_key d.transport d.name) (registry_key transport name) d actions,
      )
      | inr (other, taken) ↦ ground (arith, taken)
    ]

-- A key that is not registered is of the unknown class, so the policy never runs it directly.
pub missing_unknown :
    (actions : Actions) (transport name : String) (request : Request)
    → (find transport name actions).1 ≡ false
    → request.class ≡ (find transport name actions).0.class
    → (evaluate request).allowed ≡ false
unfolding find evaluate
missing_unknown actions transport name request missing same =
    elim (Option-cases (Table.lookup (registry_key transport name) actions)) [
      | inl free ↦ ground (arith, free)
      | inr (d, found) ↦ ground (arith, found)
    ]
