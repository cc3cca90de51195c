-- ===== src/Confirm/Traces.antt =====
-- One token over every sequence of calls. Each call holds the store's mutex, so that any concurrent
-- use is such a sequence.
use outlook_agent.Prelude.{
  Bool, Bool-cases, List, Option, String, [], arith, eq_iff, if◌then◌else◌, inl, inr, none, refl,
  some, suc, ℕ, ◌&&◌, ◌+◌, ◌==◌, ◌∷◌, ◌≡◌, ◌≤◌,
}
use outlook_agent.Table.{lookup}
use outlook_agent.Confirm.{Binding, Hashing, Record, Store, consume, generate, new_store}
use outlook_agent.Confirm.Tokens.{consume_iff, lookup-consume, lookup-generate}

pub data Call : Type 0 where
  generated : Option String → Binding → ℕ → ℕ → Call
  consumed : String → Binding → ℕ → Call

abbrev pub after : Hashing → Call → Store → Store
after h (generated token b ttl now) s = (generate h token b ttl now s).0
after h (consumed token b now) s = (consume h token b now s).0

abbrev count_if : Bool → ℕ → ℕ
count_if b n = if b then suc n else n

-- how often the calls of Consume accept `t`
pub accepted : Hashing → String → Store → List Call → ℕ
accepted h t s [] = 0
accepted h t s (generated token b ttl now ∷ cs) = accepted h t (generate h token b ttl now s).0 cs
accepted h t s (consumed token b now ∷ cs) =
    count_if ((consume h token b now s).1 && (token == t))
      (accepted h t (consume h token b now s).0 cs)

-- how often the calls of Generate return `t`
pub issued : String → List Call → ℕ
issued t [] = 0
issued t (generated none b ttl now ∷ cs) = issued t cs
issued t (generated (some token) b ttl now ∷ cs) = count_if (token == t) (issued t cs)
issued t (consumed token b now ∷ cs) = issued t cs

abbrev held : Option Record → ℕ
held none = 0
held (some r) = 1

pending : String → Store → ℕ
pending t s = held (lookup t s.records)

pending-generate :
    (h : Hashing) (t token : String) (b : Binding) (ttl now : ℕ) (s : Store)
    → pending t (generate h (some token) b ttl now s).0 ≤ count_if (token == t) (pending t s)
unfolding pending
pending-generate h t token b ttl now s = rw (lookup-generate h token b ttl now s t) (ground arith)

pending-generate-none :
    (h : Hashing) (t : String) (b : Binding) (ttl now : ℕ) (s : Store)
    → pending t (generate h none b ttl now s).0 ≡ pending t s
unfolding generate
pending-generate-none h t b ttl now s = refl

pending_of_accept :
    (h : Hashing) (t token : String) (b : Binding) (now : ℕ) (s : Store)
    → count_if ((consume h token b now s).1 && (token == t)) (pending t (consume h token b now s).0)
      ≤ pending t s
unfolding pending
pending_of_accept h t token b now s = elim (Bool-cases (consume h token b now s).1) [
  | inl taken ↦
      let held_before = (consume_iff h token b now s).0 taken in
      ground (arith, held_before.1, lookup-consume h token b now s t, eq_iff token t)
  | inr refused ↦ ground (arith, lookup-consume h token b now s t)
]

accepted-le :
    (h : Hashing) (t : String) (s : Store) (cs : List Call)
    → accepted h t s cs ≤ issued t cs + pending t s
unfolding accepted issued
accepted-le h t s [] = omega arith
accepted-le h t s (generated none b ttl now ∷ cs) = omega (
  arith,
  pending-generate-none h t b ttl now s,
  accepted-le h t (generate h none b ttl now s).0 cs,
)
accepted-le h t s (generated (some token) b ttl now ∷ cs) = ground (
  arith,
  pending-generate h t token b ttl now s,
  accepted-le h t (generate h (some token) b ttl now s).0 cs,
)
accepted-le h t s (consumed token b now ∷ cs) =
    ground
      (arith, pending_of_accept h t token b now s, accepted-le h t (consume h token b now s).0 cs)

-- From an empty store, Consume accepts a token at most as often as Generate returned it: a token
-- that was never generated is never accepted, and one that was generated once is accepted once at
-- most.
pub accepted-le-issued :
    (h : Hashing) (t : String) (cs : List Call) → accepted h t new_store cs ≤ issued t cs
unfolding pending lookup
accepted-le-issued h t cs = omega (arith, accepted-le h t new_store cs)
