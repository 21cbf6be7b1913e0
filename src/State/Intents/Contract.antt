-- ===== src/State/Intents/Contract.antt =====
-- What the intent store of `BotState` promises: two maps from identifiers to intents, the one in
-- memory and the durable one, and what a call and a crash do to them.
use alpha_live.Prelude.{
  ℕ, ◌≡◌, Bool, Option, none, some, List, [], ◌∷◌, ℤ, ◌==◌, if◌then◌else◌, ok, raise,
}
use alpha_live.Prelude.Dict.{lookup}
use alpha_live.Risk.Types.{OrderType}
use alpha_live.State.Types.{Side, Intent, BotState}
use alpha_live.State.Disk.{Store, load, parsed, dump}
use alpha_live.State.Intents.{new_intent, create_submission_intent, update_submission_intent}

pub data Call : Type 0 where
  create : ℕ → ℕ → Side → ℤ → OrderType → ℕ → Call
  update : ℕ → (Intent → Intent) → ℕ → Call

-- A call whose write succeeds or not, or a crash after which the process starts again.
pub data Step : Type 0 where
  call : Bool → Call → Step
  crash : Step

-- The store after a crash: the state in memory is what the state file gives. A file that cannot be
-- read keeps the bot from starting; the store is left as it was.
unfoldable pub restarted : Option (List ℕ) → Store → Store
restarted env st = elim (load st.file st.backup env) [ ok s ↦ record st { mem = s } | raise e ↦ st ]

unfoldable pub perform : Call → Store → Store
perform (create id ticker side qty order_type now) st =
    (create_submission_intent id ticker side qty order_type now st).0
perform (update id fields now) st = update_submission_intent id fields now st

unfoldable pub advance : Option (List ℕ) → Step → Store → Store
unfolding perform restarted
advance env (call write_ok c) st = perform c (record st { file_ok = write_ok })
advance env crash st = restarted env st

unfoldable pub advance_all : Option (List ℕ) → List Step → Store → Store
unfolding advance
advance_all env [] st = st
advance_all env (x ∷ xs) st = advance_all env xs (advance env x st)

abbrev pub IntentMap : Type 0
IntentMap = ℕ → Option Intent

pub record Promise : Type 0 where
  pub memory : IntentMap
  pub durable : IntentMap

abbrev pub put : ℕ → Intent → IntentMap → IntentMap
put id i m = λ k. if id == k then some i else m k

abbrev pub remember : Bool → IntentMap → Promise → Promise
remember write_ok m p = record { memory = m; durable = if write_ok then m else p.durable }

-- An update of an unknown intent does nothing.
unfoldable pub promised_call : Bool → Call → Promise → Promise
unfolding new_intent
promised_call write_ok (create id ticker side qty order_type now) p =
    remember write_ok (put id (new_intent id ticker side qty order_type now) p.memory) p
promised_call write_ok (update id fields now) p = elim (p.memory id) [
  | none ↦ p
  | some i ↦ remember write_ok (put id (record (fields i) { updated_at = now }) p.memory) p
]

unfoldable pub promised : Step → Promise → Promise
unfolding promised_call
promised (call write_ok c) p = promised_call write_ok c p
promised crash p = record p { memory = p.durable }

unfoldable pub promised_all : List Step → Promise → Promise
unfolding promised
promised_all [] p = p
promised_all (x ∷ xs) p = promised_all xs (promised x p)

-- A state has the intents of a map.
abbrev pub Agrees : BotState → IntentMap → Type 0
Agrees s m = (k : ℕ) → lookup k s.submission_intents ≡ m k

-- The state in memory has the intents in memory, and the state file holds a state with the durable
-- ones.
abbrev pub Implements : Store → Promise → Type 0
Implements st p =
    Agrees st.mem p.memory × (s : BotState) × (st.file ≡ parsed (dump s)) × Agrees s p.durable
