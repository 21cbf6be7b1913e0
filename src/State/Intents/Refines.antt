-- ===== src/State/Intents/Refines.antt =====
-- The intent store keeps its promise.
use alpha_live.Prelude.{
  ℕ, ◌∙◌, refl, ap, Bool, true, false, Option, some, List, [], ◌∷◌, ◌==◌, if◌then◌else◌,
  Option-cases, inl, inr,
}
use alpha_live.Prelude.Dict.{lookup-insert}
use alpha_live.State.Types.{Intent, BotState}
use alpha_live.State.Disk.{Store, mutate}
use alpha_live.State.Disk.Load.{load-dump}
use alpha_live.State.Intents.{
  put_intent, new_intent, create_submission_intent, update_submission_intent,
}
use alpha_live.State.Intents.Contract.{
  Call, create, update, Step, call, crash, restarted, perform, advance, advance_all, IntentMap,
  Promise, put, remember, promised_call, promised, promised_all, Agrees, Implements,
}

put-Agrees :
    (id : ℕ) (i : Intent) (s : BotState) (m : IntentMap)
    → Agrees s m
    → Agrees (put_intent id i s) (put id i m)
put-Agrees id i s m h k =
    lookup-insert k id i s.submission_intents ∙ ap (λ o. if id == k then some i else o) (h k)

-- Saving what agrees with a map remembers the map.
mutate-Implements :
    (f : BotState → BotState) (w : Bool) (st : Store) (p : Promise) (m : IntentMap)
    → Implements st p
    → Agrees (f st.mem) m
    → Implements (mutate f (record st { file_ok = w })).0 (remember w m p)
unfolding mutate
mutate-Implements f true st p m (h, s, e, d) a = (a, f st.mem, refl, a)
mutate-Implements f false st p m (h, s, e, d) a = (a, s, e, d)

call-Implements :
    (w : Bool) (c : Call) (st : Store) (p : Promise)
    → Implements st p
    → Implements (perform c (record st { file_ok = w })) (promised_call w c p)
unfolding perform promised_call create_submission_intent update_submission_intent
call-Implements w (create id ticker side qty order_type now) st p r =
    let i = new_intent id ticker side qty order_type now in
    mutate-Implements (put_intent id i) w st p (put id i p.memory) r
      (put-Agrees id i st.mem p.memory r.0)
call-Implements w (update id fields now) st p r = elim (Option-cases (p.memory id)) [
  | inl e ↦ let e' = r.0 id ∙ e in simp (e, e', perform, update_submission_intent, promised_call) r
  | inr (i, e) ↦
      let e' = r.0 id ∙ e in
      let j : Intent = record (fields i) { updated_at = now } in
      simp (e, e', perform, update_submission_intent, promised_call)
        (mutate-Implements (put_intent id j) w st p (put id j p.memory) r
          (put-Agrees id j st.mem p.memory r.0))
]

crash-Implements :
    (env : Option (List ℕ)) (st : Store) (p : Promise)
    → Implements st p
    → Implements (restarted env st) (record p { memory = p.durable })
unfolding restarted
crash-Implements env st p (h, s, e, d) = rw (load-dump s st.backup env e, restarted) (d, s, e, d)

-- The intent store refines its promise. From a store whose state file holds a saved state, over any
-- sequence of creations, updates and crashes, where the environment chooses which writes succeed,
-- the intents in memory are those of the promised map, and the state file holds the promised durable
-- map: a created intent is there and is found by its id, an update changes that intent only and an
-- unknown one not at all, a write that fails leaves the file as it was, and after a crash the intents
-- are those of the last write that succeeded.
pub intents_refine :
    (env : Option (List ℕ)) (steps : List Step) (st : Store) (p : Promise)
    → Implements st p
    → Implements (advance_all env steps st) (promised_all steps p)
unfolding advance_all promised_all
intents_refine env [] st p r = r
intents_refine env (call w c ∷ xs) st p r =
    intents_refine env xs (advance env (call w c) st) (promised (call w c) p)
      (call-Implements w c st p r)
intents_refine env (crash ∷ xs) st p r =
    intents_refine env xs (advance env crash st) (promised crash p) (crash-Implements env st p r)
