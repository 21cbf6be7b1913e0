-- ===== src/Main/Engines/Follow.antt =====
-- The engines follow the ledger.
use alpha_live.Prelude.{ℕ, ◌≡◌, ◌∙◌, refl, ap, Bool, true, false, [], ◌∷◌, Bool-cases, inl, inr}
use alpha_live.Prelude.Lists.{All}
use alpha_live.Prelude.Dict.{Dict, insert, contains}
use alpha_live.State.Types.{Position, Snapshot, BotState}
use alpha_live.State.Disk.{Store}
use alpha_live.State.Ledger.Highs.{mutate-mem}
use alpha_live.State.Engines.{save_engine_state}
use alpha_live.Engine.State.{Engine, get_state, sync_position}
use alpha_live.Main.Engines.{
  aligned, align_one, align_each, save_unless, has_open_intent, sync_engines_with_ledger,
}

sync_position-in_position :
    (has : Bool) (entry peak : ℕ) (e : Engine) → (sync_position has entry peak e).in_position ≡ has
unfolding sync_position
sync_position-in_position true entry peak e = elim (Bool-cases e.in_position) [
  | inl h ↦ simp (h, sync_position) refl
  | inr h ↦ simp (h, sync_position) refl
]
sync_position-in_position false entry peak e = elim (Bool-cases e.in_position) [
  | inl h ↦ simp (h, sync_position) refl
  | inr h ↦ simp (h, sync_position) refl
]

pub save_engine_state-ledger :
    (ticker : ℕ) (s : Snapshot) (st : Store)
    → (save_engine_state ticker s st).mem.open_positions ≡ st.mem.open_positions
unfolding save_engine_state
save_engine_state-ledger ticker s st =
    ap (λ (m : BotState). m.open_positions)
      (mutate-mem (λ m. record m { engine_state = insert ticker s m.engine_state }) st)

save_unless-ledger :
    (same : Bool) (ticker : ℕ) (e : Engine) (st : Store)
    → (save_unless same ticker e st).mem.open_positions ≡ st.mem.open_positions
save_unless-ledger true ticker e st = refl
save_unless-ledger false ticker e st = save_engine_state-ledger ticker (get_state e) st

-- An engine of a ticker with no open intent is long exactly when the ledger has the ticker.
abbrev pub Follows : Dict Position → (ℕ → Bool) → ℕ × Engine → Type 0
Follows ledger busy (ticker, e) = busy ticker ≡ false → e.in_position ≡ contains ticker ledger

align_one-Follows :
    (ledger : Dict Position) (busy : ℕ → Bool) (ticker : ℕ) (e : Engine) (st : Store)
    → (let r = align_one ledger busy ticker e st in
        Follows ledger busy (ticker, r.0) × (r.1.mem.open_positions ≡ st.mem.open_positions))
unfolding align_one aligned
align_one-Follows ledger busy ticker e st = elim (Bool-cases (busy ticker)) [
  | inl b ↦ simp (b, align_one) (λ h. absurd (cc), refl)
  | inr b ↦
      simp (b, align_one) (λ h. sync_position-in_position _ _ _ e, save_unless-ledger _ ticker _ st)
]

align_each-Follows :
    (ledger : Dict Position) (busy : ℕ → Bool) (d : Dict Engine) (st : Store)
    → (let r = align_each ledger busy d st in
        All (Follows ledger busy) r.0 × (r.1.mem.open_positions ≡ st.mem.open_positions))
unfolding align_each
align_each-Follows ledger busy [] st = (tt, refl)
align_each-Follows ledger busy ((ticker, e) ∷ d) st =
    let r = align_one ledger busy ticker e st in
    let (f, same) = align_one-Follows ledger busy ticker e st in
    let (fs, all) = align_each-Follows ledger busy d r.1 in ((f, fs), all ∙ same)

-- The ledger wins while the bot runs: after a sync, the engine of every ticker that has no open intent
-- is long exactly when the ledger holds the ticker, whatever the engine had signalled before, and the
-- ledger itself is as it was.
pub engines_follow_ledger :
    (d : Dict Engine) (st : Store)
    → (let r = sync_engines_with_ledger d st in
        All (Follows r.1.mem.open_positions (has_open_intent st.mem)) r.0
        × (r.1.mem.open_positions ≡ st.mem.open_positions))
unfolding sync_engines_with_ledger
engines_follow_ledger d st =
    let (fs, same) = align_each-Follows st.mem.open_positions (has_open_intent st.mem) d st in
    (rw same fs, same)
