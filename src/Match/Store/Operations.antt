-- ===== src/Match/Store/Operations.antt =====
-- The operations on the store of the matches, one after another.
use seg.Prelude.{ℕ, Bool, List, [], ◌∷◌, number_key}
use seg.Text.{Text}
use seg.Lobby.State.{AccountId}
use seg.Match.Store.{
  MatchRuntime, MatchRecord, MatchStore, State, Spoken, store, conclude, modify_record, update,
  release, view_for, reset_vision, set_connected, add_chat, remove_match,
}

module _ (rt : MatchRuntime) where
  -- `moves` is what the runtime of a match does by itself: a tick or an order.
  pub data StoreOp : Type 0 where
    stores : State rt → Text → StoreOp
    concludes : ℕ → StoreOp
    updates : State rt → StoreOp
    releases : AccountId → StoreOp
    views : ℕ → AccountId → StoreOp
    resets : AccountId → StoreOp
    connects : AccountId → Bool → StoreOp
    says : ℕ → Spoken → StoreOp
    removes : ℕ → StoreOp
    moves : ℕ → (rt.Runtime → rt.Runtime) → StoreOp

  abbrev pub moving : (rt.Runtime → rt.Runtime) → MatchRecord rt → MatchRecord rt
  moving f r = record r { runtime = f r.runtime }

  unfoldable pub run : StoreOp → MatchStore rt → MatchStore rt
  run (stores state lobby_name) s = store rt state lobby_name s
  run (concludes id) s = (conclude rt id s).0
  run (updates state) s = update rt state s
  run (releases account) s = release rt account s
  run (views id account) s = (view_for rt id account s).0
  run (resets account) s = reset_vision rt account s
  run (connects account connected) s = set_connected rt account connected s
  run (says id spoken) s = (add_chat rt id spoken s).0
  run (removes id) s = remove_match rt id s
  run (moves id f) s = modify_record rt id (moving f) s

  unfoldable pub run_all : List StoreOp → MatchStore rt → MatchStore rt
  run_all [] s = s
  run_all (op ∷ ops) s = run_all ops (run op s)

  abbrev pub no_matches : MatchStore rt
  no_matches = record { matches = []; by_account = [] }
