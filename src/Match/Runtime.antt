-- ===== src/Match/Runtime.antt =====
-- The state and the results of a match, packages/shared/src/match/state.ts, and what the store and the
-- handler ask of packages/server/src/match/runtime.ts and of the projections of
-- packages/shared/src/match/view.ts, with the law that each of them needs.
use seg.Prelude.{ℕ, Bool, Option, List, ◌≡◌, number_key}
use seg.Text.{Text}
use seg.Lobby.State.{AccountId}

pub record MatchPlayer : Type 0 where
  pub account_id : AccountId
  pub username : Text
  pub team : Option ℕ
  pub connected : Bool

-- `World` is what a state has besides.
pub record MatchState (World : Type 0) : Type 0 where
  pub match_id : ℕ
  pub players : List MatchPlayer
  pub world : World

-- `Report` is what the results have besides the accounts of the players.
pub record MatchResults (Report : Type 0) : Type 0 where
  pub players : List AccountId
  pub report : Report

pub record MatchRuntime : Type 1 where
  pub World : Type 0
  pub Report : Type 0
  pub Vision : Type 0
  pub Point : Type 0
  pub Setup : Type 0
  pub View : Type 0
  pub Runtime : Type 0
  pub build : MatchState World → Runtime
  pub state : Runtime → MatchState World
  pub results : Runtime → Option (MatchResults Report)
  pub replace : MatchState World → Runtime → Runtime
  pub forget : AccountId → Runtime → Runtime
  pub tick : Runtime → Runtime × Bool
  pub vision_for : AccountId → Option ℕ → Runtime → Runtime × Vision
  pub has_debug_vision : AccountId → Runtime → Bool
  pub set_active_sonar : AccountId → ℕ → Bool → Runtime → Runtime × Bool
  pub fire : AccountId → ℕ → List ℕ → Point → Runtime → Runtime × ℕ
  pub drop : AccountId → ℕ → Runtime → Runtime × Bool
  pub load : AccountId → ℕ → ℕ → ℕ → Bool → Runtime → Runtime × Bool
  pub setup_for : MatchState World → AccountId → Bool → Setup
  pub view_for : MatchState World → AccountId → Vision → Bool → View
  pub state-replace : (s : MatchState World) (r : Runtime) → state (replace s r) ≡ s
  pub state-forget : (account : AccountId) (r : Runtime) → state (forget account r) ≡ state r
  pub state-vision_for :
      (account : AccountId) (team : Option ℕ) (r : Runtime)
      → state (vision_for account team r).0 ≡ state r
