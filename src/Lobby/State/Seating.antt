-- ===== src/Lobby/State/Seating.antt =====
-- Counting seats.
use seg.Prelude.{◌+◌, ◌≤◌, Bool, true, List, [], ◌∷◌, ◌≡◌, refl, ◌↔◌, filter, all, arith}
use seg.Lobby.Settings.{LobbyPosition, team1, team2}
use seg.Lobby.State.{is_playing, player_count, position_count, everyone_ready, ready_count}

module _ {M : Type 0} (position : M → LobbyPosition) where
  -- The players are those of the two teams.
  pub player_count-teams :
      (ms : List M)
      → player_count position ms
        ≡ position_count position ms team1 + position_count position ms team2
  unfolding player_count position_count
  player_count-teams [] = omega arith
  player_count-teams (m ∷ ms) = ground (arith, player_count-teams ms)

  module _ (ready : M → Bool) where
    ready_count-le : (ms : List M) → ready_count position ready ms ≤ player_count position ms
    unfolding ready_count player_count
    ready_count-le [] = omega arith
    ready_count-le (m ∷ ms) = ground (arith, ready_count-le ms)

    all_ready-count :
        (ms : List M)
        → all ready (filter (is_playing position) ms) ≡ true
        → ready_count position ready ms ≡ player_count position ms
    unfolding ready_count player_count
    all_ready-count [] h = refl
    all_ready-count (m ∷ ms) h = ground (arith, all_ready-count ms)

    count-all_ready :
        (ms : List M)
        → ready_count position ready ms ≡ player_count position ms
        → all ready (filter (is_playing position) ms) ≡ true
    unfolding ready_count player_count
    count-all_ready [] h = refl
    count-all_ready (m ∷ ms) h = ground (arith, count-all_ready ms, ready_count-le ms)

    -- Everyone is ready exactly when somebody plays and as many are ready as play.
    pub everyone_ready_iff :
        (ms : List M)
        → (everyone_ready position ready ms ≡ true) ↔ (
            (1 ≤ player_count position ms)
            × (ready_count position ready ms ≡ player_count position ms))
    unfolding everyone_ready player_count
    everyone_ready_iff ms = (
      λ h. (ground arith, all_ready-count ms (ground arith)),
      λ (some_play, same). ground (arith, some_play, count-all_ready ms same),
    )
