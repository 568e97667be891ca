-- ===== src/Lobby/Service/Promises/Privacy.antt =====
-- Who learns what of a selected fleet, and of an unlisted lobby.
use seg.Prelude.{
  ℕ, false, Option, none, some, List, [], ◌∷◌, map, ◌≡◌, refl, ◌∙◌, ap, arith, get, filter, sort_by,
  insert_by, number_key, Map, Option-cases, Bool-cases, inl, inr, ==_iff,
}
use seg.Text.{Text}
use seg.Lobby.State.{
  AccountId, LobbyId, SelectedFleet, LobbySelfView, no_self_view, LobbyListFilter, player_count,
  to_summary,
}
use seg.Lobby.Service.Registry.{
  LobbyService, MutableLobby, MutableMember, account_of, position_of, is_account, member_view,
  snapshot, find_member, require_lobby, lobby_for, member_for, fleet_view, view_for,
}
use seg.Lobby.Service.Create.{join_by_id, is_public}
use seg.Lobby.Service.Browse.{is_listed, matches, fuller_first, list}

-- The same registry with other fleets in the place of those selected.
module _ (f : AccountId → SelectedFleet → SelectedFleet) where
  abbrev swap_fleet : AccountId → Option SelectedFleet → Option SelectedFleet
  swap_fleet account none = none
  swap_fleet account (some fleet) = some (f account fleet)

  abbrev disguise_member : MutableMember → MutableMember
  disguise_member m = record m { fleet = swap_fleet (account_of m) m.fleet }

  abbrev disguise_lobby : MutableLobby → MutableLobby
  disguise_lobby lobby = record lobby { members = map disguise_member lobby.members }

  abbrev disguise_lobbies : Map LobbyId MutableLobby → Map LobbyId MutableLobby
  disguise_lobbies [] = []
  disguise_lobbies ((id, lobby) ∷ rest) = (id, disguise_lobby lobby) ∷ disguise_lobbies rest

  abbrev pub disguise : LobbyService → LobbyService
  disguise s = record s { lobbies = disguise_lobbies s.lobbies }

  disguise-member_view :
      (ms : List MutableMember) → map member_view (map disguise_member ms) ≡ map member_view ms
  unfolding member_view
  disguise-member_view [] = refl
  disguise-member_view (m ∷ ms) = ground (arith, disguise-member_view ms)

  disguise-snapshot : (lobby : MutableLobby) → snapshot (disguise_lobby lobby) ≡ snapshot lobby
  unfolding snapshot
  disguise-snapshot lobby = ground (arith, disguise-member_view lobby.members)

  abbrev disguised : Option MutableLobby → Option MutableLobby
  disguised none = none
  disguised (some lobby) = some (disguise_lobby lobby)

  get-disguise :
      (id : LobbyId) (m : Map LobbyId MutableLobby)
      → get id (disguise_lobbies m) ≡ disguised (get id m)
  unfolding get
  get-disguise id [] = refl
  get-disguise id ((j, lobby) ∷ m) = ground (arith, get-disguise id m)

  disguise-found :
      (id : LobbyId) (s : LobbyService) (found : Option MutableLobby)
      → get id s.lobbies ≡ found
      → get id (disguise s).lobbies ≡ disguised found
  disguise-found id s found e = get-disguise id s.lobbies ∙ ap disguised e

  disguise-lobby_for : (s : LobbyService) (a : AccountId) → lobby_for (disguise s) a ≡ lobby_for s a
  unfolding lobby_for
  disguise-lobby_for s a = elim (Option-cases (get a s.membership)) [
    | inl e ↦ rw (e, lobby_for) refl
    | inr (id, e) ↦ elim (Option-cases (get id s.lobbies)) [
      | inl k ↦ ground (arith, e, k, disguise-found id s none k)
      | inr (lobby, k) ↦
          ground (arith, e, k, disguise-found id s (some lobby) k, disguise-snapshot lobby)
    ]
  ]

  player_count-disguise :
      (ms : List MutableMember)
      → player_count position_of (map disguise_member ms) ≡ player_count position_of ms
  unfolding player_count
  player_count-disguise [] = refl
  player_count-disguise (m ∷ ms) = ground (arith, player_count-disguise ms)

  fuller_first-disguise :
      (a b : MutableLobby) → fuller_first (disguise_lobby a) (disguise_lobby b) ≡ fuller_first a b
  unfolding fuller_first
  fuller_first-disguise a b =
      rw (player_count-disguise a.members, player_count-disguise b.members) refl

  insert_by-disguise :
      (a : MutableLobby) (ls : List MutableLobby)
      → insert_by fuller_first (disguise_lobby a) (map disguise_lobby ls)
        ≡ map disguise_lobby (insert_by fuller_first a ls)
  insert_by-disguise a [] = refl
  insert_by-disguise a (b ∷ ls) = ground (arith, fuller_first-disguise a b, insert_by-disguise a ls)

  sort_by-disguise :
      (ls : List MutableLobby)
      → sort_by fuller_first (map disguise_lobby ls) ≡ map disguise_lobby (sort_by fuller_first ls)
  sort_by-disguise [] = refl
  sort_by-disguise (a ∷ ls) =
      ap (insert_by fuller_first (disguise_lobby a)) (sort_by-disguise ls)
      ∙ insert_by-disguise a (sort_by fuller_first ls)

  rows-disguise :
      (ls : List MutableLobby)
      → map (λ l. to_summary (snapshot l)) (map disguise_lobby ls)
        ≡ map (λ l. to_summary (snapshot l)) ls
  rows-disguise [] = refl
  rows-disguise (a ∷ ls) = ground (arith, disguise-snapshot a, rows-disguise ls)

  module _ (to_lower_case : Text → Text) (wanted : LobbyListFilter) where
    is_listed-disguise :
        (l : MutableLobby)
        → is_listed to_lower_case wanted (disguise_lobby l) ≡ is_listed to_lower_case wanted l
    unfolding is_listed
    is_listed-disguise l = ground (arith, player_count-disguise l.members)

    matches-disguise :
        (m : Map LobbyId MutableLobby)
        → filter (is_listed to_lower_case wanted) (map (λ entry. entry.1) (disguise_lobbies m))
          ≡ map disguise_lobby (filter (is_listed to_lower_case wanted) (map (λ entry. entry.1) m))
    matches-disguise [] = refl
    matches-disguise ((id, l) ∷ m) = ground (arith, is_listed-disguise l, matches-disguise m)

    disguise-list :
        (s : LobbyService) → list to_lower_case wanted (disguise s) ≡ list to_lower_case wanted s
    unfolding list matches
    disguise-list s =
        ap (λ ls. map (λ l. to_summary (snapshot l)) (sort_by fuller_first ls))
          (matches-disguise s.lobbies)
        ∙ (ap (map (λ l. to_summary (snapshot l)))
              (sort_by-disguise (matches to_lower_case wanted s))
            ∙ rows-disguise (sort_by fuller_first (matches to_lower_case wanted s)))

  module _ (a : AccountId) (own : (fleet : SelectedFleet) → f a fleet ≡ fleet) where
    own_fleet : (b : AccountId) (fleet : Option SelectedFleet) → b ≡ a → swap_fleet b fleet ≡ fleet
    own_fleet b none e = refl
    own_fleet b (some fleet) e = ap some (ap (λ c. f c fleet) e ∙ own fleet)

    abbrev view_of : Option MutableMember → LobbySelfView
    view_of none = no_self_view
    view_of (some m) = fleet_view m.fleet

    view_of-disguise :
        (ms : List MutableMember)
        → view_of (find_member a (map disguise_member ms)) ≡ view_of (find_member a ms)
    unfolding find_member
    view_of-disguise [] = refl
    view_of-disguise (m ∷ ms) = elim (Bool-cases (is_account a m)) [
      | inl e ↦ rw e (ap fleet_view (own_fleet (account_of m) m.fleet ((==_iff _ a).0 e)))
      | inr e ↦ rw e (view_of-disguise ms)
    ]

    view_for-view_of :
        (s : LobbyService)
        → view_for s a ≡ (elim (require_lobby s a) [
          | none ↦ no_self_view
          | some lobby ↦ view_of (find_member a lobby.members)
        ])
    unfolding view_for member_for
    view_for-view_of s = ground arith

    require_lobby-disguise :
        (s : LobbyService) → require_lobby (disguise s) a ≡ disguised (require_lobby s a)
    unfolding require_lobby
    require_lobby-disguise s = elim (Option-cases (get a s.membership)) [
      | inl e ↦ rw (e, require_lobby) refl
      | inr (id, e) ↦ rw (e, require_lobby) (get-disguise id s.lobbies)
    ]

    disguise-view_for : (s : LobbyService) → view_for (disguise s) a ≡ view_for s a
    disguise-view_for s = elim (Option-cases (require_lobby s a)) [
      | inl e ↦
          ground
            (arith, e, view_for-view_of s, view_for-view_of (disguise s), require_lobby-disguise s)
      | inr (lobby, e) ↦ ground (
        arith,
        e,
        view_for-view_of s,
        view_for-view_of (disguise s),
        require_lobby-disguise s,
        view_of-disguise lobby.members,
      )
    ]

-- Swapping the selected fleets of any players for any others changes nothing in the lobby state
-- that is sent to a member nor in the browser's list, and leaves the private view of a player
-- whose own fleet stays.
pub fleets_stay_private :
    (f : AccountId → SelectedFleet → SelectedFleet) (to_lower_case : Text → Text)
    (wanted : LobbyListFilter) (s : LobbyService) (a : AccountId)
    → ((fleet : SelectedFleet) → f a fleet ≡ fleet)
    → (lobby_for (disguise f s) a ≡ lobby_for s a)
      × (list to_lower_case wanted (disguise f s) ≡ list to_lower_case wanted s)
      × (view_for (disguise f s) a ≡ view_for s a)
fleets_stay_private f to_lower_case wanted s a own =
    (disguise-lobby_for f s a, disguise-list f to_lower_case wanted s, disguise-view_for f a own s)

-- Joining by the id of an unlisted lobby is answered exactly as joining by an id that no lobby
-- has, and changes nothing.
pub unlisted_stays_hidden :
    (s : LobbyService) (now : ℕ) (a : AccountId) (username : Text) (id unknown : LobbyId)
    {lobby : MutableLobby}
    → get id s.lobbies ≡ some lobby
    → is_public lobby.settings.visibility ≡ false
    → get unknown s.lobbies ≡ none
    → (join_by_id s now a username id ≡ join_by_id s now a username unknown)
      × ((join_by_id s now a username id).0 ≡ s)
unfolding join_by_id
unlisted_stays_hidden s now a username id unknown held hidden none_there =
    (ground arith, ground arith)
