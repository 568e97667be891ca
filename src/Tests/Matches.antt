-- ===== src/Tests/Matches.antt =====
-- Matches at concrete inputs, over a runtime that counts its ticks and is over at the third.
use seg.Prelude.{
  ℕ, zero, suc, delete, ◌+◌, ◌*◌, true, false, Option, none, some, List, [], ◌∷◌, ltb,
  if◌then◌else◌, ◌≡◌, refl, get, set, number_key, ◌≤◌, All, arith, length, Bool-cases, inl, inr, ap,
  sym, ◌∙◌, ==_iff, ◌==◌,
}
use seg.Text.{text}
use seg.Chat.{all}
use seg.Match.Store.{
  MatchRuntime, MatchState, MatchPlayer, MatchResults, MatchRecord, MatchStore, Spoken, store,
  conclude, settle, add_chat, seat_all, fresh, saying, results_for, team_for, find_by_account,
  find_match, view_for, set_active_sonar, fire, drop, load,
}
use seg.Match.Store.Logs.{kept, kept_of, logged, run_all_refines}
use seg.Match.Store.Operations.{
  StoreOp, stores, concludes, says, connects, views, run, run_all, no_matches,
}
use seg.Match.Store.Endings.{conclude-once}
use seg.Match.Store.Orders.{orders-elsewhere}
use seg.Match.Store.Frames.{frame_number, view_for-next}
use seg.Realtime.Connections.{PlayerConnection, ConnectionRegistry}
use seg.Match.Handler.{MatchHandler, allow_chat, forget_times}
use seg.Match.Handler.Sides.{Keyed, AtHome}
use seg.Match.Handler.Lines.{Hears}
use seg.Match.Handler.Audience.{Happening, chats, answer, match_of, answer-Hears}
use seg.Match.Handler.ChatRate.{
  ChatMoment, speaks, detaches, admitted, Forward, lines_in, detaches_in, admitted-few,
}

abbrev pub State : Type 0
State = MatchState ℕ

abbrev pub over_at_three : ℕ → Option (MatchResults ℕ)
over_at_three ticks =
    if ltb ticks 3 then none else some (record { players = 1 ∷ 2 ∷ []; report = ticks })

abbrev pub rt : MatchRuntime
rt = record {
  World = ℕ;
  Report = ℕ;
  Vision = ℕ;
  Point = ℕ;
  Setup = State;
  View = State;
  Runtime = State;
  build = λ s. s;
  state = λ r. r;
  results = λ r. over_at_three r.world;
  replace = λ s r. s;
  forget = λ account r. r;
  tick = λ r. (record r { world = r.world + 1 }, true);
  vision_for = λ account side r. (r, r.world);
  has_debug_vision = λ account r. false;
  set_active_sonar = λ account boat active r. (record r { world = r.world + 10 }, true);
  fire = λ account boat tubes to r. (record r { world = r.world + 10 }, length tubes);
  drop = λ account boat r. (record r { world = r.world + 10 }, true);
  load = λ account boat tube weapon swap r. (record r { world = r.world + 10 }, true);
  setup_for = λ s account god. s;
  view_for = λ s account vision god. s;
  state-replace = λ s r. refl;
  state-forget = λ account r. refl;
  state-vision_for = λ account side r. refl;
}

abbrev pub blue : MatchPlayer
blue = record { account_id = 1; username = text "Ada"; team = some 0; connected = true }

abbrev pub red : MatchPlayer
red = record { account_id = 2; username = text "Bob"; team = some 1; connected = true }

abbrev pub ended : MatchState ℕ
ended = record { match_id = 9; players = blue ∷ red ∷ []; world = 3 }

abbrev pub hello : Spoken
hello = record {
  from = 1;
  username = text "Ada";
  side = some 0;
  scope = all;
  line = text "hi";
  at = 5;
}

abbrev playing : MatchStore rt
playing = run_all rt (stores ended (text "Lobby") ∷ says 9 hello ∷ []) (no_matches rt)

abbrev after : List (StoreOp rt)
after = connects 1 false ∷ says 9 hello ∷ views 9 2 ∷ concludes 9 ∷ []

abbrev report : MatchResults ℕ
report = record { players = 1 ∷ 2 ∷ []; report = 3 }

conclude-once_example :
    (conclude rt 9 (run_all rt after (conclude rt 9 playing).0)
      ≡ (run_all rt after (conclude rt 9 playing).0, none))
    × (results_for rt 9 (run_all rt after (conclude rt 9 playing).0) ≡ some report)
unfolding conclude settle run run_all store add_chat get set seat_all
conclude-once_example = conclude-once rt 9 report after playing refl (tt, (tt, (tt, (tt, tt))))

abbrev said : MatchRecord rt
said = saying rt hello (saying rt hello (fresh rt ended (text "Lobby")))

-- More than a backlog, one of them in another match.
abbrev repeated : ℕ → List (StoreOp rt)
repeated zero = []
repeated (suc n) = says 9 hello ∷ repeated n

abbrev talk : List (StoreOp rt)
talk = stores ended (text "Lobby") ∷ says 8 hello ∷ repeated 52

run_all_refines_example :
    kept rt 9 (run_all rt talk (no_matches rt)) ≡ kept_of rt 9 (logged rt 9 talk none)
run_all_refines_example = run_all_refines rt 9 talk

-- Three lines and a fourth that is refused, then the socket goes, and two more.
abbrev moments : List ChatMoment
moments =
    speaks 1 100
    ∷ speaks 1 200
    ∷ speaks 2 250
    ∷ speaks 1 300
    ∷ speaks 1 400
    ∷ detaches 1 500
    ∷ speaks 1 600
    ∷ speaks 1 700
    ∷ []

moments-Forward : Forward 0 moments
moments-Forward = (
  omega arith,
  (
    omega arith,
    (omega arith, (omega arith, (omega arith, (omega arith, (omega arith, (omega arith, tt)))))),
  ),
)

admitted-few_example : lines_in 100 1 (admitted [] moments) ≤ 3 + 3 * detaches_in 100 1 moments
admitted-few_example = admitted-few moments 100 1 moments-Forward

-- A socket that goes lets a fourth and a fifth line into the same five seconds.
admitted_after_detach : lines_in 100 1 (admitted [] moments) ≡ 5
unfolding admitted allow_chat forget_times get set delete
admitted_after_detach = refl

abbrev ada : PlayerConnection
ada = record { socket = 4; account_id = 1; username = text "Ada" }

abbrev bob : PlayerConnection
bob = record { socket = 5; account_id = 2; username = text "Bob" }

abbrev both : ConnectionRegistry
both = (1, ada) ∷ (2, bob) ∷ []

both-Keyed : Keyed both
unfolding get
both-Keyed account connection e = ground arith

abbrev seated : MatchHandler rt
seated = record {
  store = record { matches = (9, said) ∷ []; by_account = (1, 9) ∷ (2, 9) ∷ [] };
  connections = both;
  chat_times = [];
}

seated-AtHome : AtHome rt seated.store
unfolding get
seated-AtHome id r e = elim (Bool-cases (9 == id)) [
  | inl f ↦
      let it : said ≡ r = ground (arith, e, f) in
      ap (λ x. x.runtime.match_id) (sym it) ∙ (==_iff 9 id).0 f
  | inr f ↦ ground (arith, e, f)
]

abbrev speech : Happening
speech = chats ada (some (text "team")) (some (text "dive")) 900

answer-Hears_example : All (Hears rt (team_for rt ended)) (answer rt speech seated).1
unfolding match_of find_by_account find_match get
answer-Hears_example =
    answer-Hears rt speech seated ended refl seated-AtHome ((refl, tt), (tt, tt)) both-Keyed

abbrev meanwhile : List (StoreOp rt)
meanwhile = views 9 2 ∷ says 9 hello ∷ views 9 1 ∷ concludes 9 ∷ views 9 2 ∷ []

view_for-next_example :
    frame_number rt 9 2 (view_for rt 9 2 (run_all rt meanwhile seated.store)).1 ≡ some 3
unfolding get
view_for-next_example =
    view_for-next rt 9 2 meanwhile seated.store 0 (tt, (tt, (tt, (tt, (tt, tt))))) refl

orders-elsewhere_example :
    (get 8 (set_active_sonar rt 1 3 true seated.store).0.matches ≡ none)
    × (get 8 (fire rt 1 3 (0 ∷ 1 ∷ []) 7 seated.store).0.matches ≡ none)
    × (get 8 (drop rt 1 3 seated.store).0.matches ≡ none)
    × (get 8 (load rt 1 3 0 2 true seated.store).0.matches ≡ none)
unfolding get
orders-elsewhere_example =
    orders-elsewhere rt 1 8 seated.store (λ e. ground arith) 3 (0 ∷ 1 ∷ []) 7 true 0 2 true
