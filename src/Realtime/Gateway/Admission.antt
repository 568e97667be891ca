-- ===== src/Realtime/Gateway/Admission.antt =====
-- Who gets past the upgrade.
use seg.Prelude.{
  ℕ, ◌<◌, String, Bool, false, Option, none, some, ◌≡◌, ◌≢◌, ◌↔◌, ◌⊎◌, refl, sym, subst, ◌∙◌, arith,
  leb, inl, inr, Bool-cases, Option-cases,
}
use seg.Text.{Text}
use seg.Auth.Contract.{AccountSummary, to_summary}
use seg.Auth.Tables.{AccountRow, SessionRow, find_by_id, find_by_token_hash}
use seg.Auth.Service.{AuthService, resolve_session, resolve_live}
use seg.Auth.Service.Sessions.{resolved}
use seg.Realtime.Gateway.{
  UpgradeAnswer, refused, accepted, gateway_path, admit, with_cookie, handle_upgrade,
}

module _ (to_lower_case hash_token : Text → Text) (verify : Text → Text → Option Bool) where
  abbrev pub upgrade : Option Text → Option Text → ℕ → AuthService → UpgradeAnswer
  upgrade path cookie now s = (handle_upgrade to_lower_case hash_token verify path cookie now s).1

  -- The token is that of a stored session which has not expired, of an account that is not deleted.
  pub record IsLive (token : Text) (now : ℕ) (s : AuthService) (account : AccountSummary)
      : Type 0 where
    pub session : SessionRow
    pub stored : find_by_token_hash (hash_token token) s.sessions ≡ some session
    pub unexpired : now < session.expires_at
    pub row : AccountRow
    pub held : find_by_id session.account_id s.accounts ≡ some row
    pub account_is : account ≡ to_summary row

  -- The request is for the gateway's path, with a cookie, and the cookie's session is live.
  pub record IsAdmitted (path cookie : Option Text) (now : ℕ) (s : AuthService)
      (account : AccountSummary) : Type 0 where
    pub on_path : path ≡ some gateway_path
    pub token : Text
    pub sent : cookie ≡ some token
    pub live : IsLive token now s account

  abbrev answer_to : Text → ℕ → AuthService → UpgradeAnswer
  answer_to token now s =
      admit to_lower_case hash_token verify (resolved to_lower_case hash_token verify token now s)

  abbrev pub malformed : UpgradeAnswer
  malformed = refused 400 "Bad Request"

  abbrev pub not_found : UpgradeAnswer
  not_found = refused 404 "Not Found"

  abbrev pub unauthorized : UpgradeAnswer
  unauthorized = refused 401 "Unauthorized"

  Live-answer :
      (token : Text) (now : ℕ) (s : AuthService) (account : AccountSummary)
      → IsLive token now s account
      → answer_to token now s ≡ accepted account
  unfolding resolve_session resolve_live admit
  Live-answer token now s account live =
      let soon : leb live.session.expires_at now ≡ false = ground (arith, live.unexpired) in
      ground (arith, live.stored, soon, live.held, live.account_is)

  answer-Live :
      (token : Text) (now : ℕ) (s : AuthService) (account : AccountSummary)
      → answer_to token now s ≡ accepted account
      → IsLive token now s account
  unfolding resolve_session resolve_live admit
  answer-Live token now s account h =
      elim (Option-cases (find_by_token_hash (hash_token token) s.sessions)) [
        | inl e ↦ ground (arith, e, h)
        | inr (session, e) ↦ elim (Bool-cases (leb session.expires_at now)) [
          | inl f ↦ ground (arith, e, f, h)
          | inr f ↦ elim (Option-cases (find_by_id session.account_id s.accounts)) [
            | inl g ↦ ground (arith, e, f, g, h)
            | inr (row, g) ↦ record {
              session = session;
              stored = e;
              unexpired = ground (arith, f);
              row = row;
              held = g;
              account_is = ground (arith, e, f, g, h);
            }
          ]
        ]
      ]

  -- What the answer of the upgrade is, for each request.
  pub record Answers (path cookie : Option Text) (now : ℕ) (s : AuthService)
      (answer : UpgradeAnswer) : Type 0 where
    pub admits :
        (account : AccountSummary)
        → (answer ≡ accepted account) ↔ IsAdmitted path cookie now s account
    pub garbled : (answer ≡ malformed) ↔ (path ≡ none)
    pub elsewhere : (answer ≡ not_found) ↔ ((path ≢ none) × (path ≢ some gateway_path))
    pub no_other :
        ((account : AccountSummary) × (answer ≡ accepted account))
        ⊎ (answer ≡ malformed)
        ⊎ (answer ≡ not_found)
        ⊎ (answer ≡ unauthorized)

  on_path_without :
      (now : ℕ) (s : AuthService)
      → Answers (some gateway_path) none now s (upgrade (some gateway_path) none now s)
  unfolding handle_upgrade with_cookie
  on_path_without now s = record {
    admits = λ account. (λ h. ground (arith, h), λ admitted. ground (arith, admitted.sent));
    garbled = (λ h. ground (arith, h), λ h. ground (arith, h));
    elsewhere = (λ h. ground (arith, h), λ h. absurd (h.1 refl));
    no_other = inr (inr (inr refl));
  }

  answer_cases :
      (token : Text) (now : ℕ) (s : AuthService)
      → ((account : AccountSummary) × (answer_to token now s ≡ accepted account))
        ⊎ (answer_to token now s ≡ unauthorized)
  unfolding admit
  answer_cases token now s =
      elim (Option-cases (resolved to_lower_case hash_token verify token now s)) [
        | inl e ↦ inr (ground (arith, e))
        | inr (session, e) ↦ inl (session.account, ground (arith, e))
      ]

  not_refused :
      (token : Text) (now : ℕ) (s : AuthService) (code : ℕ) (reason : String)
      → refused code reason ≢ unauthorized
      → answer_to token now s ≢ refused code reason
  not_refused token now s code reason other h = elim (answer_cases token now s) [
    | inl (account, e) ↦ ground (arith, sym h ∙ e)
    | inr e ↦ other (sym h ∙ e)
  ]

  on_path_with :
      (token : Text) (now : ℕ) (s : AuthService)
      → Answers
          (some gateway_path)
          (some token)
          now
          s
          (upgrade (some gateway_path) (some token) now s)
  unfolding handle_upgrade with_cookie
  on_path_with token now s = record {
    admits = λ account. (
      λ h. record {
        on_path = refl;
        token = token;
        sent = refl;
        live = answer-Live token now s account h;
      },
      λ admitted.
          let same : admitted.token ≡ token = ground (arith, admitted.sent) in
          Live-answer token now s account (subst (λ t. IsLive t now s account) same admitted.live),
    );
    garbled = (
      λ h. absurd (not_refused token now s 400 "Bad Request" (λ k. ground (arith, k)) h),
      λ h. ground (arith, h),
    );
    elsewhere = (
      λ h. absurd (not_refused token now s 404 "Not Found" (λ k. ground (arith, k)) h),
      λ h. absurd (h.1 refl),
    );
    no_other = elim (answer_cases token now s) [
      | inl accepted_as ↦ inl accepted_as
      | inr e ↦ inr (inr (inr e))
    ];
  }

  on_path :
      (cookie : Option Text) (now : ℕ) (s : AuthService)
      → Answers (some gateway_path) cookie now s (upgrade (some gateway_path) cookie now s)
  on_path none now s = on_path_without now s
  on_path (some token) now s = on_path_with token now s
