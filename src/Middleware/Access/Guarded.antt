-- ===== src/Middleware/Access/Guarded.antt =====
-- What the guard of src/middleware/authz.rs lets pass, and which refusals carry a challenge.
use axiam_rust_sdk.Prelude.{
  ℕ, ◌≡◌, sym, ◌⊎◌, refl, ap, ◌∙◌, ◌↔◌, inl, inr, String, String-Eq, true, Option, none, some,
  Result, ok, err, option_eq, option_eq_iff, Bool-cases, Result-cases,
}
use axiam_rust_sdk.Error.{AxiamError, auth, authz, network}
use axiam_rust_sdk.Middleware.{AxiamUser}
use axiam_rust_sdk.Middleware.Access.{
  AuthzGuardError, challenge_of, first_of, ticket_header, denied_with, mcp_challenge, minted, deny,
  AccessDecision, UmaChallenger, RequireAccess, uma_challenge_header, Client, hint_for, refused,
  settle, check,
}

-- A decision that allows.
abbrev pub Allowed : Result AccessDecision AxiamError → Type 0
Allowed (ok decision) = decision.allowed ≡ true
Allowed (err e) = ⊥

-- The header of a ticket.
abbrev pub IsTicket : Option UmaChallenger → String → Type 0
IsTicket none header = ⊥
IsTicket (some challenger) header =
    (ticket : String) × (header ≡ uma_challenge_header challenger.realm challenger.as_uri ticket)

-- The hint for a scope, at a decision that nothing grants.
pub record Hints (guard : RequireAccess) (outcome : Result AccessDecision AxiamError)
    (header : String) : Type 0 where
  pub decision : AccessDecision
  pub decided : outcome ≡ ok decision
  pub ungranted : decision.reason_code ≡ some "no_grant"
  pub hint : String → Result String AxiamError
  pub configured : guard.mcp ≡ some hint
  pub scope : String
  pub scoped : guard.scope ≡ some scope
  pub hinted : hint scope ≡ ok header

hint_for-some :
    (mcp : Option (String → Result String AxiamError)) (scope reason_code : Option String)
    (header : String)
    → hint_for mcp scope reason_code ≡ some header
    → (reason_code ≡ some "no_grant")
      × ((hint : String → Result String AxiamError) × (mcp ≡ some hint)
          × ((s : String) × (scope ≡ some s) × (hint s ≡ ok header)))
unfolding hint_for
hint_for-some none scope reason_code header h = cc h
hint_for-some (some mcp) none reason_code header h = cc h
hint_for-some (some mcp) (some s) reason_code header h =
    elim (Bool-cases (option_eq reason_code (some "no_grant"))) [
      | inr other ↦ absurd (cc (rw other at h))
      | inl ungranted ↦ elim (Result-cases (mcp s)) [
        | inl (found, has) ↦ (
          (option_eq_iff reason_code (some "no_grant")).0 ungranted,
          (mcp, refl, (s, refl, has ∙ ap ok (cc (rw (ungranted, has) at h)))),
        )
        | inr (e, failed) ↦ absurd (cc (rw (ungranted, failed) at h))
      ]
    ]

denied_with-challenge_of :
    (message : String) (chosen : Option String) → challenge_of (denied_with message chosen) ≡ chosen
unfolding denied_with challenge_of
denied_with-challenge_of message none = refl
denied_with-challenge_of message (some header) = refl

-- A refusal without a challenge is none with one.
unchallenged :
    (plain e : AuthzGuardError) (header : String)
    → challenge_of plain ≡ none
    → (◌≡◌ {A = Result (Unit {0}) AuthzGuardError} (err plain) (err e))
    → challenge_of e ≡ some header
    → ⊥
unchallenged plain e header bare same challenge =
    let it : plain ≡ e = cc same in cc (bare, ap challenge_of it, challenge)

first_of-some :
    (one other : Option String) (header : String)
    → first_of one other ≡ some header
    → (one ≡ some header) ⊎ (other ≡ some header)
unfolding first_of
first_of-some (some h) other header same = inl same
first_of-some none other header same = inr same

ticket_header-IsTicket :
    (challenger : UmaChallenger) (ticket : Result String AxiamError) (header : String)
    → ticket_header challenger ticket ≡ some header
    → IsTicket (some challenger) header
unfolding ticket_header
ticket_header-IsTicket challenger (ok ticket) header h = (ticket, cc h)
ticket_header-IsTicket challenger (err e) header h = cc h

module _ {W : Type 0} (client : Client W) (guard : RequireAccess) (resource_id : ℕ) where
  settle_iff :
      (outcome : Result AccessDecision AxiamError) (w : W)
      → ((settle client guard resource_id outcome w).0 ≡ ok tt) ↔ Allowed outcome
  unfolding settle refused
  settle_iff (ok decision) w = elim (Bool-cases decision.allowed) [
    | inl allowed ↦ (λ _. allowed, λ _. rw allowed refl)
    | inr refusal ↦ (λ h. absurd (cc (rw refusal at h)), λ h. absurd (cc (refusal, h)))
  ]
  settle_iff (err (authz e)) w = (λ h. cc h, λ h. absurd h)
  settle_iff (err (auth e)) w = (λ h. cc h, λ h. absurd h)
  settle_iff (err (network e)) w = (λ h. cc h, λ h. absurd h)

  -- A guard lets a call pass exactly if the service answers with a decision that allows it: not where the
  -- service refuses, does not know the caller, or is not reached, and whatever comes of the ticket.
  pub check_iff :
      (user : AxiamUser) (w : W)
      → ((check client guard user resource_id w).0 ≡ ok tt)
        ↔ Allowed (client.check_access_as user.user_id guard.action resource_id guard.scope w).0
  unfolding check
  check_iff user w = settle_iff _ _

  minted-IsTicket :
      (challenger : Option UmaChallenger) (w : W) (header : String)
      → (minted client challenger guard.action resource_id w).0 ≡ some header
      → IsTicket challenger header
  unfolding minted
  minted-IsTicket none w header h = cc h
  minted-IsTicket (some challenger) w header h = ticket_header-IsTicket challenger _ header h

  deny-challenge_of :
      (reason_code : Option String) (w : W) (header : String)
      → challenge_of (deny client guard resource_id reason_code w).0 ≡ some header
      → IsTicket guard.challenger header
        ⊎ (hint_for guard.mcp guard.scope reason_code ≡ some header)
  unfolding deny mcp_challenge
  deny-challenge_of reason_code w header h =
      elim (first_of-some (minted client guard.challenger guard.action resource_id w).0 _ header
        (sym (denied_with-challenge_of _ _) ∙ h)) [
          | inl ticket ↦ inl (minted-IsTicket guard.challenger w header ticket)
          | inr hint ↦ inr hint
        ]

  hint_for-Hints :
      (decision : AccessDecision) (header : String)
      → hint_for guard.mcp guard.scope decision.reason_code ≡ some header
      → Hints guard (ok decision) header
  hint_for-Hints decision header h =
      let (ungranted, (hint, configured, (scope, scoped, hinted))) =
        hint_for-some guard.mcp guard.scope decision.reason_code header h in
      record {
        decision = decision;
        decided = refl;
        ungranted = ungranted;
        hint = hint;
        configured = configured;
        scope = scope;
        scoped = scoped;
        hinted = hinted;
      }

  settle-challenge_of :
      (outcome : Result AccessDecision AxiamError) (w : W) (e : AuthzGuardError) (header : String)
      → (settle client guard resource_id outcome w).0 ≡ err e
      → challenge_of e ≡ some header
      → IsTicket guard.challenger header ⊎ Hints guard outcome header
  unfolding settle refused challenge_of
  settle-challenge_of (ok decision) w e header h challenge = elim (Bool-cases decision.allowed) [
    | inl allowed ↦ absurd (cc (rw allowed at h))
    | inr refusal ↦
        elim (deny-challenge_of decision.reason_code w header
          (ap challenge_of (cc (rw refusal at h)) ∙ challenge)) [
            | inl ticket ↦ inl ticket
            | inr hint ↦ inr (hint_for-Hints decision header hint)
          ]
  ]
  settle-challenge_of (err (authz x)) w e header h challenge =
      elim (deny-challenge_of none w header (ap challenge_of (cc h) ∙ challenge)) [
        | inl ticket ↦ inl ticket
        | inr hint ↦ absurd (cc (hint_for-some guard.mcp guard.scope none header hint).0)
      ]
  settle-challenge_of (err (auth x)) w e header h challenge =
      absurd (unchallenged _ e header refl h challenge)
  settle-challenge_of (err (network x)) w e header h challenge =
      absurd (unchallenged _ e header refl h challenge)

  -- A refusal carries a challenge only if it is that of a ticket, with the realm and the server of the
  -- configured challenger, or the hint for the scope of the guard where hints are configured and the decision
  -- says that nothing grants the access: a rule that denies it, and an error, never get a hint.
  pub check-challenge_of :
      (user : AxiamUser) (w : W) (e : AuthzGuardError) (header : String)
      → (check client guard user resource_id w).0 ≡ err e
      → challenge_of e ≡ some header
      → IsTicket guard.challenger header
        ⊎ Hints guard
            (client.check_access_as user.user_id guard.action resource_id guard.scope w).0
            header
  unfolding check
  check-challenge_of user w e header h challenge = settle-challenge_of _ _ e header h challenge
