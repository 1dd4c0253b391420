-- ===== src/Token/Revocation/Latest.antt =====
-- What the poller of src/token/revocation.rs answers, and how often it asks.
use axiam_rust_sdk.Prelude.{
  ℕ, ◌≡◌, refl, sym, ◌∙◌, ◌⊎◌, inl, inr, ◌↔◌, String, String-Eq, true, Option, none, some, List, [],
  ◌∷◌, if◌then◌else◌, Bool-cases, subst,
}
use axiam_rust_sdk.Prelude.Maps.{contains}
use axiam_rust_sdk.Token.Revocation.{
  FeedState, default_state, FeedAnswer, Readings, learn, refresh, is_due, refresh_if_stale,
  is_listed, is_revoked,
}
use axiam_rust_sdk.Token.Revocation.Usable.{Usable, fetch-Usable, Usable-fetch}

-- What the answers of the server, newest first, give to believe: the set of the newest usable one.
abbrev pub Believes : List (Option FeedAnswer) → Option (List String) → Type 0
Believes [] known = known ≡ none
Believes (answer ∷ older) known =
    ((set : List String) × Usable answer set × (known ≡ some set))
    ⊎ (((set : List String) → Usable answer set → ⊥) × Believes older known)

Believes-unique :
    (log : List (Option FeedAnswer)) (a b : Option (List String))
    → Believes log a
    → Believes log b
    → a ≡ b
Believes-unique [] a b ha hb = ha ∙ sym hb
Believes-unique (answer ∷ older) a b (inl (s, us, hs)) (inl (t, ut, ht)) =
    cc (hs, ht, Usable-fetch answer s us, Usable-fetch answer t ut)
Believes-unique (answer ∷ older) a b (inl (s, us, hs)) (inr (none_usable, hb)) =
    absurd (none_usable s us)
Believes-unique (answer ∷ older) a b (inr (none_usable, ha)) (inl (t, ut, ht)) =
    absurd (none_usable t ut)
Believes-unique (answer ∷ older) a b (inr (_, ha)) (inr (_, hb)) = Believes-unique older a b ha hb

-- A poller with what the server has answered it, newest first.
abbrev pub Polled : Type 0
Polled = FeedState × List (Option FeedAnswer)

abbrev Known : Polled → Type 0
Known (state, log) = Believes log state.entries

refresh-Known :
    (at : Readings) (state : FeedState) (log : List (Option FeedAnswer))
    → Known (state, log)
    → Known (refresh at state, at.answer ∷ log)
unfolding refresh learn
refresh-Known at state log known = elim (fetch-Usable at.answer) [
  | inl nothing ↦
      rw nothing (inr (λ set u. absurd (cc (nothing, Usable-fetch at.answer set u)), known))
  | inr (set, has, u) ↦ rw has (inl (set, u, refl))
]

pub data Call : Type 0 where
  asks : String → Readings → Call
  refreshes : Readings → Call

module _ (entry_for : String → String) (poll_interval : ℕ) where
  abbrev pub call : Call → Polled → Polled
  call (asks sid at) (state, log) =
      let ((answer, asked), state') = is_revoked entry_for poll_interval sid at state in
      (state', if asked then at.answer ∷ log else log)
  call (refreshes at) (state, log) = (refresh at state, at.answer ∷ log)

  -- Calls in their order, on a new poller.
  abbrev pub calls : List Call → Polled → Polled
  calls [] p = p
  calls (c ∷ rest) p = calls rest (call c p)

  call-Known : (c : Call) (p : Polled) → Known p → Known (call c p)
  unfolding is_revoked refresh_if_stale
  call-Known (refreshes at) (state, log) known = refresh-Known at state log known
  call-Known (asks sid at) (state, log) known =
      elim (Bool-cases (is_due poll_interval at.checked_at state.last_attempt)) [
        | inl due ↦ rw due (refresh-Known at state log known)
        | inr fresh ↦ rw fresh known
      ]

  calls-Known : (cs : List Call) (p : Polled) → Known p → Known (calls cs p)
  calls-Known [] p known = known
  calls-Known (c ∷ rest) p known = calls-Known rest (call c p) (call-Known c p known)

  listed_iff :
      (sid : String) (log : List (Option FeedAnswer)) (known : Option (List String))
      → Believes log known
      → (is_listed (entry_for sid) known ≡ true)
        ↔ ((set : List String) × Believes log (some set) × (contains (entry_for sid) set ≡ true))
  unfolding is_listed
  listed_iff sid log none believes = (
    λ h. absurd (cc h),
    λ (set, other, _). absurd (cc (Believes-unique log none (some set) believes other)),
  )
  listed_iff sid log (some set) believes = (
    λ h. (set, believes, h),
    λ (other, known, h).
        subst (λ k. is_listed (entry_for sid) k ≡ true)
          (sym (Believes-unique log (some set) (some other) believes known)) h,
  )

  -- After any calls on a new poller, whether a session counts as revoked is whether its entry is in the
  -- set of the newest answer to believe, that of this call's own refresh included: no answer to believe
  -- revokes nothing, and an answer that is not to be believed changes nothing.
  pub is_revoked_iff :
      (cs : List Call) (sid : String) (at : Readings)
      → ((is_revoked entry_for poll_interval sid at (calls cs (default_state, [])).0).0.0 ≡ true)
        ↔ ((set : List String) × Believes
              (call (asks sid at) (calls cs (default_state, []))).1
              (some set)
            × (contains (entry_for sid) set ≡ true))
  unfolding is_revoked
  is_revoked_iff cs sid at =
      let before = calls cs (default_state, []) in
      listed_iff sid (call (asks sid at) before).1 (call (asks sid at) before).0.entries
        (call-Known (asks sid at) before (calls-Known cs (default_state, []) refl))
