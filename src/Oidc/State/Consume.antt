-- ===== src/Oidc/State/Consume.antt =====
-- What `consume` of src/oidc/state.rs answers after any calls.
use axiam_rust_sdk.Prelude.{
  ℕ, ◌+◌, ◌<◌, ◌≡◌, refl, sym, ap, subst, ◌∙◌, inl, inr, Option, none, some, List, [], ◌∷◌, String,
  String-Eq, ◌==◌, ==_refl, arith, Bool-cases, Option-cases, leb, if◌then◌else◌, of_some, min,
}
use axiam_rust_sdk.Prelude.Maps.{
  Map, lookup, insert, remove, keys, Distinct, lookup-insert, lookup-remove, lookup-none_iff,
  remove-absent,
}
use axiam_rust_sdk.Oidc.State.{
  OidcStateEntry, Held, MemoryOidcStateStore, with_ttl, oidc_state_ttl, retain_live, sweep, len,
  save, consume,
}
use axiam_rust_sdk.Oidc.State.Retain.{
  lookup-retain_live, Distinct-retain_live, Distinct-insert, Distinct-remove,
}

-- A call, with the clock readings that it makes.
pub data Call : Type 0 where
  saved : OidcStateEntry → ℕ → ℕ → Call
  consumed : String → ℕ → Call
  measured : ℕ → Call

unfoldable pub after_call : Call → MemoryOidcStateStore → MemoryOidcStateStore
after_call (saved entry swept_at now) s = save entry swept_at now s
after_call (consumed state now) s = (consume state now s).1
after_call (measured now) s = (len now s).1

-- The store after the calls, the latest of them first.
unfoldable pub after : ℕ → List Call → MemoryOidcStateStore
after ttl [] = with_ttl ttl
after ttl (call ∷ calls) = after_call call (after ttl calls)

-- What was last saved under a state, and when, if it was not consumed since.
unfoldable pub pending : String → List Call → Option (OidcStateEntry × ℕ)
pending state [] = none
pending state (saved entry swept_at now ∷ calls) =
    let before = pending state calls in if entry.state == state then some (entry, now) else before
pending state (consumed other now ∷ calls) =
    let before = pending state calls in if other == state then none else before
pending state (measured now ∷ calls) = pending state calls

consume_store :
    (state : String) (now : ℕ) (s : MemoryOidcStateStore)
    → (consume state now s).1 ≡ record s { entries = remove state s.entries }
unfolding consume
consume_store state now s = elim (Option-cases (lookup state s.entries)) [
  | inl none_there ↦
      rw (none_there, consume)
        (ap (λ (m : Map String Held). record s { entries = m })
          (sym (remove-absent state s.entries ((lookup-none_iff state s.entries).0 none_there))))
  | inr (held, there) ↦ rw (there, consume) refl
]

consume_answer :
    (state : String) (now : ℕ) (s : MemoryOidcStateStore) (entry : OidcStateEntry)
    → (consume state now s).0 ≡ some entry
    → (held : Held) × (lookup state s.entries ≡ some held)
      × (now < held.expires_at)
      × (held.entry ≡ entry)
unfolding consume
consume_answer state now s entry h = elim (Option-cases (lookup state s.entries)) [
  | inl none_there ↦ absurd (cc (rw (none_there, consume) at h))
  | inr (held, there) ↦
      let given : (if leb held.expires_at now then none else some held.entry) ≡ some entry =
        rw (there, consume) at h in
      (held, there, ground (arith, given), ground (arith, given))
]

gone :
    (state : String) (now : ℕ) (s : MemoryOidcStateStore)
    → (consume state now (record s { entries = remove state s.entries })).0 ≡ none
unfolding consume
gone state now s = rw (lookup-remove state state s.entries, consume, ==_refl state) refl

module _ (ttl : ℕ) where
  -- What the store keeps of the calls so far.
  record Kept (calls : List Call) (s : MemoryOidcStateStore) : Type 0 where
    distinct : Distinct (keys s.entries)
    clamped : s.ttl ≡ min ttl oidc_state_ttl
    recent :
        (k : String) (held : Held)
        → lookup k s.entries ≡ some held
        → (at : ℕ) × (pending k calls ≡ some (held.entry, at))
          × (held.expires_at ≡ at + min ttl oidc_state_ttl)

  Kept-new : Kept [] (with_ttl ttl)
  unfolding with_ttl lookup
  Kept-new = record { distinct = tt; clamped = refl; recent = λ k held h. absurd (cc h) }

  Kept-sweep :
      (calls : List Call) (now : ℕ) (s : MemoryOidcStateStore)
      → Kept calls s
      → Kept calls (sweep now s)
  unfolding sweep
  Kept-sweep calls now s kept = record {
    distinct = Distinct-retain_live now s.entries kept.distinct;
    clamped = kept.clamped;
    recent =
        λ k held h. kept.recent k held (lookup-retain_live k now s.entries held kept.distinct h);
  }

  Kept-measured :
      (calls : List Call) (now : ℕ) (s : MemoryOidcStateStore)
      → Kept calls s
      → Kept (measured now ∷ calls) s
  unfolding pending
  Kept-measured calls now s kept = record {
    distinct = kept.distinct;
    clamped = kept.clamped;
    recent = kept.recent;
  }

  Kept-insert :
      (calls : List Call) (entry : OidcStateEntry) (swept_at now : ℕ) (s : MemoryOidcStateStore)
      → Kept calls s
      → Kept (saved entry swept_at now ∷ calls) (record s {
        entries = insert entry.state (record { entry = entry; expires_at = now + s.ttl }) s.entries;
      })
  unfolding pending
  Kept-insert calls entry swept_at now s kept = record {
    distinct = Distinct-insert entry.state _ s.entries kept.distinct;
    clamped = kept.clamped;
    recent = λ k held h.
        let found =
          sym (
            lookup-insert entry.state k (record { entry = entry; expires_at = now + s.ttl })
              s.entries)
          ∙ h in
        elim (Bool-cases (entry.state == k)) [
          | inl same ↦
              let it = of_some (rw same at found) in
              rw same (now, cc it, ground (arith, ap (λ (x : Held). x.expires_at) it, kept.clamped))
          | inr other ↦ rw other (kept.recent k held (rw other at found))
        ];
  }

  Kept-remove :
      (calls : List Call) (state : String) (now : ℕ) (s : MemoryOidcStateStore)
      → Kept calls s
      → Kept (consumed state now ∷ calls) (record s { entries = remove state s.entries })
  unfolding pending
  Kept-remove calls state now s kept = record {
    distinct = Distinct-remove state s.entries kept.distinct;
    clamped = kept.clamped;
    recent = λ k held h.
        let found = sym (lookup-remove state k s.entries) ∙ h in
        elim (Bool-cases (state == k)) [
          | inl same ↦ absurd (cc (rw same at found))
          | inr other ↦ rw other (kept.recent k held (rw other at found))
        ];
  }

  Kept-call :
      (call : Call) (calls : List Call) (s : MemoryOidcStateStore)
      → Kept calls s
      → Kept (call ∷ calls) (after_call call s)
  unfolding after_call save len
  Kept-call (saved entry swept_at now) calls s kept =
      Kept-insert calls entry swept_at now (sweep swept_at s) (Kept-sweep calls swept_at s kept)
  Kept-call (consumed state now) calls s kept =
      subst (Kept (consumed state now ∷ calls)) (sym (consume_store state now s))
        (Kept-remove calls state now s kept)
  Kept-call (measured now) calls s kept =
      Kept-measured calls now (sweep now s) (Kept-sweep calls now s kept)

  Kept-after : (calls : List Call) → Kept calls (after ttl calls)
  unfolding after
  Kept-after [] = Kept-new
  Kept-after (call ∷ calls) = Kept-call call calls (after ttl calls) (Kept-after calls)

  -- After any calls on a new store, what a consume answers was the last entry saved under that state
  -- and not consumed since, and it was saved less than the time to live ago, which is at most ten minutes.
  pub consume-pending :
      (calls : List Call) (state : String) (now : ℕ) (entry : OidcStateEntry)
      → (consume state now (after ttl calls)).0 ≡ some entry
      → (at : ℕ) × (pending state calls ≡ some (entry, at)) × (now < at + min ttl oidc_state_ttl)
  consume-pending calls state now entry h =
      let (held, there, live, same) = consume_answer state now (after ttl calls) entry h in
      let (at, saved_then, expiry) = (Kept-after calls).recent state held there in
      (at, cc (saved_then, same), omega (arith, live, expiry))

-- An answered state is answered once: whatever the first consume of a state answers, a second finds nothing.
pub consume_once :
    (state : String) (first second : ℕ) (s : MemoryOidcStateStore)
    → (consume state second (consume state first s).1).0 ≡ none
consume_once state first second s = rw (consume_store state first s) (gone state second s)

-- What a consume answers right after a save of that state: the entry, if the time to live has not passed
-- since the save's second reading of the clock, and nothing otherwise.
consume-save :
    (entry : OidcStateEntry) (swept_at now later : ℕ) (s : MemoryOidcStateStore)
    → (consume entry.state later (save entry swept_at now s)).0
      ≡ (if leb (now + s.ttl) later then none else some entry)
unfolding consume save sweep
consume-save entry swept_at now later s =
    rw
      (
        lookup-insert entry.state entry.state (record { entry = entry; expires_at = now + s.ttl })
            (retain_live swept_at s.entries),
        consume,
        ==_refl entry.state,
      )
      refl
