-- ===== src/Memo/History.antt =====
-- What the memo of src/memo.rs answers, in terms of the calls made on it.
use axiam_rust_sdk.Prelude.{
  ℕ, ◌+◌, ◌-◌, ◌<◌, min, ◌≡◌, refl, ap, ◌∙◌, Bool, true, false, not, ◌&&◌, Option, none, some, List,
  [], ◌∷◌, ◌++◌, length, length-append, arith, Eq, ◌==◌, ==_iff, ltb, leb, if◌then◌else◌,
  Bool-cases, Option-cases, inl, inr,
}
use axiam_rust_sdk.Prelude.Maps.{
  Map, lookup, insert, contains, keys, Distinct, keys-insert, lookup-insert, lookup-none_iff,
}
use axiam_rust_sdk.Memo.{
  max_ttl, max_entries, AccessDecision, Entry, DecisionMemo, live, new, is_enabled, clear, get_at,
  put_at,
}
use axiam_rust_sdk.Memo.Invariant.{
  WellFormed, trim, stored, Distinct-stored, put_at_lem, put_at-disabled, put_at-WellFormed,
  new-WellFormed, clear-WellFormed,
}

live-if :
    (ttl now : ℕ) (evicted stored_key : Bool) (entry : Entry) (o : Option Entry)
    → live ttl now (if evicted then none else if stored_key then some entry else o) ≡ (
        if evicted
        then none
        else if stored_key
        then (if leb ttl (now - entry.stored_at) then none else some entry.decision)
        else live ttl now o)
unfolding live
live-if ttl now true stored_key entry o = refl
live-if ttl now false true entry o = refl
live-if ttl now false false entry o = refl

module _ {K : Type 0} ⦃e : Eq K⦄ where
  abbrev pub is_first : K → List K → Bool
  is_first key [] = false
  is_first key (k ∷ ks) = k == key

  lookup-trim :
      (probe : K) (m : Map K Entry)
      → Distinct (keys m)
      → lookup probe (trim m) ≡ (
          if ltb max_entries (length (keys m)) && is_first probe (keys m)
          then none
          else lookup probe m)
  unfolding lookup
  lookup-trim probe [] d = refl
  lookup-trim probe ((k, v) ∷ m) (new_key, d) =
      ground (arith, ==_iff k probe, (lookup-none_iff k m).1, new_key)

  -- The key that a store would evict is the oldest one, where the memo is full and the key is new.
  abbrev pub evicts : DecisionMemo K → K → K → Bool
  evicts m key probe =
      not (contains key m.order) && (leb max_entries (length m.order) && is_first probe m.order)

  is_first-append :
      (probe key : K) (ks : List K)
      → 0 < length ks
      → is_first probe (ks ++ key ∷ []) ≡ is_first probe ks
  is_first-append probe key [] h = absurd (omega arith)
  is_first-append probe key (k ∷ ks) h = refl

  over-stored :
      (m : DecisionMemo K) (key probe : K) (entry : Entry)
      → WellFormed m
      → (ltb max_entries (length (keys (insert key entry m.entries)))
          && is_first probe (keys (insert key entry m.entries)))
        ≡ evicts m key probe
  over-stored m key probe entry w = elim (Bool-cases (contains key m.order)) [
    | inl old ↦ rw (keys-insert key entry m.entries, w.same_keys, old) (ground (arith, w.capped))
    | inr fresh ↦
        rw (keys-insert key entry m.entries, w.same_keys, fresh)
          (ground
            (arith, w.capped, length-append m.order (key ∷ []), is_first-append probe key m.order))
  ]

  lookup-put_at :
      (m : DecisionMemo K) (key probe : K) (decision : AccessDecision) (now : ℕ)
      → WellFormed m
      → is_enabled m ≡ true
      → lookup probe (put_at m key decision now).entries ≡ (
          if evicts m key probe
          then none
          else if key == probe
          then some (record { decision = decision; stored_at = now })
          else lookup probe m.entries)
  lookup-put_at m key probe decision now w on =
      let entry : Entry = record { decision = decision; stored_at = now } in
      rw (put_at_lem m key decision now w on) (
        rw (lookup-trim probe (stored m key decision now) (Distinct-stored m key entry w).0)
          (rw (over-stored m key probe entry w, lookup-insert key probe entry m.entries) refl))

  get_at_lem :
      (m : DecisionMemo K) (probe : K) (later : ℕ)
      → WellFormed m
      → is_enabled m ≡ true
      → get_at m probe later ≡ live m.ttl later (lookup probe m.entries)
  unfolding get_at
  get_at_lem m probe later w on = rw (on, get_at) (rw (w.entries_usable, get_at) refl)

  put_at-is_enabled :
      (m : DecisionMemo K) (key : K) (decision : AccessDecision) (now : ℕ)
      → WellFormed m
      → is_enabled m ≡ true
      → (is_enabled (put_at m key decision now) ≡ true) × ((put_at m key decision now).ttl ≡ m.ttl)
  put_at-is_enabled m key decision now w on =
      rw (put_at_lem m key decision now w on) (unfold is_enabled in (unfold is_enabled in on), refl)

  -- On an enabled memo, after a store, a read of any key at any time is this: nothing for the oldest
  -- key, if the memo was full and the stored key new; the stored decision whole, within its time to
  -- live, for the stored key; and what it was before for every other key.
  get_at-put_at :
      (m : DecisionMemo K) (key probe : K) (decision : AccessDecision) (now later : ℕ)
      → WellFormed m
      → is_enabled m ≡ true
      → get_at (put_at m key decision now) probe later ≡ (
          if evicts m key probe
          then none
          else if key == probe
          then (if leb m.ttl (later - now) then none else some decision)
          else get_at m probe later)
  get_at-put_at m key probe decision now later w on =
      let after = put_at m key decision now in
      let kept = put_at-is_enabled m key decision now w on in
      rw (get_at_lem after probe later (put_at-WellFormed m key decision now w) kept.0) (
        rw (lookup-put_at m key probe decision now w on, kept.1, get_at_lem m probe later w on)
          (live-if m.ttl later (evicts m key probe) (key == probe)
            (record { decision = decision; stored_at = now }) (lookup probe m.entries)))

-- The calls made on a memo, the latest first.
pub data Call (K : Type 0) : Type 0 where
  puts : K → AccessDecision → ℕ → Call K
  clears : Call K

module _ {K : Type 0} ⦃e : Eq K⦄ where
  unfoldable pub run : ℕ → List (Call K) → DecisionMemo K
  run ttl [] = new ttl
  run ttl (puts key decision now ∷ earlier) = put_at (run ttl earlier) key decision now
  run ttl (clears ∷ earlier) = clear (run ttl earlier)

  -- The latest decision stored for a key since the memo was cleared, and when.
  unfoldable pub latest : K → List (Call K) → Option Entry
  latest probe [] = none
  latest probe (puts key decision now ∷ earlier) =
      if key == probe
      then some (record { decision = decision; stored_at = now })
      else latest probe earlier
  latest probe (clears ∷ earlier) = none

  run-WellFormed : (ttl : ℕ) (calls : List (Call K)) → WellFormed (run ttl calls)
  unfolding run
  run-WellFormed ttl [] = new-WellFormed ttl
  run-WellFormed ttl (puts key decision now ∷ earlier) =
      put_at-WellFormed _ key decision now (run-WellFormed ttl earlier)
  run-WellFormed ttl (clears ∷ earlier) = clear-WellFormed _ (run-WellFormed ttl earlier)

  ttl-put_at :
      (m : DecisionMemo K) (key : K) (decision : AccessDecision) (now : ℕ)
      → WellFormed m
      → (put_at m key decision now).ttl ≡ m.ttl
  ttl-put_at m key decision now w = elim (Bool-cases (is_enabled m)) [
    | inl on ↦ (put_at-is_enabled m key decision now w on).1
    | inr off ↦ ap (λ (n : DecisionMemo K). n.ttl) (put_at-disabled m key decision now off)
  ]

  ttl-run : (ttl : ℕ) (calls : List (Call K)) → (run ttl calls).ttl ≡ min ttl max_ttl
  unfolding run new clear
  ttl-run ttl [] = refl
  ttl-run ttl (puts key decision now ∷ earlier) =
      ttl-put_at _ key decision now (run-WellFormed ttl earlier) ∙ ttl-run ttl earlier
  ttl-run ttl (clears ∷ earlier) = ttl-run ttl earlier

  is_enabled-run : (ttl : ℕ) (calls : List (Call K)) → 0 < ttl → is_enabled (run ttl calls) ≡ true
  unfolding is_enabled
  is_enabled-run ttl calls h = ground (arith, ttl-run ttl calls)

  lookup-clear :
      (m : DecisionMemo K) (probe : K) → WellFormed m → lookup probe (clear m).entries ≡ none
  unfolding clear lookup
  lookup-clear m probe w = rw w.entries_usable refl

  -- What an answer shows of the entry that it came from.
  answer_entry :
      (m : DecisionMemo K) (probe : K) (now : ℕ) (decision : AccessDecision)
      → get_at m probe now ≡ some decision
      → (entry : Entry) × (lookup probe m.entries ≡ some entry)
        × (entry.decision ≡ decision)
        × (now < entry.stored_at + m.ttl)
        × (0 < m.ttl)
  unfolding get_at is_enabled live
  answer_entry m probe now decision h = elim (Option-cases (lookup probe m.entries)) [
    | inl absent ↦ absurd (ground (arith, absent, h))
    | inr (entry, found) ↦
        (entry, found, ground (arith, found, h), ground (arith, found, h), ground (arith, found, h))
  ]

  lookup-run :
      (ttl : ℕ) (calls : List (Call K)) (probe : K) (entry : Entry)
      → 0 < ttl
      → lookup probe (run ttl calls).entries ≡ some entry
      → latest probe calls ≡ some entry
  unfolding run latest
  lookup-run ttl [] probe entry pos h = unfold new lookup in h
  lookup-run ttl (clears ∷ earlier) probe entry pos h =
      absurd (cc (lookup-clear (run ttl earlier) probe (run-WellFormed ttl earlier), h))
  lookup-run ttl (puts key decision now ∷ earlier) probe entry pos h = ground (
    arith,
    lookup-run ttl earlier probe entry pos,
    lookup-put_at (run ttl earlier) key probe decision now (run-WellFormed ttl earlier)
        (is_enabled-run ttl earlier pos),
    h,
  )

  -- After any calls on a new memo, an answer at any time is the latest decision stored for that key
  -- since the memo was last cleared, whole, and that was stored less than the time to live ago,
  -- which is at most five seconds, whatever was asked for.
  pub get_at-run :
      (ttl : ℕ) (calls : List (Call K)) (probe : K) (now : ℕ) (decision : AccessDecision)
      → get_at (run ttl calls) probe now ≡ some decision
      → (stored_at : ℕ) × (latest probe calls
          ≡ some (record { decision = decision; stored_at = stored_at }))
        × (now < stored_at + min ttl max_ttl)
  get_at-run ttl calls probe now decision h =
      let at = answer_entry (run ttl calls) probe now decision h in
      let positive : 0 < ttl = omega (arith, at.4, ttl-run ttl calls) in
      (
        at.0.stored_at,
        lookup-run ttl calls probe at.0 positive at.1
            ∙ ap
                (λ (d : AccessDecision). some (record { decision = d; stored_at = at.0.stored_at }))
                at.2,
        omega (arith, at.3, ttl-run ttl calls),
      )
