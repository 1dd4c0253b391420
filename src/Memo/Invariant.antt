-- ===== src/Memo/Invariant.antt =====
-- What holds of the memo of src/memo.rs between its operations: the queue lists the map's keys, once
-- each, and no more than the cap.
use axiam_rust_sdk.Prelude.{
  ℕ, ◌+◌, ◌≤◌, ◌≡◌, refl, ap, ◌∙◌, true, false, List, [], ◌∷◌, ◌++◌, length, length-append, arith,
  Eq, ==_refl, ltb, if◌then◌else◌, Bool-cases, inl, inr,
}
use axiam_rust_sdk.Prelude.Maps.{
  Map, lookup, insert, remove, contains, keys, Distinct, Distinct-snoc, keys-insert,
  lookup-none_iff, remove-absent,
}
use axiam_rust_sdk.Memo.{
  max_ttl, max_entries, AccessDecision, Entry, DecisionMemo, is_some, new, is_enabled, clear, evict,
  put_at,
}

abbrev pub drop_first {ℓ} : {A : Type ℓ} → List A → List A
drop_first [] = []
drop_first (x ∷ xs) = xs

module _ {K : Type 0} ⦃e : Eq K⦄ where
  pub record WellFormed (m : DecisionMemo K) : Type 0 where
    pub clamped : m.ttl ≤ max_ttl
    pub same_keys : keys m.entries ≡ m.order
    pub distinct : Distinct m.order
    pub capped : length m.order ≤ max_entries
    pub entries_usable : m.entries_poisoned ≡ false
    pub order_usable : m.order_poisoned ≡ false

  -- The map without its oldest entry, if it is over the cap.
  abbrev pub trim : Map K Entry → Map K Entry
  trim m = if ltb max_entries (length (keys m)) then drop_first m else m

  evict-fits : (m : Map K Entry) → length (keys m) ≤ max_entries → evict (keys m) m ≡ (keys m, m)
  unfolding evict
  evict-fits [] h = refl
  evict-fits ((k, v) ∷ m) h =
      let within : ltb max_entries (length (k ∷ keys m)) ≡ false = ground arith in
      rw (within, evict) refl

  remove-first :
      (k : K) (v : Entry) (m : Map K Entry)
      → contains k (keys m) ≡ false
      → remove k ((k, v) ∷ m) ≡ m
  unfolding remove
  remove-first k v m h = rw (==_refl k) (remove-absent k m h)

  -- One entry over the cap, the loop makes one round.
  evict-eq-trim :
      (m : Map K Entry)
      → Distinct (keys m)
      → length (keys m) ≤ max_entries + 1
      → evict (keys m) m ≡ (keys (trim m), trim m)
  unfolding evict
  evict-eq-trim [] d h = refl
  evict-eq-trim ((k, v) ∷ m) (new_key, d) h =
      elim (Bool-cases (ltb max_entries (length (k ∷ keys m)))) [
        | inl over ↦
            rw (over, evict)
              (ap (evict (keys m)) (remove-first k v m new_key) ∙ evict-fits m (omega arith))
        | inr within ↦ rw (within, evict) refl
      ]

  order-insert :
      (m : DecisionMemo K) (key : K) (entry : Entry)
      → WellFormed m
      → (if is_some (lookup key m.entries) then m.order else m.order ++ key ∷ [])
        ≡ keys (insert key entry m.entries)
  unfolding is_some
  order-insert m key entry w = ground (
    arith,
    w.same_keys,
    keys-insert key entry m.entries,
    (lookup-none_iff key m.entries).0,
    (lookup-none_iff key m.entries).1,
  )

  abbrev pub stored : DecisionMemo K → K → AccessDecision → ℕ → Map K Entry
  stored m key decision now = insert key (record { decision = decision; stored_at = now }) m.entries

  pub Distinct-stored :
      (m : DecisionMemo K) (key : K) (entry : Entry)
      → WellFormed m
      → Distinct (keys (insert key entry m.entries))
        × (length (keys (insert key entry m.entries)) ≤ max_entries + 1)
  Distinct-stored m key entry w = elim (Bool-cases (contains key (keys m.entries))) [
    | inl old ↦
        rw (keys-insert key entry m.entries, old, w.same_keys) (w.distinct, omega (arith, w.capped))
    | inr fresh ↦
        rw (keys-insert key entry m.entries, fresh, w.same_keys)
          (
            Distinct-snoc key m.order (rw w.same_keys at fresh) w.distinct,
            omega (arith, w.capped, length-append m.order (key ∷ [])),
          )
  ]

  trim-Distinct :
      (m : Map K Entry)
      → Distinct (keys m)
      → length (keys m) ≤ max_entries + 1
      → Distinct (keys (trim m)) × (length (keys (trim m)) ≤ max_entries)
  trim-Distinct [] d h = (tt, omega arith)
  trim-Distinct ((k, v) ∷ m) d h = ground (arith, d)

  -- Storing a decision is one insertion, and at most one eviction, of the oldest key.
  pub put_at_lem :
      (m : DecisionMemo K) (key : K) (decision : AccessDecision) (now : ℕ)
      → WellFormed m
      → is_enabled m ≡ true
      → put_at m key decision now ≡ record m {
        entries = trim (stored m key decision now);
        order = keys (trim (stored m key decision now));
      }
  unfolding put_at
  put_at_lem m key decision now w on =
      let entry : Entry = record { decision = decision; stored_at = now } in
      let shape = Distinct-stored m key entry w in
      rw (on, put_at)
        (rw (w.entries_usable, put_at)
          (rw (w.order_usable, put_at)
            (rw (order-insert m key entry w)
              (rw (evict-eq-trim (stored m key decision now) shape.0 shape.1) refl))))

  pub put_at-disabled :
      (m : DecisionMemo K) (key : K) (decision : AccessDecision) (now : ℕ)
      → is_enabled m ≡ false
      → put_at m key decision now ≡ m
  unfolding put_at
  put_at-disabled m key decision now off = rw (off, put_at) refl

  -- Storing keeps the invariant: the queue stays the list of the map's keys, without repetition, of
  -- at most 1024 entries, whatever the memo's state and the key.
  pub put_at-WellFormed :
      (m : DecisionMemo K) (key : K) (decision : AccessDecision) (now : ℕ)
      → WellFormed m
      → WellFormed (put_at m key decision now)
  put_at-WellFormed m key decision now w = elim (Bool-cases (is_enabled m)) [
    | inr off ↦ rw (put_at-disabled m key decision now off) w
    | inl on ↦
        let shape = Distinct-stored m key (record { decision = decision; stored_at = now }) w in
        let kept = trim-Distinct (stored m key decision now) shape.0 shape.1 in
        rw (put_at_lem m key decision now w on) (record {
          clamped = w.clamped;
          same_keys = refl;
          distinct = kept.0;
          capped = kept.1;
          entries_usable = w.entries_usable;
          order_usable = w.order_usable;
        })
  ]

  pub new-WellFormed : (ttl : ℕ) → WellFormed (new ttl)
  unfolding new
  new-WellFormed ttl = record {
    clamped = omega arith;
    same_keys = refl;
    distinct = tt;
    capped = omega arith;
    entries_usable = refl;
    order_usable = refl;
  }

  pub clear-WellFormed : (m : DecisionMemo K) → WellFormed m → WellFormed (clear m)
  unfolding clear
  clear-WellFormed m w = record {
    clamped = w.clamped;
    same_keys = rw (w.entries_usable, w.order_usable) refl;
    distinct = rw w.order_usable tt;
    capped = rw w.order_usable (omega arith);
    entries_usable = w.entries_usable;
    order_usable = w.order_usable;
  }
