-- ===== src/Token/Revocation/Usable.antt =====
-- Which answers the poller of src/token/revocation.rs believes.
use axiam_rust_sdk.Prelude.{
  ◌≤◌, ◌<◌, ◌≡◌, refl, sym, ap, ◌⊎◌, inl, inr, String, String-Eq, ◌==◌, ==_iff, true, false, ◌&&◌,
  Option, none, some, List, length, leb, ltb, Bool-cases, arith,
}
use axiam_rust_sdk.Token.Revocation.{
  supported_alg, max_entries, FeedDocument, FeedAnswer, entries_of, fetch,
}

-- An answer that the poller believes: one of success, with a document of at most 100,000 entries that
-- names the digest of the feed.
pub record Usable (answer : Option FeedAnswer) (set : List String) : Type 0 where
  pub reply : FeedAnswer
  pub came : answer ≡ some reply
  pub success : (200 ≤ reply.status) × (reply.status < 300)
  pub document : FeedDocument
  pub parsed : reply.document ≡ some document
  pub digest : document.alg ≡ "SHA-256"
  pub bounded : length document.revoked ≤ 100_000
  pub listed : set ≡ document.revoked

entries_of_cases :
    (document : Option FeedDocument)
    → (entries_of document ≡ none)
      ⊎ ((d : FeedDocument) × (document ≡ some d)
          × (d.alg ≡ "SHA-256")
          × (length d.revoked ≤ 100_000)
          × (entries_of document ≡ some d.revoked))
unfolding entries_of
entries_of_cases none = inl refl
entries_of_cases (some d) = elim (Bool-cases (d.alg == supported_alg)) [
  | inr other ↦ rw other (inl refl)
  | inl same ↦ elim (Bool-cases (ltb max_entries (length d.revoked))) [
    | inl many ↦ rw (same, many) (inl refl)
    | inr few ↦
        rw (same, few)
          (inr (d, refl, (==_iff d.alg supported_alg).0 same, ground (arith, few), refl))
  ]
]

-- A fetch comes to nothing, or to the entries of an answer to believe.
pub fetch-Usable :
    (answer : Option FeedAnswer)
    → (fetch answer ≡ none) ⊎ ((set : List String) × (fetch answer ≡ some set) × Usable answer set)
unfolding fetch
fetch-Usable none = inl refl
fetch-Usable (some a) = elim (Bool-cases (leb 200 a.status && ltb a.status 300)) [
  | inr failed ↦ rw failed (inl refl)
  | inl good ↦ elim (entries_of_cases a.document) [
    | inl unusable ↦ rw good (rw (unusable) (inl refl))
    | inr (d, parsed, digest, bounded, has) ↦ rw good (
        rw has (
          inr (
            d.revoked,
            refl,
            record {
              reply = a;
              came = refl;
              success = ground (arith, good);
              document = d;
              parsed = parsed;
              digest = digest;
              bounded = bounded;
              listed = refl;
            },
          )))
  ]
]

pub Usable-fetch :
    (answer : Option FeedAnswer) (set : List String) → Usable answer set → fetch answer ≡ some set
unfolding fetch entries_of
Usable-fetch answer set u =
    let good : leb 200 u.reply.status && ltb u.reply.status 300 ≡ true =
      ground (arith, u.success.0, u.success.1) in
    let same : (u.document.alg == supported_alg) ≡ true =
      (==_iff u.document.alg supported_alg).1 u.digest in
    let few : ltb max_entries (length u.document.revoked) ≡ false = ground (arith, u.bounded) in
    rw (u.came, fetch)
      (rw good (rw (u.parsed, entries_of) (rw same (rw few (ap some (sym u.listed))))))
