-- ===== src/Memo/Key.antt =====
-- `MemoKey` of src/memo.rs and its derived equality. A UUID is a type with a lawful equality.
use axiam_rust_sdk.Prelude.{
  String, ◌≡◌, ◌↔◌, Bool, ◌&&◌, Option, none, arith, true, Eq, ◌==◌, ==_iff, String-Eq, Option-Eq,
}

pub record MemoKey (Uuid : Type 0) : Type 0 where
  pub subject_id : Option Uuid
  pub resource_id : Uuid
  pub action : String
  pub scope : Option String
  pub acting_tenant : Option Uuid

module _ {Uuid : Type 0} where
  -- `MemoKey::new`
  unfoldable pub new : Option Uuid → Uuid → String → Option String → MemoKey Uuid
  new subject_id resource_id action scope = record {
    subject_id = subject_id;
    resource_id = resource_id;
    action = action;
    scope = scope;
    acting_tenant = none;
  }

  unfoldable pub in_acting_tenant : MemoKey Uuid → Option Uuid → MemoKey Uuid
  in_acting_tenant key acting_tenant = record key { acting_tenant = acting_tenant }

module _ {Uuid : Type 0} ⦃e : Eq Uuid⦄ where
  -- `#[derive(PartialEq)]`
  abbrev pub key_eq : MemoKey Uuid → MemoKey Uuid → Bool
  key_eq a b =
      a.subject_id == b.subject_id
      && (a.resource_id == b.resource_id
          && (a.action == b.action && (a.scope == b.scope && a.acting_tenant == b.acting_tenant)))

  pub key_eq_iff : (a b : MemoKey Uuid) → (key_eq a b ≡ true) ↔ (a ≡ b)
  key_eq_iff a b = (λ h. same h, λ h. equal h)
    where
      same : key_eq a b ≡ true → a ≡ b
      same h = ground (
        arith,
        ==_iff a.subject_id b.subject_id,
        ==_iff a.resource_id b.resource_id,
        ==_iff a.action b.action,
        ==_iff a.scope b.scope,
        ==_iff a.acting_tenant b.acting_tenant,
      )

      equal : a ≡ b → key_eq a b ≡ true
      equal h = ground (
        arith,
        h,
        ==_iff a.subject_id b.subject_id,
        ==_iff a.resource_id b.resource_id,
        ==_iff a.action b.action,
        ==_iff a.scope b.scope,
        ==_iff a.acting_tenant b.acting_tenant,
      )

  instance abbrev pub MemoKey-Eq : Eq (MemoKey Uuid)
  MemoKey-Eq = record { eq = key_eq; eq-lawful = key_eq_iff }
