-- ===== src/Powerup/Totals.antt =====
-- Bandwidth that is granted, added up over the rows of all accounts.
use wax_system_contracts.Prelude.{
  ℕ, ◌+◌, ◌%◌, ◌^◌, ◌≡◌, refl, ap, sym, ◌∙◌, Bool, true, ◌&&◌, none, some, ok, arith, if◌then◌else◌,
  inl, inr, Bool-cases, Option-cases, Result-cases,
}
use wax_system_contracts.Prelude.Int.{ℤ, pos, ◌+ℤ◌, wrap64, int_laws}
use wax_system_contracts.Prelude.Int.Uint64.{
  to_uint64, to_uint64-add, to_uint64-wrap64, to_uint64-lt,
}
use wax_system_contracts.Prelude.Scoped
use wax_system_contracts.Prelude.Scoped.Sum.{IsUnique, set-IsUnique, erase-IsUnique, erase_absent}
use wax_system_contracts.Prelude.Scoped.Total.{total, total-set_new, total-set_old, total-erase}
use wax_system_contracts.Asset.{Symbol, AssetLib}
use wax_system_contracts.Resources.{
  UserResources, Resources, row_of, is_empty_row, is_zero, quota, set_resource_limits,
}
use wax_system_contracts.Resources.Grants.{adjust_resources, adjusted_row, write_bandwidth}

-- The two resources of the market.
pub data Kind : Type 0 where
  net_kind cpu_kind : Kind

abbrev pub row_weight : Kind → UserResources → ℤ
row_weight net_kind r = r.net_weight.amount
row_weight cpu_kind r = r.cpu_weight.amount

-- Of two deltas, the one of a resource.
abbrev pub delta_of : Kind → ℤ → ℤ → ℤ
delta_of net_kind net cpu = net
delta_of cpu_kind net cpu = cpu

pub write_bandwidth-userres :
    (account : ℕ) (r : UserResources) (s : Resources)
    → (write_bandwidth account r s).userres ≡ (
        if is_empty_row r
        then Scoped.erase account account s.userres
        else Scoped.set account account r s.userres)
unfolding write_bandwidth set_resource_limits
write_bandwidth-userres account r s = ground arith

pub is_empty_row-row_weight :
    (k : Kind) (r : UserResources) → is_empty_row r ≡ true → row_weight k r ≡ pos 0
is_empty_row-row_weight net_kind r e = ground arith
is_empty_row-row_weight cpu_kind r e = ground arith

no_quota :
    (f : UserResources → ℤ) (account : ℕ) (s : Resources)
    → row_of account s ≡ none
    → quota f account s ≡ pos 0
no_quota f account s e = ground arith

row_quota :
    (f : UserResources → ℤ) (account : ℕ) (s : Resources) (r : UserResources)
    → row_of account s ≡ some r
    → quota f account s ≡ f r
row_quota f account s r e = ground arith

replaced_total :
    (k : Kind) (account : ℕ) (r : UserResources) (s : Resources)
    → IsUnique s.userres
    → (total (row_weight k) (write_bandwidth account r s).userres +ℤ quota (row_weight k) account s
        ≡ total (row_weight k) s.userres +ℤ row_weight k r)
      × IsUnique (write_bandwidth account r s).userres
replaced_total k account r s unique =
    let f = row_weight k in
    elim (Bool-cases (is_empty_row r)) [
      | inl empty ↦
          let none_left = is_empty_row-row_weight k r empty in
          elim (Option-cases (row_of account s)) [
            | inl missing ↦
                let same : (write_bandwidth account r s).userres ≡ s.userres =
                  rw (write_bandwidth-userres account r s, empty)
                    (erase_absent f account account s.userres missing) in
                rw (same, none_left, no_quota f account s missing) (refl, unique)
            | inr (old, found) ↦
                let same : (write_bandwidth account r s).userres
                    ≡ Scoped.erase account account s.userres =
                  rw (write_bandwidth-userres account r s, empty) refl in
                rw (same, none_left, row_quota f account s old found)
                  (
                    total-erase f account account old s.userres unique found ∙ omega int_laws,
                    erase-IsUnique account account s.userres unique,
                  )
          ]
      | inr full ↦
          let same : (write_bandwidth account r s).userres
              ≡ Scoped.set account account r s.userres =
            rw (write_bandwidth-userres account r s, full) refl in
          let unique' = set-IsUnique account account r s.userres unique in
          elim (Option-cases (row_of account s)) [
            | inl missing ↦
                rw (same, no_quota f account s missing)
                  (
                    rw (total-set_new f account account r s.userres missing) (omega int_laws),
                    unique',
                  )
            | inr (old, found) ↦
                rw (same, row_quota f account s old found)
                  (total-set_old f account account r old s.userres found, unique')
          ]
    ]

pub adjusted_row-weight :
    (lib : AssetLib) (core : Symbol) (k : Kind) (account : ℕ) (net cpu : ℤ) (s : Resources)
    (r : UserResources)
    → adjusted_row lib core account net cpu (row_of account s) ≡ ok r
    → to_uint64 (row_weight k r)
      ≡ (to_uint64 (quota (row_weight k) account s) + to_uint64 (delta_of k net cpu)) % 2 ^ 64
unfolding adjusted_row
adjusted_row-weight lib core net_kind account net cpu s r e =
    elim (Option-cases (row_of account s)) [
      | inl missing ↦
          let w : r.net_weight.amount ≡ net = ground arith in
          rw (w, no_quota (row_weight net_kind) account s missing) (omega (arith, to_uint64-lt net))
      | inr (old, found) ↦
          let w : r.net_weight.amount ≡ wrap64 (old.net_weight.amount +ℤ net) = ground arith in
          rw (w, row_quota (row_weight net_kind) account s old found)
            (to_uint64-wrap64 (old.net_weight.amount +ℤ net)
              ∙ to_uint64-add old.net_weight.amount net)
    ]
adjusted_row-weight lib core cpu_kind account net cpu s r e =
    elim (Option-cases (row_of account s)) [
      | inl missing ↦
          let w : r.cpu_weight.amount ≡ cpu = ground arith in
          rw (w, no_quota (row_weight cpu_kind) account s missing) (omega (arith, to_uint64-lt cpu))
      | inr (old, found) ↦
          let w : r.cpu_weight.amount ≡ wrap64 (old.cpu_weight.amount +ℤ cpu) = ground arith in
          rw (w, row_quota (row_weight cpu_kind) account s old found)
            (to_uint64-wrap64 (old.cpu_weight.amount +ℤ cpu)
              ∙ to_uint64-add old.cpu_weight.amount cpu)
    ]

pub no_delta :
    (k : Kind) (net cpu : ℤ)
    → (is_zero net && is_zero cpu) ≡ true
    → to_uint64 (delta_of k net cpu) ≡ 0
no_delta net_kind net cpu e = ground arith
no_delta cpu_kind net cpu e = ground arith

-- What all accounts have together grows by what one is granted.
pub adjust_resources-total :
    (lib : AssetLib) (core : Symbol) (k : Kind) (must_not : Bool) (account : ℕ) (net cpu : ℤ)
    (s t : Resources)
    → IsUnique s.userres
    → adjust_resources lib core must_not account net cpu s ≡ ok t
    → (to_uint64 (total (row_weight k) t.userres)
        ≡ (to_uint64 (total (row_weight k) s.userres) + to_uint64 (delta_of k net cpu)) % 2 ^ 64)
      × IsUnique t.userres
unfolding adjust_resources
adjust_resources-total lib core k must_not account net cpu s t unique h =
    elim (Bool-cases (is_zero net && is_zero cpu)) [
      | inl nothing ↦
          let same : t ≡ s = ground arith in
          let zero_delta : to_uint64 (delta_of k net cpu) ≡ 0 = no_delta k net cpu nothing in
          rw (same, zero_delta)
            (omega (arith, to_uint64-lt (total (row_weight k) s.userres)), unique)
      | inr some_delta ↦
          elim (Result-cases (adjusted_row lib core account net cpu (row_of account s))) [
            | inr (_, e) ↦ absurd (ground arith)
            | inl (r, e) ↦
                let t_is : t ≡ write_bandwidth account r s = ground arith in
                let (sum, unique') = replaced_total k account r s unique in
                let weight = adjusted_row-weight lib core k account net cpu s r e in
                let before = quota (row_weight k) account s in
                let after = total (row_weight k) (write_bandwidth account r s).userres in
                rw t_is (
                  omega (
                    arith,
                    sym (to_uint64-add after before)
                        ∙ ap to_uint64 sum
                        ∙ to_uint64-add (total (row_weight k) s.userres) (row_weight k r),
                    weight,
                    to_uint64-lt after,
                    to_uint64-lt before,
                  ),
                  unique',
                )
          ]
    ]
