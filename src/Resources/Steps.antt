-- ===== src/Resources/Steps.antt =====
-- Every operation on resources keeps the agreement of limits and rows.
use wax_system_contracts.Prelude.{
  ℕ, ◌≡◌, sym, subst, Bool, false, ◌&&◌, Option, Result, ok, ◌>>=◌, arith, ◌==◌, inl, inr,
  Bool-cases, Option-cases, Result-cases,
}
use wax_system_contracts.Prelude.Int.{ℤ, pos, ◌+ℤ◌, ◌-ℤ◌, wrap64}
use wax_system_contracts.Prelude.Scoped
use wax_system_contracts.Asset.{Asset, Symbol, AssetLib, Chain}
use wax_system_contracts.Resources.{
  UserResources, ResourceLimits, Resources, row_of, set_resource_limits, is_zero,
}
use wax_system_contracts.Resources.Admin.{setalimits, setacctram, setacctnet, setacctcpu}
use wax_system_contracts.Resources.Grants.{
  write_ram, add_bytes, sellable, take_bytes, write_bandwidth, adjust_resources, change_totals,
  create_row, adjusted_row, changed_row,
}
use wax_system_contracts.Resources.Agreement.{
  Agrees, write_bandwidth-Agrees, write_ram-Agrees, setacctram-Agrees, setacctnet-Agrees,
  setacctcpu-Agrees,
}

-- The operations on resources.
pub data Op : Type 0 where
  sets_limits : ℕ → ResourceLimits → Op
  sets_ram sets_net sets_cpu : ℕ → Option ℤ → Op
  buys : ℕ → ℤ → Op
  sells : ℕ → ℤ → Op
  adjusts : Bool → ℕ → ℤ → ℤ → Op
  stakes : ℕ → Asset → Asset → Op
  creates : ℕ → Op

-- `setalimits` on an account.
abbrev pub frees : ℕ → Op → Bool
frees a (sets_limits account l) = account == a
frees a _ = false

module _ (lib : AssetLib) (core : Symbol) (self : ℕ) where
  unfoldable pub apply : Chain → Op → Resources → Result Resources
  apply c (sets_limits account l) s = setalimits self c account l s
  apply c (sets_ram account value) s = setacctram self c account value s
  apply c (sets_net account value) s = setacctnet self c account value s
  apply c (sets_cpu account value) s = setacctcpu self c account value s
  apply c (buys account bytes) s = ok (add_bytes core account bytes s)
  apply c (sells account bytes) s = do
    r ← sellable account bytes s
    ok (take_bytes account r bytes s)
  apply c (adjusts must_not account net cpu) s =
      adjust_resources lib core must_not account net cpu s
  apply c (stakes account net cpu) s = change_totals lib account net cpu s
  apply c (creates account) s = create_row core account s

module _ (lib : AssetLib) (core : Symbol) (self : ℕ) (a : ℕ) where
  -- Every operation but `setalimits` on the account itself keeps the agreement of any account.
  pub apply-Agrees :
      (c : Chain) (op : Op) (s t : Resources)
      → frees a op ≡ false
      → Agrees a s
      → apply lib core self c op s ≡ ok t
      → Agrees a t
  unfolding apply setalimits set_resource_limits create_row add_bytes take_bytes sellable
      adjust_resources change_totals
  apply-Agrees c (sets_limits account l) s t other agrees h = ground arith
  apply-Agrees c (sets_ram account value) s t other agrees h =
      setacctram-Agrees self c account a s t agrees value h
  apply-Agrees c (sets_net account value) s t other agrees h =
      setacctnet-Agrees self c account a s t agrees value h
  apply-Agrees c (sets_cpu account value) s t other agrees h =
      setacctcpu-Agrees self c account a s t agrees value h
  apply-Agrees c (buys account bytes) s t other agrees h = elim (Option-cases (row_of account s)) [
    | inl missing ↦
        let zero_asset : Asset = record { amount = pos 0; symbol = core } in
        let r : UserResources = record {
          owner = account;
          net_weight = zero_asset;
          cpu_weight = zero_asset;
          ram_bytes = bytes;
        } in
        let t_is : t ≡ write_ram account r s = ground arith in
        subst (Agrees a) (sym t_is)
          (write_ram-Agrees account a r s (ground arith) (ground arith) agrees)
    | inr (r, found) ↦
        let r' = record r { ram_bytes = wrap64 (r.ram_bytes +ℤ bytes) } in
        let t_is : t ≡ write_ram account r' s = ground arith in
        subst (Agrees a) (sym t_is)
          (write_ram-Agrees account a r' s (ground arith) (ground arith) agrees)
  ]
  apply-Agrees c (sells account bytes) s t other agrees h = elim (Option-cases (row_of account s)) [
    | inl missing ↦ absurd (ground arith)
    | inr (r, found) ↦
        let r' = record r { ram_bytes = wrap64 (r.ram_bytes -ℤ bytes) } in
        let t_is : t ≡ write_ram account r' s = ground arith in
        subst (Agrees a) (sym t_is)
          (write_ram-Agrees account a r' s (ground arith) (ground arith) agrees)
  ]
  apply-Agrees c (adjusts must_not account net cpu) s t other agrees h =
      elim (Bool-cases (is_zero net && is_zero cpu)) [
        | inl nothing ↦ let t_is : s ≡ t = ground arith in subst (Agrees a) t_is agrees
        | inr some_delta ↦
            elim (Result-cases (adjusted_row lib core account net cpu (row_of account s))) [
              | inr (_, e) ↦ absurd (ground arith)
              | inl (r, e) ↦
                  let t_is : t ≡ write_bandwidth account r s = ground arith in
                  subst (Agrees a) (sym t_is) (write_bandwidth-Agrees account a r s agrees)
            ]
      ]
  apply-Agrees c (stakes account net cpu) s t other agrees h =
      elim (Result-cases (changed_row lib account net cpu (row_of account s))) [
        | inr (_, e) ↦ absurd (ground arith)
        | inl (r, e) ↦
            let t_is : t ≡ write_bandwidth account r s = ground arith in
            subst (Agrees a) (sym t_is) (write_bandwidth-Agrees account a r s agrees)
      ]
  apply-Agrees c (creates account) s t other agrees h =
      let zero_asset : Asset = record { amount = pos 0; symbol = core } in
      let r : UserResources = record {
        owner = account;
        net_weight = zero_asset;
        cpu_weight = zero_asset;
        ram_bytes = pos 0;
      } in
      ground (arith, Scoped.find-set account account a a r s.userres)
