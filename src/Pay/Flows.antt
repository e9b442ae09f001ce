-- ===== src/Pay/Flows.antt =====
-- Where the tokens of `fill_buckets` come from and go.
use wax_system_contracts.Prelude.{
  ℕ, ◌-◌, ◌*◌, ◌/◌, ◌≡◌, ◌≤◌, min, refl, ◌∙◌, true, false, ok, ◌==◌, arith, inl, inr, Result-cases,
  List, [], ◌∷◌, ◌++◌, if◌then◌else◌,
}
use wax_system_contracts.Prelude.Int.{ℤ, pos, ◌+ℤ◌, ◌-ℤ◌, ◌*ℤ◌, quot_ℤ, wrap64, int_laws}
use wax_system_contracts.Asset.{AssetLib, max_amount}
use wax_system_contracts.Pay.{PayLib, Inline, issues, sends, retires}
use wax_system_contracts.Pay.Buckets.{inline, inline_if_positive, pay_out, least, max_with_zero}

-- What an account gains by inline actions, of which the retired tokens are the first account's.
unfoldable pub flow : ℕ → ℕ → List Inline → ℤ
flow self a [] = pos 0
flow self a (issues to quantity ∷ xs) =
    (if to == a then quantity.amount else pos 0) +ℤ flow self a xs
flow self a (sends from to quantity ∷ xs) =
    (if to == a then quantity.amount else pos 0)
    -ℤ (if from == a then quantity.amount else pos 0)
    +ℤ flow self a xs
flow self a (retires quantity ∷ xs) =
    flow self a xs -ℤ (if self == a then quantity.amount else pos 0)

-- What inline actions add to the supply.
unfoldable pub minted : List Inline → ℤ
minted [] = pos 0
minted (issues to quantity ∷ xs) = quantity.amount +ℤ minted xs
minted (sends from to quantity ∷ xs) = minted xs
minted (retires quantity ∷ xs) = minted xs -ℤ quantity.amount

flow-append :
    (self a : ℕ) (xs ys : List Inline) → flow self a (xs ++ ys) ≡ flow self a xs +ℤ flow self a ys
unfolding flow
flow-append self a [] ys = omega int_laws
flow-append self a (issues to q ∷ xs) ys = rw (flow-append self a xs ys) (omega int_laws)
flow-append self a (sends from to q ∷ xs) ys = rw (flow-append self a xs ys) (omega int_laws)
flow-append self a (retires q ∷ xs) ys = rw (flow-append self a xs ys) (omega int_laws)

minted-append : (xs ys : List Inline) → minted (xs ++ ys) ≡ minted xs +ℤ minted ys
unfolding minted
minted-append [] ys = omega int_laws
minted-append (issues to q ∷ xs) ys = rw (minted-append xs ys) (omega int_laws)
minted-append (sends from to q ∷ xs) ys = minted-append xs ys
minted-append (retires q ∷ xs) ys = rw (minted-append xs ys) (omega int_laws)

then_flow :
    (self a : ℕ) (xs ys : List Inline) {p q : ℤ}
    → flow self a xs ≡ p
    → flow self a ys ≡ q
    → flow self a (xs ++ ys) ≡ p +ℤ q
then_flow self a xs ys e e' = rw (flow-append self a xs ys, e, e') refl

then_minted :
    (xs ys : List Inline) {p q : ℤ} → minted xs ≡ p → minted ys ≡ q → minted (xs ++ ys) ≡ p +ℤ q
then_minted xs ys e e' = rw (minted-append xs ys, e, e') refl

supply_change :
    (d f : ℕ)
    → pos (d - min d f)
        +ℤ (pos 0 +ℤ (pos 0 +ℤ (pos 0 +ℤ (pos 0 +ℤ (pos 0 +ℤ (pos 0 -ℤ pos (f - min d f)))))))
      ≡ pos d -ℤ pos f
supply_change d f = omega int_laws

module _ (lib : AssetLib) (names : PayLib) where
  issue_piece :
      (a to n : ℕ) (xs : List Inline)
      → inline_if_positive lib names (issues to) (pos n) ≡ ok xs
      → (flow names.self a xs ≡ (if to == a then pos n else pos 0)) × (minted xs ≡ pos n)
  unfolding inline_if_positive inline flow minted ◌+ℤ◌
  issue_piece a to n xs h = ground arith

  send_piece :
      (a from to n : ℕ) (xs : List Inline)
      → inline lib names (sends from to) (pos n) ≡ ok xs
      → (flow names.self a xs
          ≡ (if to == a then pos n else pos 0) -ℤ (if from == a then pos n else pos 0))
        × (minted xs ≡ pos 0)
  unfolding inline flow minted ◌+ℤ◌ ◌-ℤ◌
  send_piece a from to n xs h = ground arith

  collect_piece :
      (a from to n : ℕ) (xs : List Inline)
      → inline_if_positive lib names (sends from to) (pos n) ≡ ok xs
      → (flow names.self a xs
          ≡ (if to == a then pos n else pos 0) -ℤ (if from == a then pos n else pos 0))
        × (minted xs ≡ pos 0)
  unfolding inline_if_positive inline flow minted ◌+ℤ◌ ◌-ℤ◌
  collect_piece a from to n xs h = ground arith

  retire_piece :
      (a n : ℕ) (xs : List Inline)
      → inline_if_positive lib names retires (pos n) ≡ ok xs
      → (flow names.self a xs ≡ pos 0 -ℤ (if names.self == a then pos n else pos 0))
        × (minted xs ≡ pos 0 -ℤ pos n)
  unfolding inline_if_positive inline flow minted ◌+ℤ◌ ◌-ℤ◌
  retire_piece a n xs h = ground arith

  amounts :
      (d f : ℕ)
      → d ≤ max_amount
      → f ≤ max_amount
      → (least (pos d) (pos f) ≡ pos (min d f))
        × (quot_ℤ (pos d) 5 ≡ pos (d / 5))
        × (wrap64 (pos 2 *ℤ pos (d / 5)) ≡ pos (2 * (d / 5)))
        × (wrap64 (pos d -ℤ wrap64 (pos (2 * (d / 5)) +ℤ pos (d / 5))) ≡ pos (d - 3 * (d / 5)))
        × (max_with_zero (wrap64 (pos f -ℤ pos (min d f))) ≡ pos (f - min d f))
        × (wrap64 (pos d -ℤ pos (min d f)) ≡ pos (d - min d f))
  unfolding quot_ℤ wrap64 ◌+ℤ◌ ◌-ℤ◌ ◌*ℤ◌
  amounts d f small small' =
      (ground arith, refl, ground arith, ground arith, ground arith, ground arith)

  -- The gain of an account by a transfer.
  abbrev moved : ℕ → ℕ → ℕ → ℕ → ℤ
  moved a from to n = (if to == a then pos n else pos 0) -ℤ (if from == a then pos n else pos 0)

  pay_out-flow :
      (a d f : ℕ) (xs : List Inline)
      → d ≤ max_amount
      → f ≤ max_amount
      → pay_out lib names (pos d) (pos f) ≡ ok xs
      → (flow names.self a xs
          ≡ (if names.self == a then pos (d - min d f) else pos 0)
            +ℤ (moved a names.fees_account names.self (min d f)
                +ℤ (moved a names.self names.saving_account (d - 3 * (d / 5))
                    +ℤ (moved a names.self names.voters_account (2 * (d / 5))
                        +ℤ (moved a names.self names.bpay_account (d / 5)
                            +ℤ (moved a names.fees_account names.self (f - min d f)
                                +ℤ (pos 0
                                    -ℤ (if names.self == a then pos (f - min d f) else pos 0))))))))
        × (minted xs ≡ pos d -ℤ pos f)
  unfolding pay_out
  pay_out-flow a d f xs small small' h =
      let (least_is, fifth_is, voters_is, savings_is, burn_is, issue_is) =
        amounts d f small small' in
      let self = names.self in
      let u = min d f in
      elim (Result-cases (inline_if_positive lib names (issues self) (pos (d - u)))) [
        | inr (_, e) ↦ absurd (ground arith)
        | inl (x1, e1) ↦
            elim (Result-cases
              (inline_if_positive lib names (sends names.fees_account self) (pos u))) [
                | inr (_, e) ↦ absurd (ground arith)
                | inl (x2, e2) ↦
                    elim (Result-cases (
                      inline lib names (sends self names.saving_account) (pos (d - 3 * (d / 5))))) [
                        | inr (_, e) ↦ absurd (ground arith)
                        | inl (x3, e3) ↦
                            elim (Result-cases (
                              inline lib names (sends self names.voters_account)
                                (pos (2 * (d / 5))))) [
                                  | inr (_, e) ↦ absurd (ground arith)
                                  | inl (x4, e4) ↦
                                      elim (Result-cases (
                                        inline lib names (sends self names.bpay_account)
                                          (pos (d / 5)))) [
                                            | inr (_, e) ↦ absurd (ground arith)
                                            | inl (x5, e5) ↦
                                                elim (Result-cases (
                                                  inline_if_positive lib names
                                                    (sends names.fees_account self)
                                                    (pos (f - u)))) [
                                                      | inr (_, e) ↦ absurd (ground arith)
                                                      | inl (x6, e6) ↦
                                                          elim (Result-cases (
                                                            inline_if_positive lib names retires
                                                            (pos (f - u)))) [
                                                              | inr (_, e) ↦ absurd (ground arith)
                                                              | inl (x7, e7) ↦
                                                                let r6 = x6 ++ x7 in
                                                                let r5 = x5 ++ r6 in
                                                                let r4 = x4 ++ r5 in
                                                                let r3 = x3 ++ r4 in
                                                                let r2 = x2 ++ r3 in
                                                                let xs_is : xs
                                                                ≡ x1
                                                                ++ (x2
                                                                ++ (x3
                                                                ++ (x4 ++ (x5 ++ (x6 ++ x7))))) =
                                                                ground arith in
                                                                let p1 =
                                                                issue_piece a self (d - u) x1 e1 in
                                                                let p2 =
                                                                collect_piece a names.fees_account
                                                                self u x2 e2 in
                                                                let p3 =
                                                                send_piece a self
                                                                names.saving_account
                                                                (d - 3 * (d / 5)) x3 e3 in
                                                                let p4 =
                                                                send_piece a self
                                                                names.voters_account (2 * (d / 5))
                                                                x4 e4 in
                                                                let p5 =
                                                                send_piece a self names.bpay_account
                                                                (d / 5) x5 e5 in
                                                                let p6 =
                                                                collect_piece a names.fees_account
                                                                self (f - u) x6 e6 in
                                                                let p7 =
                                                                retire_piece a (f - u) x7 e7 in
                                                                rw xs_is (
                                                                then_flow self a x1 r2 p1.0 (
                                                                then_flow self a x2 r3 p2.0 (
                                                                then_flow self a x3 r4 p3.0 (
                                                                then_flow self a x4 r5 p4.0 (
                                                                then_flow self a x5 r6 p5.0 (
                                                                then_flow self a x6 x7 p6.0
                                                                p7.0))))),
                                                                then_minted x1 r2 p1.1 (
                                                                then_minted x2 r3 p2.1 (
                                                                then_minted x3 r4 p3.1 (
                                                                then_minted x4 r5 p4.1 (
                                                                then_minted x5 r6 p5.1
                                                                (then_minted x6 x7 p6.1 p7.1)))))
                                                                ∙ supply_change d f,
                                                                )
                                                            ]
                                                    ]
                                          ]
                                ]
                      ]
              ]
      ]

same_account : (a : ℕ) → (a == a) ≡ true
same_account a = ground arith

swap : (a b : ℕ) → (a == b) ≡ false → (b == a) ≡ false
swap a b e = ground arith

-- The accounts that take part in the pay are five.
pub record AreDistinct (names : PayLib) : Type 0 where
  pub self-fees : (names.self == names.fees_account) ≡ false
  pub self-saving : (names.self == names.saving_account) ≡ false
  pub self-voters : (names.self == names.voters_account) ≡ false
  pub self-bpay : (names.self == names.bpay_account) ≡ false
  pub fees-saving : (names.fees_account == names.saving_account) ≡ false
  pub fees-voters : (names.fees_account == names.voters_account) ≡ false
  pub fees-bpay : (names.fees_account == names.bpay_account) ≡ false
  pub saving-voters : (names.saving_account == names.voters_account) ≡ false
  pub saving-bpay : (names.saving_account == names.bpay_account) ≡ false
  pub voters-bpay : (names.voters_account == names.bpay_account) ≡ false

module _ (lib : AssetLib) (names : PayLib) (apart : AreDistinct names) (d f : ℕ)
    (xs : List Inline) where
  -- Of a distribution d, for fees f, the pay accounts get a fifth for blocks, two for voters and the
  -- rest for savings; all fees leave their account; the contract keeps nothing; and the supply changes
  -- by the difference of the distribution and the fees.
  pub pay_out_conserves :
      d ≤ max_amount
      → f ≤ max_amount
      → pay_out lib names (pos d) (pos f) ≡ ok xs
      → (flow names.self names.self xs ≡ pos 0)
        × (flow names.self names.fees_account xs ≡ pos 0 -ℤ pos f)
        × (flow names.self names.bpay_account xs ≡ pos (d / 5))
        × (flow names.self names.voters_account xs ≡ pos (2 * (d / 5)))
        × (flow names.self names.saving_account xs ≡ pos (d - 3 * (d / 5)))
        × (minted xs ≡ pos d -ℤ pos f)
  pay_out_conserves small small' h =
      let at = λ (a : ℕ). (pay_out-flow lib names a d f xs small small' h).0 in
      (
        at names.self
            ∙ rw
                (
                  same_account names.self,
                  swap names.self names.fees_account apart.self-fees,
                  swap names.self names.saving_account apart.self-saving,
                  swap names.self names.voters_account apart.self-voters,
                  swap names.self names.bpay_account apart.self-bpay,
                )
                (omega int_laws),
        at names.fees_account
            ∙ rw
                (
                  same_account names.fees_account,
                  apart.self-fees,
                  swap names.fees_account names.saving_account apart.fees-saving,
                  swap names.fees_account names.voters_account apart.fees-voters,
                  swap names.fees_account names.bpay_account apart.fees-bpay,
                )
                (omega int_laws),
        at names.bpay_account
            ∙ rw
                (
                  same_account names.bpay_account,
                  apart.self-bpay,
                  apart.fees-bpay,
                  apart.saving-bpay,
                  apart.voters-bpay,
                )
                (omega int_laws),
        at names.voters_account
            ∙ rw
                (
                  same_account names.voters_account,
                  apart.self-voters,
                  apart.fees-voters,
                  apart.saving-voters,
                  swap names.voters_account names.bpay_account apart.voters-bpay,
                )
                (omega int_laws),
        at names.saving_account
            ∙ rw
                (
                  same_account names.saving_account,
                  apart.self-saving,
                  apart.fees-saving,
                  swap names.saving_account names.voters_account apart.saving-voters,
                  swap names.saving_account names.bpay_account apart.saving-bpay,
                )
                (omega int_laws),
        (pay_out-flow lib names names.self d f xs small small' h).1,
      )
