-- ===== src/Pay/Shares.antt =====
-- src/voting.cpp: the shares of the votes that a producer has held over time.
use wax_system_contracts.Prelude.{ℕ, ◌-◌, ◌^◌, Bool, ◌&&◌, ltb, if◌then◌else◌}
use wax_system_contracts.Prelude.Int.{pos}
use wax_system_contracts.Prelude.Table
use wax_system_contracts.Double.{Double}
use wax_system_contracts.Pay.{ProducerInfo2, Pay}

module _ {D : Type 0} (real : Double D) where
  abbrev zero_share : D
  zero_share = real.literal 0 1

  -- `.count() / 1E6`
  abbrev seconds_between : ℕ → ℕ → D
  seconds_between later earlier =
      real.over (real.of_int (pos (later - earlier))) (real.literal (10 ^ 6) 0)

  -- A sum that does not fall below zero.
  abbrev add_share : D → D → D
  add_share total delta =
      if real.less delta zero_share && real.less total (real.negate delta)
      then zero_share
      else real.plus total delta

  unfoldable pub update_total_votepay_share : ℕ → D → D → Pay D → Pay D
  update_total_votepay_share ct additional_shares_delta shares_rate_delta s =
      let grown =
        if ltb s.last_vpay_state_update ct
        then real.times s.total_vpay_share_change_rate (seconds_between ct s.last_vpay_state_update)
        else zero_share in
      record s {
        total_producer_votepay_share =
            add_share s.total_producer_votepay_share (real.plus grown additional_shares_delta);
        total_vpay_share_change_rate = add_share s.total_vpay_share_change_rate shares_rate_delta;
        last_vpay_state_update = ct;
      }

  -- The new share, of which the row keeps nothing where it is reset.
  unfoldable pub new_votepay_share : ProducerInfo2 D → ℕ → D → D
  new_votepay_share row ct shares_rate = real.plus row.votepay_share (
      if real.less zero_share shares_rate && ltb row.last_votepay_share_update ct
      then real.times shares_rate (seconds_between ct row.last_votepay_share_update)
      else zero_share)

  unfoldable pub update_producer_votepay_share :
      ℕ → ProducerInfo2 D → ℕ → D → Bool → Pay D → D × Pay D
  update_producer_votepay_share producer row ct shares_rate reset_to_zero s =
      let share = new_votepay_share row ct shares_rate in
      (
        share,
        record s {
          producers2 =
              Table.set producer
                (record row {
                  votepay_share = if reset_to_zero then zero_share else share;
                  last_votepay_share_update = ct;
                })
                s.producers2;
        },
      )
