-- ===== src/Models/Flags.antt =====
-- The status flags of a debtor: what `activate` and `deactivate` do to the tests.
use swpt_debtors.Prelude.{◌≡◌, true, false, not, ◌&&◌, bit_or, arith}
use swpt_debtors.Prelude.Bits.{bit_and-one, bit_and-two, bit_and-three, bit_or-one, bit_or-two}
use swpt_debtors.Platform.{Date}
use swpt_debtors.Models.Debtors.{
  Debtor, is_activated, is_deactivated, is_active, activate, deactivate,
}

-- The mask of the queries tells the activated debtors that are not deactivated.
pub is_active-eq : (d : Debtor) → is_active d ≡ (is_activated d && not (is_deactivated d))
unfolding is_active is_activated is_deactivated
is_active-eq d =
    ground
      (arith, bit_and-one d.status_flags, bit_and-two d.status_flags, bit_and-three d.status_flags)

pub is_activated-activate : (d : Debtor) → is_activated (activate d) ≡ true
unfolding is_activated activate
is_activated-activate d =
    ground (arith, bit_and-one (bit_or d.status_flags 1), bit_or-one d.status_flags)

pub is_deactivated-activate : (d : Debtor) → is_deactivated (activate d) ≡ is_deactivated d
unfolding is_deactivated activate
is_deactivated-activate d = ground (
  arith,
  bit_and-two d.status_flags,
  bit_and-two (bit_or d.status_flags 1),
  bit_or-one d.status_flags,
)

pub is_activated-deactivate :
    (today : Date) (d : Debtor) → is_activated (deactivate today d) ≡ is_activated d
unfolding is_activated deactivate
is_activated-deactivate today d = ground (
  arith,
  bit_and-one d.status_flags,
  bit_and-one (bit_or d.status_flags 2),
  bit_or-two d.status_flags,
)

pub is_deactivated-deactivate :
    (today : Date) (d : Debtor) → is_deactivated (deactivate today d) ≡ true
unfolding is_deactivated deactivate
is_deactivated-deactivate today d =
    ground (arith, bit_and-two (bit_or d.status_flags 2), bit_or-two d.status_flags)

pub is_active-deactivate : (today : Date) (d : Debtor) → is_active (deactivate today d) ≡ false
is_active-deactivate today d =
    ground (arith, is_active-eq (deactivate today d), is_deactivated-deactivate today d)
