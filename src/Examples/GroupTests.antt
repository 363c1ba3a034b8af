-- ===== src/Examples/GroupTests.antt =====
-- The theorems on reusable profiles at a small input.
use net_father.Prelude.{◌≡◌, refl, Bool, true, Option, none, List, [], ◌∷◌, Text, Result, ok}
use net_father.Prelude.Strings.{codes}
use net_father.Policy.Engine.{blocked_ips}
use net_father.Managers.Groups.Known.{IsKnown}
use net_father.Managers.Groups.Calls.{
  GroupCall, saving, assigning, unassigning, deleting, calls, calls-IsKnown, blocked_ips-calls,
}
use net_father.Examples.{utc, two_addresses, home}

-- A profile is made and given to the tablet; then its removal is refused, and it is taken back.
abbrev a_day : List GroupCall
a_day =
    saving (codes " kids ") (codes "Controlled") none
    ∷ assigning 1 1
    ∷ deleting 1
    ∷ unassigning 1 1
    ∷ []

home-IsKnown : IsKnown home
unfolding net_father.Managers.Groups.Known.known net_father.Prelude.all
home-IsKnown = refl

calls-IsKnown_example : IsKnown (calls a_day home)
calls-IsKnown_example = calls-IsKnown a_day home home-IsKnown

blocked_ips-calls_example :
    (ips : List Text) × (blocked_ips utc two_addresses (calls a_day home) 0 ≡ ok ips)
blocked_ips-calls_example = blocked_ips-calls utc two_addresses 0 a_day home home-IsKnown
