-- ===== src/Coordinates/Tests.antt =====
-- Runs of go/internal/_/coordinates/kennung_test.go, and the witnesses.
use dodder.Prelude.{◌≡◌, refl, arith}
use dodder.Coordinates.RoundTrip.{set_int-id, id-set_int}
use dodder.Coordinates.{extrema, sqrt_digits, round_sqrt, set_int, id}
use dodder.Coordinates.Float.{round}

to_id_42 : id (record { left = 5; right = 3 }) ≡ 42
unfolding id extrema round
to_id_42 = refl

from_id_745 : set_int 745 ≡ record { left = 3; right = 35 }
unfolding set_int round_sqrt sqrt_digits extrema round
from_id_745 = refl

from_id_10469 : set_int 10469 ≡ record { left = 28; right = 116 }
unfolding set_int round_sqrt sqrt_digits extrema round
from_id_10469 = refl

set_int-id_example : set_int (id (record { left = 5; right = 3 })) ≡ record { left = 5; right = 3 }
set_int-id_example = set_int-id (record { left = 5; right = 3 }) (omega arith)

id-set_int_example : id (set_int 16776528) ≡ 16776528
id-set_int_example = id-set_int 16776528 (omega arith) (omega arith)

-- Behind the bound of the theorems two pairs share a number, and it is not got back.
left_of_5797 : id (record { left = 5796; right = 0 }) ≡ 16805504
unfolding id extrema round
left_of_5797 = refl

right_of_5798 : id (record { left = 0; right = 5797 }) ≡ 16805504
unfolding id extrema round
right_of_5798 = refl
