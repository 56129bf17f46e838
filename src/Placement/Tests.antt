-- ===== src/Placement/Tests.antt =====
-- Runs of crates/omt-receiver/src/scale.rs, and the theorems about it at concrete inputs.
use rpi_omt_client.Prelude.{◌≡◌, refl, some, [], ◌∷◌, arith, length}
use rpi_omt_client.Placement.{Placement, fit, centred, sample, table}
use rpi_omt_client.Placement.{table_from}
use rpi_omt_client.Placement.Fit.{IsInside, KeepsRatio, fit-IsInside}
use rpi_omt_client.Placement.Sample.{Climbs, table-Climbs}

pillarbox : fit 640 480 1920 1080 ≡ some (record { x = 240; y = 0; width = 1440; height = 1080 })
unfolding fit centred
pillarbox = refl

thinning : table 3 5 ≡ 0 ∷ 2 ∷ 4 ∷ []
unfolding table_from sample
thinning = refl

fit-IsInside_example :
    (p : Placement) × (fit 640 480 1920 1080 ≡ some p)
    × IsInside 1920 1080 p
    × KeepsRatio 640 480 1920 1080 p
fit-IsInside_example =
    fit-IsInside 640 480 1920 1080 (omega arith) (omega arith) (omega arith) (omega arith)
      (omega arith) (omega arith)

table-Climbs_example : (length (table 3 5) ≡ 3) × Climbs 0 5 (table 3 5)
table-Climbs_example = table-Climbs 3 5 (omega arith) (omega arith)
