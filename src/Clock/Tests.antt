-- ===== src/Clock/Tests.antt =====
-- Two readings of a clock.
use cs739_distributed_system.Base.{◌/◌, ◌%◌, ◌≡◌, arith}
use cs739_distributed_system.Clock.{billion, TimeSpec, convert_to_time}
use cs739_distributed_system.Clock.Order.{IsReading, convert_to_time_roundtrip}

abbrev early : TimeSpec
early = record { tv_sec = 1474500000; tv_nsec = 999999999 }

abbrev late : TimeSpec
late = record { tv_sec = 1474500001; tv_nsec = 3 }

early-IsReading : IsReading early
early-IsReading = record { normal = omega arith; fits = omega arith }

late-IsReading : IsReading late
late-IsReading = record { normal = omega arith; fits = omega arith }

early_found_again :
    (convert_to_time early / billion ≡ 1474500000) × (convert_to_time early % billion ≡ 999999999)
early_found_again = convert_to_time_roundtrip early early-IsReading
