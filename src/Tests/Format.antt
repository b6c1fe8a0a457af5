-- ===== src/Tests/Format.antt =====
-- Sizes, and the text of sizes and durations.
use http_tunnels.Prelude.{ℕ, some, ◌≡◌, refl, arith, ◌^^◌, show_nat}
use http_tunnels.Format.{whole, finite, format_bytes, format_duration_from, unit_name}
use http_tunnels.Format.Bytes.{Fits, scaled, format_bytes-Fits}
use http_tunnels.Tests.Data.{platform}

format_bytes-Fits_example :
    (i : ℕ) × Fits (whole 3_145_728) i
    × (format_bytes platform (finite (whole 3_145_728))
        ≡ platform.format_decimal (scaled (whole 3_145_728) i) ^^ " " ^^ unit_name i)
format_bytes-Fits_example = format_bytes-Fits platform (whole 3_145_728) (omega arith)

format_bytes_test : format_bytes platform (finite (whole 3_145_728)) ≡ "3 MB"
unfolding format_bytes show_nat
format_bytes_test = refl

format_duration_from_test : format_duration_from platform (some "3600000") ≡ "1 hour ago"
unfolding format_duration_from show_nat
format_duration_from_test = refl
