-- ===== src/Tests/Plotting.antt =====
-- The figures of two conditions.
use time_sensitive_packet.Base.{
  ◌≡◌, ◌≢◌, refl, none, some, List, [], ◌∷◌, ok, Result, Gives, Text, chars, ℕ, text_eq, lookup,
  arith,
}
use time_sensitive_packet.Base.Int.{pos}
use time_sensitive_packet.Floats.{FloatOps}
use time_sensitive_packet.Floats.Plain.{Number, number, plain_floats, plain_floats_order}
use time_sensitive_packet.Numpy.Samples.Sorting.{sorting_arrays, sorting_arrays_laws}
use time_sensitive_packet.Loader.{Run}
use time_sensitive_packet.Dataset.{Cell}
use time_sensitive_packet.Plots.{Style, known_styles, condition_styles, names_in, plot_latency_cdf}
use time_sensitive_packet.Plots.Styles.{condition_styles-IsDistinct}
use time_sensitive_packet.Plots.Curves.{AreCurves, plot_latency_cdf-AreCurves}

abbrev F : FloatOps
F = plain_floats

abbrev conditions : List Text
conditions = chars "fifo" ∷ chars "taprio" ∷ []

condition_styles-IsDistinct_example :
    (s : Style) × (t : Style) × (lookup (chars "fifo") (condition_styles conditions) ≡ some s)
    × (lookup (chars "taprio") (condition_styles conditions) ≡ some t)
    × (s.color ≢ t.color)
    × ((known : Style) → lookup (chars "fifo") known_styles ≡ some known → s ≡ known)
condition_styles-IsDistinct_example =
    condition_styles-IsDistinct conditions (chars "fifo") (chars "taprio") (refl, (refl, tt))
      (omega arith) refl refl refl

abbrev run : Run F
run = record {
  name = chars "fifo_run1";
  condition = chars "fifo";
  run_index = some 1;
  seq = pos 0 ∷ pos 1 ∷ [];
  send_ns = pos 100 ∷ pos 100 ∷ [];
  recv_ns = pos 200 ∷ pos 200 ∷ [];
  latency_ms = number (pos 5) ∷ number (pos 0) ∷ [];
  jitter_us = number (pos 3) ∷ number (pos 3) ∷ [];
  pkt_size = pos 128 ∷ pos 128 ∷ [];
  tos = none;
}

abbrev cells : List (Text × Cell F)
cells =
    (chars "fifo", record { condition = chars "fifo"; runs = run ∷ [] })
    ∷ (chars "taprio", record { condition = chars "taprio"; runs = run ∷ [] })
    ∷ []

abbrev float_of : Text → Result Number
float_of s = ok (number (pos 50))

abbrev plain_format : ℕ → Number → Text
plain_format digits x = chars "1"

plot_latency_cdf-AreCurves_example :
    Gives
      (AreCurves F plain_floats_order
        (sorting_arrays F)
        (sorting_arrays_laws F plain_floats_order)
        float_of
        plain_format
        plain_format
        (condition_styles (names_in F (sorting_arrays F) float_of plain_format plain_format cells))
        cells)
      (plot_latency_cdf F (sorting_arrays F) float_of plain_format plain_format cells)
plot_latency_cdf-AreCurves_example =
    plot_latency_cdf-AreCurves F plain_floats_order (sorting_arrays F)
      (sorting_arrays_laws F plain_floats_order) float_of plain_format plain_format cells
      (refl, (refl, tt)) (refl, (refl, tt))
