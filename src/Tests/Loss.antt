-- ===== src/Tests/Loss.antt =====
-- Loss of a run in which 2 is lost, 1 comes twice and 0 comes late.
use time_sensitive_packet.Base.{ℕ, ◌≡◌, refl, List, [], ◌∷◌, map, arith, int_eq, beq_ℤ_iff}
use time_sensitive_packet.Base.Int.{pos, ◌-ℤ◌, ◌+ℤ◌}
use time_sensitive_packet.Floats.Plain.{plain_floats}
use time_sensitive_packet.Numpy.Plain.{plain_arrays, plain_arrays_laws}
use time_sensitive_packet.Metrics.Loss.{loss_counts, loss_summary}
use time_sensitive_packet.Metrics.Loss.Laws.{
  IsNonneg, IsLargest, reference_summary, loss_summary_lem,
}
use time_sensitive_packet.Workload.Listener.Report.{figures}
use time_sensitive_packet.Workload.Listener.Report.Agreement.{figures-loss_counts}

abbrev arrivals : List ℕ
arrivals = 1 ∷ 0 ∷ 1 ∷ 3 ∷ []

arrivals-loss :
    loss_counts plain_arrays (map pos arrivals)
    ≡ record { expected = pos 4; received = pos 4; unique = pos 3; lost = pos 1; reorders = pos 1 }
unfolding loss_counts ◌+ℤ◌ ◌-ℤ◌
arrivals-loss = refl

arrivals-IsNonneg : IsNonneg (map pos arrivals)
arrivals-IsNonneg y m =
    ground (arith, beq_ℤ_iff y (pos 1), beq_ℤ_iff y (pos 0), beq_ℤ_iff y (pos 3))

loss_summary_lem_example :
    (n : ℕ) × IsLargest n (map pos arrivals)
    × (loss_summary plain_arrays plain_floats (map pos arrivals)
        ≡ reference_summary plain_floats (ℕ.suc n) (map pos arrivals))
loss_summary_lem_example =
    loss_summary_lem plain_arrays plain_arrays_laws plain_floats (pos 1)
      (pos 0 ∷ pos 1 ∷ pos 3 ∷ []) arrivals-IsNonneg

figures-loss_counts_example :
    let f = figures 1 (0 ∷ 1 ∷ 3 ∷ []) in
    let c = loss_counts plain_arrays (map pos arrivals) in
    (pos f.expected ≡ c.expected)
    × (pos f.unique ≡ c.unique)
    × (f.loss ≡ c.lost)
    × (f.dups ≡ c.received -ℤ c.unique)
    × (pos f.reorders ≡ c.reorders)
figures-loss_counts_example = figures-loss_counts plain_arrays plain_arrays_laws 1 (0 ∷ 1 ∷ 3 ∷ [])
