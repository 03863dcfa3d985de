-- ===== src/Workload/Listener/Totals.antt =====
-- What listener.py computes at the end for the lines that it prints; the wording of the lines is not
-- modelled.
pub mod Counts
use time_sensitive_packet.Base.{
  ℕ, suc, ◌+◌, Bool, true, false, Option, none, some, List, [], ◌∷◌, map, length, if◌then◌else◌,
  Result, ok, err, ◌>>=◌, int_eq, lookup, insert,
}
use time_sensitive_packet.Base.Int.{ℤ, pos, sub_ℕ, ltb_ℤ}
use time_sensitive_packet.Floats.{FloatOps}
use time_sensitive_packet.Numpy.Samples.Sorting.{insertion_sort}
use time_sensitive_packet.Metrics.Dscp.{shift_2}
use time_sensitive_packet.Loader.Numbers.{tos_value}
use time_sensitive_packet.Workload.Ranks.{Ranks, ranks_of}
use time_sensitive_packet.Workload.Listener.{Row, State}
use time_sensitive_packet.Workload.Listener.Report.{Figures, figures}

abbrev pub or_zero : Option ℕ → ℕ
or_zero none = 0
or_zero (some n) = n

-- The loop `dist[r["tos"]] = dist.get(r["tos"], 0) + 1`.
unfoldable pub count_tos : List ℤ → List (ℤ × ℕ) → List (ℤ × ℕ)
count_tos [] dist = dist
count_tos (k ∷ ks) dist = count_tos ks (insert k (or_zero (lookup k dist) + 1) dist)

-- `sorted(dist.items())`, whose keys are distinct.
abbrev pub insert_item : ℤ × ℕ → List (ℤ × ℕ) → List (ℤ × ℕ)
insert_item (k, n) [] = (k, n) ∷ []
insert_item (k, n) ((j, m) ∷ items) =
    if ltb_ℤ j k then (j, m) ∷ insert_item (k, n) items else (k, n) ∷ (j, m) ∷ items

abbrev pub sort_items : List (ℤ × ℕ) → List (ℤ × ℕ)
sort_items [] = []
sort_items (item ∷ items) = insert_item item (sort_items items)

-- `0x{k:02x}(dscp {k >> 2}): {v}`
pub record TosItem : Type 0 where
  pub tos : ℤ
  pub dscp : ℤ
  pub rows : ℕ

abbrev pub tos_item : ℤ × ℕ → TosItem
tos_item (k, v) = record { tos = k; dscp = shift_2 k; rows = v }

unfoldable pub tos_items : List ℤ → List TosItem
unfolding count_tos
tos_items values = map tos_item (sort_items (count_tos values []))

module _ (F : FloatOps) where
  -- `max(a, b)`
  abbrev pub larger : F.Float → F.Float → F.Float
  larger a b = if F.lt a b then b else a

  abbrev pub last_recv : ℕ → List (Row F) → ℕ
  last_recv recv [] = recv
  last_recv recv (r ∷ rows) = last_recv r.recv_ns rows

  pub record Totals : Type 0 where
    pub received : ℕ
    pub elapsed_s : F.Float
    pub kilobytes_per_s : F.Float
    pub figures : Figures
    pub loss_percent : F.Float
    pub latency : Ranks F
    pub jitter : Option (Ranks F)
    pub tos : List TosItem

  -- The line of the jitters is there only if there are some.
  abbrev pub jitter_ranks : List F.Float → Result (Option (Ranks F))
  jitter_ranks [] = ok none
  jitter_ranks (x ∷ jitters) = do r ← ranks_of F (insertion_sort F (x ∷ jitters)); ok (some r)

  unfoldable pub totals : Bool → Row F → List (Row F) → ℕ → Result Totals
  unfolding tos_items
  totals record_tos r rows total_bytes = do
    let elapsed_s =
        larger
          (F.over (F.of_int (sub_ℕ (last_recv r.recv_ns rows) r.recv_ns))
            (F.decimal 1_000_000_000 0))
          (F.decimal 1 9)
    let f = figures r.seq (map (λ s. s.seq) rows)
    latency ← ranks_of F (insertion_sort F (map (λ s. s.latency_ms) (r ∷ rows)))
    jitter ← jitter_ranks (map (λ s. F.absolute s.jitter_us) rows)
    ok (record {
      received = suc (length rows);
      elapsed_s = elapsed_s;
      kilobytes_per_s =
          F.over (F.over (F.of_int (pos total_bytes)) elapsed_s) (F.of_int (pos 1024));
      figures = f;
      loss_percent =
          F.times (F.over (F.of_int f.loss) (F.of_int (pos f.expected))) (F.of_int (pos 100));
      latency = latency;
      jitter = jitter;
      tos = if record_tos then tos_items (map (λ s. tos_value s.tos) (r ∷ rows)) else [];
    })

  -- Without rows nothing is computed, and no file is written.
  abbrev pub totals_of : Bool → State F → Result (Option Totals)
  totals_of record_tos s = elim s.results [
    | [] ↦ ok none
    | r ∷ rows ↦ (do t ← totals record_tos r rows s.total_bytes; ok (some t))
  ]
