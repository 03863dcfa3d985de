-- ===== src/Stats/Bootstrap/Resamples.antt =====
-- The resampling loop of `bootstrap_ci`.
use time_sensitive_packet.Base.{
  ℕ, zero, suc, ◌+◌, ◌-◌, ◌≤◌, ◌<◌, ◌≡◌, refl, ◌∙◌, ap, true, some, List, [], ◌∷◌, ◌++◌, length,
  all, ltb, arith, Bool-cases, inl, inr, Result, ok, Gives, map_result, get_or,
}
use time_sensitive_packet.Base.Int.{ℤ, pos, negsuc}
use time_sensitive_packet.Floats.{FloatOps}
use time_sensitive_packet.Numpy.Samples.{FloatArrays, IsTotal}
use time_sensitive_packet.Stats.Bootstrap.{
  Generator, smaller, Statistic, resample, BootstrapCi, resolve_statistic, fill, low_percentage,
  high_percentage, interval, bootstrap_ci,
}
use Prim.Native.String.{String}

-- A row of `columns` indices below `high`.
abbrev pub IsRow : ℕ → ℕ → List ℕ → Type 0
IsRow high columns row = (length row ≡ columns) × (all (λ i. ltb i high) row ≡ true)

abbrev pub AreRows : ℕ → ℕ → List (List ℕ) → Type 0
AreRows high columns [] = Unit
AreRows high columns (row ∷ rows) = IsRow high columns row × AreRows high columns rows

-- A seed that `default_rng` takes.
abbrev pub IsSeed : ℤ → Type 0
IsSeed (pos n) = Unit
IsSeed (negsuc n) = ⊥

-- What the reference manual says of `default_rng`, and of `Generator.integers`: the shape, and the
-- range.
pub record GeneratorLaws (gen : Generator) : Type 0 where
  pub default_rng-Gives : (n : ℕ) → Gives (λ rng. Unit {0}) (gen.default_rng (pos n))
  pub length-integers :
      (high rows columns : ℕ) (rng : gen.Rng) → length (gen.integers high rows columns rng).0 ≡ rows
  pub integers-AreRows :
      (high rows columns : ℕ) (rng : gen.Rng)
      → 0 < high
      → AreRows high columns (gen.integers high rows columns rng).0

module _ (F : FloatOps) where
  -- Each is the statistic of as many members of `x` as `x` has, drawn with replacement.
  abbrev pub AreResamples : List F.Float → Statistic F → List F.Float → Type 0
  AreResamples x stat [] = Unit
  AreResamples x stat (b ∷ boots) =
      ((row : List ℕ) × IsRow (length x) (length x) row × (stat (resample F x row) ≡ ok b))
      × AreResamples x stat boots

  AreResamples-append :
      (x : List F.Float) (stat : Statistic F) (front bs : List F.Float)
      → AreResamples x stat front
      → AreResamples x stat bs
      → AreResamples x stat (front ++ bs)
  AreResamples-append x stat [] bs p q = q
  AreResamples-append x stat (a ∷ front) bs p q = (p.0, AreResamples-append x stat front bs p.1 q)

  -- Each row of indices gives a member.
  map_result-AreResamples :
      (x : List F.Float) (stat : Statistic F) (rows : List (List ℕ))
      → 0 < length x
      → IsTotal F stat
      → AreRows (length x) (length x) rows
      → Gives
          (λ bs. (length bs ≡ length rows) × AreResamples x stat bs)
          (map_result (λ row. stat (resample F x row)) rows)
  map_result-AreResamples x stat [] some_there returns p = ([], refl, (refl, tt))
  map_result-AreResamples x stat ([] ∷ rows) some_there returns ((len, h), ps) =
      absurd (omega (arith, len))
  map_result-AreResamples x stat ((i ∷ row) ∷ rows) some_there returns (p, ps) =
      let (b, e, t) = returns (get_or x i F.nan) (resample F x row) in
      let (bs, g, (n, are)) = map_result-AreResamples x stat rows some_there returns ps in
      (b ∷ bs, rw (e, g) refl, (ap suc n, ((i ∷ row, p, e), are)))

  length-append : (front bs : List F.Float) → length (front ++ bs) ≡ length front + length bs
  length-append [] bs = omega arith
  length-append (a ∷ front) bs = omega (arith, length-append front bs)

  module _ (np : FloatArrays F) (float_of : String → Result F.Float) (gen : Generator)
      (laws : GeneratorLaws gen) where
    fill_lem :
        (x : List F.Float) (stat : Statistic F) (chunk n_boot fuel done : ℕ) (rng : gen.Rng)
        (boots : List F.Float)
        → 0 < length x
        → IsTotal F stat
        → 0 < chunk
        → n_boot < fuel + done
        → done ≤ n_boot
        → length boots ≡ done
        → AreResamples x stat boots
        → (all_boots : List F.Float) × (fill F np float_of gen x stat chunk n_boot fuel done rng
              boots
            ≡ ok (some all_boots))
          × (length all_boots ≡ n_boot)
          × AreResamples x stat all_boots
    unfolding fill
    fill_lem x stat chunk n zero done rng boots x_pos returns c fuel le len r = absurd (omega arith)
    fill_lem x stat chunk n (suc fuel) done rng boots x_pos returns c enough le len r =
        elim (Bool-cases (ltb done n)) [
          | inl more ↦
              let k = smaller chunk (n - done) in
              let drawn = gen.integers (length x) k (length x) rng in
              let (added, e, (added_len, are)) =
                map_result-AreResamples x stat drawn.0 x_pos returns
                  (laws.integers-AreRows (length x) k (length x) rng x_pos) in
              let k_pos : (0 < k) × (k + done ≤ n) = ground arith in
              rw (more, fill, e)
                (fill_lem x stat chunk n fuel (done + k) drawn.1 (boots ++ added) x_pos returns c
                  (omega arith) (omega arith)
                  (length-append boots added
                    ∙ omega
                        (arith, len, added_len, laws.length-integers (length x) k (length x) rng))
                  (AreResamples-append x stat boots added r are))
          | inr full ↦ rw (full, fill) (boots, refl, ground arith, r)
        ]

    -- The ends of the interval are percentages that numpy takes.
    abbrev pub IsConfidence : F.Float → Type 0
    IsConfidence ci =
        IsTotal F (np.percentile "linear" (low_percentage F np float_of gen ci))
        × IsTotal F (np.percentile "linear" (high_percentage F np float_of gen ci))

    -- What the function returns for a sample: the statistic of the sample, and the percentiles of
    -- `n` statistics of resamples.
    pub record IsInterval (x : List F.Float) (stat : Statistic F) (n : ℕ) (ci : F.Float)
        (c : BootstrapCi F) (boots : List F.Float) : Type 0 where
      pub point_lem : stat x ≡ ok c.point
      pub low_lem : np.percentile "linear" (low_percentage F np float_of gen ci) boots ≡ ok c.low
      pub high_lem : np.percentile "linear" (high_percentage F np float_of gen ci) boots ≡ ok c.high
      pub length-boots : length boots ≡ n
      pub resamples : AreResamples x stat boots

    interval-IsInterval :
        (x : List F.Float) (stat : Statistic F) (n : ℕ) (ci point : F.Float) (boots : List F.Float)
        → IsConfidence ci
        → stat x ≡ ok point
        → length boots ≡ suc n
        → AreResamples x stat boots
        → (c : BootstrapCi F) × (interval F np float_of gen ci (pos (suc n)) point (some boots)
            ≡ ok (some c))
          × (c.point ≡ point)
          × IsInterval x stat (suc n) ci c boots
    interval-IsInterval x stat n ci point [] (l, h) e len are = absurd (omega (arith, len))
    interval-IsInterval x stat n ci point (b ∷ boots) (l, h) e len are =
        let (low, low_e, t) = l b boots in
        let (high, high_e, u) = h b boots in
        (
          record { point = point; low = low; high = high; ci = ci; n_boot = pos (suc n) },
          rw (low_e, high_e) refl,
          refl,
          record {
            point_lem = e;
            low_lem = low_e;
            high_lem = high_e;
            length-boots = len;
            resamples = are;
          },
        )

    -- On a sample of two or more, with a positive chunk, a positive number of resamples, a seed that
    -- is not negative, a confidence level that numpy takes and a known statistic that returns: the
    -- function returns, its point is the statistic of the sample, and its ends are percentiles of
    -- exactly as many statistics as asked for, each of a resample of the sample.
    pub bootstrap_ci-resamples :
        (v w : F.Float) (rest : List F.Float) (name method : String) (n : ℕ) (ci : F.Float)
        (seed : ℤ) (chunk : ℕ) (stat : Statistic F)
        → 0 < chunk
        → IsSeed seed
        → IsConfidence ci
        → resolve_statistic F np float_of name method ≡ ok stat
        → IsTotal F stat
        → (c : BootstrapCi F) × (boots : List F.Float) × (bootstrap_ci F np float_of gen
              (v ∷ w ∷ rest)
              name
              (pos (suc n))
              ci
              seed
              chunk
              method
            ≡ ok (some c))
          × IsInterval (v ∷ w ∷ rest) stat (suc n) ci c boots
    unfolding bootstrap_ci
    bootstrap_ci-resamples v w rest name method n ci (negsuc k) chunk stat c seeded conf h returns =
        absurd seeded
    bootstrap_ci-resamples v w rest name method n ci (pos k) chunk stat c seeded conf h returns =
        let x = v ∷ w ∷ rest in
        let (point, e_point, t) = returns v (w ∷ rest) in
        let (rng, e_rng, u) = laws.default_rng-Gives k in
        let (boots, e, len, r) =
          fill_lem x stat chunk (suc n) (suc (suc n)) 0 rng [] (omega arith) returns c (omega arith)
            (omega arith) refl tt in
        let (found, g, same, is) = interval-IsInterval x stat n ci point boots conf e_point len r in
        (found, boots, rw (h, e_point, e_rng, e) g, is)
