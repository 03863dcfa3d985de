-- ===== src/Plots/Curves.antt =====
-- The figure of the distributions.
use time_sensitive_packet.Base.{
  ℕ, suc, ◌+◌, ◌≤◌, ◌<◌, ◌≡◌, refl, ap, ◌∙◌, sym, inl, inr, true, false, not, some, List, [], ◌∷◌,
  ◌++◌, ◌&&◌, Bool, map, length, length-append, AllOf, count_if, count_if-none, count_if-all,
  count_if-append, count_if-le, all, all-append, Result, Gives, Text, text_eq, contains, lookup,
  Distinct, Bool-cases, arith,
}
use time_sensitive_packet.Base.Int.{pos}
use time_sensitive_packet.Floats.{FloatOps, FloatOrder}
use time_sensitive_packet.Numpy.Samples.{FloatArrays, FloatArraysLaws, IsNumbers, IsSorted}
use time_sensitive_packet.Dataset.{Cell, latency_ms}
use time_sensitive_packet.Plots.{
  Style, is_positive, Curve, condition_styles, names_in, points_from, curve_of, curves_of,
  plot_latency_cdf,
}
use time_sensitive_packet.Plots.Styles.Ranks.{styles_from-lookup}
use mathlib.Core.Path.{subst}
use mathlib.Core.List.{append_assoc}

module _ (F : FloatOps) (order : FloatOrder F) (np : FloatArrays F) (laws : FloatArraysLaws F np)
    (float_of : Text → Result F.Float) (fixed general : ℕ → F.Float → Text) where
  -- A positive sample with the fraction k / n, for a k that is above the number of smaller samples
  -- and at most the number of those that are not larger.
  abbrev pub IsPoint : List F.Float → ℕ → F.Float × F.Float → Type 0
  IsPoint samples k point =
      (is_positive F point.0 ≡ true)
      × (point.1 ≡ F.over (F.of_int (pos k)) (F.of_int (pos (length samples))))
      × (count_if (λ y. F.lt y point.0) samples < k)
      × (k ≤ count_if (λ y. not (F.lt point.0 y)) samples)

  -- The numbers k rise from point to point, and are above `low`.
  abbrev pub ArePoints : List F.Float → ℕ → List (F.Float × F.Float) → Type 0
  ArePoints samples low [] = Unit
  ArePoints samples low (point ∷ points) =
      (k : ℕ) × (low < k) × IsPoint samples k point × ArePoints samples k points

  -- No element of `rest` is below one of `pre`.
  abbrev Above : List F.Float → List F.Float → Type 0
  Above pre rest = AllOf (λ x. all (λ y. not (F.lt x y)) pre ≡ true) rest

  Above-next :
      (pre : List F.Float) (x : F.Float) (rest : List F.Float)
      → Above pre rest
      → all (λ y. not (F.lt y x)) rest ≡ true
      → Above (pre ++ x ∷ []) rest
  Above-next pre x [] h g = tt
  Above-next pre x (y ∷ rest) (h, hs) g = (
    all-append (λ z. not (F.lt y z)) pre x h (ground arith),
    Above-next pre x rest hs (ground arith),
  )

  head-IsFraction :
      (pre : List F.Float) (x : F.Float) (rest : List F.Float) (n : ℕ)
      → all (λ y. not (F.lt x y)) pre ≡ true
      → all (λ y. not (F.lt y x)) rest ≡ true
      → (count_if (λ y. F.lt y x) (pre ++ x ∷ rest) < suc (length pre))
        × (suc (length pre) ≤ count_if (λ y. not (F.lt x y)) (pre ++ x ∷ rest))
  head-IsFraction pre x rest n h g =
      let self : F.lt x x ≡ false = order.lt_irrefl x in
      (
        omega (
          arith,
          count_if-append (λ y. F.lt y x) pre (x ∷ rest),
          count_if-le (λ y. F.lt y x) pre,
          no_smaller self,
        ),
        omega (
          arith,
          count_if-append (λ y. not (F.lt x y)) pre (x ∷ rest),
          count_if-all (λ y. not (F.lt x y)) pre h,
          itself self,
        ),
      )
    where
      no_smaller : F.lt x x ≡ false → count_if (λ y. F.lt y x) (x ∷ rest) ≡ 0
      no_smaller self = rw self (count_if-none (λ y. F.lt y x) rest g)

      itself : F.lt x x ≡ false → 1 ≤ count_if (λ y. not (F.lt x y)) (x ∷ rest)
      itself self = rw self (omega arith)

  points_from-ArePoints :
      (pre rest : List F.Float) (low : ℕ)
      → low ≤ length pre
      → Above pre rest
      → IsSorted F rest
      → ArePoints
          (pre ++ rest)
          low
          (points_from F np float_of fixed general (length pre) (length (pre ++ rest)) rest)
  unfolding points_from
  points_from-ArePoints pre [] low le h sorted = tt
  points_from-ArePoints pre (x ∷ rest) low le (h, hs) (above, sorted) =
      elim (Bool-cases (is_positive F x)) [
        | inl e ↦
            let ranks = head-IsFraction pre x rest (length pre) h above in
            rw (e, points_from)
              (
                suc (length pre),
                omega arith,
                (e, refl, ranks.0, ranks.1),
                later pre x rest (suc (length pre)) (
                    points_from-ArePoints (pre ++ x ∷ []) rest (suc (length pre))
                      (omega (arith, length-append pre (x ∷ []))) (Above-next pre x rest hs above)
                      sorted),
              )
        | inr e ↦
            rw (e, points_from)
              (later pre x rest low (
                points_from-ArePoints (pre ++ x ∷ []) rest low
                  (omega (arith, le, length-append pre (x ∷ []))) (Above-next pre x rest hs above)
                  sorted))
      ]
    where
      later :
          (pre : List F.Float) (x : F.Float) (rest : List F.Float) (low : ℕ)
          → ArePoints ((pre ++ x ∷ []) ++ rest) low (
              points_from F np float_of fixed general
                (length (pre ++ x ∷ []))
                (length ((pre ++ x ∷ []) ++ rest))
                rest)
          → ArePoints (pre ++ x ∷ rest) low (
              points_from F np float_of fixed general
                (suc (length pre))
                (length (pre ++ x ∷ rest))
                rest)
      later pre x rest low h =
          subst
            (λ s.
              ArePoints s low
                (points_from F np float_of fixed general (suc (length pre)) (length s) rest))
            (append_assoc pre (x ∷ []) rest)
            (subst
              (λ i.
                ArePoints ((pre ++ x ∷ []) ++ rest) low (
                  points_from F np float_of fixed general i (length ((pre ++ x ∷ []) ++ rest))
                    rest))
              (length-append pre (x ∷ []) ∙ plus_one (length pre)) h)
        where
          plus_one : (n : ℕ) → n + 1 ≡ suc n
          plus_one n = omega arith

  count-points_from :
      (p : F.Float → Bool) (i n : ℕ) (lat : List F.Float)
      → count_if p (map (λ q. q.0) (points_from F np float_of fixed general i n lat))
        ≡ count_if (λ x. is_positive F x && p x) lat
  unfolding points_from
  count-points_from p i n [] = refl
  count-points_from p i n (x ∷ lat) = ground (arith, count-points_from p (suc i) n lat)

  -- A curve of the distribution of a cell's latencies: of any kind of positive samples it has as
  -- many points as there are samples.
  pub record IsCurve (cell : Cell F) (curve : Curve F) : Type 0 where
    pub samples_lem :
        (p : F.Float → Bool)
        → count_if p (map (λ q. q.0) curve.points)
          ≡ count_if (λ x. is_positive F x && p x) (latency_ms F cell)
    pub points_lem : ArePoints (latency_ms F cell) 0 curve.points

  length-sort : (xs : List F.Float) → length (np.sort xs) ≡ length xs
  length-sort xs = sym (every (np.sort xs)) ∙ laws.count_if-sort (λ x. true) xs ∙ every xs
    where
      every : (ys : List F.Float) → count_if (λ x. true) ys ≡ length ys
      every [] = refl
      every (y ∷ ys) = ap suc (every ys)

  -- Sorting changes none of the counts.
  ArePoints-sort :
      (samples : List F.Float) (low : ℕ) (points : List (F.Float × F.Float))
      → ArePoints (np.sort samples) low points
      → ArePoints samples low points
  ArePoints-sort samples low [] h = tt
  ArePoints-sort samples low (point ∷ points) (k, above, (positive, e, smaller, not_larger), rest) =
      (
        k,
        above,
        (
          positive,
          e ∙ ap (λ n. F.over (F.of_int (pos k)) (F.of_int (pos n))) (length-sort samples),
          subst (λ n. n < k) (laws.count_if-sort (λ y. F.lt y point.0) samples) smaller,
          subst (λ n. k ≤ n) (laws.count_if-sort (λ y. not (F.lt point.0 y)) samples) not_larger,
        ),
        ArePoints-sort samples k points rest,
      )

  curve_of-IsCurve :
      (c : Text) (style : Style) (cell : Cell F)
      → IsNumbers F (latency_ms F cell)
      → IsCurve cell (curve_of F np float_of fixed general c style cell)
  unfolding curve_of
  curve_of-IsCurve c style cell numbers =
      let samples = latency_ms F cell in
      record {
        samples_lem = λ p.
            count-points_from p 0 (length (np.sort samples)) (np.sort samples)
            ∙ laws.count_if-sort (λ x. is_positive F x && p x) samples;
        points_lem = ArePoints-sort samples 0 _ (
            points_from-ArePoints [] (np.sort samples) 0 (omega arith) (all_above (np.sort samples))
              (laws.sort-IsSorted samples numbers));
      }
    where
      all_above : (xs : List F.Float) → Above [] xs
      all_above [] = tt
      all_above (x ∷ xs) = (refl, all_above xs)

  -- One curve for each cell, with the name of the cell and its style.
  abbrev pub AreCurves : List (Text × Style) → List (Text × Cell F) → List (Curve F) → Type 0
  AreCurves styles [] [] = Unit
  AreCurves styles [] (curve ∷ curves) = ⊥
  AreCurves styles (cell ∷ cells) [] = ⊥
  AreCurves styles ((c, cell) ∷ cells) (curve ∷ curves) =
      ((curve.label ≡ c) × (lookup c styles ≡ some curve.style) × IsCurve cell curve)
      × AreCurves styles cells curves

  curve_of-IsCurveFor :
      (styles : List (Text × Style)) (c : Text) (s : Style) (cell : Cell F)
      → lookup c styles ≡ some s
      → IsNumbers F (latency_ms F cell)
      → ((curve_of F np float_of fixed general c s cell).label ≡ c)
        × (lookup c styles ≡ some (curve_of F np float_of fixed general c s cell).style)
        × IsCurve cell (curve_of F np float_of fixed general c s cell)
  unfolding curve_of
  curve_of-IsCurveFor styles c s cell e n = (refl, e, curve_of-IsCurve c s cell n)

  curves_of-AreCurves :
      (styles : List (Text × Style)) (cells : List (Text × Cell F))
      → AllOf (λ c. (s : Style) × (lookup c.0 styles ≡ some s)) cells
      → AllOf (λ c. IsNumbers F (latency_ms F c.1)) cells
      → Gives (AreCurves styles cells) (curves_of F np float_of fixed general styles cells)
  unfolding curves_of
  curves_of-AreCurves styles [] h numbers = ([], refl, tt)
  curves_of-AreCurves styles ((c, cell) ∷ cells) ((s, e), hs) (n, numbers) =
      let (curves, g, are) = curves_of-AreCurves styles cells hs numbers in
      (
        curve_of F np float_of fixed general c s cell ∷ curves,
        rw (e, g) refl,
        (curve_of-IsCurveFor styles c s cell e n, are),
      )

  -- Conditions among `all` have a style.
  names-HaveStyles :
      (conditions : List Text) (cells : List (Text × Cell F))
      → Distinct conditions
      → ((c : Text)
          → contains c (names_in F np float_of fixed general cells) ≡ true
          → contains c conditions ≡ true)
      → AllOf (λ c. (s : Style) × (lookup c.0 (condition_styles conditions) ≡ some s)) cells
  unfolding condition_styles
  names-HaveStyles conditions [] distinct among = tt
  names-HaveStyles conditions ((c, cell) ∷ cells) distinct among = (
    (
      _,
      styles_from-lookup c conditions 0 [] distinct (among c (ground (arith, text_eq.beq_iff c c))),
    ),
    names-HaveStyles conditions cells distinct (λ d h. among d (ground arith)),
  )

  -- For cells with distinct names and latencies that are numbers, the figure of the distributions
  -- is drawn: one curve for each cell, in its style. Its points are the positive latencies of the
  -- cell, each as often as it occurs. The fraction of a point counts all the smaller samples, the
  -- point itself and no larger one, and the counts rise from point to point.
  pub plot_latency_cdf-AreCurves :
      (cells : List (Text × Cell F))
      → Distinct (names_in F np float_of fixed general cells)
      → AllOf (λ c. IsNumbers F (latency_ms F c.1)) cells
      → Gives
          (AreCurves (condition_styles (names_in F np float_of fixed general cells)) cells)
          (plot_latency_cdf F np float_of fixed general cells)
  unfolding plot_latency_cdf
  plot_latency_cdf-AreCurves cells distinct numbers =
      curves_of-AreCurves (condition_styles (names_in F np float_of fixed general cells)) cells
        (names-HaveStyles (names_in F np float_of fixed general cells) cells distinct (λ c h. h))
        numbers
