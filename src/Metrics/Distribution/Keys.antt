-- ===== src/Metrics/Distribution/Keys.antt =====
-- The keys of `distribution_summary`.
use time_sensitive_packet.Base.{
  ◌≡◌, ◌≢◌, refl, ap, ◌∙◌, sym, List, [], ◌∷◌, ◌++◌, map, length, arith, if◌then◌else◌, Text, chars,
  text_eq, insert, AllOf, Gives, Gives-bind, map_result-Gives,
}
use time_sensitive_packet.Base.Int.{pos}
use time_sensitive_packet.Floats.{FloatOps}
use time_sensitive_packet.Numpy.Samples.{FloatArrays, IsTotal}
use time_sensitive_packet.Metrics.Distribution.{
  percentiles_of, pct_label, set_percentiles, set_nan, filled, distribution_summary,
}
use Prim.Native.String.{String}

-- The keys after `d[k] = v`.
abbrev pub with_key : Text → List Text → List Text
with_key k [] = k ∷ []
with_key k (j ∷ ks) = if text_eq.beq k j then j ∷ ks else j ∷ with_key k ks

-- `with_key` for one key after the other.
abbrev pub with_keys : List Text → List Text → List Text
with_keys [] ks = ks
with_keys (k ∷ more) ks = with_keys more (with_key k ks)

with_keys-append :
    (as' bs ks : List Text) → with_keys (as' ++ bs) ks ≡ with_keys bs (with_keys as' ks)
with_keys-append [] bs ks = refl
with_keys-append (a ∷ as') bs ks = with_keys-append as' bs (with_key a ks)

module _ {V : Type 0} where
  abbrev pub keys_of : List (Text × V) → List Text
  keys_of [] = []
  keys_of ((k, v) ∷ d) = k ∷ keys_of d

  keys_of-insert :
      (k : Text) (v : V) (d : List (Text × V)) → keys_of (insert k v d) ≡ with_key k (keys_of d)
  keys_of-insert k v [] = refl
  keys_of-insert k v ((j, w) ∷ d) = ground (arith, keys_of-insert k v d)

module _ (F : FloatOps) (np : FloatArrays F) (format_g : F.Float → Text) where
  keys_of-set_nan :
      (ks : List Text) (d : List (Text × F.Float))
      → keys_of (set_nan F np format_g ks d) ≡ with_keys ks (keys_of d)
  keys_of-set_nan [] d = refl
  keys_of-set_nan (k ∷ ks) d =
      keys_of-set_nan ks (insert k F.nan d) ∙ ap (with_keys ks) (keys_of-insert k F.nan d)

  keys_of-set_percentiles :
      (qs pcts : List F.Float) (d : List (Text × F.Float))
      → length pcts ≡ length qs
      → keys_of (set_percentiles F np format_g qs pcts d)
        ≡ with_keys (map (pct_label F np format_g) qs) (keys_of d)
  keys_of-set_percentiles [] pcts d h = refl
  keys_of-set_percentiles (q ∷ qs) [] d h = absurd (omega (arith, h))
  keys_of-set_percentiles (q ∷ qs) (v ∷ pcts) d h =
      keys_of-set_percentiles qs pcts (insert (pct_label F np format_g q) v d) (omega (arith, h))
      ∙ ap (with_keys (map (pct_label F np format_g) qs))
          (keys_of-insert (pct_label F np format_g q) v d)

  -- The keys of a summary.
  abbrev pub summary_keys : List F.Float → List Text
  summary_keys qs =
      with_keys
        (chars "n" ∷ chars "min" ∷ map (pct_label F np format_g) qs
          ++ chars "max" ∷ chars "mean" ∷ chars "std" ∷ [])
        []

  keys_of-filled :
      (arr qs pcts : List F.Float)
      → length pcts ≡ length qs
      → keys_of (filled F np format_g arr qs pcts) ≡ summary_keys qs
  keys_of-filled arr qs pcts h =
      let labels = map (pct_label F np format_g) qs in
      let start =
        insert (chars "min") (np.smallest arr)
          (insert (chars "n") (F.of_int (pos (length arr))) []) in
      let body = set_percentiles F np format_g qs pcts start in
      let with_max = insert (chars "max") (np.largest arr) body in
      let with_mean = insert (chars "mean") (np.mean arr) with_max in
      keys_of-insert (chars "std") _ with_mean
      ∙ ap (with_key (chars "std")) (
          keys_of-insert (chars "mean") _ with_max
          ∙ ap (with_key (chars "mean")) (
              keys_of-insert (chars "max") _ body
              ∙ ap (with_key (chars "max")) (keys_of-set_percentiles qs pcts start h)))
      ∙ sym (
          with_keys-append labels (chars "max" ∷ chars "mean" ∷ chars "std" ∷ [])
            (chars "n" ∷ chars "min" ∷ []))

  -- If there is no sample, or numpy accepts the method and the percentages, a summary is made. Its
  -- keys are n, min, the percentiles' labels, max, mean and std, in this order and each once, for an
  -- empty sample as for any other; so a table can read them for every condition.
  pub distribution_summary-keys :
      (values qs : List F.Float) (method : String)
      → (values ≢ [] → AllOf (λ q. IsTotal F (np.percentile method q)) qs)
      → Gives
          (λ d.
            keys_of d
            ≡ with_keys
                (chars "n" ∷ chars "min" ∷ map (pct_label F np format_g) qs
                  ++ chars "max" ∷ chars "mean" ∷ chars "std" ∷ [])
                [])
          (distribution_summary F np format_g values qs method)
  unfolding distribution_summary
  distribution_summary-keys [] qs method h = (
    _,
    refl,
    keys_of-set_nan
        (chars "min" ∷ map (pct_label F np format_g) qs
          ++ chars "max" ∷ chars "mean" ∷ chars "std" ∷ [])
        (insert (chars "n") (F.of_int (pos 0)) []),
  )
  distribution_summary-keys (x ∷ xs) qs method h =
      Gives-bind (λ pcts. length pcts ≡ length qs) _ (percentiles_of F np (x ∷ xs) qs method) _
        (map_result-Gives (λ q. IsTotal F (np.percentile method q))
          (λ q. np.percentile method q (x ∷ xs)) qs (λ q r. r x xs) (h (λ e. cc)))
        (λ pcts n. (filled F np format_g (x ∷ xs) qs pcts, refl, keys_of-filled (x ∷ xs) qs pcts n))
