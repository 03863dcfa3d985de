-- ===== src/Bpfmaps/Counters.antt =====
-- The counters of the classifier, as the testbed helper reads them.
use time_sensitive_packet.Base.{
  ℕ, ◌+◌, ◌*◌, ◌/◌, ◌%◌, ◌^◌, ◌<◌, ◌≡◌, refl, ap, ◌∙◌, none, some, List, [], ◌∷◌, map, AllOf, ltb,
  if◌then◌else◌, ok, map_result, ◌>>=◌, Gives, Text, chars, text_eq, lookup, sum, sum_ints, arith,
  str_int, str_nat, lt→ltb,
}
use time_sensitive_packet.Base.Int.{ℤ, pos, ◌+ℤ◌, int_laws}
use time_sensitive_packet.Bytes.{le_bytes, IsBytes}
use time_sensitive_packet.Bytes.Laws.{le_value-le_bytes, le_bytes-IsBytes}
use time_sensitive_packet.Classifier.{
  Counter, normal, ts_avtp, ts_pcp, ts_udp, dscp_marked, parse_short,
}
use time_sensitive_packet.Bpfmaps.Dump.{
  bytes, Entry, hex_digit, int_16, byte_of, byte_16, to_int, entry_of, dump_percpu, counters,
}

-- A byte as bpftool prints it, `0x%02x`.
abbrev pub hex_char : ℕ → ℕ
hex_char d = if ltb d 10 then 48 + d else 87 + d

abbrev pub hex_byte : ℕ → Text
hex_byte b = 48 ∷ 120 ∷ hex_char (b / 16) ∷ hex_char (b % 16) ∷ []

-- An entry of a per-CPU array of 64-bit counters: the index, and the count of each CPU.
abbrev pub entry : ℕ → List ℕ → Entry
entry i per_cpu = record {
  raw = record {
    key = bytes (map hex_byte (le_bytes 4 i));
    values = some (map (λ c. bytes (map hex_byte (le_bytes 8 c))) per_cpu);
    value = none;
  };
  formatted = none;
}

-- The identifiers of the enumeration.
abbrev pub counter_name : Counter → Text
counter_name normal = chars "normal"
counter_name ts_avtp = chars "ts_avtp"
counter_name ts_pcp = chars "ts_pcp"
counter_name ts_udp = chars "ts_udp"
counter_name dscp_marked = chars "dscp_marked"
counter_name parse_short = chars "parse_short"

hex_digit-hex_char : (d : ℕ) → d < 16 → hex_digit (hex_char d) ≡ some d
hex_digit-hex_char d h = ground arith

byte_16-hex_byte : (b : ℕ) → b < 256 → byte_16 (hex_byte b) ≡ ok b
unfolding byte_16 int_16
byte_16-hex_byte b h =
    rw (hex_digit-hex_char (b / 16) (omega arith), hex_digit-hex_char (b % 16) (omega arith))
      (byte_lem (16 * (0 + b / 16) + b % 16) b (omega arith) h)
  where
    byte_lem : (m b : ℕ) → m ≡ b → b < 256 → byte_of m ≡ ok b
    byte_lem m b e h = rw e (rw (lt→ltb b 256 h) refl)

bytes_16-hex_byte : (bs : List ℕ) → IsBytes bs → map_result byte_16 (map hex_byte bs) ≡ ok bs
bytes_16-hex_byte [] h = refl
bytes_16-hex_byte (b ∷ bs) (h, hs) = rw (byte_16-hex_byte b h, bytes_16-hex_byte bs hs) refl

to_int-bytes : (n x : ℕ) → x < 256 ^ n → to_int (bytes (map hex_byte (le_bytes n x))) ≡ ok (pos x)
unfolding to_int
to_int-bytes n x h =
    rw (bytes_16-hex_byte (le_bytes n x) (le_bytes-IsBytes n x))
      (ap (λ v. ok (pos v)) (le_value-le_bytes n x h))

-- The counts of the CPUs fit 64 bits, and there is a CPU.
abbrev pub IsPerCpu : List ℕ → Type 0
IsPerCpu [] = ⊥
IsPerCpu (c ∷ per_cpu) = AllOf (λ c. c < 2 ^ 64) (c ∷ per_cpu)

to_ints-bytes :
    (per_cpu : List ℕ)
    → AllOf (λ c. c < 2 ^ 64) per_cpu
    → map_result to_int (map (λ c. bytes (map hex_byte (le_bytes 8 c))) per_cpu)
      ≡ ok (map pos per_cpu)
to_ints-bytes [] h = refl
to_ints-bytes (c ∷ per_cpu) (h, hs) = rw (to_int-bytes 8 c h, to_ints-bytes per_cpu hs) refl

sum_ints-pos : (ns : List ℕ) → sum_ints (map pos ns) ≡ pos (sum ns)
sum_ints-pos [] = refl
sum_ints-pos (n ∷ ns) = rw (sum_ints-pos ns) (plus_pos n (sum ns))
  where
    plus_pos : (a b : ℕ) → pos a +ℤ pos b ≡ pos (a + b)
    plus_pos a b = grind int_laws

entry_of-entry :
    (i : ℕ) (per_cpu : List ℕ)
    → i < 2 ^ 32
    → IsPerCpu per_cpu
    → entry_of (entry i per_cpu) ≡ ok (str_int (pos i), pos (sum per_cpu))
unfolding entry_of
entry_of-entry i [] below h = absurd h
entry_of-entry i (c ∷ per_cpu) below h = rw (to_int-bytes 4 i below) (
    ap (λ r. ((r >>= λ ns. ok (sum_ints ns)) >>= λ total. ok (str_int (pos i), total)))
      (to_ints-bytes (c ∷ per_cpu) h)
    ∙ ap (λ total. ok (str_int (pos i), total)) (sum_ints-pos (c ∷ per_cpu)))

-- The dump of the counters' map: the entries of the six indices.
abbrev pub dump : (Counter → List ℕ) → List Entry
dump counts =
    entry 0 (counts normal)
    ∷ entry 1 (counts ts_avtp)
    ∷ entry 2 (counts ts_pcp)
    ∷ entry 3 (counts ts_udp)
    ∷ entry 4 (counts dscp_marked)
    ∷ entry 5 (counts parse_short)
    ∷ []

-- The sums, in the order of the names.
abbrev totals : (Counter → List ℕ) → List (Text × ℤ)
totals counts =
    (chars "normal", pos (sum (counts normal)))
    ∷ (chars "ts_avtp", pos (sum (counts ts_avtp)))
    ∷ (chars "ts_pcp", pos (sum (counts ts_pcp)))
    ∷ (chars "ts_udp", pos (sum (counts ts_udp)))
    ∷ (chars "dscp_marked", pos (sum (counts dscp_marked)))
    ∷ (chars "parse_short", pos (sum (counts parse_short)))
    ∷ []

lookup-totals :
    (counts : Counter → List ℕ) (c : Counter)
    → lookup (counter_name c) (totals counts) ≡ some (pos (sum (counts c)))
lookup-totals counts normal = refl
lookup-totals counts ts_avtp = refl
lookup-totals counts ts_pcp = refl
lookup-totals counts ts_udp = refl
lookup-totals counts dscp_marked = refl
lookup-totals counts parse_short = refl

-- For the bytes that bpftool prints of the classifier's map of counters, where each CPU's count fits
-- 64 bits: the helper returns, under the name of each counter, the sum of its counts over the CPUs.
pub counters-lookup :
    (counts : Counter → List ℕ)
    → ((c : Counter) → IsPerCpu (counts c))
    → Gives
        (λ named. (c : Counter) → lookup (counter_name c) named ≡ some (pos (sum (counts c))))
        (counters (dump counts))
unfolding counters dump_percpu str_int str_nat
counters-lookup counts fit = (
  totals counts,
  rw
      (
        entry_of-entry 0 (counts normal) (omega arith) (fit normal),
        entry_of-entry 1 (counts ts_avtp) (omega arith) (fit ts_avtp),
        entry_of-entry 2 (counts ts_pcp) (omega arith) (fit ts_pcp),
        entry_of-entry 3 (counts ts_udp) (omega arith) (fit ts_udp),
        entry_of-entry 4 (counts dscp_marked) (omega arith) (fit dscp_marked),
        entry_of-entry 5 (counts parse_short) (omega arith) (fit parse_short),
      )
      refl,
  lookup-totals counts,
)
